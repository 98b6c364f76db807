-- ===== src/LfqThreads/Links.antt =====
-- The nodes of a queue while calls of lfq_enqueue are under way: between the XCHG of the tail and
-- the write of `next`, a link is missing.
use mixsim.Prelude.{
  ℕ, ◌≡◌, ◌≢◌, refl, ap, sym, ◌∙◌, ◌⊎◌, true, false, Option, some, none, [], ◌∷◌, ◌++◌, arith, ◌==◌,
  inl, inr, Bool-cases,
}
use mathlib.Core.Path.{subst}
use mixsim.LfqMem.{Ptr, LfqNode, node}
use mixsim.LfqMem.Chain.{Cells, Chain, has, member, has-append}

-- The node at `p` is linked to `q`, or a call that `P` speaks of is about to link it.
abbrev pub IsLink : (Ptr → Option LfqNode) → (Ptr → Ptr → Type 0) → Ptr → (d c : ℕ) → Ptr → Type 0
IsLink h P p d c q = (h p ≡ some (node d q c)) ⊎ ((h p ≡ some (node d 0 c)) × P p q)

-- As `Chain`, where links may be missing.
abbrev pub Links :
    (Ptr → Option LfqNode) → (Ptr → Ptr → Type 0) → Ptr → (d c : ℕ) → Cells → Ptr → Type 0
Links h P p d c [] tl = (p ≢ 0) × (h p ≡ some (node d 0 c)) × (p ≡ tl)
Links h P p d c ((q, v) ∷ xs) tl =
    (p ≢ 0) × IsLink h P p d c q × (has p ((q, v) ∷ xs) ≡ false) × Links h P q v 0 xs tl

-- `n` comes next to `o`.
abbrev pub Follows : Ptr → Cells → Ptr → Ptr → Type 0
Follows p [] o n = ⊥
Follows p ((q, v) ∷ xs) o n = ((p ≡ o) × (q ≡ n)) ⊎ Follows q xs o n

pub Follows-member : (p : Ptr) (xs : Cells) (o n : Ptr) → Follows p xs o n → member o p xs ≡ true
Follows-member p [] o n f = absurd f
Follows-member p ((q, v) ∷ xs) o n (inl (e, e')) = ground (arith, e)
Follows-member p ((q, v) ∷ xs) o n (inr f) = ground (arith, Follows-member q xs o n f)

pub Follows-next : (p : Ptr) (xs : Cells) (o n : Ptr) → Follows p xs o n → member n p xs ≡ true
Follows-next p [] o n f = absurd f
Follows-next p ((q, v) ∷ xs) o n (inl (e, e')) = ground (arith, e')
Follows-next p ((q, v) ∷ xs) o n (inr f) = ground (arith, Follows-next q xs o n f)

pub Follows-append :
    (p : Ptr) (xs ys : Cells) (o n : Ptr) → Follows p xs o n → Follows p (xs ++ ys) o n
Follows-append p [] ys o n f = absurd f
Follows-append p ((q, v) ∷ xs) ys o n (inl e) = inl e
Follows-append p ((q, v) ∷ xs) ys o n (inr f) = inr (Follows-append q xs ys o n f)

abbrev pub next_of : Option LfqNode → Ptr
next_of none = 0
next_of (some k) = k.next

module _ (h : Ptr → Option LfqNode) (P : Ptr → Ptr → Type 0) where
  pub Links-frame :
      {g : Ptr → Option LfqNode} {R : Ptr → Ptr → Type 0} (p : Ptr) (d c : ℕ) (xs : Cells)
      (tl : Ptr)
      → Links h P p d c xs tl
      → ((a : Ptr) → member a p xs ≡ true → g a ≡ h a)
      → ((a b : Ptr) → member a p xs ≡ true → P a b → R a b)
      → Links g R p d c xs tl
  Links-frame p d c [] tl (ne, at, e) same keep = (ne, ground (arith, same p), e)
  Links-frame p d c ((q, v) ∷ xs) tl (ne, link, apart, rest) same keep =
      let here : member p p ((q, v) ∷ xs) ≡ true = ground arith in
      (
        ne,
        elim link [
          | inl at ↦ inl (same p here ∙ at)
          | inr (at, w) ↦ inr (same p here ∙ at, keep p q here w)
        ],
        apart,
        Links-frame q v 0 xs tl rest (λ a i. same a (ground arith))
            (λ a b i. keep a b (ground arith)),
      )

  -- Every node is allocated.
  pub Links-allocated :
      (p : Ptr) (d c : ℕ) (xs : Cells) (tl a : Ptr)
      → Links h P p d c xs tl
      → member a p xs ≡ true
      → (a ≢ 0) × ((n : LfqNode) × (h a ≡ some n))
  Links-allocated p d c [] tl a (ne, at, e) i = (ground arith, (node d 0 c, ground arith))
  Links-allocated p d c ((q, v) ∷ xs) tl a (ne, link, apart, rest) i = elim (Bool-cases (a == p)) [
    | inl here ↦
        let same : a ≡ p = ground arith in
        elim link [
          | inl at ↦ (ground arith, (node d q c, ap h same ∙ at))
          | inr (at, w) ↦ (ground arith, (node d 0 c, ap h same ∙ at))
        ]
    | inr there ↦ Links-allocated q v 0 xs tl a rest (ground arith)
  ]

  pub Links-tail :
      (p : Ptr) (d c : ℕ) (xs : Cells) (tl : Ptr)
      → Links h P p d c xs tl
      → (member tl p xs ≡ true) × ((e : ℕ) × (f : ℕ) × (h tl ≡ some (node e 0 f)))
  Links-tail p d c [] tl (ne, at, e) = (ground arith, (d, c, ground arith))
  Links-tail p d c ((q, v) ∷ xs) tl (ne, link, apart, rest) =
      let (m, e) = Links-tail q v 0 xs tl rest in (ground arith, e)

  pub Links-first :
      (p : Ptr) (d c : ℕ) (xs : Cells) (tl : Ptr)
      → Links h P p d c xs tl
      → (p ≢ 0) × ((r : Ptr) × (h p ≡ some (node d r c)))
  Links-first p d c [] tl (ne, at, e) = (ne, (0, at))
  Links-first p d c ((q, v) ∷ xs) tl (ne, inl at, apart, rest) = (ne, (q, at))
  Links-first p d c ((q, v) ∷ xs) tl (ne, inr (at, w), apart, rest) = (ne, (0, at))

  -- The tail moves to a new node, which a call is about to link.
  pub Links-snoc :
      {R : Ptr → Ptr → Type 0} (p : Ptr) (d c : ℕ) (xs : Cells) (tl fresh v : ℕ)
      → Links h P p d c xs tl
      → fresh ≢ 0
      → h fresh ≡ some (node v 0 0)
      → member fresh p xs ≡ false
      → ((a b : Ptr) → P a b → R a b)
      → R tl fresh
      → Links h R p d c (xs ++ (fresh, v) ∷ []) fresh × Follows p (xs ++ (fresh, v) ∷ []) tl fresh
  Links-snoc {R} p d c [] tl fresh v (ne, at, e) some_ new apart keep w = (
    (ne, inr (at, subst (λ x. R x fresh) (sym e) w), ground arith, (some_, new, refl)),
    inl (e, refl),
  )
  Links-snoc p d c ((q, u) ∷ xs) tl fresh v (ne, link, out, rest) some_ new apart keep w =
      let (l, f) = Links-snoc q u 0 xs tl fresh v rest some_ new (ground arith) keep w in
      (
        (
          ne,
          elim link [ inl at ↦ inl at | inr (at, k) ↦ inr (at, keep p q k) ],
          ground (arith, has-append p xs ((fresh, v) ∷ [])),
          l,
        ),
        inr f,
      )

  -- A call writes the link that it owes.
  pub Links-link :
      {g : Ptr → Option LfqNode} {R : Ptr → Ptr → Type 0} (p : Ptr) (d c : ℕ) (xs : Cells)
      (tl o n : Ptr)
      → Links h P p d c xs tl
      → Follows p xs o n
      → ((k : LfqNode) → h o ≡ some k → g o ≡ some (record k { next = n }))
      → ((a : Ptr) → (a == o) ≡ false → g a ≡ h a)
      → ((a b : Ptr) → (a == o) ≡ false → P a b → R a b)
      → Links g R p d c xs tl
  Links-link p d c [] tl o n l f write same keep = absurd f
  Links-link p d c ((q, v) ∷ xs) tl o n (ne, link, apart, rest) (inl (e, e')) write same keep = (
    ne,
    inl (elim link [
      | inl at ↦ rw (e, e') (write (node d q c) (ap h (sym e) ∙ at))
      | inr (at, w) ↦ rw (e, e') (write (node d 0 c) (ap h (sym e) ∙ at))
    ]),
    apart,
    Links-frame q v 0 xs tl rest (λ a i. same a (ground arith)) (λ a b i. keep a b (ground arith)),
  )
  Links-link p d c ((q, v) ∷ xs) tl o n (ne, link, apart, rest) (inr f) write same keep =
      let inside = Follows-member q xs o n f in
      let other : (p == o) ≡ false = ground arith in
      (
        ne,
        elim link [
          | inl at ↦ inl (same p other ∙ at)
          | inr (at, w) ↦ inr (same p other ∙ at, keep p q other w)
        ],
        apart,
        Links-link q v 0 xs tl o n rest f write same keep,
      )

  -- With no call under way this is a chain.
  pub Links-Chain :
      (p : Ptr) (d c : ℕ) (xs : Cells) (tl : Ptr)
      → ((a b : Ptr) → P a b → ⊥)
      → Links h P p d c xs tl
      → Chain h p d c xs tl
  Links-Chain p d c [] tl no_call l = l
  Links-Chain p d c ((q, v) ∷ xs) tl no_call (ne, inl at, apart, rest) =
      (ne, at, apart, Links-Chain q v 0 xs tl no_call rest)
  Links-Chain p d c ((q, v) ∷ xs) tl no_call (ne, inr (at, w), apart, rest) = absurd (no_call p q w)

  -- One node at most comes next.
  pub Follows-unique :
      (p : Ptr) (d c : ℕ) (xs : Cells) (tl o n n' : Ptr)
      → Links h P p d c xs tl
      → Follows p xs o n
      → Follows p xs o n'
      → n ≡ n'
  Follows-unique p d c [] tl o n n' l f f' = absurd f
  Follows-unique p d c ((q, v) ∷ xs) tl o n n' (ne, link, apart, rest) (inl (e, a)) (inl (e', b)) =
      sym a ∙ b
  Follows-unique p d c ((q, v) ∷ xs) tl o n n' (ne, link, apart, rest) (inl (e, a)) (inr f') =
      let inside = Follows-member q xs o n' f' in absurd (ground (arith, apart, inside, e))
  Follows-unique p d c ((q, v) ∷ xs) tl o n n' (ne, link, apart, rest) (inr f) (inl (e', b)) =
      let inside = Follows-member q xs o n f in absurd (ground (arith, apart, inside, e'))
  Follows-unique p d c ((q, v) ∷ xs) tl o n n' (ne, link, apart, rest) (inr f) (inr f') =
      Follows-unique q v 0 xs tl o n n' rest f f'

  -- The first node's flag changes.
  pub Links-mark :
      {g : Ptr → Option LfqNode} (p : Ptr) (d c c' : ℕ) (xs : Cells) (tl : Ptr)
      → Links h P p d c xs tl
      → ((r : Ptr) → h p ≡ some (node d r c) → g p ≡ some (node d r c'))
      → ((a : Ptr) → (a == p) ≡ false → g a ≡ h a)
      → Links g P p d c' xs tl
  Links-mark p d c c' [] tl (ne, at, e) mark same = (ne, mark 0 at, e)
  Links-mark p d c c' ((q, v) ∷ xs) tl (ne, link, apart, rest) mark same = (
    ne,
    elim link [ inl at ↦ inl (mark q at) | inr (at, w) ↦ inr (mark 0 at, w) ],
    apart,
    Links-frame q v 0 xs tl rest (λ a i. same a (ground arith)) (λ a b i w. w),
  )

  -- The first link: there is none, a call owes it, or it is there.
  pub Links-front :
      (p : Ptr) (d c : ℕ) (xs : Cells) (tl : Ptr)
      → Links h P p d c xs tl
      → (xs ≡ []) ⊎ (((n : Ptr) × P p n) ⊎ ((n : Ptr) × (n ≢ 0) × (h p ≡ some (node d n c))))
  Links-front p d c [] tl l = inl refl
  Links-front p d c ((q, v) ∷ xs) tl (ne, inl at, apart, rest) =
      inr (inr (q, (Links-first q v 0 xs tl rest).0, at))
  Links-front p d c ((q, v) ∷ xs) tl (ne, inr (at, w), apart, rest) = inr (inl (q, w))

  -- The first link, when it is there.
  pub Links-second :
      (p : Ptr) (d c : ℕ) (xs : Cells) (tl n : Ptr)
      → Links h P p d c xs tl
      → h p ≡ some (node d n c)
      → n ≢ 0
      → (w : ℕ) × (ys : Cells) × (xs ≡ (n, w) ∷ ys)
  Links-second p d c [] tl n (ne, at, e) at' some_ = absurd (some_ (ap next_of (sym at' ∙ at)))
  Links-second p d c ((q, v) ∷ xs) tl n (ne, inl at, apart, rest) at' some_ =
      let same : q ≡ n = ap next_of (sym at ∙ at') in (v, xs, ap (λ x. (x, v) ∷ xs) same)
  Links-second p d c ((q, v) ∷ xs) tl n (ne, inr (at, w), apart, rest) at' some_ =
      absurd (some_ (ap next_of (sym at' ∙ at)))
