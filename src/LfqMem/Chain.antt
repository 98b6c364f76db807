-- ===== src/LfqMem/Chain.antt =====
-- The nodes of a queue: a dummy node, then a node for each element, linked by `next`.
use mixsim.Prelude.{
  ℕ, ◌≡◌, ◌≢◌, refl, Bool, true, false, ◌||◌, Option, some, List, [], ◌∷◌, ◌++◌, arith, ◌==◌, inl,
  inr, Bool-cases,
}
use mixsim.LfqMem.{Ptr, LfqNode, node}

-- Address and content of each element.
abbrev pub Cells : Type 0
Cells = List (Ptr × ℕ)

abbrev pub has : Ptr → Cells → Bool
has a [] = false
has a ((p, v) ∷ xs) = (a == p) || has a xs

abbrev pub contents : Cells → List ℕ
contents [] = []
contents ((p, v) ∷ xs) = v ∷ contents xs

pub contents-append : (xs ys : Cells) → contents (xs ++ ys) ≡ contents xs ++ contents ys
contents-append [] ys = refl
contents-append ((p, v) ∷ xs) ys = rw (contents-append xs ys)

-- From the node at `p`, with content `d` and flag `c`, the `next` pointers lead through the
-- distinct nodes of `xs`, none of them consumed, to the last one, at `tl`.
abbrev pub Chain : (Ptr → Option LfqNode) → Ptr → (d c : ℕ) → Cells → Ptr → Type 0
Chain h p d c [] tl = (p ≢ 0) × (h p ≡ some (node d 0 c)) × (p ≡ tl)
Chain h p d c ((q, v) ∷ xs) tl =
    (p ≢ 0) × (h p ≡ some (node d q c)) × (has p ((q, v) ∷ xs) ≡ false) × Chain h q v 0 xs tl

-- The address of the dummy or of an element.
abbrev pub member : Ptr → Ptr → Cells → Bool
member a p xs = (a == p) || has a xs

pub has-append : (a : Ptr) (xs ys : Cells) → has a (xs ++ ys) ≡ (has a xs || has a ys)
has-append a [] ys = refl
has-append a ((p, v) ∷ xs) ys = ground (arith, has-append a xs ys)

module _ (h : Ptr → Option LfqNode) where
  pub Chain-frame :
      {g : Ptr → Option LfqNode} (p : Ptr) (d c : ℕ) (xs : Cells) (tl : Ptr)
      → Chain h p d c xs tl
      → ((a : Ptr) → member a p xs ≡ true → g a ≡ h a)
      → Chain g p d c xs tl
  Chain-frame p d c [] tl (ne, at, e) same = (ne, ground (arith, same p), e)
  Chain-frame p d c ((q, v) ∷ xs) tl (ne, at, out, rest) same =
      (ne, ground (arith, same p), out, Chain-frame q v 0 xs tl rest (λ a i. same a (ground arith)))

  -- Every node of a chain is allocated.
  pub Chain-allocated :
      (p : Ptr) (d c : ℕ) (xs : Cells) (tl a : Ptr)
      → Chain h p d c xs tl
      → member a p xs ≡ true
      → (n : LfqNode) × (h a ≡ some n)
  Chain-allocated p d c [] tl a (ne, at, e) i = (node d 0 c, ground arith)
  Chain-allocated p d c ((q, v) ∷ xs) tl a (ne, at, out, rest) i = elim (Bool-cases (a == p)) [
    | inl here ↦ (node d q c, ground arith)
    | inr there ↦ Chain-allocated q v 0 xs tl a rest (ground arith)
  ]

  pub Chain-tail :
      (p : Ptr) (d c : ℕ) (xs : Cells) (tl : Ptr)
      → Chain h p d c xs tl
      → (tl ≢ 0) × (member tl p xs ≡ true) × ((n : LfqNode) × (h tl ≡ some n))
  Chain-tail p d c [] tl (ne, at, e) = (ground arith, ground arith, (node d 0 c, ground arith))
  Chain-tail p d c ((q, v) ∷ xs) tl (ne, at, out, rest) =
      let (a, b, c') = Chain-tail q v 0 xs tl rest in (a, ground arith, c')

  -- The last node is linked to a new one.
  pub Chain-snoc :
      {g : Ptr → Option LfqNode} (p : Ptr) (d c : ℕ) (xs : Cells) (tl : Ptr) (fresh v : ℕ)
      → Chain h p d c xs tl
      → fresh ≢ 0
      → member fresh p xs ≡ false
      → ((n : LfqNode) → h tl ≡ some n → g tl ≡ some (record n { next = fresh }))
      → g fresh ≡ some (node v 0 0)
      → ((a : Ptr) → (a == tl) ≡ false → (a == fresh) ≡ false → g a ≡ h a)
      → Chain g p d c (xs ++ (fresh, v) ∷ []) fresh
  Chain-snoc p d c [] tl fresh v (ne, at, e) some_ out link new same =
      (ne, ground (arith, link (node d 0 c)), ground arith, (some_, new, refl))
  Chain-snoc p d c ((q, w) ∷ xs) tl fresh v (ne, at, apart, rest) some_ out link new same =
      let (_, last, _) = Chain-tail q w 0 xs tl rest in
      (
        ne,
        ground (arith, same p),
        ground (arith, has-append p xs ((fresh, v) ∷ [])),
        Chain-snoc q w 0 xs tl fresh v rest some_ (ground arith) link new same,
      )

-- The first node of a chain.
pub Chain-first :
    (h : Ptr → Option LfqNode) (p : Ptr) (d c : ℕ) (xs : Cells) (tl : Ptr)
    → Chain h p d c xs tl
    → (p ≢ 0) × ((r : Ptr) × (h p ≡ some (node d r c)))
Chain-first h p d c [] tl (ne, at, e) = (ne, (0, at))
Chain-first h p d c ((q, v) ∷ xs) tl (ne, at, out, rest) = (ne, (q, at))

-- The first node's flag changes.
pub Chain-mark :
    (h g : Ptr → Option LfqNode) (p : Ptr) (d c c' : ℕ) (xs : Cells) (tl : Ptr)
    → Chain h p d c xs tl
    → ((r : Ptr) → h p ≡ some (node d r c) → g p ≡ some (node d r c'))
    → ((a : Ptr) → (a == p) ≡ false → has a xs ≡ true → g a ≡ h a)
    → Chain g p d c' xs tl
Chain-mark h g p d c c' [] tl (ne, at, e) mark same = (ne, mark 0 at, e)
Chain-mark h g p d c c' ((q, v) ∷ xs) tl (ne, at, out, rest) mark same = (
  ne,
  mark q at,
  out,
  Chain-frame h q v 0 xs tl rest (λ a i. same a (ground arith) (ground arith)),
)
