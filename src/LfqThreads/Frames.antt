-- ===== src/LfqThreads/Frames.antt =====
-- What a step leaves of the invariant when it writes outside of a part.
use mixsim.Prelude.{
  ℕ, ◌≡◌, ◌≢◌, refl, sym, ap, ◌∙◌, false, Option, some, none, ◌==◌, arith, inl, inr, Bool-cases,
}
use mathlib.Core.Path.{fun_ext}
use mixsim.LfqMem.{Ptr, LfqNode, node, Lfq, write}
use mixsim.LfqMem.Chain.{Cells, member}
use mixsim.LfqThreads.{
  Enqueue, idle, allocated, linking, Dequeue, out, looping, none_found, seen, guarded, checked,
  next_read, claimed, cleared, got_data, marked, returning, update,
}
use mixsim.LfqThreads.Invariant.{node_of, old_of, IsPrivate, Owes, UnderWay, IsOld, At, Context}

-- A memory where an enqueue wrote a node or the tail.
abbrev pub moved : Lfq → (Ptr → Option LfqNode) → Ptr → Lfq
moved m g tl = record m { heap = g; tail = tl }

pub At-moved :
    (m : Lfq) (g : Ptr → Option LfqNode) (tl : Ptr) (xs ys : Cells) (d c : ℕ) (pc : Dequeue)
    → ((n : Ptr) → n ≢ 0 → m.heap m.head ≡ some (node d n c) → g m.head ≡ some (node d n c))
    → (IsOld m xs (old_of pc) → IsOld (moved m g tl) ys (old_of pc))
    → At m xs d c pc
    → At (moved m g tl) ys d c pc
At-moved m g tl xs ys d c out next old a = a
At-moved m g tl xs ys d c looping next old a = a
At-moved m g tl xs ys d c none_found next old a = a
At-moved m g tl xs ys d c (seen h) next old a = a
At-moved m g tl xs ys d c (guarded h) next old a = a
At-moved m g tl xs ys d c (checked h) next old a = a
At-moved m g tl xs ys d c (next_read h n) next old (used, e, at, ne) =
    (used, e, ap g e ∙ next n ne (ap m.heap (sym e) ∙ at), ne)
At-moved m g tl xs ys d c (claimed h n) next old (o, e) = (old o, e)
At-moved m g tl xs ys d c (cleared h n) next old (o, e, z) = (old o, e, z)
At-moved m g tl xs ys d c (got_data h n v) next old (o, e, f, z) = (old o, e, f, z)
At-moved m g tl xs ys d c (marked h v) next old (o, used, z) = (old o, used, z)
At-moved m g tl xs ys d c (returning r) next old a = a

pub Context-moved :
    (m : Lfq) (g : Ptr → Option LfqNode) (tl : Ptr) (xs ys : Cells)
    → Context m xs
    → g m.fph ≡ m.heap m.fph
    → member m.fph m.head ys ≡ false
    → Context (moved m g tl) ys
Context-moved m g tl xs ys k same apart = record {
  one = k.one;
  hp_room = k.hp_room;
  hp_rest = k.hp_rest;
  tid_room = k.tid_room;
  tid_rest = k.tid_rest;
  idle_ = k.idle_;
  pool_content = k.pool_content;
  pool_free = k.pool_free;
  pool = record { ne_null = k.pool.ne_null; at = same ∙ k.pool.at };
  pool_one = k.pool_one;
  pool_out = apart;
}

-- One call moves on, and the others stay.
pub UnderWay-update :
    (m m' : Lfq) (xs ys : Cells) (old : Ptr) (f : ℕ → Enqueue) (i : ℕ) (pc : Enqueue)
    → UnderWay m xs old f
    → ((n : Ptr) (v : ℕ) → n ≢ node_of (f i) → IsPrivate m xs old n v → IsPrivate m' ys old n v)
    → ((o n : Ptr) → n ≢ node_of (f i) → Owes m xs o n → Owes m' ys o n)
    → ((n : Ptr) (v : ℕ) → pc ≡ allocated n v → IsPrivate m' ys old n v)
    → ((o n : Ptr) → pc ≡ linking o n → Owes m' ys o n)
    → ((j : ℕ) → j ≢ i → node_of pc ≢ 0 → node_of (f j) ≢ node_of pc)
    → UnderWay m' ys old (update f i pc)
UnderWay-update m m' xs ys old f i pc c keep keep' own own' new = record {
  private_ = λ j n v e. elim (Bool-cases (j == i)) [
    | inl here ↦ own n v (rw here at e)
    | inr there ↦
        let e' : f j ≡ allocated n v = rw there at e in
        let p = c.private_ j n v e' in
        let apart : n ≢ node_of (f i) = λ same.
          let node_j : node_of (f j) ≡ n = ap node_of e' in
          let eq = c.apart j i (node_j ∙ same) (λ z. p.ne_null (sym node_j ∙ z)) in
          absurd (ground (arith, eq)) in
        keep n v apart p
  ];
  owes = λ j o n e. elim (Bool-cases (j == i)) [
    | inl here ↦ own' o n (rw here at e)
    | inr there ↦
        let e' : f j ≡ linking o n = rw there at e in
        let p = c.owes j o n e' in
        let apart : n ≢ node_of (f i) = λ same.
          let node_j : node_of (f j) ≡ n = ap node_of e' in
          let eq = c.apart j i (node_j ∙ same) (λ z. p.ne_null (sym node_j ∙ z)) in
          absurd (ground (arith, eq)) in
        keep' o n apart p
  ];
  apart = λ a b same ne. elim (Bool-cases (a == i)) [
    | inl a_i ↦ elim (Bool-cases (b == i)) [
      | inl b_i ↦ ground arith
      | inr b_o ↦
          let ne' : node_of pc ≢ 0 = rw a_i at ne in
          let same' : node_of pc ≡ node_of (f b) = rw (a_i, b_o) at same in
          absurd (new b (ground arith) ne' (sym same'))
    ]
    | inr a_o ↦ elim (Bool-cases (b == i)) [
      | inl b_i ↦
          let same' : node_of (f a) ≡ node_of pc = rw (a_o, b_i) at same in
          let ne' : node_of (f a) ≢ 0 = rw a_o at ne in
          absurd (new a (ground arith) (λ z. ne' (same' ∙ z)) same')
      | inr b_o ↦ c.apart a b (rw (a_o, b_o) at same) (rw a_o at ne)
    ]
  ];
}

pub IsOld-moved :
    (m : Lfq) (g : Ptr → Option LfqNode) (tl : Ptr) (xs ys : Cells) (h : Ptr)
    → (o : IsOld m xs h) → g h ≡ m.heap h
    → member h m.head ys ≡ false
    → IsOld (moved m g tl) ys h
IsOld-moved m g tl xs ys h o same apart = record {
  n = o.n;
  holds = record { ne_null = o.holds.ne_null; at = same ∙ o.holds.at };
  consumed = o.consumed;
  apart = apart;
  not_pool = o.not_pool;
}

abbrev pub content_of : Enqueue → ℕ
content_of idle = 0
content_of (allocated n v) = v
content_of (linking o n) = 0

abbrev pub tail_of : Enqueue → Ptr
tail_of idle = 0
tail_of (allocated n v) = 0
tail_of (linking o n) = o

pub idle-linking : {o n : Ptr} → idle ≢ linking o n
idle-linking e = cc

pub idle-allocated : {a u : ℕ} → idle ≢ allocated a u
idle-allocated e = cc

pub allocated-linking : {a o n : Ptr} {u : ℕ} → allocated a u ≢ linking o n
allocated-linking e = cc

pub allocated_inj : {a b u w : ℕ} → allocated a u ≡ allocated b w → (a ≡ b) × (u ≡ w)
allocated_inj e = (ap node_of e, ap content_of e)

pub linking_inj : {a b n k : ℕ} → linking a n ≡ linking b k → (a ≡ b) × (n ≡ k)
linking_inj e = (ap tail_of e, ap node_of e)

pub none-some : {k : LfqNode} → ◌≢◌ {A = Option LfqNode} none (some k)
none-some e = cc

-- A write to an unused address changes no node.
pub write-kept :
    (h : Ptr → Option LfqNode) (fresh : Ptr) (c : Option LfqNode)
    → h fresh ≡ none
    → (a : Ptr) (k : LfqNode) → h a ≡ some k
    → write h fresh c a ≡ h a
unfolding write
write-kept h fresh c unused a k at = ground (arith, unused, at)

pub write-here : (h : Ptr → Option LfqNode) (p : Ptr) (c : Option LfqNode) → write h p c p ≡ c
unfolding write
write-here h p c = ground arith

pub write-away :
    (h : Ptr → Option LfqNode) (p : Ptr) (c : Option LfqNode) (a : Ptr)
    → (a == p) ≡ false
    → write h p c a ≡ h a
unfolding write
write-away h p c a other = ground arith

abbrev pub linked_to : Ptr → Option LfqNode → Option LfqNode
linked_to n none = none
linked_to n (some k) = some (record k { next = n })

pub update_self : (f : ℕ → Enqueue) (i : ℕ) (pc : Enqueue) → f i ≡ pc → update f i pc ≡ f
update_self f i pc e = fun_ext (λ j. elim (Bool-cases (j == i)) [
  | inl here ↦ let same : j ≡ i = ground arith in rw here (sym e ∙ ap f (sym same))
  | inr there ↦ rw there refl
])
