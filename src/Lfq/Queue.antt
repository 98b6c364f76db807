-- ===== src/Lfq/Queue.antt =====
-- A queue that no call is using, and lfq_enqueue as its extension at the end.
use mixsim.Prelude.{
  ℕ, ◌≤◌, ◌<◌, ◌≡◌, ◌≢◌, refl, false, none, some, inl, inr, [], ◌∷◌, ◌++◌, arith, ◌==◌, Bool-cases,
  pos, length,
}
use mixsim.LfqMem.{Ptr, node, Lfq, ok, write}
use mixsim.LfqMem.Rules.{Holds, set_next-ok}
use mixsim.LfqMem.Chain.{Cells, Chain, member, Chain-allocated, Chain-tail, Chain-snoc, has-append}
use mixsim.LfqPool.Quiet.{AllZero, Quiet, Quiet-move}
use mixsim.Lfq.{negative, lfq_enqueue}

-- The context holds a queue of the given elements, a dummy node in front of them that is already
-- consumed, and no call is under way.
pub record IsQueue (m : Lfq) (xs : Cells) : Type 0 where
  pub dummy : ℕ
  pub used : ℕ
  pub consumed : used ≢ 0
  pub chain : Chain m.heap m.head dummy used xs m.tail
  pub quiet : Quiet m
  pub pool_out : member m.fph m.head xs ≡ false
  pub threads : 0 < m.max_hp_size
  pub tids_free : AllZero m.tid_map
  pub tids_size : m.max_hp_size ≤ length m.tid_map

-- An address that holds no node is not in the queue.
pub not-member_of_none :
    (m : Lfq) (xs : Cells) (a : Ptr) → IsQueue m xs → m.heap a ≡ none → member a m.head xs ≡ false
not-member_of_none m xs a q h = elim (Bool-cases (member a m.head xs)) [
  | inl i ↦ let (n, e) = Chain-allocated m.heap m.head q.dummy q.used xs m.tail a q.chain i in cc
  | inr out ↦ out
]

-- On a queue that no call is using, with a node from calloc that is not in use, lfq_enqueue puts
-- its argument at the end of the queue, in the node that calloc gave, returns 0 and writes to no
-- node outside of the queue.
pub lfq_enqueue-snoc :
    (m : Lfq) (xs : Cells) (fresh errno v : ℕ)
    → IsQueue m xs
    → fresh ≢ 0
    → m.heap fresh ≡ none
    → (m' : Lfq) × (lfq_enqueue fresh errno v m ≡ ok (pos 0) m')
      × IsQueue m' (xs ++ (fresh, v) ∷ [])
      × ((a : Ptr) → member a m.head xs ≡ false → a ≢ fresh → m'.heap a ≡ m.heap a)
unfolding lfq_enqueue write
lfq_enqueue-snoc m xs fresh errno v q ne unused =
    let out = not-member_of_none m xs fresh q unused in
    let (some_, last, (n, at)) = Chain-tail m.heap m.head q.dummy q.used xs m.tail q.chain in
    let got : (fresh == 0) ≡ false = ground arith in
    let apart : (fresh == m.tail) ≡ false = ground (arith, unused, at) in
    let pool : (m.fph == m.tail) ≡ false = ground (arith, last, q.pool_out) in
    let stored = record m { heap = write m.heap fresh (some (node v 0 0)); tail = fresh } in
    let e : Holds stored m.tail n = record { ne_null = some_; at = ground (arith, at) } in
    (
      record stored { heap = write stored.heap m.tail (some (record n { next = fresh })) },
      rw (got, set_next-ok e fresh),
      record {
        dummy = q.dummy;
        used = q.used;
        consumed = q.consumed;
        chain =
            Chain-snoc m.heap m.head q.dummy q.used xs m.tail fresh v q.chain ne out
              (λ k h. ground (arith, at)) (ground arith) (λ a g h. ground arith);
        quiet =
            Quiet-move m q.quiet _ m.head fresh m.tid_map (ground (arith, q.quiet.pool.at, unused));
        pool_out =
            ground
              (arith, q.pool_out, q.quiet.pool.at, unused, has-append m.fph xs ((fresh, v) ∷ []));
        threads = q.threads;
        tids_free = q.tids_free;
        tids_size = q.tids_size;
      },
      λ a o d. ground (arith, last),
    )

-- When `calloc` fails, `lfq_enqueue` says so and changes nothing.
pub lfq_enqueue-null : (m : Lfq) (errno v : ℕ) → lfq_enqueue 0 errno v m ≡ ok (negative errno) m
unfolding lfq_enqueue
lfq_enqueue-null m errno v = refl
