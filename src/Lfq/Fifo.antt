-- ===== src/Lfq/Fifo.antt =====
-- lfq_dequeue on a queue, empty or not.
use mixsim.Prelude.{
  ℕ, zero, suc, ◌+◌, ◌≤◌, ◌<◌, ◌≡◌, ◌≢◌, refl, false, none, some, List, [], ◌∷◌, arith, ◌==◌,
  length, set,
}
use mixsim.LfqMem.{Ptr, node, Lfq, minus_one, ok, write}
use mixsim.LfqMem.Chain.{Cells, member, Chain-first, Chain-mark}
use mixsim.LfqPool.Quiet.{AllZero, Quiet-move}
use mixsim.Lfq.{alloc_tid_loop, alloc_tid, free_tid, take_content, lfq_dequeue_tid, lfq_dequeue}
use mixsim.Lfq.Queue.{IsQueue}
use mixsim.Lfq.Dequeue.{
  taken, Quiet-cleared, set_tid-ok, length-set_lt, AllZero-set-set, length-set-set,
  lfq_dequeue_tid-taken, dequeue_loop-none,
}

pub alloc_tid_loop-first :
    (n : ℕ) (tids : List ℕ) (m : Lfq)
    → 0 < n
    → n ≤ length tids
    → AllZero tids
    → alloc_tid_loop n 0 tids m ≡ ok (some 0) (record m { tid_map = set m.tid_map 0 1 })
unfolding alloc_tid_loop
alloc_tid_loop-first zero tids m h g z = absurd (omega arith)
alloc_tid_loop-first (suc n) [] m h g z = absurd (omega arith)
alloc_tid_loop-first (suc n) (t ∷ tids) m h g (z, zs) = rw z

module _ (m : Lfq) (k : ℕ) where
  abbrev busy : Lfq
  busy = record m { tid_map = set m.tid_map 0 1 }

  alloc_tid-first : {xs : Cells} → IsQueue m xs → alloc_tid m ≡ ok (some 0) busy
  unfolding alloc_tid
  alloc_tid-first q =
      alloc_tid_loop-first m.max_hp_size m.tid_map m q.threads q.tids_size q.tids_free

  -- On a queue with elements that no call is using, lfq_dequeue, whose loop may run a round,
  -- returns the first one; its node becomes the dummy, the old dummy is freed, no node outside of
  -- the queue is written, and the rest is a queue.
  pub lfq_dequeue-cons :
      (q v : ℕ) (xs : Cells)
      → IsQueue m ((q, v) ∷ xs)
      → (m' : Lfq) × (lfq_dequeue (suc k) m ≡ ok v m')
        × IsQueue m' xs
        × (m'.head ≡ q)
        × (m'.heap m.head ≡ none)
        × ((a : Ptr) → member a m.head ((q, v) ∷ xs) ≡ false → m'.heap a ≡ m.heap a)
  unfolding lfq_dequeue free_tid write
  lfq_dequeue-cons q v xs is =
      let (ne, at, out, rest) = is.chain in
      let (ne', (r, at')) = Chain-first m.heap q v 0 xs m.tail rest in
      let d : ℕ = is.dummy in
      let c : ℕ = is.used in
      let last = taken busy 0 q v r (node d q c) in
      let hp_room : 0 < length m.hp = omega (arith, is.threads, is.quiet.hp_size) in
      let tid_room : 0 < length m.tid_map = omega (arith, is.threads, is.tids_size) in
      (
        record last { tid_map = set (set m.tid_map 0 1) 0 0 },
        rw (
          alloc_tid-first is,
          lfq_dequeue_tid-taken busy 0 k q v r d c hp_room
              (Quiet-move m is.quiet m.heap m.head m.tail (set m.tid_map 0 1) refl)
              (record { ne_null = ne; at = at }) (record { ne_null = ne'; at = at' }) is.consumed
              (ground arith) (ground (arith, is.pool_out)) (ground (arith, is.pool_out)),
          set_tid-ok last 0 0 (length-set_lt m.tid_map 0 1 tid_room),
        ),
        record {
          dummy = v;
          used = 1;
          consumed = omega arith;
          chain =
              Chain-mark m.heap _ q v 0 1 xs m.tail rest (λ s h. ground (arith, at'))
                (λ a o i. ground arith);
          quiet = Quiet-cleared m 0 _ q _ is.quiet (ground (arith, is.pool_out));
          pool_out = ground (arith, is.pool_out);
          threads = is.threads;
          tids_free = AllZero-set-set m.tid_map 0 1 is.tids_free;
          tids_size = omega (arith, length-set-set m.tid_map 0 1 0, is.tids_size);
        },
        refl,
        ground arith,
        λ a o. ground arith,
      )

  -- On an empty queue that no call is using, lfq_dequeue, whose loop may run a round, returns NULL
  -- and changes no node, and the queue stays empty.
  pub lfq_dequeue-nil :
      IsQueue m []
      → (m' : Lfq) × (lfq_dequeue (suc k) m ≡ ok 0 m') × IsQueue m' [] × (m'.heap ≡ m.heap)
  unfolding lfq_dequeue lfq_dequeue_tid free_tid take_content
  lfq_dequeue-nil is =
      let (ne, at, e) = is.chain in
      let hp_room : 0 < length m.hp = omega (arith, is.threads, is.quiet.hp_size) in
      let tid_room : 0 < length m.tid_map = omega (arith, is.threads, is.tids_size) in
      let last = record busy { hp = set (set m.hp 0 m.head) 0 0 } in
      (
        record last { tid_map = set (set m.tid_map 0 1) 0 0 },
        rw (
          alloc_tid-first is,
          dequeue_loop-none busy 0 k hp_room (node is.dummy 0 is.used)
              (record { ne_null = ne; at = at }) refl,
          set_tid-ok last 0 0 (length-set_lt m.tid_map 0 1 tid_room),
        ),
        record {
          dummy = is.dummy;
          used = is.used;
          consumed = is.consumed;
          chain = is.chain;
          quiet = record {
            no_hazard = AllZero-set-set m.hp 0 m.head is.quiet.no_hazard;
            hp_size = omega (arith, length-set-set m.hp 0 m.head 0, is.quiet.hp_size);
            idle = is.quiet.idle;
            pool_content = is.quiet.pool_content;
            pool_free = is.quiet.pool_free;
            pool = record { ne_null = is.quiet.pool.ne_null; at = is.quiet.pool.at };
            pool_one = is.quiet.pool_one;
          };
          pool_out = is.pool_out;
          threads = is.threads;
          tids_free = AllZero-set-set m.tid_map 0 1 is.tids_free;
          tids_size = omega (arith, length-set-set m.tid_map 0 1 0, is.tids_size);
        },
        refl,
      )

abbrev pub AllTaken : ℕ → List ℕ → Type 0
AllTaken zero tids = Unit
AllTaken (suc n) [] = ⊥
AllTaken (suc n) (t ∷ tids) = (t ≢ 0) × AllTaken n tids

alloc_tid_loop-none :
    (n i : ℕ) (tids : List ℕ) (m : Lfq) → AllTaken n tids → alloc_tid_loop n i tids m ≡ ok none m
unfolding alloc_tid_loop
alloc_tid_loop-none zero i tids m a = refl
alloc_tid_loop-none (suc n) i [] m a = absurd a
alloc_tid_loop-none (suc n) i (t ∷ tids) m (ne, a) =
    let used : (t == 0) ≡ false = ground arith in rw used (alloc_tid_loop-none n (i + 1) tids m a)

-- While as many calls are under way as the queue has consumers, lfq_dequeue returns (void *)-1 and
-- changes nothing.
pub lfq_dequeue-busy :
    (m : Lfq) (fuel : ℕ) → AllTaken m.max_hp_size m.tid_map → lfq_dequeue fuel m ≡ ok minus_one m
unfolding lfq_dequeue alloc_tid
lfq_dequeue-busy m fuel a = rw (alloc_tid_loop-none m.max_hp_size 0 m.tid_map m a)
