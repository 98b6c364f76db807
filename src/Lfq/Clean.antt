-- ===== src/Lfq/Clean.antt =====
-- lfq_clean of an empty queue.
use mixsim.Prelude.{ℕ, suc, ◌≡◌, ◌≢◌, refl, ap, true, false, none, [], arith, ◌==◌, pos}
use mixsim.LfqMem.{Ptr, node, Lfq, ok, write}
use mixsim.LfqMem.Rules.{Holds, load-ok}
use mixsim.LfqPool.Quiet.{free_pool_last, freed, safe_free-freed}
use mixsim.Lfq.{clean_loop, clean_pool, clean_ctx, lfq_clean}
use mixsim.Lfq.Queue.{IsQueue}

module _ (m : Lfq) (k : ℕ) (q : IsQueue m []) where
  apart : m.head ≢ m.fph
  apart = let h = q.pool_out in ground arith

  -- The loop over the queue frees the dummy.
  clean_loop-nil :
      clean_loop (suc (suc k)) m
      ≡ ok tt (record (freed m m.head (node q.dummy 0 q.used)) { head = 0 })
  unfolding clean_loop
  clean_loop-nil =
      let (ne, at, e) = q.chain in
      let h : Holds m m.head (node q.dummy 0 q.used) = record { ne_null = ne; at = at } in
      let some_ : (m.head == 0) ≡ false = ground arith in
      rw (some_, load-ok h, safe_free-freed m m.head _ q.quiet h q.consumed apart)

  -- The context between the frees of the queue and those of the pool.
  abbrev emptied : Lfq
  emptied = record (freed m m.head (node q.dummy 0 q.used)) { head = 0; tail = 0; fpt = m.fph }

  pool-Holds : Holds emptied m.fph (node q.quiet.pool_content 0 q.quiet.pool_free)
  unfolding write
  pool-Holds = record {
    ne_null = q.quiet.pool.ne_null;
    at = let h = q.quiet.pool.at in ground (arith, apart);
  }

  clean_pool-nil :
      clean_pool (suc (suc k)) emptied
      ≡ ok true (record emptied { heap = write emptied.heap m.fph none; fph = 0; fpt = 0 })
  unfolding clean_pool
  clean_pool-nil =
      let one : (m.fph == m.fph) ≡ true = ground arith in
      rw (free_pool_last emptied (suc k) _ _ true refl pool-Holds, one, load-ok pool-Holds)

  one_node :
      clean_pool
        (suc (suc k))
        (record (freed m m.head (node q.dummy 0 q.used)) { head = 0; tail = 0 })
      ≡ clean_pool (suc (suc k)) emptied
  one_node =
      ap
        (λ t.
          clean_pool (suc (suc k))
            (record (freed m m.head (node q.dummy 0 q.used)) { head = 0; tail = 0; fpt = t }))
        q.quiet.pool_one

  -- On an empty queue that no call is using, lfq_clean, whose loops may run two rounds, returns 0,
  -- frees the two nodes of the queue and no other, and clears every field of the context.
  pub lfq_clean-nil :
      (m' : Lfq) × (lfq_clean (suc (suc k)) m ≡ ok (pos 0) m')
      × (m'.heap m.head ≡ none)
      × (m'.heap m.fph ≡ none)
      × ((a : Ptr) → a ≢ m.head → a ≢ m.fph → m'.heap a ≡ m.heap a)
      × (m'.head ≡ 0)
      × (m'.tail ≡ 0)
      × (m'.hp ≡ [])
      × (m'.tid_map ≡ [])
      × (m'.is_freeing ≡ 0)
      × (m'.fph ≡ 0)
      × (m'.fpt ≡ 0)
      × (m'.max_hp_size ≡ 0)
  unfolding lfq_clean clean_ctx write
  lfq_clean-nil =
      let (ne, at, e) = q.chain in
      let head_ : (m.head == 0) ≡ false = ground arith in
      let tail_ : (m.tail == 0) ≡ false = ground arith in
      let fph_ : (m.fph == 0) ≡ false = let h = q.quiet.pool.ne_null in ground arith in
      let fpt_ : (m.fpt == 0) ≡ false = rw q.quiet.pool_one fph_ in
      (
        record m {
          heap = write emptied.heap m.fph none;
          head = 0;
          tail = 0;
          hp = [];
          tid_map = [];
          is_freeing = 0;
          fph = 0;
          fpt = 0;
          max_hp_size = 0;
        },
        rw (tail_, head_, clean_loop-nil, fph_, fpt_, one_node, clean_pool-nil),
        ground (arith, apart),
        ground arith,
        λ a o o'. ground arith,
        refl,
        refl,
        refl,
        refl,
        refl,
        refl,
        refl,
        refl,
      )
