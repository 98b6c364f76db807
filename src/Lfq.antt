-- ===== src/Lfq.antt =====
-- The queue of adaptor/lfq.c, run by one thread at a time: no other thread acts between two
-- accesses of one call, as on the scheduler of the adaptor, whose coroutines never switch inside
-- of a call. The children prove what the calls do.
--
-- An argument `fresh` is the address that `calloc` returns, 0 for NULL. Loops run on fuel.
pub mod Queue
pub mod Init
pub mod Fifo
pub mod Dequeue
pub mod Refines
pub mod Clean
pub mod Stuck
pub mod Provides
pub mod Samples
mod Tests
use mixsim.Prelude.{
  ℕ, zero, suc, ◌+◌, ◌*◌, ◌-◌, Bool, true, false, ◌&&◌, ◌||◌, Option, none, some, List, [], ◌∷◌,
  ltb, ◌==◌, if◌then◌else◌, ℤ, pos, negsuc, get_elem?, set, tabulate,
}
use mixsim.LfqPool.{free_pool, safe_free}
use mixsim.LfqMem.{
  Ptr, minus_one, maxfree, LfqNode, node, Lfq, ok, fault, out_of_fuel, Cmd, pure, ◌>>=◌, ◌>>◌,
  write, get, change, load, store, set_next, set_can_free, free,
}

-- `-n`
abbrev pub negative : ℕ → ℤ
negative zero = pos 0
negative (suc n) = negsuc n

-- The loop of `alloc_tid` with the rounds left first; `none` is -1.
unfoldable pub alloc_tid_loop : (rounds i : ℕ) → List ℕ → Cmd (Option ℕ)
alloc_tid_loop zero i tids = pure none
alloc_tid_loop (suc k) i [] = λ m. fault
alloc_tid_loop (suc k) i (t ∷ tids) =
    let rest = alloc_tid_loop k (i + 1) tids in
    if t == 0 then change (λ m. record m { tid_map = set m.tid_map i 1 }) >> pure (some i) else rest

unfoldable pub alloc_tid : Cmd (Option ℕ)
unfolding alloc_tid_loop
alloc_tid m = alloc_tid_loop m.max_hp_size 0 m.tid_map m

-- `ctx->tid_map[tid] = v` and `ctx->HP[tid] = p`, a fault past the arrays.
unfoldable pub set_tid : ℕ → ℕ → Cmd (Unit {0})
set_tid tid v m = elim (get_elem? m.tid_map tid) [
  | none ↦ fault
  | some _ ↦ ok tt (record m { tid_map = set m.tid_map tid v })
]

unfoldable pub set_hp : ℕ → Ptr → Cmd (Unit {0})
set_hp tid p m = elim (get_elem? m.hp tid) [
  | none ↦ fault
  | some _ ↦ ok tt (record m { hp = set m.hp tid p })
]

unfoldable pub free_tid : ℕ → Cmd (Unit {0})
unfolding set_tid
free_tid tid = set_tid tid 0

-- `calloc(n, sizeof(struct lfq_node))`, 24 bytes for each: zeroed cells of 8 or of 4 bytes.
unfoldable pub zeroes : Bool → ℕ → List ℕ
zeroes okay n = if okay then tabulate n (λ i. 0) else []

-- The results of the four `calloc`s: two addresses, and whether the arrays are there.
unfoldable pub lfq_init :
    (dummy pool : Ptr) (hp_ok tids_ok : Bool) (errno : ℕ) (max_consume_thread : ℕ) → Cmd ℤ
unfolding zeroes write
lfq_init dummy pool hp_ok tids_ok errno n = if dummy == 0 then pure (negative errno) else do
  store dummy (some (node 0 0 0))
  if pool == 0 then pure (negative errno) else do
    store pool (some (node 0 0 1))
    store dummy (some (node 0 0 1))
    change (λ m. record m {
      max_hp_size = n;
      hp = zeroes hp_ok (3 * n);
      tid_map = zeroes tids_ok (6 * n);
      is_freeing = 0;
      head = dummy;
      tail = dummy;
      fph = pool;
      fpt = pool;
    })
    pure (pos 0)

-- `calloc` returned `fresh`.
unfoldable pub lfq_enqueue : (fresh : Ptr) (errno content : ℕ) → Cmd ℤ
unfolding write set_next
lfq_enqueue fresh errno content = if fresh == 0 then pure (negative errno) else do
  store fresh (some (node content 0 0))
  old_tail ← get (λ m. m.tail)
  change (λ m. record m { tail = fresh })
  set_next old_tail fresh
  pure (pos 0)

-- One round of the `do` loop of `lfq_dequeue_tid`; `none` is the early return of an empty queue.
-- The head is read again after the hazard pointer is set, and again by the CAS.
unfoldable pub dequeue_round : ℕ → Cmd (Option (Ptr × Ptr)) → Cmd (Option (Ptr × Ptr))
unfolding load set_hp
dequeue_round tid retry = do
  old_head ← get (λ m. m.head)
  set_hp tid old_head
  again ← get (λ m. m.head)
  if old_head == again
      then (do
        n ← load old_head
        if n.next == 0 then (do set_hp tid 0; pure none) else (do
          now ← get (λ m. m.head)
          if now == old_head
              then (do change (λ m. record m { head = n.next }); pure (some (old_head, n.next)))
              else retry))
      else retry

unfoldable pub dequeue_loop : (fuel tid : ℕ) → Cmd (Option (Ptr × Ptr))
unfolding dequeue_round
dequeue_loop zero tid = λ m. out_of_fuel
dequeue_loop (suc k) tid = dequeue_round tid (dequeue_loop k tid)

-- The rest of `lfq_dequeue_tid`, after its loop.
unfoldable pub take_content : ℕ → Option (Ptr × Ptr) → Cmd ℕ
unfolding load set_hp set_can_free safe_free
take_content tid none = pure 0
take_content tid (some (old_head, new_head)) = do
  set_hp tid 0
  n ← load new_head
  set_can_free new_head
  safe_free old_head
  pure n.content

unfoldable pub lfq_dequeue_tid : (fuel tid : ℕ) → Cmd ℕ
unfolding dequeue_loop take_content
lfq_dequeue_tid fuel tid = dequeue_loop fuel tid >>= take_content tid

unfoldable pub lfq_dequeue : (fuel : ℕ) → Cmd ℕ
unfolding alloc_tid lfq_dequeue_tid free_tid
lfq_dequeue fuel = do
  t ← alloc_tid
  elim t [
    | none ↦ pure minus_one
    | some tid ↦ do ret ← lfq_dequeue_tid fuel tid; free_tid tid; pure ret
  ]

-- The loop of `lfg_count_freelist`.
unfoldable pub count_loop : (fuel : ℕ) → Ptr → ℕ → Cmd ℕ
unfolding load
count_loop zero p count = λ m. out_of_fuel
count_loop (suc k) p count =
    if p == 0 then pure count else do n ← load p; count_loop k n.next (count + 1)

unfoldable pub lfg_count_freelist : (fuel : ℕ) → Cmd ℕ
unfolding count_loop
lfg_count_freelist fuel m = count_loop fuel m.fph 0 m

-- The loop of `lfq_clean` over the queue.
unfoldable pub clean_loop : (fuel : ℕ) → Cmd (Unit {0})
unfolding load safe_free
clean_loop zero = λ m. out_of_fuel
clean_loop (suc k) = do
  p ← get (λ m. m.head)
  if p == 0
      then pure tt
      else do n ← load p; safe_free p; change (λ m. record m { head = n.next }); clean_loop k

-- The frees of the pool in `lfq_clean`: whether the pool came down to one node.
unfoldable pub clean_pool : (fuel : ℕ) → Cmd Bool
unfolding free_pool free
clean_pool fuel = do
  free_pool fuel true
  fph ← get (λ m. m.fph)
  fpt ← get (λ m. m.fpt)
  if fph == fpt
      then (do free fpt; change (λ m. record m { fph = 0; fpt = 0 }); pure true)
      else pure false

-- `free(ctx->HP); free(ctx->tid_map); memset(ctx, 0, sizeof(struct lfq_ctx))`, or -1.
unfoldable pub clean_ctx : Cmd ℤ
clean_ctx m =
    if m.fph == 0 && (m.fpt == 0)
    then ok (pos 0) (record m {
      head = 0;
      tail = 0;
      hp = [];
      tid_map = [];
      is_freeing = 0;
      fph = 0;
      fpt = 0;
      max_hp_size = 0;
    })
    else ok (negsuc 0) m

unfoldable pub lfq_clean : (fuel : ℕ) → Cmd ℤ
unfolding clean_loop clean_pool clean_ctx
lfq_clean fuel = do
  full ← get (λ m. (if m.tail == 0 then false else (if m.head == 0 then false else true)))
  (if full then (do clean_loop fuel; change (λ m. record m { tail = 0 })) else pure tt)
  pool ← get (λ m. (if m.fph == 0 then false else (if m.fpt == 0 then false else true)))
  done ← (if pool then clean_pool fuel else pure true)
  if done then clean_ctx else pure (negsuc 0)
