-- ===== src/LfqPool.antt =====
-- The freeing of nodes in adaptor/lfq.c: the hazard pointers, the pool of nodes that wait, and
-- safe_free. Quiet has the queues in which no node waits, and Stuck those in which nodes do.
pub mod Quiet
pub mod Stuck
use mixsim.Prelude.{
  ℕ, zero, suc, ◌+◌, Bool, true, false, ◌||◌, List, [], ◌∷◌, ltb, ◌==◌, if◌then◌else◌,
}
use mixsim.LfqMem.{
  Ptr, minus_one, maxfree, LfqNode, Lfq, ok, fault, out_of_fuel, Cmd, pure, ◌>>=◌, ◌>>◌, get,
  change, load, store, set_next, free,
}

-- `CAS(&ctx->is_freeing, 0, 1)`
unfoldable pub take_freeing : Cmd Bool
take_freeing m = if m.is_freeing == 0 then ok true (record m { is_freeing = 1 }) else ok false m

unfoldable pub end_freeing : Cmd (Unit {0})
end_freeing = change (λ m. record m { is_freeing = 0 })

-- The loop of `inHP`, with the rounds left first; a read past the array is a fault.
unfoldable pub in_hp_loop : ℕ → List Ptr → Ptr → Cmd Bool
in_hp_loop zero hp lfn = pure false
in_hp_loop (suc k) [] lfn = λ m. fault
in_hp_loop (suc k) (x ∷ hp) lfn =
    let rest = in_hp_loop k hp lfn in if x == lfn then pure true else rest

unfoldable pub in_hp : Ptr → Cmd Bool
unfolding in_hp_loop
in_hp lfn m = in_hp_loop m.max_hp_size m.hp lfn m

unfoldable pub enpool : Ptr → Cmd (Unit {0})
unfolding set_next
enpool lfn = do
  set_next lfn 0
  old_tail ← get (λ m. m.fpt)
  change (λ m. record m { fpt = lfn })
  set_next old_tail lfn

-- Whether the head of the pool must stay: `!p->can_free || !p->free_next || inHP(ctx, p)`.
unfoldable pub must_stay : Ptr → LfqNode → Cmd Bool
unfolding in_hp
must_stay p n = if n.can_free == 0 || (n.next == 0) then pure true else in_hp p

unfoldable pub pool_round : Cmd (Unit {0}) → Cmd (Unit {0})
unfolding load must_stay free
pool_round rest = do
  p ← get (λ m. m.fph)
  n ← load p
  stay ← must_stay p n
  if stay then pure tt else do change (λ m. record m { fph = n.next }); free p; rest

unfoldable pub pool_loop : (fuel i : ℕ) (freeall : Bool) → Cmd (Unit {0})
unfolding pool_round
pool_loop zero i freeall = λ m. out_of_fuel
pool_loop (suc k) i freeall =
    let rest = pool_loop k (i + 1) freeall in
    if ltb i maxfree || freeall then pool_round rest else pure tt

unfoldable pub free_pool : (fuel : ℕ) (freeall : Bool) → Cmd (Unit {0})
unfolding take_freeing pool_loop end_freeing
free_pool fuel freeall = do
  got ← take_freeing
  if got then pool_loop fuel 0 freeall >> end_freeing else pure tt

-- The frees that `free_pool(ctx, false)` makes are at most 150, so its loop ends within 151 rounds.
unfoldable pub safe_free : Ptr → Cmd (Unit {0})
unfolding load in_hp take_freeing set_next free end_freeing enpool free_pool
safe_free lfn = do
  n ← load lfn
  used ← (if n.can_free == 0 then pure true else in_hp lfn)
  if used then enpool lfn else do
    got ← take_freeing
    if got then set_next lfn minus_one >> free lfn >> end_freeing else enpool lfn
  free_pool (suc maxfree) false
