-- ===== src/Adaptor/Init.antt =====
-- init_adaptor: sixteen buffers in the free list, and what follows for every later state.
use mixsim.Prelude.{
  ℕ, zero, suc, ◌+◌, ◌*◌, ◌≤◌, ◌<◌, ◌≡◌, ◌≢◌, refl, none, some, List, [], ◌∷◌, arith, ◌==◌, inl,
  inr, Bool-cases, some_eq, sym, ap, ◌∙◌, ◌++◌,
}
use mathlib.Core.Path.{subst}
use mathlib.Core.List.{append_assoc, append-nil}
use mixsim.Nut.{Block}
use mixsim.Nut.Get.{nut_create-IsValid}
use mixsim.Nut.Valid.{IsValid}
use mixsim.Buffer.{Buffer}
use mixsim.Fifo.{Fifo, count}
use mixsim.World.{World, System}
use mixsim.World.Owned.{places, IsOwned, count-enqueue}
use mixsim.World.InHand.{IsOwnedSystem}
use mixsim.Adaptor.{block_at, first_buffers, enqueue_blocks, set_up, init_adaptor, Reach}
use mixsim.Adaptor.Owned.{Reach-IsOwnedSystem}

-- The addresses of the first block's buffers, from number `i` on.
abbrev pub blocks : (rounds i freeblock : ℕ) → List ℕ
blocks zero i freeblock = []
blocks (suc k) i freeblock = (freeblock + 2048 * i) ∷ blocks k (i + 1) freeblock

module _ (freeblock p : ℕ) where
  count-blocks_below : (k i : ℕ) → p < block_at freeblock i → count p (blocks k i freeblock) ≡ 0
  count-blocks_below zero i h = refl
  count-blocks_below (suc k) i h = ground (arith, count-blocks_below k (i + 1) (omega arith))

  count-blocks_once : (k i : ℕ) → count p (blocks k i freeblock) ≤ 1
  count-blocks_once zero i = omega arith
  count-blocks_once (suc k) i = elim (Bool-cases (p == block_at freeblock i)) [
    | inl here ↦ ground (arith, count-blocks_below k (i + 1) (ground arith))
    | inr away ↦ ground (arith, count-blocks_once k (i + 1))
  ]

  first_buffers-some :
      (junk : ℕ → Buffer) (k i : ℕ)
      → i + k ≤ 16
      → 0 < count p (blocks k i freeblock)
      → first_buffers freeblock junk p ≢ none
  unfolding first_buffers
  first_buffers-some junk zero i h c = absurd (omega arith)
  first_buffers-some junk (suc k) i h c = elim (Bool-cases (p == block_at freeblock i)) [
    | inl here ↦ ground arith
    | inr away ↦ first_buffers-some junk k (i + 1) (omega arith) (ground arith)
  ]

module _ (F : Fifo) where
  count-enqueue_blocks :
      (p k i freeblock : ℕ) (q : F.Queue)
      → count p (F.elems (enqueue_blocks F k i freeblock q))
        ≡ count p (F.elems q) + count p (blocks k i freeblock)
  unfolding enqueue_blocks
  count-enqueue_blocks p zero i freeblock q = omega arith
  count-enqueue_blocks p (suc k) i freeblock q = omega (
    arith,
    count-enqueue_blocks p k (i + 1) freeblock (F.enqueue q (block_at freeblock i)),
    count-enqueue F p q (block_at freeblock i),
  )

  elems-enqueue_blocks :
      (k i freeblock : ℕ) (q : F.Queue)
      → F.elems (enqueue_blocks F k i freeblock q) ≡ F.elems q ++ blocks k i freeblock
  unfolding enqueue_blocks
  elems-enqueue_blocks zero i freeblock q = sym (append-nil (F.elems q))
  elems-enqueue_blocks (suc k) i freeblock q =
      elems-enqueue_blocks k (i + 1) freeblock (F.enqueue q (block_at freeblock i))
      ∙ ap (λ l. l ++ blocks k (i + 1) freeblock) (F.elems-enqueue q (block_at freeblock i))
      ∙ append_assoc (F.elems q) (block_at freeblock i ∷ []) (blocks k (i + 1) freeblock)

  -- A world whose only pointers are those of the sixteen buffers.
  free-IsOwned :
      (w : World F.Queue) (hand : ℕ → ℕ) (freeblock : ℕ) (junk : ℕ → Buffer)
      → freeblock ≢ 0
      → ((p : ℕ) → p ≢ 0 → hand p ≡ 0)
      → ((p : ℕ) → places F w p ≡ count p (blocks 16 0 freeblock))
      → ((p : ℕ) → w.buffers p ≡ first_buffers freeblock junk p)
      → IsOwned F w hand
  free-IsOwned w hand freeblock junk ne empty_hand total cells = record {
    once = λ p h. omega (arith, total p, empty_hand p h, count-blocks_once freeblock p 16 0);
    live = λ p h k. rw (cells p) (
        first_buffers-some freeblock p junk 16 0 (omega arith)
          (omega (arith, total p, empty_hand p h)));
    no_null = omega (arith, total 0, count-blocks_below freeblock 0 16 0 (omega arith));
  }

  count-free :
      (empty : F.Queue) (freeblock p : ℕ)
      → F.elems empty ≡ []
      → count p (F.elems empty)
          + count p (F.elems empty)
          + count p (F.elems empty)
          + count p (F.elems empty)
          + count p (F.elems (enqueue_blocks F 16 0 freeblock empty))
        ≡ count p (blocks 16 0 freeblock)
  count-free empty freeblock p e =
      let nothing : count p (F.elems empty) ≡ 0 = rw e refl in
      omega (arith, nothing, count-enqueue_blocks p 16 0 freeblock empty)

  -- init_adaptor, whose mallocs succeed, from empty queues, makes a valid name table; the free
  -- list then holds exactly the sixteen buffers, in the order of their addresses, and the four
  -- other queues are empty.
  pub init_adaptor-IsOwnedSystem :
      (empty : F.Queue) (b : Block) (freeblock : ℕ) (junk : ℕ → Buffer)
      → F.elems empty ≡ []
      → freeblock ≢ 0
      → (s : System F.Queue) × (init_adaptor F empty (some b) freeblock junk ≡ some s)
        × IsValid s.nut_table
        × IsOwnedSystem F s
        × (F.elems s.freebuf_list ≡ blocks 16 0 freeblock)
        × (F.elems s.realtosim_interest_queue ≡ [])
        × (F.elems s.simtoreal_interest_queue ≡ [])
        × (F.elems s.simtoreal_data_queue ≡ [])
        × (F.elems s.realtosim_data_queue ≡ [])
  unfolding init_adaptor
  init_adaptor-IsOwnedSystem empty b freeblock junk none_ ne =
      let (t, e, valid, rest, cap) = nut_create-IsValid b 64 in
      let total = λ (p : ℕ). count-free empty freeblock p none_ in
      (
        set_up F empty freeblock junk t,
        rw e,
        valid,
        record {
          owned = free-IsOwned _ _ freeblock junk ne (λ p h. ground arith) total (λ p. refl);
          busy = tt;
        },
        elems-enqueue_blocks 16 0 freeblock empty ∙ ap (λ l. l ++ blocks 16 0 freeblock) none_,
        none_,
        none_,
        none_,
        none_,
      )

  -- Over any first-in first-out queue: however the coroutines are scheduled after init_adaptor,
  -- whose mallocs succeed, from empty queues, as long as no access leaves its object, as one does
  -- for a datagram or a packet that is longer than its buffer (such a run has no step), no buffer
  -- is in two queues, or in a queue and in a hand, and every buffer in one of them is allocated.
  pub init_adaptor-Reach :
      (empty : F.Queue) (b : Block) (freeblock : ℕ) (junk : ℕ → Buffer) (s t : System F.Queue)
      → F.elems empty ≡ []
      → freeblock ≢ 0
      → init_adaptor F empty (some b) freeblock junk ≡ some s
      → Reach F s t
      → IsOwnedSystem F t
  init_adaptor-Reach empty b freeblock junk s t none_ ne e reach =
      let (s', e', valid, o, free_, q1, q2, q3, q4) =
        init_adaptor-IsOwnedSystem empty b freeblock junk none_ ne in
      Reach-IsOwnedSystem F reach (subst (IsOwnedSystem F) (some_eq (sym e' ∙ e)) o)
