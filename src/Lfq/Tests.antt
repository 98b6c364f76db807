-- ===== src/Lfq/Tests.antt =====
-- Runs of the queue, and its theorems at queues of at most one element.
use mixsim.Prelude.{
  ℕ, ◌≡◌, ◌≢◌, refl, true, false, Option, none, some, [], ◌∷◌, arith, ◌==◌, if◌then◌else◌, ℤ, pos,
  negsuc,
}
use mixsim.LfqMem.{Ptr, LfqNode, node, Lfq, Run, ok, fault, out_of_fuel, pure, ◌>>=◌, ◌>>◌}
use mixsim.LfqMem.Chain.{Cells, member}
use mixsim.Lfq.{lfq_init, lfq_enqueue, lfq_dequeue, lfq_clean, lfg_count_freelist}
use mixsim.Lfq.Provides.{lfq_fifo, lfq_fifo-lfq_enqueue}
use mixsim.Lfq.Samples.{empty_live, blank, empty_queue, empty_queue-IsQueue}
use mixsim.Lfq.Queue.{IsQueue, lfq_enqueue-snoc}
use mixsim.Lfq.Fifo.{lfq_dequeue-cons}
use mixsim.Lfq.Stuck.{lfq_clean-cons}
use mixsim.Lfq.Clean.{lfq_clean-nil}
use mixsim.Lfq.Init.{lfq_init-IsQueue}
use mixsim.Lfq.Refines.{enqueue, dequeue, run_calls, list_calls, run_calls-list_calls}

abbrev result : {A : Type 0} → Run A → Option A
result (ok a m) = some a
result fault = none
result out_of_fuel = none

run1 :
    result {A = ℕ × ℕ × ℕ × ℕ × ℤ} (
      (do
        lfq_init 1 2 true true 12 1
        lfq_enqueue 3 12 77
        lfq_enqueue 4 12 88
        a ← lfq_dequeue 1
        b ← lfq_dequeue 1
        c ← lfq_dequeue 1
        d ← lfg_count_freelist 5
        r ← lfq_clean 10
        pure (a, b, c, d, r))
        blank)
    ≡ some (77, 88, 0, 1, pos 0)
unfolding lfq_init lfq_enqueue lfq_dequeue lfq_clean lfg_count_freelist
run1 = refl

run2 :
    result (
      (do
        lfq_init 1 2 true true 12 1
        lfq_enqueue 3 12 77
        lfq_enqueue 4 12 88
        r ← lfq_clean 10
        pure r)
        blank)
    ≡ some (negsuc 0)
unfolding lfq_init lfq_enqueue lfq_dequeue lfq_clean lfg_count_freelist
run2 = refl

-- The same queue with the element 77 in node 3.
abbrev one_element : Lfq
one_element = record empty_queue {
  heap = λ p.
      if p == 1
      then some (node 0 3 1)
      else if p == 2
      then some (node 0 0 1)
      else if p == 3
      then some (node 77 0 0)
      else none;
  tail = 3;
}

one_element-IsQueue : IsQueue one_element ((3, 77) ∷ [])
one_element-IsQueue = record {
  dummy = 0;
  used = 1;
  consumed = omega arith;
  chain = (omega arith, refl, refl, (omega arith, refl, refl));
  quiet = record {
    no_hazard = (refl, tt);
    hp_size = omega arith;
    idle = refl;
    pool_content = 0;
    pool_free = 1;
    pool = record { ne_null = omega arith; at = refl };
    pool_one = refl;
  };
  pool_out = refl;
  threads = omega arith;
  tids_free = (refl, tt);
  tids_size = omega arith;
}

lfq_init-IsQueue_example :
    (m' : Lfq) × (lfq_init 1 2 true true 12 1 blank ≡ ok (pos 0) m')
    × IsQueue m' []
    × (m'.head ≡ 1)
    × ((a : Ptr) → a ≢ 1 → a ≢ 2 → m'.heap a ≡ none)
lfq_init-IsQueue_example =
    lfq_init-IsQueue blank 1 2 12 1 (omega arith) (omega arith) (omega arith) (omega arith)

lfq_enqueue-snoc_example :
    (m' : Lfq) × (lfq_enqueue 4 12 88 one_element ≡ ok (pos 0) m')
    × IsQueue m' ((3, 77) ∷ (4, 88) ∷ [])
    × ((a : Ptr) → member a 1 ((3, 77) ∷ []) ≡ false → a ≢ 4 → m'.heap a ≡ one_element.heap a)
lfq_enqueue-snoc_example =
    lfq_enqueue-snoc one_element ((3, 77) ∷ []) 4 12 88 one_element-IsQueue (omega arith) refl

lfq_dequeue-cons_example :
    (m' : Lfq) × (lfq_dequeue 1 one_element ≡ ok 77 m')
    × IsQueue m' []
    × (m'.head ≡ 3)
    × (m'.heap 1 ≡ none)
    × ((a : Ptr) → member a 1 ((3, 77) ∷ []) ≡ false → m'.heap a ≡ one_element.heap a)
lfq_dequeue-cons_example = lfq_dequeue-cons one_element 0 3 77 [] one_element-IsQueue

abbrev one_busy : Lfq
one_busy = record one_element { tid_map = 1 ∷ [] }

run_calls-list_calls_example :
    (m' : Lfq) × (run_calls 4 (enqueue 88 ∷ dequeue ∷ dequeue ∷ dequeue ∷ []) one_element
      ≡ ok (77 ∷ 88 ∷ 0 ∷ []) m')
    × ((ys : Cells) × IsQueue m' ys)
unfolding list_calls
run_calls-list_calls_example =
    run_calls-list_calls (enqueue 88 ∷ dequeue ∷ dequeue ∷ dequeue ∷ []) one_element ((3, 77) ∷ [])
      4 one_element-IsQueue (omega arith) (λ a h. ground arith)

lfq_clean-nil_example :
    (m' : Lfq) × (lfq_clean 2 empty_queue ≡ ok (pos 0) m')
    × (m'.heap 1 ≡ none)
    × (m'.heap 2 ≡ none)
    × ((a : Ptr) → a ≢ 1 → a ≢ 2 → m'.heap a ≡ empty_queue.heap a)
    × (m'.head ≡ 0)
    × (m'.tail ≡ 0)
    × (m'.hp ≡ [])
    × (m'.tid_map ≡ [])
    × (m'.is_freeing ≡ 0)
    × (m'.fph ≡ 0)
    × (m'.fpt ≡ 0)
    × (m'.max_hp_size ≡ 0)
lfq_clean-nil_example = lfq_clean-nil empty_queue 0 empty_queue-IsQueue

lfq_fifo-lfq_enqueue_example :
    (lfq_enqueue 3 12 77 empty_queue ≡ ok (pos 0) (lfq_fifo.enqueue empty_live 77).mem)
    × (lfq_dequeue 1 empty_queue
        ≡ ok (lfq_fifo.dequeue empty_live).0 (lfq_fifo.dequeue empty_live).1.mem)
lfq_fifo-lfq_enqueue_example = lfq_fifo-lfq_enqueue empty_live 77

-- The same queue with 88 in node 4 behind it.
abbrev two_elements : Lfq
two_elements = record empty_queue {
  heap = λ p.
      if p == 1
      then some (node 0 3 1)
      else if p == 2
      then some (node 0 0 1)
      else if p == 3
      then some (node 77 4 0)
      else if p == 4
      then some (node 88 0 0)
      else none;
  tail = 4;
}

two_elements-IsQueue : IsQueue two_elements ((3, 77) ∷ (4, 88) ∷ [])
two_elements-IsQueue = record {
  dummy = 0;
  used = 1;
  consumed = omega arith;
  chain = (omega arith, refl, refl, (omega arith, refl, refl, (omega arith, refl, refl)));
  quiet = record {
    no_hazard = (refl, tt);
    hp_size = omega arith;
    idle = refl;
    pool_content = 0;
    pool_free = 1;
    pool = record { ne_null = omega arith; at = refl };
    pool_one = refl;
  };
  pool_out = refl;
  threads = omega arith;
  tids_free = (refl, tt);
  tids_size = omega arith;
}

lfq_clean-cons_example :
    (m' : Lfq) × (lfq_clean 4 two_elements ≡ ok (negsuc 0) m')
    × (m'.fph ≢ m'.fpt)
    × ((a : LfqNode) × (m'.heap m'.fph ≡ some a))
    × ((b : LfqNode) × (m'.heap m'.fpt ≡ some b))
lfq_clean-cons_example = lfq_clean-cons two_elements 0 3 77 4 88 [] two_elements-IsQueue
