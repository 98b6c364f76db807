-- ===== src/LfqThreads/Tests.antt =====
-- Interleavings of a call of lfq_enqueue and a call of lfq_dequeue, and the theorems at them.
use mixsim.Prelude.{ℕ, ◌≡◌, refl, some, [], ◌∷◌, ◌++◌, ◌==◌, Bool-cases, inl, inr, ◌⊎◌, List}
use mixsim.LfqMem.{Ptr, node, Lfq, ok, write}
use mixsim.Lfq.Samples.{empty_queue, empty_queue-IsQueue}
use mixsim.LfqThreads.{
  idle, allocated, linking, Dequeue, out, none_found, checked, System, begins, puts_in, takes_out,
  update, enqueue_start, enqueue_step, dequeue_step, Reach, start, later,
}
use mixsim.LfqMem.Chain.{Cells, contents}
use mixsim.Lfq.Queue.{IsQueue}
use mixsim.LfqThreads.Invariant.{Sinks}
use mixsim.LfqThreads.Order.{
  Runs, Reach-prefix, Reach-Runs, dequeue_step-Sinks, Reach-IsQueue, dequeue_step-none_found,
}

-- The element 77 is put in, but not linked, when a call of lfq_dequeue looks for it.
abbrev waiting : System
waiting = record {
  mem = record empty_queue {
    heap = write empty_queue.heap 3 (some (node 77 0 0));
    tail = 3;
    tid_map = 1 ∷ [];
    hp = 1 ∷ [];
  };
  enqueues = update (update (λ i. idle) 0 (allocated 3 77)) 0 (linking 1 3);
  dequeue = checked 1;
  put = 77 ∷ [];
  got = [];
}

waiting-Reach : Reach empty_queue waiting
unfolding enqueue_start enqueue_step dequeue_step
waiting-Reach =
    later
      (later
        (later
          (later (later (later start (begins 0 3 77 refl refl refl)) (puts_in 0 refl))
            (takes_out refl))
          (takes_out refl))
        (takes_out refl))
      (takes_out refl)

-- The element is linked while the call of lfq_dequeue is under way, which then returns it.
abbrev finished : (s : System) × Reach empty_queue s
unfolding enqueue_start enqueue_step dequeue_step
finished =
    let linked : (s : System) × Reach empty_queue s = (
      _,
      later
          (later
            (later (later (later start (begins 0 3 77 refl refl refl)) (puts_in 0 refl))
              (takes_out refl))
            (takes_out refl))
          (puts_in 0 refl),
    ) in
    let claimed_ : (s : System) × Reach empty_queue s = (
      _,
      later (later (later (later linked.1 (takes_out refl)) (takes_out refl)) (takes_out refl))
          (takes_out refl),
    ) in
    (
      _,
      later
          (later
            (later (later (later claimed_.1 (takes_out refl)) (takes_out refl)) (takes_out refl))
            (takes_out refl))
          (takes_out refl),
    )

finished-quiet : (finished.0.dequeue ≡ out) × (finished.0.got ≡ 77 ∷ [])
unfolding finished
finished-quiet = (refl, refl)

-- No call is under way.
finished-idle : (i : ℕ) → finished.0.enqueues i ≡ idle
unfolding finished
finished-idle i = elim (Bool-cases (i == 0)) [ inl here ↦ rw here refl | inr there ↦ rw there refl ]

Reach-IsQueue_example :
    (xs : Cells) × IsQueue finished.0.mem xs × (finished.0.put ≡ finished.0.got ++ contents xs)
unfolding finished
Reach-IsQueue_example =
    Reach-IsQueue empty_queue finished.0 empty_queue-IsQueue refl finished.1 finished-idle refl

Reach-prefix_example : (rest : List ℕ) × (waiting.put ≡ [] ++ rest)
Reach-prefix_example = Reach-prefix empty_queue waiting empty_queue-IsQueue refl waiting-Reach

Reach-Runs_example :
    Runs (enqueue_step (linking 1 3)) waiting.mem × Runs (dequeue_step (checked 1)) waiting.mem
Reach-Runs_example = Reach-Runs empty_queue waiting empty_queue-IsQueue refl waiting-Reach 0

dequeue_step-Sinks_example :
    (pc : Dequeue) × (k : Lfq) × (dequeue_step (checked 1) waiting.mem ≡ ok pc k)
    × Sinks (checked 1) pc
dequeue_step-Sinks_example =
    dequeue_step-Sinks empty_queue waiting empty_queue-IsQueue refl waiting-Reach

waiting-none_found : dequeue_step (checked 1) waiting.mem ≡ ok none_found waiting.mem
unfolding dequeue_step
waiting-none_found = refl

dequeue_step-none_found_example :
    (waiting.put ≡ []) ⊎ ((i : ℕ) × (n : Ptr) × (waiting.enqueues i ≡ linking 1 n))
dequeue_step-none_found_example =
    dequeue_step-none_found empty_queue waiting empty_queue-IsQueue refl waiting-Reach 1 waiting.mem
      refl waiting-none_found
