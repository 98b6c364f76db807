-- ===== src/LfqThreads/Order.antt =====
-- What holds however the threads are scheduled.
use mixsim.Prelude.{
  ℕ, ◌≡◌, ◌≢◌, refl, sym, ap, ◌∙◌, ◌⊎◌, inl, inr, false, List, [], ◌++◌, ◌==◌, arith,
}
use mathlib.Core.Path.{subst}
use mathlib.Core.List.{append-nil}
use mixsim.LfqMem.{Ptr, LfqNode, node, Lfq, Run, ok, fault, out_of_fuel}
use mixsim.LfqMem.Rules.{Holds, load-ok}
use mixsim.LfqMem.Chain.{Cells, contents}
use mixsim.Lfq.Queue.{IsQueue}
use mixsim.Lfq.Dequeue.{AllZero-set}
use mixsim.LfqThreads.{
  Enqueue, idle, linking, Dequeue, out, none_found, checked, next_read, System, Step, begins,
  puts_in, takes_out, update, puts, gots, enqueue_step, dequeue_step, start_of, Reach, start, later,
}
use mixsim.LfqThreads.Links.{Links-first, Links-front, Links-Chain}
use mixsim.LfqThreads.Invariant.{Pending, in_flight, Inv, Sinks, At, steps_left}
use mixsim.LfqThreads.Frames.{idle-allocated, idle-linking}
use mixsim.LfqThreads.Putting.{enqueue_step-Inv}
use mixsim.LfqThreads.Putting.Begin.{enqueue_start-Inv}
use mixsim.LfqThreads.Taking.{dequeue_step-Inv}

module _ {A : Type 0} where
  abbrev value : A → Run A → A
  value d (ok a m) = a
  value d fault = d
  value d out_of_fuel = d

  abbrev memory : Lfq → Run A → Lfq
  memory d (ok a m) = m
  memory d fault = d
  memory d out_of_fuel = d

  -- Two results of one run.
  ok_unique : {r : Run A} {a b : A} {m k : Lfq} → r ≡ ok a m → r ≡ ok b k → (a ≡ b) × (m ≡ k)
  ok_unique {r} {a} {b} {m} {k} e f = (ap (value a) (sym e ∙ f), ap (memory m) (sym e ∙ f))

-- The command runs to its end.
abbrev pub Runs : {A : Type 0} → (Lfq → Run A) → Lfq → Type 0
Runs {A} c m = (a : A) × (k : Lfq) × (c m ≡ ok a k)

Step-Inv : (s t : System) → Inv s → Step s t → Inv t
Step-Inv s t v (begins i fresh content {pc = pc'} {m = m'} e unused run) =
    let (pc, m, run', w) = enqueue_start-Inv s v i fresh content e unused in
    let (same, same') = ok_unique run' run in
    subst (λ k. Inv (record s { mem = k; enqueues = update s.enqueues i pc' })) same'
      (subst (λ x. Inv (record s { mem = m; enqueues = update s.enqueues i x })) same w)
Step-Inv s t v (puts_in i {pc = pc'} {m = m'} run) =
    let (pc, m, run', w) = enqueue_step-Inv s v i in
    let (same, same') = ok_unique run' run in
    let after : Enqueue → Lfq → System = λ x k. record s {
      mem = k;
      enqueues = update s.enqueues i x;
      put = s.put ++ puts (s.enqueues i);
    } in
    subst (λ k. Inv (after pc' k)) same' (subst (λ x. Inv (after x m)) same w)
Step-Inv s t v (takes_out {pc = pc'} {m = m'} run) =
    let (pc, m, run', left, w) = dequeue_step-Inv s v in
    let (same, same') = ok_unique run' run in
    let after : Dequeue → Lfq → System =
      λ x k. record s { mem = k; dequeue = x; got = s.got ++ gots s.dequeue } in
    subst (λ k. Inv (after pc' k)) same' (subst (λ x. Inv (after x m)) same w)

-- A queue that no call is using.
start-Inv : (m : Lfq) → IsQueue m [] → m.max_hp_size ≡ 1 → Inv (start_of m)
start-Inv m q one =
    let k = q.quiet in
    record {
      xs = [];
      dummy = q.dummy;
      used = q.used;
      links = q.chain;
      context = record {
        one = one;
        hp_room = omega (arith, one, k.hp_size);
        hp_rest = AllZero-set m.hp 0 k.no_hazard;
        tid_room = omega (arith, q.threads, q.tids_size);
        tid_rest = AllZero-set m.tid_map 0 q.tids_free;
        idle_ = k.idle;
        pool_content = k.pool_content;
        pool_free = k.pool_free;
        pool = k.pool;
        pool_one = k.pool_one;
        pool_out = q.pool_out;
      };
      calls = record {
        private_ = λ i n v e. absurd (idle-allocated e);
        owes = λ i o n e. absurd (idle-linking e);
        apart = λ i j e ne. absurd (ne refl);
      };
      at = (q.consumed, k.no_hazard, q.tids_free);
      fifo = refl;
    }

Reach-Inv : (m : Lfq) (s : System) → IsQueue m [] → m.max_hp_size ≡ 1 → Reach m s → Inv s
Reach-Inv m s q one start = start-Inv m q one
Reach-Inv m s q one (later {s = a} {t = b} r e) = Step-Inv a b (Reach-Inv m a q one r) e

checked-next_read :
    (m : Lfq) (h : Ptr) (n : LfqNode)
    → Holds m h n
    → n.next ≢ 0
    → dequeue_step (checked h) m ≡ ok (next_read h n.next) m
unfolding dequeue_step
checked-next_read m h n holds ne =
    let more : (n.next == 0) ≡ false = ground arith in rw (load-ok holds, more) refl

module _ (m : Lfq) (s : System) (q : IsQueue m []) (one : m.max_hp_size ≡ 1) (r : Reach m s) where
  reached : Inv s
  reached = Reach-Inv m s q one r

  -- At any time during any steps of the threads in a queue for one consumer that was empty when
  -- the threads began, what the dequeues returned is a prefix of the arguments of the enqueues in
  -- the order in which the calls moved the tail.
  pub Reach-prefix : (rest : List ℕ) × (s.put ≡ s.got ++ rest)
  Reach-prefix = let v = reached in (in_flight s.dequeue v.dummy ++ contents v.xs, v.fifo)

  -- At any time during any steps of the threads in a queue for one consumer that was empty when
  -- the threads began, the next step of every lfq_enqueue that has begun and of the lfq_dequeue
  -- runs: no thread uses NULL or memory that another one freed.
  pub Reach-Runs :
      (i : ℕ) → Runs (enqueue_step (s.enqueues i)) s.mem × Runs (dequeue_step s.dequeue) s.mem
  Reach-Runs i =
      let (pc, k, run, w) = enqueue_step-Inv s reached i in
      let (pc', k', run', left, w') = dequeue_step-Inv s reached in ((pc, k, run), (pc', k', run'))

  -- At any time during any steps of the threads in a queue for one consumer that was empty when
  -- the threads began, the next step of the lfq_dequeue runs; behind alloc_tid at most ten steps
  -- of its own are left, and each step lowers that number, whatever the other threads do.
  pub dequeue_step-Sinks :
      (pc : Dequeue) × (k : Lfq) × (dequeue_step s.dequeue s.mem ≡ ok pc k) × Sinks s.dequeue pc
  dequeue_step-Sinks = let (pc, k, run, left, w) = dequeue_step-Inv s reached in (pc, k, run, left)

  -- When no call is under way any more, after any steps of any number of lfq_enqueue calls and one
  -- lfq_dequeue at a time, taken in any order, in a queue for one consumer that was empty when the
  -- threads began, the memory holds a queue of elements, and the arguments of the enqueues, in the
  -- order in which the calls moved the tail, are what the dequeues returned followed by those
  -- elements.
  pub Reach-IsQueue :
      ((i : ℕ) → s.enqueues i ≡ idle)
      → s.dequeue ≡ out
      → (xs : Cells) × IsQueue s.mem xs × (s.put ≡ s.got ++ contents xs)
  Reach-IsQueue none_puts none_takes =
      let v = reached in
      let k = v.context in
      let (used, hp, tids) = subst (λ pc. At s.mem v.xs v.dummy v.used pc) none_takes v.at in
      (
        v.xs,
        record {
          dummy = v.dummy;
          used = v.used;
          consumed = used;
          chain =
              Links-Chain s.mem.heap (Pending s.enqueues) s.mem.head v.dummy v.used v.xs s.mem.tail
                (λ a b (i, e). idle-linking (sym (none_puts i) ∙ e)) v.links;
          quiet = record {
            no_hazard = hp;
            hp_size = omega (arith, k.one, k.hp_room);
            idle = k.idle_;
            pool_content = k.pool_content;
            pool_free = k.pool_free;
            pool = k.pool;
            pool_one = k.pool_one;
          };
          pool_out = k.pool_out;
          threads = omega (arith, k.one);
          tids_free = tids;
          tids_size = omega (arith, k.one, k.tid_room);
        },
        subst (λ pc. s.put ≡ s.got ++ (in_flight pc v.dummy ++ contents v.xs)) none_takes v.fifo,
      )

  -- When lfq_dequeue finds no element, after any steps of the threads in a queue for one consumer
  -- that was empty when the threads began, then it has returned every element whose lfq_enqueue
  -- moved the tail, or the call that moved the tail off the dummy has not yet linked its node.
  pub dequeue_step-none_found :
      (h : Ptr) (k : Lfq)
      → s.dequeue ≡ checked h
      → dequeue_step s.dequeue s.mem ≡ ok none_found k
      → (s.put ≡ s.got) ⊎ ((i : ℕ) × (n : Ptr) × (s.enqueues i ≡ linking s.mem.head n))
  dequeue_step-none_found h k at run =
      let v = reached in
      let (used, e) = subst (λ pc. At s.mem v.xs v.dummy v.used pc) at v.at in
      elim (Links-front _ _ s.mem.head v.dummy v.used v.xs s.mem.tail v.links) [
        | inl nil ↦
            let fifo : s.put ≡ s.got ++ contents v.xs =
              subst (λ pc. s.put ≡ s.got ++ (in_flight pc v.dummy ++ contents v.xs)) at v.fifo in
            inl (fifo ∙ ap (λ xs. s.got ++ contents xs) nil ∙ append-nil s.got)
        | inr (inl (n, (i, owed))) ↦ inr (i, n, owed)
        | inr (inr (n, ne, linked)) ↦
            let holds : Holds s.mem h (node v.dummy n v.used) = record {
              ne_null = λ z.
                  (Links-first _ _ s.mem.head v.dummy v.used v.xs s.mem.tail v.links).0 (sym e ∙ z);
              at = ap s.mem.heap e ∙ linked;
            } in
            let (same, same') =
              ok_unique (checked-next_read s.mem h (node v.dummy n v.used) holds ne)
                (subst (λ pc. dequeue_step pc s.mem ≡ ok none_found k) at run) in
            let steps : 6 ≡ 2 = ap steps_left same in absurd (omega (arith, steps))
      ]
