-- ===== src/Lfq/Provides.antt =====
-- The queue of adaptor/lfq.c as the queue that the adaptor is stated over: a context that no call
-- is using, and an allocator that returns unused memory.
use mixsim.Prelude.{ℕ, ◌+◌, ◌≤◌, ◌<◌, ◌≡◌, ◌≢◌, refl, ◌∙◌, none, [], ◌∷◌, ◌++◌, arith, pos}
use mixsim.LfqMem.{Ptr, Lfq, ok}
use mixsim.LfqMem.Chain.{Cells, contents, contents-append}
use mixsim.Fifo.{Fifo, first, others}
use mixsim.Lfq.{lfq_enqueue, lfq_dequeue}
use mixsim.Lfq.Queue.{IsQueue, lfq_enqueue-snoc, not-member_of_none}
use mixsim.Lfq.Fifo.{lfq_dequeue-cons, lfq_dequeue-nil}

-- A context, with the elements in it; `calloc` returns `fresh`, and larger addresses later.
pub record LiveQueue : Type 0 where
  pub mem : Lfq
  pub cells : Cells
  pub fresh : Ptr
  pub is_queue : IsQueue mem cells
  pub not_null : 0 < fresh
  pub unused : (a : Ptr) → fresh ≤ a → mem.heap a ≡ none

-- The context after lfq_enqueue.
pub enqueued :
    (q : LiveQueue) (p : ℕ)
    → (r : LiveQueue) × (lfq_enqueue q.fresh 12 p q.mem ≡ ok (pos 0) r.mem)
      × (contents r.cells ≡ contents q.cells ++ p ∷ [])
enqueued q p =
    let ne : q.fresh ≢ 0 = omega (arith, q.not_null) in
    let (m, e, is, same) =
      lfq_enqueue-snoc q.mem q.cells q.fresh 12 p q.is_queue ne (q.unused q.fresh (omega arith)) in
    (
      record {
        mem = m;
        cells = q.cells ++ (q.fresh, p) ∷ [];
        fresh = q.fresh + 1;
        is_queue = is;
        not_null = omega (arith, q.not_null);
        unused = λ a h.
            let none_ = q.unused a (omega (arith, h)) in
            let apart : a ≢ q.fresh = omega (arith, h) in
            same a (not-member_of_none q.mem q.cells a q.is_queue none_) apart ∙ none_;
      },
      e,
      contents-append q.cells ((q.fresh, p) ∷ []),
    )

-- The result of lfq_dequeue and the context after it.
pub dequeued :
    (q : LiveQueue)
    → (v : ℕ) × (r : LiveQueue) × (lfq_dequeue 1 q.mem ≡ ok v r.mem)
      × (v ≡ first (contents q.cells))
      × (contents r.cells ≡ others (contents q.cells))
dequeued q = go q.cells q.is_queue
  where
    go :
        (xs : Cells)
        → IsQueue q.mem xs
        → (v : ℕ) × (r : LiveQueue) × (lfq_dequeue 1 q.mem ≡ ok v r.mem)
          × (v ≡ first (contents xs))
          × (contents r.cells ≡ others (contents xs))
    go [] is =
        let (m, e, is', same) = lfq_dequeue-nil q.mem 0 is in
        (
          0,
          record {
            mem = m;
            cells = [];
            fresh = q.fresh;
            is_queue = is';
            not_null = q.not_null;
            unused = rw same q.unused;
          },
          e,
          refl,
          refl,
        )
    go ((p, v) ∷ xs) is =
        let (m, e, is', there, gone, same) = lfq_dequeue-cons q.mem 0 p v xs is in
        (
          v,
          record {
            mem = m;
            cells = xs;
            fresh = q.fresh;
            is_queue = is';
            not_null = q.not_null;
            unused = λ a h.
                let none_ = q.unused a h in
                same a (not-member_of_none q.mem ((p, v) ∷ xs) a is none_) ∙ none_;
          },
          e,
          refl,
          refl,
        )

abbrev pub lfq_fifo : Fifo
lfq_fifo = record {
  Queue = LiveQueue;
  elems = λ q. contents q.cells;
  enqueue = λ q p. (enqueued q p).0;
  dequeue = λ q. ((dequeued q).0, (dequeued q).1);
  elems-enqueue = λ q p. (enqueued q p).2;
  dequeue-first = λ q. (dequeued q).3;
  elems-dequeue = λ q. (dequeued q).4;
}

-- The first-in first-out queue that the theorems on the adaptor need is provided by adaptor/lfq.c:
-- over a context that no call is using and an allocator that returns unused memory, its enqueue is
-- the memory after lfq_enqueue, which returns 0, and its dequeue is the result of lfq_dequeue,
-- whose loop runs a round at most, and the memory after it.
pub lfq_fifo-lfq_enqueue :
    (q : LiveQueue) (p : ℕ)
    → (lfq_enqueue q.fresh 12 p q.mem ≡ ok (pos 0) (lfq_fifo.enqueue q p).mem)
      × (lfq_dequeue 1 q.mem ≡ ok (lfq_fifo.dequeue q).0 (lfq_fifo.dequeue q).1.mem)
lfq_fifo-lfq_enqueue q p = ((enqueued q p).1, (dequeued q).2)
