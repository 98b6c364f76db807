-- ===== src/Lfq/Refines.antt =====
-- Any sequence of calls of lfq_enqueue and lfq_dequeue, next to the same sequence on a plain list.
use mixsim.Prelude.{ℕ, ◌+◌, ◌≤◌, ◌<◌, ◌≡◌, ◌≢◌, refl, none, List, [], ◌∷◌, ◌++◌, arith}
use mixsim.LfqMem.{Ptr, Lfq, ok, Cmd, pure, ◌>>=◌, ◌>>◌}
use mixsim.LfqMem.Chain.{Cells, contents, contents-append}
use mixsim.Lfq.{lfq_enqueue, lfq_dequeue}
use mixsim.Lfq.Queue.{IsQueue, lfq_enqueue-snoc, not-member_of_none}
use mixsim.Lfq.Fifo.{lfq_dequeue-cons, lfq_dequeue-nil}

pub data Call : Type 0 where
  enqueue : ℕ → Call
  dequeue : Call

-- The results of the dequeues, where `calloc` returns the addresses from `fresh` upwards.
unfoldable pub run_calls : (fresh : Ptr) → List Call → Cmd (List ℕ)
unfolding lfq_enqueue lfq_dequeue
run_calls fresh [] = pure []
run_calls fresh (enqueue v ∷ calls) = lfq_enqueue fresh 12 v >> run_calls (fresh + 1) calls
run_calls fresh (dequeue ∷ calls) = do v ← lfq_dequeue 1; vs ← run_calls fresh calls; pure (v ∷ vs)

-- What a first-in first-out queue of the given elements returns, with 0 when it is empty.
unfoldable pub list_calls : List Call → List ℕ → List ℕ
list_calls [] xs = []
list_calls (enqueue v ∷ calls) xs = list_calls calls (xs ++ v ∷ [])
list_calls (dequeue ∷ calls) [] = 0 ∷ list_calls calls []
list_calls (dequeue ∷ calls) (x ∷ xs) = x ∷ list_calls calls xs

-- On a queue that no call is using, with an allocator that returns unused memory, any sequence of
-- lfq_enqueue and lfq_dequeue, run by one thread, neither faults nor runs out of fuel, and the
-- dequeues return what a first-in first-out list returns, 0 when it is empty.
pub run_calls-list_calls :
    (calls : List Call) (m : Lfq) (xs : Cells) (fresh : Ptr)
    → IsQueue m xs
    → 0 < fresh
    → ((a : Ptr) → fresh ≤ a → m.heap a ≡ none)
    → (m' : Lfq) × (run_calls fresh calls m ≡ ok (list_calls calls (contents xs)) m')
      × ((ys : Cells) × IsQueue m' ys)
unfolding run_calls list_calls
run_calls-list_calls [] m xs fresh q pos_ unused = (m, refl, (xs, q))
run_calls-list_calls (enqueue v ∷ calls) m xs fresh q pos_ unused =
    let ne : fresh ≢ 0 = omega arith in
    let (m1, e, q1, same) = lfq_enqueue-snoc m xs fresh 12 v q ne (unused fresh (omega arith)) in
    let (m2, e2, rest) =
      run_calls-list_calls calls m1 (xs ++ (fresh, v) ∷ []) (fresh + 1) q1 (omega arith) (λ a h.
        let none_ = unused a (omega arith) in
        let apart : a ≢ fresh = omega arith in
        rw (same a (not-member_of_none m xs a q none_) apart) none_) in
    (m2, rw (e, e2, contents-append xs ((fresh, v) ∷ [])), rest)
run_calls-list_calls (dequeue ∷ calls) m [] fresh q pos_ unused =
    let (m1, e, q1, same) = lfq_dequeue-nil m 0 q in
    let (m2, e2, rest) = run_calls-list_calls calls m1 [] fresh q1 pos_ (rw same unused) in
    (m2, rw (e, e2), rest)
run_calls-list_calls (dequeue ∷ calls) m ((p, v) ∷ xs) fresh q pos_ unused =
    let (m1, e, q1, there, gone, same) = lfq_dequeue-cons m 0 p v xs q in
    let (m2, e2, rest) = run_calls-list_calls calls m1 xs fresh q1 pos_ (λ a h.
      let none_ = unused a h in rw (same a (not-member_of_none m ((p, v) ∷ xs) a q none_)) none_) in
    (m2, rw (e, e2), rest)
