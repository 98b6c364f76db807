-- ===== src/LfqThreads.antt =====
-- adaptor/lfq.c as threads run it: any number of calls of lfq_enqueue, and the one call of
-- lfq_dequeue that a queue for one consumer admits at a time, interleaved at each access to shared
-- memory.
--
-- A node that calloc gave is private until the XCHG of the tail. What alloc_tid, safe_free and
-- free_tid touch, no enqueue touches, so each of them is one step.
pub mod Links
pub mod Invariant
pub mod Frames
pub mod Putting
pub mod Taking
pub mod Order
mod Tests
use mixsim.Prelude.{
  ℕ, ◌≡◌, Bool, true, false, Option, none, some, List, [], ◌∷◌, ◌++◌, ◌==◌, if◌then◌else◌,
}
use mixsim.LfqMem.{
  Ptr, node, Lfq, ok, Cmd, pure, ◌>>=◌, ◌>>◌, get, change, load, store, set_next, set_can_free,
}
use mixsim.LfqPool.{safe_free}
use mixsim.Lfq.{set_hp, alloc_tid, free_tid}

-- Where a call of `lfq_enqueue` stands: before it, with its own node, or behind the XCHG.
pub data Enqueue : Type 0 where
  idle : Enqueue
  allocated : (insert_node : Ptr) (content : ℕ) → Enqueue
  linking : (old_tail insert_node : Ptr) → Enqueue

-- Where the call of `lfq_dequeue` that holds the thread id 0 stands.
pub data Dequeue : Type 0 where
  out looping none_found : Dequeue
  seen guarded checked : (old_head : Ptr) → Dequeue
  next_read claimed cleared : (old_head new_head : Ptr) → Dequeue
  got_data : (old_head new_head : Ptr) (ret : ℕ) → Dequeue
  marked : (old_head : Ptr) (ret : ℕ) → Dequeue
  returning : (ret : Option ℕ) → Dequeue

-- The start of a call, with what `calloc` returns.
unfoldable pub enqueue_start : (fresh : Ptr) (content : ℕ) → Cmd Enqueue
enqueue_start fresh content =
    if fresh == 0
    then pure idle
    else do store fresh (some (node content 0 0)); pure (allocated fresh content)

unfoldable pub enqueue_step : Enqueue → Cmd Enqueue
unfolding set_next
enqueue_step idle = pure idle
enqueue_step (allocated n content) = do
  old_tail ← get (λ m. m.tail)
  change (λ m. record m { tail = n })
  pure (linking old_tail n)
enqueue_step (linking old_tail n) = do set_next old_tail n; pure idle

-- One access of the call; a call that gets no thread id stays outside.
unfoldable pub dequeue_step : Dequeue → Cmd Dequeue
unfolding alloc_tid set_hp load set_can_free safe_free free_tid
dequeue_step out = do t ← alloc_tid; elim t [ none ↦ pure out | some tid ↦ pure looping ]
dequeue_step looping = do h ← get (λ m. m.head); pure (seen h)
dequeue_step (seen h) = do set_hp 0 h; pure (guarded h)
dequeue_step (guarded h) = do
  again ← get (λ m. m.head)
  if h == again then pure (checked h) else pure looping
dequeue_step (checked h) = do
  n ← load h
  if n.next == 0 then pure none_found else pure (next_read h n.next)
dequeue_step none_found = do set_hp 0 0; pure (returning none)
dequeue_step (next_read h n) = do
  now ← get (λ m. m.head)
  if now == h then (do change (λ m. record m { head = n }); pure (claimed h n)) else pure looping
dequeue_step (claimed h n) = do set_hp 0 0; pure (cleared h n)
dequeue_step (cleared h n) = do k ← load n; pure (got_data h n k.content)
dequeue_step (got_data h n ret) = do set_can_free n; pure (marked h ret)
dequeue_step (marked h ret) = do safe_free h; pure (returning (some ret))
dequeue_step (returning ret) = do free_tid 0; pure out

-- The memory and the calls; the arguments of the enqueues in the order of their XCHG, and the
-- elements that were returned.
pub record System : Type 0 where
  pub mem : Lfq
  pub enqueues : ℕ → Enqueue
  pub dequeue : Dequeue
  pub put : List ℕ
  pub got : List ℕ

abbrev pub update : (ℕ → Enqueue) → ℕ → Enqueue → ℕ → Enqueue
update f i pc j = if j == i then pc else f j

-- What a step adds to the two lists.
abbrev pub puts : Enqueue → List ℕ
puts idle = []
puts (allocated n content) = content ∷ []
puts (linking o n) = []

abbrev pub gots : Dequeue → List ℕ
gots (returning (some v)) = v ∷ []
gots (returning none) = []
gots out = []
gots looping = []
gots none_found = []
gots (seen h) = []
gots (guarded h) = []
gots (checked h) = []
gots (next_read h n) = []
gots (claimed h n) = []
gots (cleared h n) = []
gots (got_data h n v) = []
gots (marked h v) = []

-- One thread makes one step. `calloc` returns NULL or an address that is not in use.
pub data Step (s : System) : System → Type 0 where
  begins :
      (i : ℕ) (fresh : Ptr) (content : ℕ) {pc : Enqueue} {m : Lfq}
      → s.enqueues i ≡ idle
      → s.mem.heap fresh ≡ none
      → enqueue_start fresh content s.mem ≡ ok pc m
      → Step s (record s { mem = m; enqueues = update s.enqueues i pc })
  puts_in :
      (i : ℕ) {pc : Enqueue} {m : Lfq}
      → enqueue_step (s.enqueues i) s.mem ≡ ok pc m
      → Step s (record s {
        mem = m;
        enqueues = update s.enqueues i pc;
        put = s.put ++ puts (s.enqueues i);
      })
  takes_out :
      {pc : Dequeue} {m : Lfq}
      → dequeue_step s.dequeue s.mem ≡ ok pc m
      → Step s (record s { mem = m; dequeue = pc; got = s.got ++ gots s.dequeue })

-- A memory with no call under way.
abbrev pub start_of : Lfq → System
start_of m = record { mem = m; enqueues = λ i. idle; dequeue = out; put = []; got = [] }

pub data Reach (m : Lfq) : System → Type 0 where
  start : Reach m (start_of m)
  later : {s t : System} → Reach m s → Step s t → Reach m t
