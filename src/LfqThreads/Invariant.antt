-- ===== src/LfqThreads/Invariant.antt =====
-- What holds between any two accesses of the threads.
use mixsim.Prelude.{
  ℕ, ◌<◌, ◌≤◌, ◌≡◌, ◌≢◌, refl, sym, ap, ◌∙◌, false, some, none, List, [], ◌∷◌, ◌++◌, ◌==◌, arith,
  length, set, inl, inr, Bool-cases,
}
use mixsim.LfqMem.{Ptr, LfqNode, node, Lfq}
use mixsim.LfqMem.Rules.{Holds}
use mixsim.LfqMem.Chain.{Cells, contents, member}
use mixsim.LfqPool.Quiet.{AllZero}
use mixsim.LfqThreads.{
  Enqueue, idle, allocated, linking, Dequeue, out, looping, none_found, seen, guarded, checked,
  next_read, claimed, cleared, got_data, marked, returning, System, update,
}
use mixsim.LfqThreads.Links.{Links, Follows}

-- A call that has moved the tail from `o` to `n`, and has not linked them.
abbrev pub Pending : (ℕ → Enqueue) → Ptr → Ptr → Type 0
Pending enqueues o n = (i : ℕ) × (enqueues i ≡ linking o n)

-- The node of a call.
abbrev pub node_of : Enqueue → Ptr
node_of idle = 0
node_of (allocated n v) = n
node_of (linking o n) = n

-- The dummy that a dequeue has taken out, and not yet freed.
abbrev pub old_of : Dequeue → Ptr
old_of (claimed h n) = h
old_of (cleared h n) = h
old_of (got_data h n v) = h
old_of (marked h v) = h
old_of out = 0
old_of looping = 0
old_of none_found = 0
old_of (seen h) = 0
old_of (guarded h) = 0
old_of (checked h) = 0
old_of (next_read h n) = 0
old_of (returning r) = 0

-- The element that a dequeue has taken out, and not yet returned.
abbrev pub in_flight : Dequeue → ℕ → List ℕ
in_flight (claimed h n) d = d ∷ []
in_flight (cleared h n) d = d ∷ []
in_flight (got_data h n v) d = v ∷ []
in_flight (marked h v) d = v ∷ []
in_flight (returning (some v)) d = v ∷ []
in_flight (returning none) d = []
in_flight out d = []
in_flight looping d = []
in_flight none_found d = []
in_flight (seen h) d = []
in_flight (guarded h) d = []
in_flight (checked h) d = []
in_flight (next_read h n) d = []

-- A node that only its call knows.
pub record IsPrivate (m : Lfq) (xs : Cells) (old n : Ptr) (v : ℕ) : Type 0 where
  pub ne_null : n ≢ 0
  pub at : m.heap n ≡ some (node v 0 0)
  pub apart : member n m.head xs ≡ false
  pub not_pool : n ≢ m.fph
  pub not_old : n ≢ old

-- A call that owes the link from `o` to `n`.
pub record Owes (m : Lfq) (xs : Cells) (o n : Ptr) : Type 0 where
  pub follows : Follows m.head xs o n
  pub unlinked : (k : LfqNode) → m.heap o ≡ some k → k.next ≡ 0
  pub ne_null : n ≢ 0

pub record UnderWay (m : Lfq) (xs : Cells) (old : Ptr) (enqueues : ℕ → Enqueue) : Type 0 where
  pub private_ : (i : ℕ) (n : Ptr) (v : ℕ) → enqueues i ≡ allocated n v → IsPrivate m xs old n v
  pub owes : (i : ℕ) (o n : Ptr) → enqueues i ≡ linking o n → Owes m xs o n
  pub apart :
      (i j : ℕ) → node_of (enqueues i) ≡ node_of (enqueues j) → node_of (enqueues i) ≢ 0 → i ≡ j

-- A dummy that was taken out.
pub record IsOld (m : Lfq) (xs : Cells) (h : Ptr) : Type 0 where
  pub n : LfqNode
  pub holds : Holds m h n
  pub consumed : n.can_free ≢ 0
  pub apart : member h m.head xs ≡ false
  pub not_pool : h ≢ m.fph

-- What the dequeue relies on, where the dummy has content `d` and flag `c`.
abbrev pub At : Lfq → Cells → (d c : ℕ) → Dequeue → Type 0
At m xs d c out = (c ≢ 0) × AllZero m.hp × AllZero m.tid_map
At m xs d c looping = (c ≢ 0) × AllZero m.hp
At m xs d c none_found = c ≢ 0
At m xs d c (seen h) = (c ≢ 0) × AllZero m.hp × (h ≡ m.head)
At m xs d c (guarded h) = (c ≢ 0) × (h ≡ m.head)
At m xs d c (checked h) = (c ≢ 0) × (h ≡ m.head)
At m xs d c (next_read h n) = (c ≢ 0) × (h ≡ m.head) × (m.heap h ≡ some (node d n c)) × (n ≢ 0)
At m xs d c (claimed h n) = IsOld m xs h × (n ≡ m.head)
At m xs d c (cleared h n) = IsOld m xs h × (n ≡ m.head) × AllZero m.hp
At m xs d c (got_data h n v) = IsOld m xs h × (n ≡ m.head) × (v ≡ d) × AllZero m.hp
At m xs d c (marked h v) = IsOld m xs h × (c ≢ 0) × AllZero m.hp
At m xs d c (returning r) = (c ≢ 0) × AllZero m.hp

-- The rest of the context: one consumer, and a pool of one node.
pub record Context (m : Lfq) (xs : Cells) : Type 0 where
  pub one : m.max_hp_size ≡ 1
  pub hp_room : 0 < length m.hp
  pub hp_rest : AllZero (set m.hp 0 0)
  pub tid_room : 0 < length m.tid_map
  pub tid_rest : AllZero (set m.tid_map 0 0)
  pub idle_ : m.is_freeing ≡ 0
  pub pool_content : ℕ
  pub pool_free : ℕ
  pub pool : Holds m m.fph (node pool_content 0 pool_free)
  pub pool_one : m.fpt ≡ m.fph
  pub pool_out : member m.fph m.head xs ≡ false

pub record Inv (s : System) : Type 0 where
  pub xs : Cells
  pub dummy : ℕ
  pub used : ℕ
  pub links : Links s.mem.heap (Pending s.enqueues) s.mem.head dummy used xs s.mem.tail
  pub context : Context s.mem xs
  pub calls : UnderWay s.mem xs (old_of s.dequeue) s.enqueues
  pub at : At s.mem xs dummy used s.dequeue
  pub fifo : s.put ≡ s.got ++ (in_flight s.dequeue dummy ++ contents xs)

-- What another call owes is still owed when call `i` moves on.
pub Pending-update :
    (f : ℕ → Enqueue) (i : ℕ) (pc : Enqueue) (o n : Ptr)
    → f i ≢ linking o n
    → Pending f o n
    → Pending (update f i pc) o n
Pending-update f i pc o n other (j, e) = elim (Bool-cases (j == i)) [
  | inl here ↦ let same : j ≡ i = ground arith in absurd (other (ap f (sym same) ∙ e))
  | inr there ↦ (j, rw there e)
]

pub At-IsOld :
    (m : Lfq) (xs : Cells) (d c : ℕ) (pc : Dequeue)
    → At m xs d c pc
    → old_of pc ≢ 0
    → IsOld m xs (old_of pc)
At-IsOld m xs d c (claimed h n) (o, e) ne = o
At-IsOld m xs d c (cleared h n) (o, e, z) ne = o
At-IsOld m xs d c (got_data h n v) (o, e, f, z) ne = o
At-IsOld m xs d c (marked h v) (o, used, z) ne = o
At-IsOld m xs d c out a ne = absurd (ne refl)
At-IsOld m xs d c looping a ne = absurd (ne refl)
At-IsOld m xs d c none_found a ne = absurd (ne refl)
At-IsOld m xs d c (seen h) a ne = absurd (ne refl)
At-IsOld m xs d c (guarded h) a ne = absurd (ne refl)
At-IsOld m xs d c (checked h) a ne = absurd (ne refl)
At-IsOld m xs d c (next_read h n) a ne = absurd (ne refl)
At-IsOld m xs d c (returning r) a ne = absurd (ne refl)

-- The calls that are under way, over another memory.
pub UnderWay-kept :
    (m m' : Lfq) (xs ys : Cells) (old old' : Ptr) (f : ℕ → Enqueue)
    → UnderWay m xs old f
    → ((n : Ptr) (v : ℕ) → IsPrivate m xs old n v → IsPrivate m' ys old' n v)
    → ((o n : Ptr) → Owes m xs o n → Owes m' ys o n)
    → UnderWay m' ys old' f
UnderWay-kept m m' xs ys old old' f c keep keep' = record {
  private_ = λ i n v e. keep n v (c.private_ i n v e);
  owes = λ i o n e. keep' o n (c.owes i o n e);
  apart = c.apart;
}

-- How many steps of its own a call of lfq_dequeue has left at most.
abbrev pub steps_left : Dequeue → ℕ
steps_left out = 0
steps_left (returning r) = 1
steps_left none_found = 2
steps_left (marked h v) = 2
steps_left (got_data h n v) = 3
steps_left (cleared h n) = 4
steps_left (claimed h n) = 5
steps_left (next_read h n) = 6
steps_left (checked h) = 7
steps_left (guarded h) = 8
steps_left (seen h) = 9
steps_left looping = 10

-- A step of a call of lfq_dequeue.
abbrev pub Sinks : Dequeue → Dequeue → Type 0
Sinks out pc = steps_left pc ≤ 10
Sinks looping pc = steps_left pc < 10
Sinks none_found pc = steps_left pc < 2
Sinks (returning r) pc = steps_left pc < 1
Sinks (marked h v) pc = steps_left pc < 2
Sinks (got_data h n v) pc = steps_left pc < 3
Sinks (cleared h n) pc = steps_left pc < 4
Sinks (claimed h n) pc = steps_left pc < 5
Sinks (next_read h n) pc = steps_left pc < 6
Sinks (checked h) pc = steps_left pc < 7
Sinks (guarded h) pc = steps_left pc < 8
Sinks (seen h) pc = steps_left pc < 9
