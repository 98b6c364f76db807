-- ===== src/Lfq/Samples.antt =====
-- A context of all zeros, and an empty queue for one consumer, for runs.
use mixsim.Prelude.{◌≡◌, ◌≤◌, false, refl, none, some, [], ◌∷◌, arith, ◌==◌, if◌then◌else◌}
use mixsim.LfqMem.{Ptr, node, Lfq}
use mixsim.LfqPool.Quiet.{Quiet}
use mixsim.Lfq.Queue.{IsQueue}
use mixsim.Lfq.Provides.{LiveQueue}

abbrev pub blank : Lfq
blank = record {
  heap = λ p. none;
  head = 0;
  tail = 0;
  hp = [];
  tid_map = [];
  is_freeing = 0;
  fph = 0;
  fpt = 0;
  max_hp_size = 0;
}

-- A queue for one thread, whose dummy is node 1 and whose pool is node 2.
abbrev pub empty_queue : Lfq
empty_queue = record blank {
  heap = λ p. if p == 1 then some (node 0 0 1) else if p == 2 then some (node 0 0 1) else none;
  head = 1;
  tail = 1;
  hp = 0 ∷ [];
  tid_map = 0 ∷ [];
  fph = 2;
  fpt = 2;
  max_hp_size = 1;
}

pub empty_queue-Quiet : Quiet empty_queue
empty_queue-Quiet = record {
  no_hazard = (refl, tt);
  hp_size = omega arith;
  idle = refl;
  pool_content = 0;
  pool_free = 1;
  pool = record { ne_null = omega arith; at = refl };
  pool_one = refl;
}

pub empty_queue-IsQueue : IsQueue empty_queue []
empty_queue-IsQueue = record {
  dummy = 0;
  used = 1;
  consumed = omega arith;
  chain = (omega arith, refl, refl);
  quiet = empty_queue-Quiet;
  pool_out = refl;
  threads = omega arith;
  tids_free = (refl, tt);
  tids_size = omega arith;
}

pub empty_queue-unused : (a : Ptr) → 3 ≤ a → empty_queue.heap a ≡ none
empty_queue-unused a h =
    let first : (a == 1) ≡ false = ground (arith, h) in
    let second : (a == 2) ≡ false = ground (arith, h) in rw (first, second) refl

-- Its context and the allocator.
abbrev pub empty_live : LiveQueue
empty_live = record {
  mem = empty_queue;
  cells = [];
  fresh = 3;
  is_queue = empty_queue-IsQueue;
  not_null = omega arith;
  unused = empty_queue-unused;
}
