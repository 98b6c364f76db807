-- ===== src/LfqThreads/Taking/Arrays.antt =====
-- The steps of lfq_dequeue that write no node: hazard pointers and thread ids.
use mixsim.Prelude.{ℕ, ◌<◌, ◌≡◌, sym, ◌∙◌, Option, some, none, List, [], ◌∷◌, ◌++◌, length, set}
use mathlib.Core.List.{append_assoc, append-nil}
use mixsim.LfqMem.{Ptr, Lfq, ok}
use mixsim.LfqMem.Chain.{Cells, contents}
use mixsim.LfqPool.Quiet.{AllZero}
use mixsim.LfqThreads.{Enqueue, Dequeue, returning, System, dequeue_step, gots}
use mixsim.LfqThreads.Invariant.{
  old_of, in_flight, UnderWay, IsOld, At, Context, Inv, UnderWay-kept, Sinks,
}

abbrev pub sys : Lfq → (ℕ → Enqueue) → Dequeue → List ℕ → List ℕ → System
sys m f pc put got = record { mem = m; enqueues = f; dequeue = pc; put = put; got = got }

-- The step does not fault, and keeps the invariant.
abbrev pub Goes : Lfq → (ℕ → Enqueue) → Dequeue → List ℕ → List ℕ → Type 0
Goes m f pc put got =
    (pc' : Dequeue) × (m' : Lfq) × (dequeue_step pc m ≡ ok pc' m')
    × Sinks pc pc'
    × Inv (sys m' f pc' put (got ++ gots pc))

-- The arrays of the context change.
abbrev pub arrays : Lfq → List Ptr → List ℕ → Lfq
arrays m hp tids = record m { hp = hp; tid_map = tids }

pub Context-arrays :
    (m : Lfq) (hp : List Ptr) (tids : List ℕ) (xs : Cells)
    → Context m xs
    → 0 < length hp
    → AllZero (set hp 0 0)
    → 0 < length tids
    → AllZero (set tids 0 0)
    → Context (arrays m hp tids) xs
Context-arrays m hp tids xs k a b c d = record {
  one = k.one;
  hp_room = a;
  hp_rest = b;
  tid_room = c;
  tid_rest = d;
  idle_ = k.idle_;
  pool_content = k.pool_content;
  pool_free = k.pool_free;
  pool = record { ne_null = k.pool.ne_null; at = k.pool.at };
  pool_one = k.pool_one;
  pool_out = k.pool_out;
}

pub UnderWay-arrays :
    (m : Lfq) (hp : List Ptr) (tids : List ℕ) (xs : Cells) (old : Ptr) (f : ℕ → Enqueue)
    → UnderWay m xs old f
    → UnderWay (arrays m hp tids) xs old f
UnderWay-arrays m hp tids xs old f c =
    UnderWay-kept m (arrays m hp tids) xs xs old old f c
      (λ n v p. record {
        ne_null = p.ne_null;
        at = p.at;
        apart = p.apart;
        not_pool = p.not_pool;
        not_old = p.not_old;
      })
      (λ o n p. record { follows = p.follows; unlinked = p.unlinked; ne_null = p.ne_null })

pub IsOld-arrays :
    (m : Lfq) (hp : List Ptr) (tids : List ℕ) (xs : Cells) (h : Ptr)
    → IsOld m xs h
    → IsOld (arrays m hp tids) xs h
IsOld-arrays m hp tids xs h o = record {
  n = o.n;
  holds = record { ne_null = o.holds.ne_null; at = o.holds.at };
  consumed = o.consumed;
  apart = o.apart;
  not_pool = o.not_pool;
}

-- What was in flight is returned.
pub returned :
    (put got rest : List ℕ) (d : ℕ) (r : Option ℕ)
    → put ≡ got ++ (in_flight (returning r) d ++ rest)
    → put ≡ (got ++ gots (returning r)) ++ rest
returned put got rest d none e = rw (append-nil got) e
returned put got rest d (some v) e = e ∙ sym (append_assoc got (v ∷ []) rest)

-- A step that changes neither the nodes nor what is in flight.
module _ (m : Lfq) (f : ℕ → Enqueue) (put got : List ℕ) where
  pub quiet_step :
      (pc pc' : Dequeue) (hp : List Ptr) (tids : List ℕ)
      → (v : Inv (sys m f pc put got)) → Context (arrays m hp tids) v.xs
      → old_of pc' ≡ old_of pc
      → At (arrays m hp tids) v.xs v.dummy v.used pc'
      → put ≡ (got ++ gots pc) ++ (in_flight pc' v.dummy ++ contents v.xs)
      → Inv (sys (arrays m hp tids) f pc' put (got ++ gots pc))
  quiet_step pc pc' hp tids v k old at fifo = record {
    xs = v.xs;
    dummy = v.dummy;
    used = v.used;
    links = v.links;
    context = k;
    calls = rw old (UnderWay-arrays m hp tids v.xs (old_of pc) f v.calls);
    at = at;
    fifo = fifo;
  }
