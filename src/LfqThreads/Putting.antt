-- ===== src/LfqThreads/Putting.antt =====
-- The steps of lfq_enqueue do not fault, and keep the invariant.
pub mod Begin
mod Tail
mod Link
use mixsim.Prelude.{
  ℕ, ◌≡◌, ◌≢◌, refl, sym, ap, ◌∙◌, true, false, some, none, List, [], ◌∷◌, ◌++◌, ◌==◌, arith, inl,
  inr, Bool-cases,
}
use mathlib.Core.List.{append_assoc, append-nil}
use mathlib.Core.Path.{subst}
use mixsim.LfqMem.{Ptr, LfqNode, node, Lfq, ok, write}
use mixsim.LfqMem.Rules.{set_next-ok}
use mixsim.LfqMem.Chain.{Cells, contents, contents-append, member, has-append}
use mixsim.LfqThreads.{
  Enqueue, idle, allocated, linking, System, update, enqueue_start, enqueue_step, puts,
}
use mixsim.LfqThreads.Links.{
  Follows, Follows-member, Follows-next, Follows-append, Links-frame, Links-allocated, Links-tail,
  Links-snoc, Links-link, Follows-unique, next_of,
}
use mixsim.LfqThreads.Invariant.{Pending, node_of, old_of, in_flight, Inv, Pending-update, At-IsOld}
use mixsim.LfqThreads.Frames.{
  At-moved, Context-moved, UnderWay-update, IsOld-moved, idle-linking, idle-allocated,
  allocated-linking, allocated_inj, linking_inj, none-some, write-kept, write-here, write-away,
  linked_to, update_self,
}
use mixsim.LfqThreads.Putting.Tail.{enqueue_step-allocated}
use mixsim.LfqThreads.Putting.Link.{enqueue_step-linking}

module _ (s : System) (v : Inv s) where
  pub enqueue_step-idle :
      (i : ℕ)
      → s.enqueues i ≡ idle
      → (pc : Enqueue) × (m : Lfq) × (enqueue_step idle s.mem ≡ ok pc m)
        × Inv (record s { mem = m; enqueues = update s.enqueues i pc; put = s.put ++ [] })
  unfolding enqueue_step
  enqueue_step-idle i e =
      (idle, s.mem, refl, rw (update_self s.enqueues i idle e, append-nil s.put) v)

-- Every step of lfq_enqueue behind its start.
pub enqueue_step-Inv :
    (s : System)
    → Inv s
    → (i : ℕ)
    → (pc : Enqueue) × (m : Lfq) × (enqueue_step (s.enqueues i) s.mem ≡ ok pc m)
      × Inv (record s {
        mem = m;
        enqueues = update s.enqueues i pc;
        put = s.put ++ puts (s.enqueues i);
      })
enqueue_step-Inv s v i = go (s.enqueues i) refl
  where
    go :
        (at : Enqueue)
        → s.enqueues i ≡ at
        → (pc : Enqueue) × (m : Lfq) × (enqueue_step at s.mem ≡ ok pc m)
          × Inv (record s { mem = m; enqueues = update s.enqueues i pc; put = s.put ++ puts at })
    go idle e = enqueue_step-idle s v i e
    go (allocated n content) e = enqueue_step-allocated s v i n content e
    go (linking o n) e = enqueue_step-linking s v i o n e
