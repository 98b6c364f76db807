-- ===== src/LfqThreads/Taking.antt =====
-- The steps of lfq_dequeue do not fault, and keep the invariant.
mod Arrays
mod Guards
mod Nodes
use mixsim.Prelude.{
  ℕ, zero, suc, ◌<◌, ◌≤◌, ◌≡◌, ◌≢◌, refl, sym, ap, ◌∙◌, Bool, true, false, Option, some, none, List,
  [], ◌∷◌, ◌++◌, ◌==◌, if◌then◌else◌, arith, length, set, inl, inr, Bool-cases,
}
use mathlib.Core.Path.{subst}
use mathlib.Core.List.{append_assoc, append-nil}
use mixsim.LfqMem.{Ptr, LfqNode, node, minus_one, Lfq, ok, write}
use mixsim.LfqMem.Rules.{Holds, load-ok, set_can_free-ok}
use mixsim.LfqMem.Chain.{Cells, contents, member}
use mixsim.LfqPool.Quiet.{AllZero, Quiet, safe_free-freed}
use mixsim.Lfq.{alloc_tid, free_tid}
use mixsim.Lfq.Dequeue.{AllZero-set, AllZero-set-set, set_hp-ok, set_tid-ok, length-set_lt}
use mixsim.Lfq.Fifo.{alloc_tid_loop-first}
use mixsim.LfqThreads.{
  Enqueue, idle, allocated, linking, Dequeue, out, looping, none_found, seen, guarded, checked,
  next_read, claimed, cleared, got_data, marked, returning, System, dequeue_step, gots,
}
use mixsim.LfqThreads.Frames.{IsOld-moved, Context-moved, write-here, write-away, none-some}
use mixsim.LfqThreads.Links.{
  Links, Follows, Follows-member, next_of, Links-frame, Links-first, Links-mark, Links-second,
}
use mixsim.LfqThreads.Invariant.{
  Pending, old_of, in_flight, IsPrivate, Owes, UnderWay, IsOld, At, Context, Inv, UnderWay-kept,
  Sinks, steps_left,
}
use mixsim.LfqThreads.Taking.Arrays.{
  sys, Goes, arrays, Context-arrays, UnderWay-arrays, IsOld-arrays, returned, quiet_step,
}
use mixsim.LfqThreads.Taking.Guards.{
  out-Goes, looping-Goes, seen-Goes, guarded-Goes, checked-Goes, none_found-Goes, claimed-Goes,
  cleared-Goes, returning-Goes,
}
use mixsim.LfqThreads.Taking.Nodes.{next_read-Goes, got_data-Goes, marked-Goes}

-- Every step of lfq_dequeue.
pub dequeue_step-Inv :
    (s : System)
    → Inv s
    → (pc : Dequeue) × (m : Lfq) × (dequeue_step s.dequeue s.mem ≡ ok pc m)
      × Sinks s.dequeue pc
      × Inv (record s { mem = m; dequeue = pc; got = s.got ++ gots s.dequeue })
dequeue_step-Inv s v = go s.mem s.enqueues s.dequeue s.put s.got v
  where
    go :
        (m : Lfq) (f : ℕ → Enqueue) (pc : Dequeue) (put got : List ℕ)
        → Inv (sys m f pc put got)
        → Goes m f pc put got
    go m f out put got v = out-Goes m f put got v
    go m f looping put got v = looping-Goes m f put got v
    go m f none_found put got v = none_found-Goes m f put got v
    go m f (seen h) put got v = seen-Goes m f put got h v
    go m f (guarded h) put got v = guarded-Goes m f put got h v
    go m f (checked h) put got v = checked-Goes m f put got h v
    go m f (next_read h n) put got v = next_read-Goes m f put got h n v
    go m f (claimed h n) put got v = claimed-Goes m f put got h n v
    go m f (cleared h n) put got v = cleared-Goes m f put got h n v
    go m f (got_data h n d) put got v = got_data-Goes m f put got h n d v
    go m f (marked h d) put got v = marked-Goes m f put got h d v
    go m f (returning r) put got v = returning-Goes m f put got r v
