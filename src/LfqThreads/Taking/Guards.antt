-- ===== src/LfqThreads/Taking/Guards.antt =====
-- lfq_dequeue up to the read of `next`, and what it gives back.
use mixsim.Prelude.{
  ℕ, ◌≡◌, refl, sym, ap, ◌∙◌, true, Option, some, none, List, ◌==◌, arith, set, inl, inr,
  Bool-cases,
}
use mathlib.Core.List.{append-nil}
use mixsim.LfqMem.{Ptr, node, Lfq}
use mixsim.LfqMem.Rules.{Holds, load-ok}
use mixsim.LfqMem.Chain.{contents}
use mixsim.Lfq.{alloc_tid, free_tid}
use mixsim.Lfq.Dequeue.{AllZero-set, AllZero-set-set, set_hp-ok, set_tid-ok, length-set_lt}
use mixsim.Lfq.Fifo.{alloc_tid_loop-first}
use mixsim.LfqThreads.{
  Enqueue, out, looping, none_found, seen, guarded, checked, next_read, claimed, cleared, got_data,
  returning, dequeue_step,
}
use mixsim.LfqThreads.Links.{Links-first}
use mixsim.LfqThreads.Invariant.{Inv}
use mixsim.LfqThreads.Taking.Arrays.{
  sys, Goes, arrays, Context-arrays, IsOld-arrays, returned, quiet_step,
}

module _ (m : Lfq) (f : ℕ → Enqueue) (put got : List ℕ) where
  pub out-Goes : Inv (sys m f out put got) → Goes m f out put got
  unfolding dequeue_step alloc_tid
  out-Goes v =
      let (used, hp, tids) = v.at in
      let k = v.context in
      (
        looping,
        arrays m m.hp (set m.tid_map 0 1),
        rw
            (alloc_tid_loop-first m.max_hp_size m.tid_map m (omega (arith, k.one))
              (omega (arith, k.one, k.tid_room)) tids)
            refl,
        omega arith,
        quiet_step m f put got out looping m.hp (set m.tid_map 0 1) v
            (Context-arrays m m.hp (set m.tid_map 0 1) v.xs k k.hp_room k.hp_rest
              (length-set_lt m.tid_map 0 1 k.tid_room) (AllZero-set-set m.tid_map 0 1 tids))
            refl (used, hp) (rw (append-nil got) v.fifo),
      )

  pub looping-Goes : Inv (sys m f looping put got) → Goes m f looping put got
  unfolding dequeue_step
  looping-Goes v =
      let (used, hp) = v.at in
      (
        seen m.head,
        m,
        refl,
        omega arith,
        quiet_step m f put got looping (seen m.head) m.hp m.tid_map v v.context refl
            (used, hp, refl) (rw (append-nil got) v.fifo),
      )

  pub seen-Goes : (h : Ptr) → Inv (sys m f (seen h) put got) → Goes m f (seen h) put got
  unfolding dequeue_step
  seen-Goes h v =
      let (used, hp, e) = v.at in
      let k = v.context in
      (
        guarded h,
        arrays m (set m.hp 0 h) m.tid_map,
        rw (set_hp-ok m 0 h k.hp_room) refl,
        omega arith,
        quiet_step m f put got (seen h) (guarded h) (set m.hp 0 h) m.tid_map v
            (Context-arrays m (set m.hp 0 h) m.tid_map v.xs k (length-set_lt m.hp 0 h k.hp_room)
              (AllZero-set-set m.hp 0 h hp) k.tid_room k.tid_rest)
            refl (used, e) (rw (append-nil got) v.fifo),
      )

  pub guarded-Goes : (h : Ptr) → Inv (sys m f (guarded h) put got) → Goes m f (guarded h) put got
  unfolding dequeue_step
  guarded-Goes h v =
      let (used, e) = v.at in
      let same : (h == m.head) ≡ true = ground (arith, e) in
      (
        checked h,
        m,
        rw same refl,
        omega arith,
        quiet_step m f put got (guarded h) (checked h) m.hp m.tid_map v v.context refl (used, e)
            (rw (append-nil got) v.fifo),
      )

  pub checked-Goes : (h : Ptr) → Inv (sys m f (checked h) put got) → Goes m f (checked h) put got
  unfolding dequeue_step
  checked-Goes h v =
      let (used, e) = v.at in
      let (ne, (r, at)) = Links-first _ _ m.head v.dummy v.used v.xs m.tail v.links in
      let at' : m.heap h ≡ some (node v.dummy r v.used) = ap m.heap e ∙ at in
      let holds : Holds m h (node v.dummy r v.used) = record {
        ne_null = λ z. ne (sym e ∙ z);
        at = at';
      } in
      elim (Bool-cases (r == 0)) [
        | inl last ↦ (
          none_found,
          m,
          rw (load-ok holds, last) refl,
          omega arith,
          quiet_step m f put got (checked h) none_found m.hp m.tid_map v v.context refl used
              (rw (append-nil got) v.fifo),
        )
        | inr more ↦ (
          next_read h r,
          m,
          rw (load-ok holds, more) refl,
          omega arith,
          quiet_step m f put got (checked h) (next_read h r) m.hp m.tid_map v v.context refl
              (used, e, at', ground arith) (rw (append-nil got) v.fifo),
        )
      ]

  pub none_found-Goes : Inv (sys m f none_found put got) → Goes m f none_found put got
  unfolding dequeue_step
  none_found-Goes v =
      let used = v.at in
      let k = v.context in
      (
        returning none,
        arrays m (set m.hp 0 0) m.tid_map,
        rw (set_hp-ok m 0 0 k.hp_room) refl,
        omega arith,
        quiet_step m f put got none_found (returning none) (set m.hp 0 0) m.tid_map v
            (Context-arrays m (set m.hp 0 0) m.tid_map v.xs k (length-set_lt m.hp 0 0 k.hp_room)
              (AllZero-set (set m.hp 0 0) 0 k.hp_rest) k.tid_room k.tid_rest)
            refl (used, k.hp_rest) (rw (append-nil got) v.fifo),
      )

  pub claimed-Goes :
      (h n : Ptr) → Inv (sys m f (claimed h n) put got) → Goes m f (claimed h n) put got
  unfolding dequeue_step
  claimed-Goes h n v =
      let (o, e) = v.at in
      let k = v.context in
      (
        cleared h n,
        arrays m (set m.hp 0 0) m.tid_map,
        rw (set_hp-ok m 0 0 k.hp_room) refl,
        omega arith,
        quiet_step m f put got (claimed h n) (cleared h n) (set m.hp 0 0) m.tid_map v
            (Context-arrays m (set m.hp 0 0) m.tid_map v.xs k (length-set_lt m.hp 0 0 k.hp_room)
              (AllZero-set (set m.hp 0 0) 0 k.hp_rest) k.tid_room k.tid_rest)
            refl (IsOld-arrays m (set m.hp 0 0) m.tid_map v.xs h o, e, k.hp_rest)
            (rw (append-nil got) v.fifo),
      )

  pub cleared-Goes :
      (h n : Ptr) → Inv (sys m f (cleared h n) put got) → Goes m f (cleared h n) put got
  unfolding dequeue_step
  cleared-Goes h n v =
      let (o, e, hp) = v.at in
      let (ne, (r, at)) = Links-first _ _ m.head v.dummy v.used v.xs m.tail v.links in
      let holds : Holds m n (node v.dummy r v.used) = record {
        ne_null = λ z. ne (sym e ∙ z);
        at = ap m.heap e ∙ at;
      } in
      (
        got_data h n v.dummy,
        m,
        rw (load-ok holds) refl,
        omega arith,
        quiet_step m f put got (cleared h n) (got_data h n v.dummy) m.hp m.tid_map v v.context refl
            (o, e, refl, hp) (rw (append-nil got) v.fifo),
      )

  pub returning-Goes :
      (r : Option ℕ) → Inv (sys m f (returning r) put got) → Goes m f (returning r) put got
  unfolding dequeue_step free_tid
  returning-Goes r v =
      let (used, hp) = v.at in
      let k = v.context in
      (
        out,
        arrays m m.hp (set m.tid_map 0 0),
        rw (set_tid-ok m 0 0 k.tid_room) refl,
        omega arith,
        quiet_step m f put got (returning r) out m.hp (set m.tid_map 0 0) v
            (Context-arrays m m.hp (set m.tid_map 0 0) v.xs k k.hp_room k.hp_rest
              (length-set_lt m.tid_map 0 0 k.tid_room)
              (AllZero-set (set m.tid_map 0 0) 0 k.tid_rest))
            refl (used, hp, k.tid_rest) (returned put got (contents v.xs) v.dummy r v.fifo),
      )
