-- ===== src/LfqThreads/Putting/Link.antt =====
-- The write of `next` in lfq_enqueue.
use mixsim.Prelude.{
  ℕ, ◌≡◌, ◌≢◌, refl, sym, ap, ◌∙◌, false, some, [], ◌++◌, ◌==◌, arith, inl, inr, Bool-cases,
}
use mathlib.Core.List.{append-nil}
use mathlib.Core.Path.{subst}
use mixsim.LfqMem.{Ptr, node, Lfq, ok, write}
use mixsim.LfqMem.Rules.{set_next-ok}
use mixsim.LfqMem.Chain.{member}
use mixsim.LfqThreads.{Enqueue, idle, linking, System, update, enqueue_step}
use mixsim.LfqThreads.Links.{Follows, Follows-member, Links-allocated, Links-link, Follows-unique}
use mixsim.LfqThreads.Invariant.{Pending, node_of, old_of, Inv, Pending-update}
use mixsim.LfqThreads.Frames.{
  At-moved, Context-moved, UnderWay-update, IsOld-moved, idle-linking, idle-allocated, linking_inj,
  write-here, write-away, linked_to,
}

module _ (s : System) (v : Inv s) where
  -- The write of `next`.
  pub enqueue_step-linking :
      (i : ℕ) (o n : Ptr)
      → s.enqueues i ≡ linking o n
      → (pc : Enqueue) × (m : Lfq) × (enqueue_step (linking o n) s.mem ≡ ok pc m)
        × Inv (record s { mem = m; enqueues = update s.enqueues i pc; put = s.put ++ [] })
  unfolding enqueue_step
  enqueue_step-linking i o n e =
      let p = v.calls.owes i o n e in
      let inside = Follows-member s.mem.head v.xs o n p.follows in
      let (ne, (k, at)) =
        Links-allocated _ _ s.mem.head v.dummy v.used v.xs s.mem.tail o v.links inside in
      let linked = some (record k { next = n }) in
      let g = write s.mem.heap o linked in
      let here : g o ≡ linked = write-here s.mem.heap o linked in
      let away : (a : Ptr) → (a == o) ≡ false → g a ≡ s.mem.heap a =
        write-away s.mem.heap o linked in
      let apart : (a : Ptr) → member a s.mem.head v.xs ≡ false → (a == o) ≡ false =
        λ a out_. ground (arith, out_, inside) in
      let other : (a b : Ptr)
          → b ≢ node_of (s.enqueues i)
          → Follows s.mem.head v.xs a b
          → (a == o) ≡ false =
        λ a b ne' f. elim (Bool-cases (a == o)) [
          | inl same ↦
              let same' : a ≡ o = ground arith in
              absurd (
                ne' (
                  Follows-unique _ _ s.mem.head v.dummy v.used v.xs s.mem.tail o b n v.links
                    (subst (λ x. Follows s.mem.head v.xs x b) same' f) p.follows
                  ∙ sym (ap node_of e)))
          | inr apart_ ↦ apart_
        ] in
      (
        idle,
        record s.mem { heap = g },
        rw (set_next-ok {m = s.mem} {p = o} {n = k} (record { ne_null = ne; at = at }) n),
        record {
          xs = v.xs;
          dummy = v.dummy;
          used = v.used;
          links =
              Links-link s.mem.heap (Pending s.enqueues) s.mem.head v.dummy v.used v.xs s.mem.tail o
                n v.links p.follows (λ k' at'. here ∙ ap (λ x. linked_to n x) (sym at ∙ at')) away
                (λ a b other w.
                  Pending-update s.enqueues i idle a b
                    (λ z.
                      let (e1, e2) = linking_inj (sym e ∙ z) in absurd (ground (arith, other, e1)))
                    w);
          context =
              Context-moved s.mem g s.mem.tail v.xs v.xs v.context
                (away s.mem.fph (apart s.mem.fph v.context.pool_out)) v.context.pool_out;
          calls =
              UnderWay-update s.mem (record s.mem { heap = g }) v.xs v.xs (old_of s.dequeue)
                s.enqueues i idle v.calls
                (λ a u ne' q. record {
                  ne_null = q.ne_null;
                  at = away a (apart a q.apart) ∙ q.at;
                  apart = q.apart;
                  not_pool = q.not_pool;
                  not_old = q.not_old;
                })
                (λ a b ne' q. record {
                  follows = q.follows;
                  unlinked = λ k' at'. q.unlinked k' (sym (away a (other a b ne' q.follows)) ∙ at');
                  ne_null = q.ne_null;
                })
                (λ a u same. absurd (idle-allocated same)) (λ a b same. absurd (idle-linking same))
                (λ j other ne' same. absurd (ne' refl));
          at =
              At-moved s.mem g s.mem.tail v.xs v.xs v.dummy v.used s.dequeue
                (λ q some_ at'. elim (Bool-cases (s.mem.head == o)) [
                  | inl first_ ↦
                      let same : s.mem.head ≡ o = ground arith in
                      absurd (
                        some_ (p.unlinked (node v.dummy q v.used) (ap s.mem.heap (sym same) ∙ at')))
                  | inr later_ ↦ away s.mem.head later_ ∙ at'
                ])
                (λ q.
                  IsOld-moved s.mem g s.mem.tail v.xs v.xs (old_of s.dequeue) q
                    (away (old_of s.dequeue) (apart (old_of s.dequeue) q.apart)) q.apart)
                v.at;
          fifo = append-nil s.put ∙ v.fifo;
        },
      )
