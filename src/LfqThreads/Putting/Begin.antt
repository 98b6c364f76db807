-- ===== src/LfqThreads/Putting/Begin.antt =====
-- The start of lfq_enqueue.
use mixsim.Prelude.{
  ℕ, ◌≡◌, ◌≢◌, refl, sym, ap, ◌∙◌, true, some, none, ◌==◌, arith, inl, inr, Bool-cases,
}
use mathlib.Core.Path.{subst}
use mixsim.LfqMem.{Ptr, LfqNode, node, Lfq, ok, write}
use mixsim.LfqMem.Chain.{member}
use mixsim.LfqThreads.{Enqueue, idle, allocated, linking, System, update, enqueue_start}
use mixsim.LfqThreads.Links.{Follows-member, Follows-next, Links-frame, Links-allocated}
use mixsim.LfqThreads.Invariant.{Pending, node_of, old_of, Inv, Pending-update, At-IsOld}
use mixsim.LfqThreads.Frames.{
  At-moved, Context-moved, UnderWay-update, IsOld-moved, idle-linking, allocated-linking,
  allocated_inj, none-some, write-kept, write-here, update_self,
}

module _ (s : System) (v : Inv s) where
  pub node_used :
      (j : ℕ) (pc : Enqueue)
      → s.enqueues j ≡ pc
      → node_of pc ≢ 0
      → (k : LfqNode) × (s.mem.heap (node_of pc) ≡ some k)
  node_used j idle e ne = absurd (ne refl)
  node_used j (allocated n u) e ne = (node u 0 0, (v.calls.private_ j n u e).at)
  node_used j (linking o n) e ne =
      (Links-allocated _ _ s.mem.head v.dummy v.used v.xs s.mem.tail n v.links
        (Follows-next s.mem.head v.xs o n (v.calls.owes j o n e).follows)).1

  -- A call that begins.
  pub enqueue_start-Inv :
      (i : ℕ) (fresh : Ptr) (content : ℕ)
      → s.enqueues i ≡ idle
      → s.mem.heap fresh ≡ none
      → (pc : Enqueue) × (m : Lfq) × (enqueue_start fresh content s.mem ≡ ok pc m)
        × Inv (record s { mem = m; enqueues = update s.enqueues i pc })
  unfolding enqueue_start
  enqueue_start-Inv i fresh content e unused = elim (Bool-cases (fresh == 0)) [
    | inl null ↦ (
      idle,
      s.mem,
      rw null refl,
      subst (λ f. Inv (record s { enqueues = f })) (sym (update_self s.enqueues i idle e)) v,
    )
    | inr some_ ↦
        let ne : fresh ≢ 0 = ground arith in
        let g = write s.mem.heap fresh (some (node content 0 0)) in
        let kept = write-kept s.mem.heap fresh (some (node content 0 0)) unused in
        let inside : (a : Ptr)
            → member a s.mem.head v.xs ≡ true
            → (k : LfqNode) × (s.mem.heap a ≡ some k) =
          λ a k. (Links-allocated _ _ s.mem.head v.dummy v.used v.xs s.mem.tail a v.links k).1 in
        (
          allocated fresh content,
          record s.mem { heap = g },
          rw some_ refl,
          record {
            xs = v.xs;
            dummy = v.dummy;
            used = v.used;
            links =
                Links-frame s.mem.heap (Pending s.enqueues) s.mem.head v.dummy v.used v.xs
                  s.mem.tail v.links (λ a k. let (n, at) = inside a k in kept a n at)
                  (λ a b k p.
                    Pending-update s.enqueues i (allocated fresh content) a b
                      (λ z. idle-linking (sym e ∙ z)) p);
            context =
                Context-moved s.mem g s.mem.tail v.xs v.xs v.context
                  (kept s.mem.fph _ v.context.pool.at) v.context.pool_out;
            calls =
                UnderWay-update s.mem (record s.mem { heap = g }) v.xs v.xs (old_of s.dequeue)
                  s.enqueues i (allocated fresh content) v.calls
                  (λ n u ne' p. record {
                    ne_null = p.ne_null;
                    at = kept n _ p.at ∙ p.at;
                    apart = p.apart;
                    not_pool = p.not_pool;
                    not_old = p.not_old;
                  })
                  (λ o n ne' p. record {
                    follows = p.follows;
                    unlinked = λ k at.
                        let (k', at') = inside o (Follows-member s.mem.head v.xs o n p.follows) in
                        p.unlinked k (sym (kept o k' at') ∙ at);
                    ne_null = p.ne_null;
                  })
                  (λ n u same.
                    let (e1, e2) = allocated_inj same in
                    rw (← e1, ← e2)
                      (record {
                        ne_null = ne;
                        at = write-here s.mem.heap fresh (some (node content 0 0));
                        apart = elim (Bool-cases (member fresh s.mem.head v.xs)) [
                          | inl m ↦
                              let (k, at) = inside fresh m in absurd (none-some (sym unused ∙ at))
                          | inr m ↦ m
                        ];
                        not_pool =
                            λ z. none-some (sym unused ∙ ap s.mem.heap z ∙ v.context.pool.at);
                        not_old = λ z.
                            let o =
                              At-IsOld s.mem v.xs v.dummy v.used s.dequeue v.at (λ y. ne (z ∙ y)) in
                            none-some (sym unused ∙ ap s.mem.heap z ∙ o.holds.at);
                      }))
                  (λ o n same. absurd (allocated-linking same))
                  (λ j other ne' same.
                    let (k, at) = node_used j (s.enqueues j) refl (λ z. ne' (sym same ∙ z)) in
                    absurd (none-some (sym unused ∙ ap s.mem.heap (sym same) ∙ at)));
            at =
                At-moved s.mem g s.mem.tail v.xs v.xs v.dummy v.used s.dequeue
                  (λ n ne' at. kept s.mem.head _ at ∙ at)
                  (λ o.
                    IsOld-moved s.mem g s.mem.tail v.xs v.xs (old_of s.dequeue) o
                      (kept _ _ o.holds.at) o.apart)
                  v.at;
            fifo = v.fifo;
          },
        )
  ]
