-- ===== src/LfqThreads/Putting/Tail.antt =====
-- The XCHG of the tail in lfq_enqueue.
use mixsim.Prelude.{ℕ, ◌≡◌, ◌≢◌, refl, sym, ap, ◌∙◌, true, false, List, [], ◌∷◌, ◌++◌, ◌==◌, arith}
use mathlib.Core.List.{append_assoc}
use mixsim.LfqMem.{Ptr, Lfq, ok}
use mixsim.LfqMem.Chain.{Cells, contents, contents-append, member, has-append}
use mixsim.LfqThreads.{Enqueue, allocated, linking, System, update, enqueue_step}
use mixsim.LfqThreads.Links.{Follows-append, Links-tail, Links-snoc, next_of}
use mixsim.LfqThreads.Invariant.{Pending, node_of, old_of, in_flight, Inv, Pending-update}
use mixsim.LfqThreads.Frames.{
  At-moved, Context-moved, UnderWay-update, IsOld-moved, allocated-linking, linking_inj,
}

fifo_snoc :
    (put got flight : List ℕ) (xs : Cells) (n : Ptr) (content : ℕ)
    → put ≡ got ++ (flight ++ contents xs)
    → put ++ content ∷ [] ≡ got ++ (flight ++ contents (xs ++ (n, content) ∷ []))
fifo_snoc put got flight xs n content e = rw (
  e,
  contents-append xs ((n, content) ∷ []),
  append_assoc got (flight ++ contents xs) (content ∷ []),
  append_assoc flight (contents xs) (content ∷ []),
)

module _ (s : System) (v : Inv s) where
  -- The XCHG of the tail.
  pub enqueue_step-allocated :
      (i : ℕ) (n : Ptr) (content : ℕ)
      → s.enqueues i ≡ allocated n content
      → (pc : Enqueue) × (m : Lfq) × (enqueue_step (allocated n content) s.mem ≡ ok pc m)
        × Inv (record s { mem = m; enqueues = update s.enqueues i pc; put = s.put ++ content ∷ [] })
  unfolding enqueue_step
  enqueue_step-allocated i n content e =
      let p = v.calls.private_ i n content e in
      let ys = v.xs ++ (n, content) ∷ [] in
      let after = update s.enqueues i (linking s.mem.tail n) in
      let own : after i ≡ linking s.mem.tail n =
        let h : (i == i) ≡ true = ground arith in rw h refl in
      let (links, follows) =
        Links-snoc s.mem.heap (Pending s.enqueues) {R = Pending after} s.mem.head v.dummy v.used
          v.xs s.mem.tail n content v.links p.ne_null p.at p.apart
          (λ a b w.
            Pending-update s.enqueues i (linking s.mem.tail n) a b
              (λ z. allocated-linking (sym e ∙ z)) w)
          (i, own) in
      let (last, (d, c, at)) = Links-tail _ _ s.mem.head v.dummy v.used v.xs s.mem.tail v.links in
      let outside : (a : Ptr)
          → a ≢ n
          → member a s.mem.head v.xs ≡ false
          → member a s.mem.head ys ≡ false =
        λ a ne o. ground (arith, o, has-append a v.xs ((n, content) ∷ [])) in
      (
        linking s.mem.tail n,
        record s.mem { tail = n },
        refl,
        record {
          xs = ys;
          dummy = v.dummy;
          used = v.used;
          links = links;
          context =
              Context-moved s.mem s.mem.heap n v.xs ys v.context refl
                (outside s.mem.fph (λ z. p.not_pool (sym z)) v.context.pool_out);
          calls =
              UnderWay-update s.mem (record s.mem { tail = n }) v.xs ys (old_of s.dequeue)
                s.enqueues i (linking s.mem.tail n) v.calls
                (λ a u ne q. record {
                  ne_null = q.ne_null;
                  at = q.at;
                  apart = outside a (λ z. ne (z ∙ sym (ap node_of e))) q.apart;
                  not_pool = q.not_pool;
                  not_old = q.not_old;
                })
                (λ o a ne q. record {
                  follows = Follows-append s.mem.head v.xs ((n, content) ∷ []) o a q.follows;
                  unlinked = q.unlinked;
                  ne_null = q.ne_null;
                })
                (λ a u same. absurd (allocated-linking (sym same)))
                (λ o a same.
                  let (e1, e2) = linking_inj same in
                  rw (← e1, ← e2)
                    (record {
                      follows = follows;
                      unlinked = λ k at'. ap next_of (sym at' ∙ at);
                      ne_null = p.ne_null;
                    }))
                (λ j other ne same.
                  other (v.calls.apart j i (same ∙ sym (ap node_of e)) (λ z. ne (sym same ∙ z))));
          at =
              At-moved s.mem s.mem.heap n v.xs ys v.dummy v.used s.dequeue (λ q ne h. h)
                (λ o.
                  IsOld-moved s.mem s.mem.heap n v.xs ys (old_of s.dequeue) o refl
                    (outside (old_of s.dequeue) (λ z. p.not_old (sym z)) o.apart))
                v.at;
          fifo = fifo_snoc s.put s.got (in_flight s.dequeue v.dummy) v.xs n content v.fifo;
        },
      )
