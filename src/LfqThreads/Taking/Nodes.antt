-- ===== src/LfqThreads/Taking/Nodes.antt =====
-- lfq_dequeue from the CAS of the head to safe_free.
use mixsim.Prelude.{
  ℕ, ◌≡◌, refl, sym, ap, ◌∙◌, true, false, some, none, List, ◌∷◌, ◌++◌, ◌==◌, arith, inl, inr,
  Bool-cases,
}
use mathlib.Core.Path.{subst}
use mathlib.Core.List.{append-nil}
use mixsim.LfqMem.{Ptr, node, minus_one, Lfq, write}
use mixsim.LfqMem.Rules.{Holds, set_can_free-ok}
use mixsim.LfqMem.Chain.{contents, member}
use mixsim.LfqPool.Quiet.{Quiet, safe_free-freed}
use mixsim.LfqThreads.{Enqueue, next_read, claimed, got_data, marked, returning, dequeue_step}
use mixsim.LfqThreads.Frames.{IsOld-moved, Context-moved, write-here, write-away}
use mixsim.LfqThreads.Links.{
  Links, Follows, Follows-member, next_of, Links-frame, Links-first, Links-mark, Links-second,
}
use mixsim.LfqThreads.Invariant.{Pending, Inv, UnderWay-kept}
use mixsim.LfqThreads.Taking.Arrays.{sys, Goes}

module _ (m : Lfq) (f : ℕ → Enqueue) (put got : List ℕ) where
  -- The CAS of the head.
  pub next_read-Goes :
      (h n : Ptr) → Inv (sys m f (next_read h n) put got) → Goes m f (next_read h n) put got
  unfolding dequeue_step
  next_read-Goes h n v =
      let (used, e, at, some_) = v.at in
      let at' : m.heap m.head ≡ some (node v.dummy n v.used) = ap m.heap (sym e) ∙ at in
      let (w, ys, cells) = Links-second _ _ m.head v.dummy v.used v.xs m.tail n v.links at' some_ in
      let (ne, link, apart, rest) =
        subst (λ xs. Links m.heap (Pending f) m.head v.dummy v.used xs m.tail) cells v.links in
      let pool : member m.fph m.head ((n, w) ∷ ys) ≡ false =
        subst (λ xs. member m.fph m.head xs ≡ false) cells v.context.pool_out in
      let k = v.context in
      let same : (m.head == h) ≡ true = ground (arith, e) in
      let m' = record m { head = n } in
      (
        claimed h n,
        m',
        rw same refl,
        omega arith,
        record {
          xs = ys;
          dummy = w;
          used = 0;
          links = rest;
          context = record {
            one = k.one;
            hp_room = k.hp_room;
            hp_rest = k.hp_rest;
            tid_room = k.tid_room;
            tid_rest = k.tid_rest;
            idle_ = k.idle_;
            pool_content = k.pool_content;
            pool_free = k.pool_free;
            pool = record { ne_null = k.pool.ne_null; at = k.pool.at };
            pool_one = k.pool_one;
            pool_out = ground (arith, pool);
          };
          calls =
              UnderWay-kept m m' v.xs ys 0 h f v.calls
                (λ a u p.
                  let out_ : member a m.head ((n, w) ∷ ys) ≡ false =
                    subst (λ xs. member a m.head xs ≡ false) cells p.apart in
                  record {
                    ne_null = p.ne_null;
                    at = p.at;
                    apart = ground (arith, out_);
                    not_pool = p.not_pool;
                    not_old = λ z. absurd (ground (arith, out_, z, e));
                  })
                (λ o a p.
                  let follows : Follows m.head ((n, w) ∷ ys) o a =
                    subst (λ xs. Follows m.head xs o a) cells p.follows in
                  record {
                    follows = elim follows [
                      | inl (here, there) ↦
                          absurd (
                            some_ (p.unlinked (node v.dummy n v.used) (ap m.heap (sym here) ∙ at')))
                      | inr later ↦ later
                    ];
                    unlinked = p.unlinked;
                    ne_null = p.ne_null;
                  });
          at = (
            record {
              n = node v.dummy n v.used;
              holds = record { ne_null = λ z. ne (sym e ∙ z); at = at };
              consumed = used;
              apart = ground (arith, apart, e);
              not_pool = λ z. absurd (ground (arith, pool, z, e));
            },
            refl,
          );
          fifo = rw (append-nil got) (v.fifo ∙ ap (λ xs. got ++ contents xs) cells);
        },
      )

  -- The flag of the new dummy.
  pub got_data-Goes :
      (h n : Ptr) (ret : ℕ)
      → Inv (sys m f (got_data h n ret) put got)
      → Goes m f (got_data h n ret) put got
  unfolding dequeue_step
  got_data-Goes h n ret v =
      let (o, e, data_, hp) = v.at in
      let (ne, (r, at)) = Links-first _ _ m.head v.dummy v.used v.xs m.tail v.links in
      let at' : m.heap n ≡ some (node v.dummy r v.used) = ap m.heap e ∙ at in
      let holds : Holds m n (node v.dummy r v.used) = record {
        ne_null = λ z. ne (sym e ∙ z);
        at = at';
      } in
      let marked_ = some (node v.dummy r 1) in
      let g = write m.heap n marked_ in
      let away : (a : Ptr) → (a == n) ≡ false → g a ≡ m.heap a = write-away m.heap n marked_ in
      let outside : (a : Ptr) → member a m.head v.xs ≡ false → (a == n) ≡ false =
        λ a out_. ground (arith, out_, e) in
      let m' = record m { heap = g } in
      (
        marked h ret,
        m',
        rw (set_can_free-ok holds) refl,
        omega arith,
        record {
          xs = v.xs;
          dummy = v.dummy;
          used = 1;
          links =
              Links-mark m.heap (Pending f) m.head v.dummy v.used 1 v.xs m.tail v.links
                (λ q at_q.
                  ap g (sym e)
                  ∙ write-here m.heap n marked_
                  ∙ ap (λ x. some (node v.dummy x 1)) (ap next_of (sym at ∙ at_q)))
                (λ a other. away a (rw e other));
          context =
              Context-moved m g m.tail v.xs v.xs v.context
                (away m.fph (outside m.fph v.context.pool_out)) v.context.pool_out;
          calls =
              UnderWay-kept m m' v.xs v.xs h h f v.calls
                (λ a u p. record {
                  ne_null = p.ne_null;
                  at = away a (outside a p.apart) ∙ p.at;
                  apart = p.apart;
                  not_pool = p.not_pool;
                  not_old = p.not_old;
                })
                (λ a b p. record {
                  follows = p.follows;
                  unlinked = λ k at_k. elim (Bool-cases (a == n)) [
                    | inl here ↦
                        let a_n : a ≡ n = ground arith in
                        let last = p.unlinked (node v.dummy r v.used) (ap m.heap a_n ∙ at') in
                        ap next_of (sym at_k ∙ ap g a_n ∙ write-here m.heap n marked_) ∙ last
                    | inr there ↦ p.unlinked k (sym (away a there) ∙ at_k)
                  ];
                  ne_null = p.ne_null;
                });
          at = (
            IsOld-moved m g m.tail v.xs v.xs h o (away h (outside h o.apart)) o.apart,
            omega arith,
            hp,
          );
          fifo = rw (append-nil got) v.fifo;
        },
      )

  -- The old dummy is freed.
  pub marked-Goes :
      (h : Ptr) (ret : ℕ) → Inv (sys m f (marked h ret) put got) → Goes m f (marked h ret) put got
  unfolding dequeue_step
  marked-Goes h ret v =
      let (o, used, hp) = v.at in
      let k = v.context in
      let quiet : Quiet m = record {
        no_hazard = hp;
        hp_size = omega (arith, k.one, k.hp_room);
        idle = k.idle_;
        pool_content = k.pool_content;
        pool_free = k.pool_free;
        pool = k.pool;
        pool_one = k.pool_one;
      } in
      let poisoned = some (record (o.n) { next = minus_one }) in
      let g = write (write m.heap h poisoned) h none in
      let away : (a : Ptr) → (a == h) ≡ false → g a ≡ m.heap a = λ a other.
        write-away (write m.heap h poisoned) h none a other
        ∙ write-away m.heap h poisoned a other in
      let apart : (a : Ptr) → member a m.head v.xs ≡ true → (a == h) ≡ false =
        λ a i. let out_ = o.apart in ground (arith, i, out_) in
      let m' = record m { is_freeing = 0; heap = g } in
      (
        returning (some ret),
        m',
        rw (safe_free-freed m h o.n quiet o.holds o.consumed o.not_pool) refl,
        omega arith,
        record {
          xs = v.xs;
          dummy = v.dummy;
          used = v.used;
          links =
              Links-frame m.heap (Pending f) m.head v.dummy v.used v.xs m.tail v.links
                (λ a i. away a (apart a i)) (λ a b i w. w);
          context = record {
            one = k.one;
            hp_room = k.hp_room;
            hp_rest = k.hp_rest;
            tid_room = k.tid_room;
            tid_rest = k.tid_rest;
            idle_ = refl;
            pool_content = k.pool_content;
            pool_free = k.pool_free;
            pool = record {
              ne_null = k.pool.ne_null;
              at = away m.fph (let np = o.not_pool in ground arith) ∙ k.pool.at;
            };
            pool_one = k.pool_one;
            pool_out = k.pool_out;
          };
          calls =
              UnderWay-kept m m' v.xs v.xs h 0 f v.calls
                (λ a u p. record {
                  ne_null = p.ne_null;
                  at = away a (let np = p.not_old in ground arith) ∙ p.at;
                  apart = p.apart;
                  not_pool = p.not_pool;
                  not_old = p.ne_null;
                })
                (λ a b p. record {
                  follows = p.follows;
                  unlinked = λ q at_q.
                      p.unlinked q
                        (sym (away a (apart a (Follows-member m.head v.xs a b p.follows))) ∙ at_q);
                  ne_null = p.ne_null;
                });
          at = (used, hp);
          fifo = rw (append-nil got) v.fifo;
        },
      )
