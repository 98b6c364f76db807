-- ===== src/World/Owned.antt =====
-- Who owns a buffer: one queue, or one coroutine that has it in hand, and never two.
use mixsim.Prelude.{
  ℕ, ◌+◌, ◌≤◌, ◌<◌, ◌≡◌, ◌≢◌, Option, none, some, inl, inr, [], ◌∷◌, arith, ◌==◌, Bool-cases,
  >>=-eq-some, some_eq, Ends, Ends-of,
}
use mathlib.Core.Path.{subst}
use mixsim.Buffer.{Buffer}
use mixsim.Nut.{Nut}
use mixsim.Fifo.{Fifo, is_at, count, count-append, count-others, count-others_le}
use mixsim.World.{World, Malloc, put, update_buffer, take_buffer}

-- What `malloc` promises: a block that is not NULL and not in use.
abbrev pub IsFresh {ℓ} : {A : Type ℓ} → (ℕ → Option A) → Option (ℕ × A) → Type ℓ
IsFresh f none = Unit
IsFresh f (some (p, b)) = (p ≢ 0) × (f p ≡ none)

module _ (F : Fifo) where
  open F use {Queue, elems, enqueue, dequeue, elems-enqueue, dequeue-first, elems-dequeue}

  -- How often a pointer stands in the queues.
  abbrev pub places : World Queue → ℕ → ℕ
  places w p =
      count p (elems w.realtosim_interest_queue)
      + count p (elems w.simtoreal_interest_queue)
      + count p (elems w.simtoreal_data_queue)
      + count p (elems w.realtosim_data_queue)
      + count p (elems w.freebuf_list)

  -- Each buffer stands in one place at most, where `hand` counts those that are in hand; each is
  -- allocated, and no queue holds NULL.
  pub record IsOwned (w : World Queue) (hand : ℕ → ℕ) : Type 0 where
    pub once : (p : ℕ) → p ≢ 0 → places w p + hand p ≤ 1
    pub live : (p : ℕ) → p ≢ 0 → 0 < places w p + hand p → w.buffers p ≢ none
    pub no_null : places w 0 ≡ 0

  pub count-enqueue :
      (p : ℕ) (q : Queue) (x : ℕ) → count p (elems (enqueue q x)) ≡ count p (elems q) + is_at p x
  count-enqueue p q x = rw (elems-enqueue q x) (omega (arith, count-append p (elems q) (x ∷ [])))

  -- What a `dequeue` takes from the counts.
  pub record Taken (q : Queue) : Type 0 where
    pub less : (p : ℕ) → count p (elems (dequeue q).1) ≤ count p (elems q)
    pub one :
        (dequeue q).0 ≢ 0
        → (p : ℕ) → count p (elems (dequeue q).1) + is_at p (dequeue q).0 ≡ count p (elems q)

  pub dequeue-Taken : (q : Queue) → Taken q
  dequeue-Taken q = record {
    less = λ p. rw (elems-dequeue q) (count-others_le p (elems q));
    one = λ ne p.
        rw (elems-dequeue q, dequeue-first q)
          (count-others p (elems q) (rw (dequeue-first q) at ne));
  }

  module _ (w : World Queue) (hand : ℕ → ℕ) where
    pub IsOwned-drop : (more : ℕ → ℕ) → IsOwned w (λ q. hand q + more q) → IsOwned w hand
    IsOwned-drop more o = record {
      once = λ p ne. omega (arith, o.once p ne);
      live = λ p ne h. o.live p ne (omega arith);
      no_null = o.no_null;
    }

    pub update_buffer-IsOwned :
        (p : ℕ) (f : Buffer → Buffer) (w' : World Queue)
        → update_buffer p f w ≡ some w'
        → IsOwned w hand
        → IsOwned w' hand
    unfolding update_buffer
    update_buffer-IsOwned p f w' e o =
        let (b, at, e') =
          >>=-eq-some (w.buffers p) (λ b. some (record w { buffers = put w.buffers p (f b) })) e in
        subst (λ u. IsOwned u hand) (some_eq e')
          (record {
            once = o.once;
            live = λ q ne h. ground (arith, o.live q ne h);
            no_null = o.no_null;
          })

    -- The outcome of `take_buffer` in one case.
    pub take_buffer-case :
        (m : Malloc)
        → IsFresh w.buffers m
        → IsOwned w hand
        → (r : ℕ × World Queue) → take_buffer F m w ≡ some r
        → (r.0 ≢ 0) × IsOwned r.1 (λ q. hand q + is_at q r.0)
    unfolding take_buffer
    take_buffer-case m fresh o r e = elim (Bool-cases ((dequeue w.freebuf_list).0 == 0)) [
      | inl empty ↦ alloc m fresh (rw empty at e)
      | inr found ↦
          let ne : (dequeue w.freebuf_list).0 ≢ 0 = ground arith in
          subst Good (some_eq (rw found at e)) (
            ne,
            record {
              once = λ q h. omega (arith, o.once q h, t.one ne q);
              live = λ q h k. o.live q h (omega (arith, t.one ne q));
              no_null = omega (arith, o.no_null, t.less 0);
            },
          )
    ]
      where
        Good : ℕ × World Queue → Type 0
        Good u = (u.0 ≢ 0) × IsOwned u.1 (λ q. hand q + is_at q u.0)

        t : Taken w.freebuf_list
        t = dequeue-Taken w.freebuf_list

        alloc :
            (m : Malloc)
            → IsFresh w.buffers m
            → ◌≡◌ {A = Option (ℕ × World Queue)}
                (elim m [
                  | none ↦ none
                  | some (fresh, junk) ↦ some (
                    fresh,
                    record w {
                      freebuf_list = (dequeue w.freebuf_list).1;
                      buffers = put w.buffers fresh junk;
                    },
                  )
                ])
                (some r)
            → Good r
        alloc none h e = cc
        alloc (some (p, b)) (ne, unused) e =
            let nowhere : places w p + hand p ≡ 0 = ground (arith, o.live p ne) in
            subst Good (some_eq e) (
              ne,
              record {
                once = λ q h. ground (arith, o.once q h, t.less q);
                live = λ q h k. ground (arith, o.live q h, t.less q);
                no_null = omega (arith, o.no_null, t.less 0);
              },
            )

  module _ (w w' : World Queue) (same : w'.buffers ≡ w.buffers) (hand : ℕ → ℕ) where
    -- A pointer goes from the hand into a queue.
    pub IsOwned-give :
        (p : ℕ)
        → p ≢ 0
        → ((q : ℕ) → places w' q ≡ places w q + is_at q p)
        → IsOwned w (λ q. hand q + is_at q p)
        → IsOwned w' hand
    IsOwned-give p ne moved o = record {
      once = λ q h. omega (arith, o.once q h, moved q);
      live = λ q h k. rw same (o.live q h (omega (arith, moved q)));
      no_null = ground (arith, o.no_null, moved 0);
    }

    -- A pointer goes from a queue into the hand; NULL is what an empty queue gives.
    pub IsOwned-take :
        (p : ℕ)
        → ((q : ℕ) → places w' q ≤ places w q)
        → (p ≢ 0 → (q : ℕ) → places w' q + is_at q p ≡ places w q)
        → IsOwned w hand
        → IsOwned w' (λ q. hand q + is_at q p)
    IsOwned-take p less moved o = elim (Bool-cases (p == 0)) [
      | inl null ↦ record {
        once = λ q h. ground (arith, o.once q h, less q);
        live = λ q h k. rw same (o.live q h (ground (arith, less q)));
        no_null = omega (arith, o.no_null, less 0);
      }
      | inr some_ ↦
          let ne : p ≢ 0 = ground arith in
          record {
            once = λ q h. omega (arith, o.once q h, moved ne q);
            live = λ q h k. rw same (o.live q h (omega (arith, moved ne q)));
            no_null = omega (arith, o.no_null, less 0);
          }
    ]

  -- Only what the hands hold besides NULL matters.
  pub IsOwned-hand :
      (w : World Queue) (hand hand' : ℕ → ℕ)
      → ((q : ℕ) → q ≢ 0 → hand' q ≡ hand q)
      → IsOwned w hand
      → IsOwned w hand'
  IsOwned-hand w hand hand' same o = record {
    once = λ q h. omega (arith, o.once q h, same q h);
    live = λ q h k. o.live q h (omega (arith, same q h));
    no_null = o.no_null;
  }

  pub IsOwned-table :
      (w : World Queue) (hand : ℕ → ℕ) (t : Nut)
      → IsOwned w hand
      → IsOwned (record w { nut_table = t }) hand
  IsOwned-table w hand t o = record { once = o.once; live = o.live; no_null = o.no_null }

  pub take_buffer-Ends :
      (w : World Queue) (hand : ℕ → ℕ) (m : Malloc)
      → IsFresh w.buffers m
      → IsOwned w hand
      → Ends (λ r. (r.0 ≢ 0) × IsOwned r.1 (λ q. hand q + is_at q r.0)) (take_buffer F m w)
  take_buffer-Ends w hand m fresh o =
      Ends-of (take_buffer F m w) (take_buffer-case w hand m fresh o)

  pub update_buffer-Ends :
      (w : World Queue) (hand : ℕ → ℕ) (p : ℕ) (f : Buffer → Buffer)
      → IsOwned w hand
      → Ends (λ w'. IsOwned w' hand) (update_buffer p f w)
  update_buffer-Ends w hand p f o =
      Ends-of (update_buffer p f w) (λ w' e. update_buffer-IsOwned w hand p f w' e o)
