-- ===== src/Adaptor/Answer.antt =====
-- A request of a client, from its datagram to the datagram of the answer: udp_interest_in,
-- nip_interest_out, nip_data_in and udp_data_out one after the other.
mod Tests
use mixsim.Prelude.{
  ℕ, zero, suc, ◌+◌, ◌%◌, ◌^◌, ◌≤◌, ◌<◌, ◌≡◌, ◌≢◌, refl, ap, sym, ◌∙◌, Bool, true, false, ◌||◌,
  Option, none, some, List, [], ◌∷◌, ◌++◌, arith, ◌==◌, if◌then◌else◌, length, take_all, ℤ, pos,
  negsuc, inl, inr, Bool-cases, bytes_eq, bytes_eq_refl, ◌>>=◌,
}
use mixsim.NutEntry.{SockaddrIn, same_addr}
use mixsim.NutEntry.Addrs.{has_addr}
use mixsim.NutEntry.Key.{key_of}
use mixsim.Nut.{Block, Nut}
use mixsim.Nut.Valid.{IsValid, waiting, bind_addr, has_addr-snoc}
use mixsim.Nut.Set.{Stored, nut_set-bind_addr}
use mixsim.Buffer.{Buffer, copy_at, nlen, buf_from}
use mixsim.Fifo.{Fifo, first, others, count, is_at}
use mixsim.World.{World, System, Packet, isent, idle, Malloc, put, release}
use mixsim.World.Owned.{places, IsOwned}
use mixsim.UdpAdaptor.{is_one, udp_interest_in, pass_interest}
use mixsim.UdpAdaptor.Request.{
  free_front, IsRequest, request_name, received, udp_interest_body-pass_interest,
}
use mixsim.UdpAdaptor.Deliver.{run_data_out, to_each, IsNext, name_of, udp_data_out-to_each}
use mixsim.NipAdaptor.{type_interest, IsockBuf, nip_data_in, nip_interest_out}
use mixsim.NipAdaptor.Content.{
  Contains, IsData, free_buffer, packed, filled, filled-Contains, nip_data_in-packed, packed-filled,
}
use mixsim.Adaptor.Names.{IsAnswer, key_of-IsAnswer, Contains-IsName}

some_of {ℓ} : {A : Type ℓ} → (o : Option A) → o ≢ none → (x : A) × (o ≡ some x)
some_of none h = absurd (h refl)
some_of (some x) h = (x, refl)

-- The addresses in a cell of the view.
abbrev pub waiters : Option (List SockaddrIn) → List SockaddrIn
waiters none = []
waiters (some l) = l

-- A client whose request is new comes behind those who wait.
bind_addr-waiters :
    (o : Option (List SockaddrIn)) (a : SockaddrIn)
    → is_one (bind_addr o a).1 ≡ true
    → (bind_addr o a).0 ≡ waiters o ++ a ∷ []
unfolding bind_addr
bind_addr-waiters none a h = refl
bind_addr-waiters (some l) a h = ground arith

-- A client whose request is new is among the addresses that wait then.
bind_addr-has_addr :
    (o : Option (List SockaddrIn)) (a : SockaddrIn)
    → is_one (bind_addr o a).1 ≡ true
    → has_addr (bind_addr o a).0 a ≡ true
unfolding bind_addr has_addr same_addr
bind_addr-has_addr none a h = ground arith
bind_addr-has_addr (some l) a h = ground (arith, has_addr-snoc l a a)

module _ (F : Fifo) where
  open F use {Queue, elems, enqueue, dequeue, elems-enqueue, dequeue-first, elems-dequeue}

  -- What is put in an empty queue comes next.
  first_in-empty : (q : Queue) (p : ℕ) → elems q ≡ [] → (dequeue (enqueue q p)).0 ≡ p
  first_in-empty q p h = rw (dequeue-first (enqueue q p), elems-enqueue q p, h) refl

  -- The two states of nip_interest_out with the buffer `p`.
  abbrev pub taken : System Queue → ℕ → System Queue
  taken t p = record t {
    world = record t.world { simtoreal_interest_queue = (dequeue t.simtoreal_interest_queue).1 };
    nip_interest = p;
  }

  abbrev pub sent : System Queue → ℕ → System Queue
  sent t p = record t { world = release F p (taken t p).world; nip_interest = 0 }

  -- An Interest that waits is sent by two runs of nip_interest_out.
  nip_interest_out_twice :
      (t : System Queue) (p : ℕ) (c : Buffer)
      → t.nip_interest ≡ 0
      → (dequeue t.simtoreal_interest_queue).0 ≡ p
      → p ≢ 0
      → t.buffers p ≡ some c
      → (nip_interest_out F t ≡ some (taken t p, []))
        × (nip_interest_out F (taken t p)
            ≡ some (sent t p, isent type_interest c (nlen c % 2 ^ 16) (nlen c) 0 ∷ []))
  unfolding nip_interest_out
  nip_interest_out_twice t p c at_head next ne there =
      let some_ : (p == 0) ≡ false = ground arith in
      (rw (at_head, next) refl, rw (some_, there) refl)

  -- The first of a free list to which a buffer was given back.
  first_free :
      (w : World Queue) (p : ℕ) (c : Buffer)
      → p ≢ 0
      → (l : List ℕ) → ((q : ℕ) → 0 < count q l → (q ≢ 0) × (w.buffers q ≢ none))
      → (let q = first (l ++ p ∷ []) in
          (q ≢ 0) × ((old : Buffer) × (put w.buffers p c q ≡ some old)))
  first_free w p c ne [] h = (ne, (c, ground arith))
  first_free w p c ne (q ∷ l) h =
      let (ne', live) = h q (ground arith) in
      let (old, e) = some_of (w.buffers q) live in
      elim (Bool-cases (q == p)) [
        | inl here ↦ (ne', (c, rw here refl))
        | inr there ↦ (ne', (old, rw there e))
      ]

  count-others_positive : (l : List ℕ) (q : ℕ) → 0 < count q (others l) → 0 < count q l
  count-others_positive [] q h = h
  count-others_positive (x ∷ l) q h = omega arith

  -- The free list has a buffer behind one that was taken from it and given back.
  free_again :
      (w : World Queue) (hand : ℕ → ℕ) (p : ℕ) (c : Buffer)
      → IsOwned F w hand
      → p ≢ 0
      → (let q = (dequeue (enqueue (dequeue w.freebuf_list).1 p)).0 in
          (q ≢ 0) × ((old : Buffer) × (put w.buffers p c q ≡ some old)))
  free_again w hand p c o ne =
      let e =
        dequeue-first (enqueue (dequeue w.freebuf_list).1 p)
        ∙ ap first (
            elems-enqueue (dequeue w.freebuf_list).1 p
            ∙ ap (λ l. l ++ p ∷ []) (elems-dequeue w.freebuf_list)) in
      rw e (
        first_free w p c ne (others (elems w.freebuf_list)) λ q h.
          let some_ = count-others_positive (elems w.freebuf_list) q h in
          let here : 0 < places F w q = omega arith in
          elim (Bool-cases (q == 0)) [
            | inl null ↦
                let z : q ≡ 0 = ground arith in absurd (omega (arith, o.no_null, ap (places F w) z))
            | inr ne' ↦ let nz : q ≢ 0 = ground arith in (nz, o.live q nz (omega arith))
          ])

  -- The two sending coroutines are at the heads of their loops, with nothing in their queues.
  pub record IsWaiting (s : System Queue) : Type 0 where
    pub interest_idle : s.nip_interest ≡ 0
    pub data_idle : s.udp_data ≡ idle
    pub no_interest : elems s.simtoreal_interest_queue ≡ []
    pub no_data : elems s.realtosim_data_queue ≡ []

  -- The steps from the request to the answer: the buffer `c` with the request is sent as an
  -- Interest, the packet `r` arrives in a buffer, and that buffer goes to the addresses `l`.
  pub record Answered (s : System Queue) (m m' : Malloc) (mt : Block) (buf : List ℕ) (c : Buffer)
      (client : SockaddrIn) (r : IsockBuf) : Type 0 where
    pub asked : World Queue
    pub taking : System Queue
    pub sending : System Queue
    pub arrived : World Queue
    pub answered : System Queue
    pub answer : Buffer
    pub l : List SockaddrIn
    pub asks : udp_interest_in F m (some mt) buf client s.world ≡ some asked
    pub takes : nip_interest_out F (record s { world = asked }) ≡ some (taking, [])
    pub sends :
        nip_interest_out F taking
        ≡ some (sending, isent type_interest c (nlen c % 2 ^ 16) (nlen c) 0 ∷ [])
    pub arrives : nip_data_in F m' r sending.world ≡ some arrived
    pub holds : Contains answer r
    pub answers :
        run_data_out F (suc (length l)) (record sending { world = arrived })
        ≡ some (answered, to_each answer l)
    pub everyone : l ≡ waiters (waiting s.nut_table (key_of (buf_from 0 c) (nlen c))) ++ client ∷ []
    pub reached : has_addr l client ≡ true
    pub forgotten : waiting answered.nut_table (key_of (buf_from 0 c) (nlen c)) ≡ none

  module _ (s : System Queue) (buf : List ℕ) (b : Buffer) (q : IsRequest F s.world buf b) where
    -- The buffer of the request, and what it holds.
    abbrev at_ : ℕ
    at_ = free_front F s.world

    abbrev request : Buffer
    request = copy_at 0 buf b

    -- After a new request, with the table that nut_set made.
    abbrev asked_with : Nut → System Queue
    asked_with t = record s {
      world = record (received F s.world buf b) {
        nut_table = t;
        simtoreal_interest_queue = enqueue s.simtoreal_interest_queue at_;
      };
    }

    asks_lem :
        (m : Malloc) (mt : Block) (client : SockaddrIn)
        → is_one (bind_addr (waiting s.nut_table (request_name F buf b)) client).1 ≡ true
        → (t : Nut) × (code : ℤ) × (udp_interest_in F m (some mt) buf client s.world
            ≡ some (asked_with t).world)
          × Stored (request_name F buf b) client s.nut_table (t, code)
    unfolding pass_interest udp_interest_in
    asks_lem m mt client new =
        let (r, e, stored) =
          nut_set-bind_addr mt s.nut_table (buf_from 0 request) (nlen request) client q.valid
            q.named q.room in
        let one : is_one r.1 ≡ true = rw stored.code new in
        (
          r.0,
          r.1,
          rw (take_all 2048 buf q.fits)
              (udp_interest_body-pass_interest F s.world buf b q m mt client r e ∙ rw one refl),
          stored,
        )

    module _ (r : IsockBuf) (a : IsAnswer request r) (t : Nut) where
      -- After the Interest was sent.
      abbrev sent_with : System Queue
      sent_with = sent (asked_with t) at_

      arrives_lem :
          (hand : ℕ → ℕ) → IsOwned F s.world hand → (old : Buffer) × IsData F sent_with.world r old
      unfolding release
      arrives_lem hand o =
          let (ne, (old, e)) = free_again s.world hand at_ request o q.ne_null in
          let fits = a.fits in
          (
            old,
            record {
              ne_null = ne;
              there = e;
              no_nack = a.no_nack;
              short = omega arith;
              name_there = a.name_there;
              small = omega arith;
              data_there = a.data_there;
            },
          )

      -- The system with the packet in a buffer.
      abbrev arrived_with : Buffer → System Queue
      arrived_with old = record sent_with { world = packed F sent_with.world r old }

      arrived-IsNext :
          (old : Buffer)
          → IsWaiting s
          → IsValid t
          → IsData F sent_with.world r old
          → IsNext F (arrived_with old) (filled r old)
      unfolding release
      arrived-IsNext old idle_ valid d =
          let holds = filled-Contains r old d.short d.small in
          let next =
            first_in-empty s.realtosim_data_queue (free_buffer F sent_with.world) idle_.no_data in
          record {
            at_head = idle_.data_idle;
            ne_null = rw next d.ne_null;
            there = rw next (packed-filled F sent_with.world r old d none);
            valid = valid;
            named = Contains-IsName request (filled r old) r a holds;
          }

    -- Over any first-in first-out queue, when the request of a client fits into the first buffer
    -- of the free list and its name lies inside of it, the table is valid and of less than 2^30
    -- cells, with memory for a larger one, each buffer is in one place at most, both sending
    -- coroutines are idle with nothing in their queues, and the request is new while fewer than
    -- eight others wait for its name: udp_interest_in, two runs of nip_interest_out, nip_data_in
    -- of a packet with that name, no NACK, that fits into 2040 bytes, and runs of udp_data_out
    -- send the request as an Interest, and the packet, in a datagram each, to the addresses that
    -- waited for the name before, in their order, and then to the client; afterwards nobody waits
    -- for it.
    pub udp_interest_in-Answered :
        (m m' : Malloc) (mt : Block) (client : SockaddrIn) (r : IsockBuf) (hand : ℕ → ℕ)
        → is_one (bind_addr (waiting s.nut_table (request_name F buf b)) client).1 ≡ true
        → IsWaiting s
        → IsOwned F s.world hand
        → IsAnswer request r
        → Answered s m m' mt buf request client r
    unfolding release
    udp_interest_in-Answered m m' mt client r hand new idle_ o a =
        let k = request_name F buf b in
        let before = waiting s.nut_table k in
        let (t, code, asks, stored) = asks_lem m mt client new in
        let own : (at_ == at_) ≡ true = ground arith in
        let (takes, sends) =
          nip_interest_out_twice (asked_with t) at_ request idle_.interest_idle
            (first_in-empty s.simtoreal_interest_queue at_ idle_.no_interest) q.ne_null
            (rw own refl) in
        let (old, d) = arrives_lem r a t hand o in
        let holds = filled-Contains r old d.short d.small in
        let next = arrived-IsNext r a t old idle_ stored.valid d in
        let named = key_of-IsAnswer request (filled r old) r a holds in
        let waits : waiting t (name_of F (filled r old)) ≡ some (bind_addr before client).0 =
          rw (named, stored.view k, bytes_eq_refl k) refl in
        let (answered, e, at_head, valid, view, freed) =
          udp_data_out-to_each F (arrived_with r a t old) (filled r old) next
            (bind_addr before client).0 waits in
        record {
          asked = (asked_with t).world;
          taking = taken (asked_with t) at_;
          sending = sent_with r a t;
          arrived = packed F (sent_with r a t).world r old;
          answered = answered;
          answer = filled r old;
          l = (bind_addr before client).0;
          asks = asks;
          takes = takes;
          sends = sends;
          arrives = nip_data_in-packed F (sent_with r a t).world r old d m' a.fits;
          holds = holds;
          answers = e;
          everyone = bind_addr-waiters before client new;
          reached = bind_addr-has_addr before client new;
          forgotten = view k ∙ rw (named, bytes_eq_refl k) refl;
        }
