-- ===== src/UdpAdaptor/Request.antt =====
-- udp_interest_in at a request that fits into a buffer of the free list.
use mixsim.Prelude.{
  ℕ, ◌+◌, ◌≤◌, ◌<◌, ◌≡◌, ◌≢◌, ◌^◌, refl, true, false, some, inl, inr, List, arith, leb, ◌==◌,
  if◌then◌else◌, length, ℤ, Bool-cases,
}
use mixsim.NutEntry.{SockaddrIn}
use mixsim.NutEntry.Key.{key_of, IsName}
use mixsim.Nut.{Block, Nut, nut_set}
use mixsim.Nut.Valid.{IsValid, waiting, bind_addr}
use mixsim.Nut.Set.{Stored, nut_set-bind_addr}
use mixsim.Buffer.{Buffer, buffer_size, copy_at, nlen, buf_from}
use mixsim.Fifo.{Fifo, is_at}
use mixsim.World.{World, Malloc, put, update_buffer, take_buffer}
use mixsim.World.Owned.{places, IsOwned, dequeue-Taken}
use mixsim.UdpAdaptor.{is_one, udp_interest_body, pass_interest}

module _ (F : Fifo) where
  -- The buffer that a coroutine takes.
  abbrev pub free_front : World F.Queue → ℕ
  free_front w = (F.dequeue w.freebuf_list).0

  -- The bytes of a request fit into the first buffer of the free list, which holds `b` before, and
  -- then the name lies inside of it; the table is valid and may grow.
  pub record IsRequest (w : World F.Queue) (buf : List ℕ) (b : Buffer) : Type 0 where
    pub some_bytes : 0 < length buf
    pub fits : length buf ≤ buffer_size
    pub ne_null : free_front w ≢ 0
    pub there : w.buffers (free_front w) ≡ some b
    pub valid : IsValid w.nut_table
    pub room : w.nut_table.table_cap < 2 ^ 30
    pub named : IsName (buf_from 0 (copy_at 0 buf b)) (nlen (copy_at 0 buf b))

  -- The name in the request.
  abbrev pub request_name : List ℕ → Buffer → List ℕ
  request_name buf b = key_of (buf_from 0 (copy_at 0 buf b)) (nlen (copy_at 0 buf b))

  -- What follows the reception: the table and the queues.
  pub record Requested (w w' : World F.Queue) (k : List ℕ) (client : SockaddrIn) (code : ℤ)
      : Type 0 where
    pub stored : Stored k client w.nut_table (w'.nut_table, code)
    pub passed : w'.simtoreal_interest_queue ≡ (
        if is_one code
        then F.enqueue w.simtoreal_interest_queue (free_front w)
        else w.simtoreal_interest_queue)
    pub taken : w'.freebuf_list ≡ (F.dequeue w.freebuf_list).1
    pub interests : w'.realtosim_interest_queue ≡ w.realtosim_interest_queue
    pub data_ : w'.simtoreal_data_queue ≡ w.simtoreal_data_queue
    pub answers : w'.realtosim_data_queue ≡ w.realtosim_data_queue

  -- The buffer is out of the free list and holds the request.
  abbrev pub received : World F.Queue → List ℕ → Buffer → World F.Queue
  received w buf b = record w {
    freebuf_list = (F.dequeue w.freebuf_list).1;
    buffers = put w.buffers (free_front w) (copy_at 0 buf b);
  }

  pass_interest-Requested :
      (w : World F.Queue) (buf : List ℕ) (b : Buffer) (k : List ℕ) (client : SockaddrIn)
      (r : Nut × ℤ)
      → Stored k client w.nut_table r
      → Requested w (pass_interest F (free_front w) r (received w buf b)) k client r.1
  unfolding pass_interest
  pass_interest-Requested w buf b k client r stored = elim (Bool-cases (is_one r.1)) [
    | inl one ↦ rw one (record {
      stored = stored;
      passed = rw one;
      taken = refl;
      interests = refl;
      data_ = refl;
      answers = refl;
    })
    | inr other ↦ rw other (record {
      stored = stored;
      passed = rw other;
      taken = refl;
      interests = refl;
      data_ = refl;
      answers = refl;
    })
  ]

  module _ (w : World F.Queue) (buf : List ℕ) (b : Buffer) (q : IsRequest w buf b) (m : Malloc)
      (mt : Block) (client : SockaddrIn) where
    pub udp_interest_body-pass_interest :
        (r : Nut × ℤ)
        → nut_set
            (some mt)
            w.nut_table
            (buf_from 0 (copy_at 0 buf b))
            (nlen (copy_at 0 buf b))
            client
          ≡ some r
        → udp_interest_body F m (some mt) buf client w
          ≡ some (pass_interest F (free_front w) r (received w buf b))
    unfolding udp_interest_body take_buffer update_buffer
    udp_interest_body-pass_interest r e =
        let some_ : (length buf == 0) ≡ false = let h = q.some_bytes in ground arith in
        let fits : leb (length buf) 2048 ≡ true = let h = q.fits in ground arith in
        let there : (free_front w == 0) ≡ false = let h = q.ne_null in ground arith in
        let own : (free_front w == free_front w) ≡ true = ground arith in
        rw (some_, there, fits, q.there, own, e)

    -- When udp_interest_in receives a request that fits into the first buffer of the free list,
    -- whose name lies inside of it, with a valid table of less than 2^30 cells and memory for a
    -- larger one: the table is as nut_set of the name and the client makes it, the buffer is
    -- passed on exactly if nut_set returned 1, and the other queues stay.
    pub udp_interest_body-Requested :
        (w' : World F.Queue) × (code : ℤ) × (udp_interest_body F m (some mt) buf client w ≡ some w')
        × Requested w w' (request_name buf b) client code
    udp_interest_body-Requested =
        let (r, e, stored) =
          nut_set-bind_addr mt w.nut_table (buf_from 0 (copy_at 0 buf b)) (nlen (copy_at 0 buf b))
            client q.valid q.named q.room in
        (
          pass_interest F (free_front w) r (received w buf b),
          r.1,
          udp_interest_body-pass_interest r e,
          pass_interest-Requested w buf b (request_name buf b) client r stored,
        )

    -- When udp_interest_in receives such a request from a client that waits for the name already,
    -- or while eight others do, and the buffer was in one place, then the buffer is in no queue
    -- and in no hand afterwards.
    pub udp_interest_body-leak :
        (hand : ℕ → ℕ)
        → IsOwned F w hand
        → is_one (bind_addr (waiting w.nut_table (request_name buf b)) client).1 ≡ false
        → (w' : World F.Queue) × (udp_interest_body F m (some mt) buf client w ≡ some w')
          × (places F w' (free_front w) + hand (free_front w) ≡ 0)
    udp_interest_body-leak hand o other =
        let (w', code, e, done) = udp_interest_body-Requested in
        let refused : is_one code ≡ false = rw done.stored.code other in
        let moved = (dequeue-Taken F w.freebuf_list).one q.ne_null (free_front w) in
        let once = o.once (free_front w) q.ne_null in
        let self : is_at (free_front w) (free_front w) ≡ 1 = ground arith in
        (
          w',
          e,
          rw (done.passed, done.taken, done.interests, done.data_, done.answers, refused)
              (omega (arith, moved, once, self)),
        )
