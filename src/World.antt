-- ===== src/World.antt =====
-- The globals of adaptor/adaptor.c: the name table, the five queues and the buffers they point
-- to; and what every coroutine of adaptor/udp_adaptor.c and adaptor/nip_adaptor.c does with a
-- buffer. `none` is an access outside an object.
pub mod Owned
pub mod InHand
use mixsim.Prelude.{
  ℕ, ◌≡◌, Bool, Option, none, some, List, ◌==◌, leb, if◌then◌else◌, ◌>>=◌, ◌>>◌, guard, length,
  take,
}
use mixsim.NutEntry.{SockaddrIn}
use mixsim.Nut.{Nut, EntryPtr}
use mixsim.Fifo.{Fifo}
use mixsim.Buffer.{Buffer}

pub record World (Q : Type 0) : Type 0 where
  pub nut_table : Nut
  pub realtosim_interest_queue : Q
  pub simtoreal_interest_queue : Q
  pub simtoreal_data_queue : Q
  pub realtosim_data_queue : Q
  pub freebuf_list : Q
  pub buffers : ℕ → Option Buffer

-- Where `udp_data_out` stands: at the head of its loop, or in the `dyco_sendto` to address `i` of
-- an entry, with the buffer at `p`.
pub data DataOut : Type 0 where
  idle : DataOut
  sending : (p : ℕ) (entry : EntryPtr) (i : ℕ) → DataOut

-- The globals and the coroutines that can be suspended with a buffer in hand: its address, or 0 at
-- the head of the loop.
pub record System (Q : Type 0) : Type 0 where
  pub world : World Q
  pub open world use *
  pub udp_interest : ℕ
  pub udp_data : DataOut
  pub nip_data : ℕ
  pub nip_interest : ℕ

-- What leaves the adaptor: a datagram with a whole buffer, or a call of `isend` with the type, the
-- name's length, the offset of the data in `buf`, and the data's length.
pub data Packet : Type 0 where
  datagram : SockaddrIn → Buffer → Packet
  isent : (type_ : ℕ) → Buffer → (nlen data_at dlen : ℕ) → Packet

-- What `malloc(sizeof(simple_name_data))` returns, if not NULL.
abbrev pub Malloc : Type 0
Malloc = Option (ℕ × Buffer)

abbrev pub put {ℓ} : {A : Type ℓ} → (ℕ → Option A) → ℕ → A → ℕ → Option A
put f p b q = if q == p then some b else f q

-- `memcpy` from an array of the given bytes.
unfoldable pub read_bytes : ℕ → List ℕ → Option (List ℕ)
read_bytes n xs = do guard (leb n (length xs)); some (take n xs)

module _ {Q : Type 0} where
  -- A write through a pointer to a buffer.
  unfoldable pub update_buffer : ℕ → (Buffer → Buffer) → World Q → Option (World Q)
  update_buffer p f w = do b ← w.buffers p; some (record w { buffers = put w.buffers p (f b) })

-- `lfq_dequeue(&freebuf_list)`, and a `malloc` if that is NULL. A NULL of `malloc` is a fault, for
-- every caller goes on to write through it.
unfoldable pub take_buffer : (F : Fifo) → Malloc → World F.Queue → Option (ℕ × World F.Queue)
take_buffer F m w =
    let (p, q) = F.dequeue w.freebuf_list in
    if p == 0
    then (elim m [
      | none ↦ none
      | some (fresh, junk) ↦
          some (fresh, record w { freebuf_list = q; buffers = put w.buffers fresh junk })
    ])
    else some (p, record w { freebuf_list = q })

unfoldable pub release : (F : Fifo) → ℕ → World F.Queue → World F.Queue
release F p w = record w { freebuf_list = F.enqueue w.freebuf_list p }
