-- ===== src/NipAdaptor.antt =====
-- The coroutines of adaptor/nip_adaptor.c, in the form of those of `UdpAdaptor`.
pub mod Owned
pub mod Content
pub mod Arrival
mod Tests
use mixsim.Prelude.{
  ℕ, ◌+◌, ◌%◌, ◌^◌, Bool, true, false, Option, none, some, List, [], ◌∷◌, ltb, leb, ◌==◌,
  if◌then◌else◌, ◌>>=◌, ◌>>◌, guard, length, take,
}
use mixsim.Fifo.{Fifo}
use mixsim.Buffer.{Buffer, buf_size, copy_at, nlen, dlen, set_nlen, set_dlen}
use mixsim.World.{
  World, System, Packet, isent, Malloc, read_bytes, update_buffer, take_buffer, release,
}

abbrev pub type_interest : ℕ
type_interest = 5

abbrev pub type_data : ℕ
type_data = 6

abbrev pub d_nack : ℕ
d_nack = 1

-- What `irecv` left in `struct isockbuf` and in the arrays behind `name` and `data`.
pub record IsockBuf : Type 0 where
  pub name : List ℕ
  pub nlen : ℕ
  pub content : List ℕ
  pub dlen : ℕ
  pub d_type : ℕ

module _ (F : Fifo) where
  unfoldable pub nip_interest_in : Malloc → IsockBuf → World F.Queue → Option (World F.Queue)
  nip_interest_in m ibuf w = do
    (interest, w) ← take_buffer F m w
    w ← update_buffer interest (set_nlen ibuf.nlen) w
    bytes ← read_bytes ibuf.nlen ibuf.name
    guard (leb ibuf.nlen buf_size)
    w ← update_buffer interest (λ b. set_dlen 0 (copy_at 8 bytes b)) w
    some (record w { realtosim_interest_queue = F.enqueue w.realtosim_interest_queue interest })

  -- The content of a packet, behind the name.
  unfoldable pub copy_content : ℕ → IsockBuf → World F.Queue → Option (World F.Queue)
  copy_content p ibuf w = if ibuf.d_type == d_nack then update_buffer p (set_dlen 0) w else do
    w ← update_buffer p (set_dlen (ibuf.dlen % 2 ^ 32)) w
    bytes ← read_bytes (ibuf.dlen % 2 ^ 32) ibuf.content
    guard (leb (ibuf.nlen + ibuf.dlen % 2 ^ 32) buf_size)
    update_buffer p (copy_at (8 + ibuf.nlen) bytes) w

  unfoldable pub nip_data_in : Malloc → IsockBuf → World F.Queue → Option (World F.Queue)
  nip_data_in m ibuf w = do
    (data_, w) ← take_buffer F m w
    w ← update_buffer data_ (set_nlen ibuf.nlen) w
    bytes ← read_bytes ibuf.nlen ibuf.name
    guard (leb ibuf.nlen buf_size)
    w ← update_buffer data_ (copy_at 8 bytes) w
    w ← copy_content data_ ibuf w
    some (record w { realtosim_data_queue = F.enqueue w.realtosim_data_queue data_ })

  unfoldable pub nip_data_out : System F.Queue → Option (System F.Queue × List Packet)
  nip_data_out s =
      if s.nip_data == 0
      then (let (databuf, q) = F.dequeue s.simtoreal_data_queue in
          some (
            record s { world = record s.world { simtoreal_data_queue = q }; nip_data = databuf },
            [],
          ))
      else do
        b ← s.buffers s.nip_data
        some (
          record s { world = release F s.nip_data s.world; nip_data = 0 },
          isent type_data b (nlen b % 2 ^ 16) (nlen b) (dlen b) ∷ [],
        )

  unfoldable pub nip_interest_out : System F.Queue → Option (System F.Queue × List Packet)
  nip_interest_out s =
      if s.nip_interest == 0
      then (let (interestbuf, q) = F.dequeue s.simtoreal_interest_queue in
          some (
            record s {
              world = record s.world { simtoreal_interest_queue = q };
              nip_interest = interestbuf;
            },
            [],
          ))
      else do
        b ← s.buffers s.nip_interest
        some (
          record s { world = release F s.nip_interest s.world; nip_interest = 0 },
          isent type_interest b (nlen b % 2 ^ 16) (nlen b) 0 ∷ [],
        )
