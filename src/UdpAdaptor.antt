-- ===== src/UdpAdaptor.antt =====
-- The coroutines of adaptor/udp_adaptor.c. The body of a receiving loop is one function of what
-- was received; a sending loop is a function of the system that runs from one suspension, in a
-- `dyco_` call, to the next, and returns what it sends.
pub mod Owned
pub mod Deliver
pub mod Request
pub mod Overlong
mod Tests
use mixsim.Prelude.{
  ℕ, ◌+◌, Bool, true, false, Option, none, some, List, [], ◌∷◌, ltb, leb, ◌==◌, if◌then◌else◌, ℤ,
  pos, negsuc, ◌>>=◌, ◌>>◌, guard, length, take,
}
use mixsim.NutEntry.{max_addr_pername, SockaddrIn}
use mixsim.Nut.{Block, Nut, EntryPtr, nut_set, nut_get, read_entry, nut_del}
use mixsim.Fifo.{Fifo}
use mixsim.Buffer.{Buffer, buffer_size, copy_at, nlen, buf_from}
use mixsim.World.{
  World, DataOut, idle, sending, System, Packet, datagram, Malloc, update_buffer, take_buffer,
  release,
}

-- `inet_addr("192.168.3.168")`, port 8787
abbrev pub simulator : SockaddrIn
simulator = record { sin_family = 2; sin_port = 8787; s_addr = 0xa803a8c0 }

abbrev pub is_one : ℤ → Bool
is_one (pos n) = n == 1
is_one (negsuc n) = false

module _ (F : Fifo) where
  -- The rest of the loop's body for the bytes in `buf`; none are there after an error.
  unfoldable pub udp_data_body : Malloc → (buf : List ℕ) → World F.Queue → Option (World F.Queue)
  udp_data_body m buf w = if length buf == 0 then some w else do
    (data_, w) ← take_buffer F m w
    guard (leb (length buf) buffer_size)
    w ← update_buffer data_ (copy_at 0 buf) w
    some (record w { simtoreal_data_queue = F.enqueue w.simtoreal_data_queue data_ })

  -- `dyco_recv` gives at most 4096 bytes of the datagram.
  unfoldable pub udp_data_in : Malloc → List ℕ → World F.Queue → Option (World F.Queue)
  udp_data_in m received = udp_data_body m (take 4096 received)

  -- The last test of the body: a request that waits already is not passed on.
  unfoldable pub pass_interest : ℕ → Nut × ℤ → World F.Queue → World F.Queue
  pass_interest interest r w =
      let w' = record w { nut_table = r.0 } in
      if is_one r.1
      then record w' { simtoreal_interest_queue = F.enqueue w'.simtoreal_interest_queue interest }
      else w'

  -- `mt` is for the `malloc` of `nut_grow`.
  unfoldable pub udp_interest_body :
      Malloc
      → (mt : Option Block) (buf : List ℕ) → SockaddrIn
      → World F.Queue
      → Option (World F.Queue)
  udp_interest_body m mt buf clientaddr w = if length buf == 0 then some w else do
    (interest, w) ← take_buffer F m w
    guard (leb (length buf) buffer_size)
    w ← update_buffer interest (copy_at 0 buf) w
    b ← w.buffers interest
    r ← nut_set mt w.nut_table (buf_from 0 b) (nlen b) clientaddr
    some (pass_interest interest r w)

  -- `dyco_recvfrom` gives at most 2048 bytes of the datagram, and the sender.
  unfoldable pub udp_interest_in :
      Malloc → (mt : Option Block) → List ℕ → SockaddrIn → World F.Queue → Option (World F.Queue)
  udp_interest_in m mt received = udp_interest_body m mt (take 2048 received)

  unfoldable pub udp_interest_out : System F.Queue → Option (System F.Queue × List Packet)
  udp_interest_out s =
      if s.udp_interest == 0
      then (let (interest, q) = F.dequeue s.realtosim_interest_queue in
          some (
            record s {
              world = record s.world { realtosim_interest_queue = q };
              udp_interest = interest;
            },
            [],
          ))
      else do
        b ← s.buffers s.udp_interest
        some (
          record s { world = release F s.udp_interest s.world; udp_interest = 0 },
          datagram simulator b ∷ [],
        )

  -- The test of the loop over the addresses, and what follows the loop.
  unfoldable pub data_out_test : ℕ → EntryPtr → ℕ → System F.Queue → Option (System F.Queue)
  data_out_test p entry i s = do
    e ← read_entry s.nut_table entry
    if ltb i e.addr_num then some (record s { udp_data = sending p entry i }) else do
      t ← nut_del s.nut_table entry
      some (record s { world = release F p (record s.world { nut_table = t }); udp_data = idle })

  -- At the head of the loop: `none` of `nut_get` is NULL, and then the loop goes on with the next
  -- buffer.
  unfoldable pub data_out_start : System F.Queue → Option (System F.Queue)
  data_out_start s =
      let (p, q) = F.dequeue s.realtosim_data_queue in
      let s' = record s { world = record s.world { realtosim_data_queue = q } } in
      if p == 0 then some s' else do
        b ← s.buffers p
        r ← nut_get s.nut_table (buf_from 0 b) (nlen b)
        elim r [ none ↦ some s' | some entry ↦ data_out_test p entry 0 s' ]

  unfoldable pub data_out_next : DataOut → System F.Queue → Option (System F.Queue × List Packet)
  data_out_next idle s = do s ← data_out_start s; some (s, [])
  data_out_next (sending p entry i) s = do
    e ← read_entry s.nut_table entry
    guard (ltb i max_addr_pername)
    b ← s.buffers p
    s ← data_out_test p entry (i + 1) s
    some (s, datagram (e.addr i) b ∷ [])

  unfoldable pub udp_data_out : System F.Queue → Option (System F.Queue × List Packet)
  udp_data_out s = data_out_next s.udp_data s
