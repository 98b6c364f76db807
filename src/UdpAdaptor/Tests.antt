-- ===== src/UdpAdaptor/Tests.antt =====
-- The theorems on the UDP coroutines at a table in which one client waits for "ab".
use mixsim.Prelude.{
  leb, ℕ, ◌+◌, ◌≡◌, refl, none, some, List, [], ◌∷◌, arith, ◌==◌, if◌then◌else◌, tabulate, ℤ,
  length, bytes_eq,
}
use mixsim.NutEntry.{cut_name, cut_nlen, is_long, same_addr}
use mixsim.Nut.View.{lookup}
use mixsim.NutEntry.Addrs.{has_addr}
use mixsim.Nut.Valid.{IsValid, waiting, bind_addr}
use mixsim.Nut.Tests.{one_name, one_name-IsValid, port, block}
use mixsim.Buffer.{Buffer, nlen, buf_from, copy_at, get_u32, length-buf_from}
use mixsim.Fifo.{list_fifo}
use mixsim.World.{World, System, idle}
use mixsim.World.Owned.{IsOwned, places}
use mixsim.UdpAdaptor.{udp_interest_body, udp_data_in}
use mixsim.UdpAdaptor.Overlong.{runs, udp_data_in-runs}
use mixsim.UdpAdaptor.Deliver.{run_data_out, to_each, IsNext, name_of, udp_data_out-to_each}
use mixsim.UdpAdaptor.Request.{
  IsRequest, Requested, request_name, udp_interest_body-Requested, udp_interest_body-leak,
}

-- A buffer with the name "ab".
abbrev ab_buffer : Buffer
ab_buffer i = if i == 0 then 2 else if i == 8 then 97 else if i == 9 then 98 else 0

-- The buffer 8 is in the queue of data for the clients, and the buffer 16 is free.
abbrev world : World (List ℕ)
world = record {
  nut_table = one_name;
  realtosim_interest_queue = [];
  simtoreal_interest_queue = [];
  simtoreal_data_queue = [];
  realtosim_data_queue = 8 ∷ [];
  freebuf_list = 16 ∷ [];
  buffers = λ p. if p == 8 then some ab_buffer else if p == 16 then some (λ i. 0) else none;
}

abbrev system : System (List ℕ)
system = record { world = world; udp_interest = 0; udp_data = idle; nip_data = 0; nip_interest = 0 }

system-IsNext : IsNext list_fifo system ab_buffer
unfolding nlen get_u32
system-IsNext = record {
  at_head = refl;
  ne_null = omega arith;
  there = refl;
  valid = one_name-IsValid;
  named = record { inside = omega (arith, length-buf_from 0 ab_buffer); positive = omega arith };
}

udp_data_out-to_each_example :
    (t : System (List ℕ)) × (run_data_out list_fifo 2 system
      ≡ some (t, to_each ab_buffer (port 1 ∷ [])))
    × (t.udp_data ≡ idle)
    × IsValid t.nut_table
    × ((j : List ℕ)
        → waiting t.nut_table j
          ≡ (if bytes_eq (name_of list_fifo ab_buffer) j then none else waiting one_name j))
    × (t.freebuf_list ≡ 16 ∷ 8 ∷ [])
unfolding lookup nlen get_u32 buf_from cut_name cut_nlen is_long
udp_data_out-to_each_example =
    udp_data_out-to_each list_fifo system ab_buffer system-IsNext (port 1 ∷ []) refl

-- A request for "ab".
abbrev request : List ℕ
request = 2 ∷ 0 ∷ 0 ∷ 0 ∷ 0 ∷ 0 ∷ 0 ∷ 0 ∷ 97 ∷ 98 ∷ []

world-IsRequest : IsRequest list_fifo world request (λ i. 0)
unfolding nlen get_u32 copy_at
world-IsRequest = record {
  some_bytes = omega arith;
  fits = omega arith;
  ne_null = omega arith;
  there = refl;
  valid = one_name-IsValid;
  room = omega arith;
  named = record {
    inside = omega (arith, length-buf_from 0 (copy_at 0 request (λ j. 0)));
    positive = omega arith;
  };
}

udp_interest_body-Requested_example :
    (w : World (List ℕ)) × (code : ℤ) × (udp_interest_body list_fifo none
        (some (block 0x2000))
        request
        (port 4)
        world
      ≡ some w)
    × Requested list_fifo world w (request_name list_fifo request (λ i. 0)) (port 4) code
udp_interest_body-Requested_example =
    udp_interest_body-Requested list_fifo world request (λ i. 0) world-IsRequest none (block 0x2000)
      (port 4)

world-IsOwned : IsOwned list_fifo world (λ p. 0)
world-IsOwned = record {
  once = λ p ne. ground arith;
  live = λ p ne h. ground arith;
  no_null = refl;
}

udp_interest_body-leak_example :
    (w : World (List ℕ)) × (udp_interest_body list_fifo none
        (some (block 0x2000))
        request
        (port 1)
        world
      ≡ some w)
    × (places list_fifo w 16 + 0 ≡ 0)
unfolding lookup nlen get_u32 buf_from copy_at cut_name cut_nlen is_long has_addr bind_addr
    same_addr
udp_interest_body-leak_example =
    udp_interest_body-leak list_fifo world request (λ i. 0) world-IsRequest none (block 0x2000)
      (port 1) (λ p. 0) world-IsOwned refl

-- The datagram of 3000 zeros into the buffer at 16.
udp_data_in-runs_example :
    runs (udp_data_in list_fifo none (tabulate 3000 (λ i. 0)) world)
    ≡ leb (length (tabulate {A = ℕ} 3000 (λ i. 0))) 2048
udp_data_in-runs_example =
    udp_data_in-runs list_fifo none world (λ i. 0) (omega arith) refl (tabulate 3000 (λ i. 0))
