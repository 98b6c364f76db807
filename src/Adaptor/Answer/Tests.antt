-- ===== src/Adaptor/Answer/Tests.antt =====
-- A client that asks for "ab" while another one waits for it.
use mixsim.Prelude.{
  ℕ, ◌+◌, ◌<◌, ◌≡◌, refl, sym, zero, suc, get_elem?, some_eq, none, some, List, [], ◌∷◌, arith,
  ◌==◌, if◌then◌else◌,
}
use mixsim.NutEntry.{cut_name, cut_nlen, is_long, same_addr}
use mixsim.NutEntry.Addrs.{has_addr}
use mixsim.Nut.View.{lookup}
use mixsim.Nut.Valid.{bind_addr}
use mixsim.Nut.Tests.{one_name, one_name-IsValid, port, block}
use mixsim.Buffer.{nlen, buf_from, copy_at, get_u32, length-buf_from}
use mixsim.Fifo.{list_fifo}
use mixsim.World.{System, idle}
use mixsim.World.Owned.{IsOwned}
use mixsim.UdpAdaptor.Request.{IsRequest}
use mixsim.NipAdaptor.{IsockBuf}
use mixsim.Adaptor.Names.{IsAnswer}
use mixsim.Adaptor.Answer.{Answered, udp_interest_in-Answered}

-- One buffer is free.
abbrev system : System (List ℕ)
system = record {
  world = record {
    nut_table = one_name;
    realtosim_interest_queue = [];
    simtoreal_interest_queue = [];
    simtoreal_data_queue = [];
    realtosim_data_queue = [];
    freebuf_list = 16 ∷ [];
    buffers = λ p. if p == 16 then some (λ i. 0) else none;
  };
  udp_interest = 0;
  udp_data = idle;
  nip_data = 0;
  nip_interest = 0;
}

abbrev request : List ℕ
request = 2 ∷ 0 ∷ 0 ∷ 0 ∷ 0 ∷ 0 ∷ 0 ∷ 0 ∷ 97 ∷ 98 ∷ []

system-IsRequest : IsRequest list_fifo system.world request (λ i. 0)
unfolding nlen get_u32 copy_at
system-IsRequest = record {
  some_bytes = omega arith;
  fits = omega arith;
  ne_null = omega arith;
  there = refl;
  valid = one_name-IsValid;
  room = omega arith;
  named = record {
    inside = omega (arith, length-buf_from 0 (copy_at 0 request (λ j. 0)));
    positive = omega arith;
  };
}

system-IsOwned : IsOwned list_fifo system.world (λ p. 0)
system-IsOwned = record {
  once = λ p ne. ground arith;
  live = λ p ne h. ground arith;
  no_null = refl;
}

-- Data of three bytes for "ab".
abbrev packet : IsockBuf
packet = record { name = 97 ∷ 98 ∷ []; nlen = 2; content = 1 ∷ 2 ∷ 3 ∷ []; dlen = 3; d_type = 0 }

same_bytes_ab :
    (i x : ℕ) → i < 2 → get_elem? packet.name i ≡ some x → x ≡ copy_at 0 request (λ j. 0) (8 + i)
unfolding copy_at
same_bytes_ab zero x h e = sym (some_eq e)
same_bytes_ab (suc zero) x h e = sym (some_eq e)
same_bytes_ab (suc (suc i)) x h e = absurd (omega arith)

packet-IsAnswer : IsAnswer (copy_at 0 request (λ i. 0)) packet
unfolding nlen get_u32 copy_at
packet-IsAnswer = record {
  same_len = refl;
  same_name = same_bytes_ab;
  no_nack = omega arith;
  name_there = omega arith;
  data_there = omega arith;
  fits = omega arith;
}

udp_interest_in-Answered_example :
    Answered list_fifo system none none
      (block 0x2000)
      request
      (copy_at 0 request (λ i. 0))
      (port 4)
      packet
unfolding lookup nlen get_u32 buf_from copy_at cut_name cut_nlen is_long has_addr bind_addr
    same_addr
udp_interest_in-Answered_example =
    udp_interest_in-Answered list_fifo system request (λ i. 0) system-IsRequest none none
      (block 0x2000) (port 4) packet (λ p. 0) refl
      (record { interest_idle = refl; data_idle = refl; no_interest = refl; no_data = refl })
      system-IsOwned packet-IsAnswer
