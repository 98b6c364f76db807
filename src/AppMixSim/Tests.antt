-- ===== src/AppMixSim/Tests.antt =====
-- Packets, routes and ticks of the application, over names that are a URI and numbers.
use mixsim.Prelude.{
  bytes_eq, if◌then◌else◌, ℕ, Option, ◌+◌, ◌^◌, ◌≡◌, refl, true, false, none, some, List, [], ◌∷◌,
  ◌==◌, if◌then◌else◌, length, All, arith, pos, negsuc,
}
use mixsim.CText.{codes, print_uint, written}
use mixsim.NutEntry.{SockaddrIn}
use mixsim.Buffer.{Buffer, copy_at, set_nlen, set_dlen, nlen, dlen, get_u32, put_u32}
use mixsim.Fifo.{list_fifo}
use mixsim.World.{World}
use mixsim.NipAdaptor.{IsockBuf, nip_data_in, nip_interest_in}
use mixsim.Ndn.{Interest, Data, Packet, interest}
use mixsim.Ndn.Numbered.{numbered_names}
use mixsim.AppMixSim.{
  Started, send_ndn_nack, data_udpfd, send_udp_interest, AppMixSim, Datagram, interest_udpfd,
  put_name, split_name, register_fib, receive, send_ndn_interest, send_udp_interest, send_ndn_data,
  send_udp_data, send_udp_nack, start_application,
}
use mixsim.CText.Decimal.{print_uint-IsDigit}
use mixsim.AppMixSim.Names.{digits-IsNotSlash, put_name-Spells, split_name-overflow}
use mixsim.AppMixSim.Trip.{
  IsSent, IsPrintable, send_ndn_interest-nip_interest_in, send_ndn_data-send_udp_nack,
  send_ndn_data-nip_data_in,
}
use mixsim.AppMixSim.Create.{
  FdCalls, Descriptors, setnonblocking, open_socket, app_attributes, create, app_scenario,
}
use mixsim.ProducerVirtual.{ProducerVirtual}
use mixsim.ProducerVirtual
use mixsim.AppMixSim.Fib.{join, HasNoDollar, join-register_fib}
use mixsim.AppMixSim.Clock.{Reading, run_ticks, Ticked, IsReadable, run_ticks-Ticked}

abbrev prefix_a : List ℕ × List ℕ
prefix_a = (codes "/a", [])

abbrev name_a : List ℕ × List ℕ
name_a = (codes "/a", 7 ∷ [])

name_a-IsPrintable : IsPrintable numbered_names name_a prefix_a 7
unfolding print_uint
name_a-IsPrintable = record {
  made = refl;
  canonical = refl;
  bytes = (omega arith, (omega arith, tt));
  fits = omega arith;
  small = omega arith;
}

abbrev address : SockaddrIn
address = record { sin_family = 2; sin_port = 8797; s_addr = 16777343 }

abbrev app : AppMixSim numbered_names
app = record {
  m_prefixes = codes "/a$/b";
  m_interest_lport = 8890;
  m_data_lport = 8891;
  m_interest_rport = 8798;
  m_data_rport = 8797;
  m_raip = codes "127.0.0.1";
  m_interest_raddr = address;
  m_data_raddr = address;
  m_start = record { tv_sec = 100; tv_usec = 999000 };
  m_totalticks = 0;
  m_case1ticks = 0;
  m_case2ticks = 0;
  m_signature = 0;
}

abbrev interest_a : Interest numbered_names
interest_a = record { name = name_a; nonce = none; can_be_prefix = true; lifetime = 4000 }

abbrev data_a : Data numbered_names
data_a = record {
  name = name_a;
  freshness = 0;
  content = 1 ∷ 2 ∷ 3 ∷ [];
  signature_info = record { type_ = 255; key_locator = none };
  signature_value = [];
}

-- What `make_shared<Interest>()` gives.
abbrev interest_b : Interest numbered_names
interest_b = record { name = ([], []); nonce = none; can_be_prefix = false; lifetime = 4000 }

send_ndn_data-send_udp_nack_example :
    (g : Datagram) × (send_udp_nack numbered_names app interest_a (λ i. 1) ≡ some g)
    × (send_ndn_nack numbered_names interest_b g.payload
        ≡ some (record interest_b { name = name_a }))
    × ((d : Data numbered_names) × (send_ndn_data numbered_names app g.payload ≡ some d)
        × (d.name ≡ name_a)
        × (d.content ≡ []))
send_ndn_data-send_udp_nack_example =
    send_ndn_data-send_udp_nack numbered_names name_a prefix_a 7 name_a-IsPrintable app app
      interest_a interest_b (λ i. 1) refl

-- The datagram of the data, and what the adaptors exchange for it.
abbrev datagram_a : Datagram
datagram_a = record {
  socket = interest_udpfd;
  to = address;
  payload = copy_at 12 (1 ∷ 2 ∷ 3 ∷ []) (set_dlen 3 (put_name (codes "/a") 7 (λ i. 0)));
}

data_a-datagram_a : send_udp_data numbered_names app data_a (λ i. 0) ≡ some datagram_a
unfolding send_udp_data print_uint
data_a-datagram_a = refl

abbrev packet_a : IsockBuf
packet_a = record { name = codes "/a/7"; nlen = 4; content = 1 ∷ 2 ∷ 3 ∷ []; dlen = 3; d_type = 0 }

packet_a-IsSent : IsSent datagram_a.payload packet_a
unfolding put_name written print_uint copy_at set_nlen set_dlen nlen dlen get_u32 put_u32
packet_a-IsSent = record { name_len = refl; name_bytes = refl; data_len = refl; data_bytes = refl }

abbrev world : World (List ℕ)
world = record {
  nut_table = record { table_cap = 0; entry_num = 0; base = 0; entries = []; kept = [] };
  realtosim_interest_queue = [];
  simtoreal_interest_queue = [];
  simtoreal_data_queue = [];
  realtosim_data_queue = [];
  freebuf_list = 24 ∷ [];
  buffers = λ p. if p == 24 then some (λ i. 2) else none;
}

-- The datagram of the Interest, and what the adaptors exchange for it.
abbrev datagram_i : Datagram
datagram_i = record {
  socket = data_udpfd;
  to = address;
  payload = set_dlen 0 (put_name (codes "/a") 7 (λ i. 0));
}

interest_a-datagram_i : send_udp_interest numbered_names app interest_a (λ i. 0) ≡ some datagram_i
unfolding send_udp_interest print_uint
interest_a-datagram_i = refl

abbrev packet_i : IsockBuf
packet_i = record { name = codes "/a/7"; nlen = 4; content = []; dlen = 0; d_type = 0 }

packet_i-IsSent : IsSent datagram_i.payload packet_i
unfolding put_name written print_uint copy_at set_nlen set_dlen nlen dlen get_u32 put_u32
packet_i-IsSent = record { name_len = refl; name_bytes = refl; data_len = refl; data_bytes = refl }

send_ndn_interest-nip_interest_in_example :
    (w : World (List ℕ)) × (b : Buffer) × (nip_interest_in list_fifo none packet_i world ≡ some w)
    × (w.buffers 24 ≡ some b)
    × (w.realtosim_interest_queue ≡ 24 ∷ [])
    × (send_ndn_interest numbered_names 55 b
        ≡ some (record { name = name_a; nonce = some 55; can_be_prefix = false; lifetime = 2000 }))
send_ndn_interest-nip_interest_in_example =
    send_ndn_interest-nip_interest_in numbered_names name_a prefix_a 7 name_a-IsPrintable app
      interest_a (λ i. 0) datagram_i list_fifo world packet_i (λ i. 2) none 55 refl
      interest_a-datagram_i packet_i-IsSent
      (record { ne_null = omega arith; there = refl; fits = omega arith; name_there = omega arith })

send_ndn_data-nip_data_in_example :
    (w : World (List ℕ)) × (b : Buffer) × (nip_data_in list_fifo none packet_a world ≡ some w)
    × (w.buffers 24 ≡ some b)
    × ((d : Data numbered_names) × (send_ndn_data numbered_names app b ≡ some d)
        × (d.name ≡ name_a)
        × (d.content ≡ 1 ∷ 2 ∷ 3 ∷ []))
unfolding print_uint
send_ndn_data-nip_data_in_example =
    send_ndn_data-nip_data_in numbered_names name_a prefix_a 7 name_a-IsPrintable app app data_a
      (λ i. 0) datagram_a list_fifo world packet_a (λ i. 2) none refl (omega arith)
      data_a-datagram_a packet_a-IsSent
      (record {
        ne_null = omega arith;
        there = refl;
        no_nack = omega arith;
        short = omega arith;
        name_there = omega arith;
        small = omega arith;
        data_there = omega arith;
      })

-- A name with the number 10^9.
abbrev long_name : Buffer
long_name = put_name (codes "/a") (10 ^ 9) (λ i. 0)

split_name-overflow_example : split_name long_name ≡ none
unfolding print_uint
split_name-overflow_example =
    split_name-overflow long_name (codes "/a") (codes "1000000000")
      (put_name-Spells (codes "/a") (10 ^ 9) (λ i. 0) (omega arith))
      (digits-IsNotSlash (print_uint (10 ^ 9)) (print_uint-IsDigit (10 ^ 9))) (omega arith)
      (omega arith)

routes_of_two : register_fib (codes "/a$/b") ≡ codes "/a" ∷ codes "/b" ∷ []
unfolding register_fib
routes_of_two = refl

join-register_fib_example :
    (join (register_fib (codes "/a$$")) ≡ codes "/a$$")
    × All HasNoDollar (register_fib (codes "/a$$"))
    × (length (register_fib (codes "/a$$")) ≡ 3)
join-register_fib_example = join-register_fib (codes "/a$$") cc

-- The datagram of a request on the socket for Interests: the name "/a/7".
abbrev request_bytes : List ℕ
request_bytes = 4 ∷ 0 ∷ 0 ∷ 0 ∷ 0 ∷ 0 ∷ 0 ∷ 0 ∷ codes "/a/7"

abbrev quiet_tick : Reading numbered_names
quiet_tick = record {
  nonce = 1;
  on_interest = [];
  on_data = [];
  recv_buf = λ i. 0;
  curr = record { tv_sec = 100; tv_usec = 999500 };
}

abbrev busy_tick : Reading numbered_names
busy_tick = record quiet_tick {
  nonce = 2;
  on_interest = request_bytes;
  curr = record { tv_sec = 101; tv_usec = 0 };
}

quiet_tick-IsReadable : IsReadable numbered_names quiet_tick
unfolding receive
quiet_tick-IsReadable = record {
  first = (λ i. 0, []);
  second = λ s. (λ i. 0, []);
  on_interest_ok = refl;
  on_data_ok = λ s. refl;
}

busy_tick-IsReadable : IsReadable numbered_names busy_tick
unfolding receive send_ndn_interest copy_at nlen get_u32
busy_tick-IsReadable = record {
  first = (
    copy_at 0 request_bytes (λ i. 0),
    interest (record { name = name_a; nonce = some 2; can_be_prefix = false; lifetime = 2000 })
        ∷ [],
  );
  second = λ s. (copy_at 0 request_bytes (λ i. 0), []);
  on_interest_ok = refl;
  on_data_ok = λ s. refl;
}

run_ticks-Ticked_example :
    (u : AppMixSim numbered_names × List (Packet numbered_names) × ℕ) × (run_ticks numbered_names
        app 0
        (quiet_tick ∷ busy_tick ∷ [])
      ≡ some u)
    × Ticked numbered_names app u.0 2
    × (100999000 + u.2 ≡ 101000000)
run_ticks-Ticked_example =
    run_ticks-Ticked numbered_names (quiet_tick ∷ busy_tick ∷ []) app 0
      (quiet_tick-IsReadable, (busy_tick-IsReadable, tt)) (omega arith, (omega arith, tt))

-- The second socket cannot be bound.
-- The address of the adaptor, as the attribute and its default write it.
abbrev inet_addr : List ℕ → ℕ
inet_addr text = if bytes_eq text (codes "192.168.3.216") then 0xd803a8c0 else 0x0100007f

exit_of_app : start_application numbered_names app inet_addr (pos 0) (negsuc 0) app.m_start ≡ none
unfolding start_application
exit_of_app = refl

abbrev provider : ProducerVirtual numbered_names
provider = record {
  m_prefix = ([], []);
  m_postfix = ([], []);
  m_virtual_payload_size = 0;
  m_freshness = 0;
  m_signature = 0;
  m_key_locator = ([], []);
  m_interest_name = ([], []);
  m_active = true;
}

abbrev no_datagram : Datagram
no_datagram = record { socket = data_udpfd; to = address; payload = λ i. 0 }

abbrev value : {A : Type 0} → A → Option A → A
value a none = a
value a (some b) = b

abbrev good_calls : ℕ → FdCalls
good_calls n = record { fd = pos n; flag = pos 2; result = pos 0 }

abbrev created : AppMixSim numbered_names × Descriptors
created = (
  record app { m_totalticks = 0; m_case1ticks = 0; m_case2ticks = 0 },
  record {
    interest_udpfd = record { fd = pos 3; nonblocking = true };
    data_udpfd = record { fd = pos 4; nonblocking = true };
  },
)

-- A socket that cannot be opened ends the program.
create_exits :
    create numbered_names
      (good_calls 3)
      (record { fd = negsuc 23; flag = pos 2; result = pos 0 })
      app
    ≡ none
unfolding create open_socket setnonblocking
create_exits = refl

abbrev running : Started numbered_names
running =
    value (record { app = app; binds = []; routes = [] })
      (start_application numbered_names
        (app_scenario numbered_names (app_attributes numbered_names created.0)) inet_addr (pos 0)
        (pos 0) app.m_start)
