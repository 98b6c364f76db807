-- ===== src/AppMixSim.antt =====
-- ndnSIM/apps/ndn-app-mixsim.cpp: the application in the simulation that speaks to the adaptor.
--
-- A datagram is a Buffer, the struct simple_name_data that both programs declare. What a
-- `recv`, the clocks and an uninitialised array hold are arguments. `none` is an access outside
-- an array, or an exception of ndn-cxx.
pub mod Names
pub mod Trip
pub mod Fib
pub mod Clock
pub mod Create
pub mod Wired
mod Tests
use mixsim.Prelude.{
  ℕ, zero, suc, ◌+◌, ◌-◌, ◌*◌, ◌%◌, ◌^◌, Bool, true, false, Option, none, some, List, [], ◌∷◌, ◌++◌,
  ltb, leb, ◌==◌, if◌then◌else◌, ℤ, pos, negsuc, ◌+ℤ◌, ◌-ℤ◌, ◌*ℤ◌, ◌>>=◌, ◌>>◌, guard, length, take,
  tabulate,
}
use mixsim.CText.{slash, print_uint, c_string, atoi, written, find_slash}
use mixsim.NutEntry.{SockaddrIn}
use mixsim.Buffer.{Buffer, buf_size, copy_at, nlen, dlen, set_nlen, set_dlen}
use mixsim.Ndn.{Ndn, Interest, SignatureInfo, Data, Packet, interest, data_packet, nack}

-- The bytes of `buf` from an offset on.
abbrev pub buf_at : Buffer → ℕ → ℕ → ℕ
buf_at b o i = b (8 + o + i)

-- "1 seperate name and seqnum": the name in front of the last slash and the number behind it.
-- `seqbuf` has ten bytes, one of them for the NUL.
unfoldable pub split_name : Buffer → Option (List ℕ × ℕ)
unfolding find_slash c_string atoi
split_name b = do
  guard (leb (nlen b) buf_size)
  idx ← find_slash (nlen b) (buf_at b 0)
  guard (ltb (nlen b - suc idx) 10)
  some (
    c_string (tabulate idx (buf_at b 0)),
    atoi (c_string (tabulate (nlen b - suc idx) (buf_at b (suc idx)))),
  )

-- The text of `snprintf(namedata.buf, 1024, "%s/%u", …)`.
abbrev pub name_text : List ℕ → ℕ → List ℕ
name_text name seq = name ++ slash ∷ print_uint seq

unfoldable pub put_name : List ℕ → ℕ → Buffer → Buffer
unfolding written
put_name name seq namedata =
    set_nlen (length (name_text name seq)) (copy_at 8 (written 1024 (name_text name seq)) namedata)

pub data Socket : Type 0 where
  interest_udpfd data_udpfd : Socket

-- A `sendto` of a whole buffer.
pub record Datagram : Type 0 where
  pub socket : Socket
  pub to : SockaddrIn
  pub payload : Buffer

pub record Timeval : Type 0 where
  pub tv_sec : ℕ
  pub tv_usec : ℕ

-- The parts of `m_prefixes` that `$` separates.
unfoldable pub split_prefixes : List ℕ → List ℕ → List (List ℕ)
split_prefixes last [] = last ∷ []
split_prefixes last (c ∷ buf) =
    let here = last ∷ split_prefixes [] buf in
    let on = split_prefixes (last ++ c ∷ []) buf in if c == b'$' then here else on

-- The names that are given to `FibHelper::AddRoute`.
unfoldable pub register_fib : List ℕ → List (List ℕ)
unfolding split_prefixes
register_fib prefixes = if length prefixes == 0 then [] else split_prefixes [] prefixes

module _ (N : Ndn) where
  open N use {
    Name, from_uri, to_uri, append_sequence_number, get_prefix, to_sequence_number, var_number,
  }

  pub record AppMixSim : Type 0 where
    pub m_prefixes : List ℕ
    pub m_interest_lport : ℕ
    pub m_data_lport : ℕ
    pub m_interest_rport : ℕ
    pub m_data_rport : ℕ
    pub m_raip : List ℕ
    pub m_interest_raddr : SockaddrIn
    pub m_data_raddr : SockaddrIn
    pub m_start : Timeval
    pub m_totalticks : ℕ
    pub m_case1ticks : ℕ
    pub m_case2ticks : ℕ
    pub m_signature : ℕ

  -- The name of a packet for a datagram.
  unfoldable pub packet_name : Buffer → Option Name
  unfolding split_name
  packet_name b = do r ← split_name b; some (append_sequence_number (from_uri r.0) r.1)

  unfoldable pub send_ndn_interest : (nonce : ℕ) → Buffer → Option (Interest N)
  unfolding packet_name
  send_ndn_interest nonce b = do
    iname ← packet_name b
    some (record { name = iname; nonce = some nonce; can_be_prefix = false; lifetime = 2000 })

  -- `setSignatureInfo` copies the info before `setKeyLocator` changes it.
  unfoldable pub send_ndn_data : AppMixSim → Buffer → Option (Data N)
  unfolding packet_name
  send_ndn_data s b = do
    dname ← packet_name b
    guard (leb (nlen b + dlen b) buf_size)
    some (record {
      name = dname;
      freshness = 1000;
      content = tabulate (dlen b) (buf_at b (nlen b));
      signature_info = record { type_ = 255; key_locator = none };
      signature_value = var_number s.m_signature;
    })

  unfoldable pub send_ndn_nack : (fresh : Interest N) → Buffer → Option (Interest N)
  unfolding packet_name
  send_ndn_nack fresh b = do nname ← packet_name b; some (record fresh { name = nname })

  -- The buffer with the name of a packet, and the length that snprintf returned.
  unfoldable pub write_name : Name → Buffer → Option (Buffer × ℕ)
  unfolding put_name
  write_name n namedata = do
    seq ← to_sequence_number n
    let name = to_uri (get_prefix n)
    some (put_name name (seq % 2 ^ 32) namedata, length (name_text name (seq % 2 ^ 32)))

  -- The interest goes out on the socket for data, so that the answer comes back there.
  unfoldable pub send_udp_interest : AppMixSim → Interest N → Buffer → Option Datagram
  unfolding write_name
  send_udp_interest s i namedata = do
    r ← write_name i.name namedata
    some (record { socket = data_udpfd; to = s.m_interest_raddr; payload = set_dlen 0 r.0 })

  unfoldable pub send_udp_data : AppMixSim → Data N → Buffer → Option Datagram
  unfolding write_name
  send_udp_data s d namedata = do
    r ← write_name d.name namedata
    let size = length d.content % 2 ^ 32
    guard (leb (r.1 + size) buf_size)
    some (record {
      socket = interest_udpfd;
      to = s.m_data_raddr;
      payload = copy_at (8 + r.1) (take size d.content) (set_dlen size r.0);
    })

  -- A refusal goes out as data without content.
  unfoldable pub send_udp_nack : AppMixSim → Interest N → Buffer → Option Datagram
  unfolding write_name
  send_udp_nack s i namedata = do
    r ← write_name i.name namedata
    some (record { socket = interest_udpfd; to = s.m_data_raddr; payload = set_dlen 0 r.0 })

  -- `OnInterest`, `OnData` and `OnNack`.
  unfoldable pub on_packet : AppMixSim → Packet N → Buffer → Option Datagram
  unfolding send_udp_interest send_udp_data send_udp_nack
  on_packet s (interest i) namedata = send_udp_interest s i namedata
  on_packet s (data_packet d) namedata = send_udp_data s d namedata
  on_packet s (nack i) namedata = send_udp_nack s i namedata

  -- Microseconds of real time since the start, less those of virtual time.
  unfoldable pub analyze_time_diff : AppMixSim → (vtime : ℕ) → Timeval → ℤ
  unfolding ◌+ℤ◌ ◌-ℤ◌ ◌*ℤ◌
  analyze_time_diff s vtime curr =
      (pos curr.tv_sec -ℤ pos s.m_start.tv_sec) *ℤ pos 1000000
      +ℤ (pos curr.tv_usec -ℤ pos s.m_start.tv_usec)
      -ℤ pos vtime

  -- The counters and the delay of the next tick.
  unfoldable pub schedule : AppMixSim → ℤ → AppMixSim × ℕ
  schedule s (pos zero) = (record s { m_case1ticks = (s.m_case1ticks + 1) % 2 ^ 64 }, 0)
  schedule s (pos (suc n)) = (record s { m_case2ticks = (s.m_case2ticks + 1) % 2 ^ 64 }, suc n)
  schedule s (negsuc n) = (record s { m_case1ticks = (s.m_case1ticks + 1) % 2 ^ 64 }, 0)

  -- A `recv` of at most 2048 bytes into `recv_buf`, and what is sent for it.
  unfoldable pub receive :
      (Buffer → Option (Packet N)) → List ℕ → Buffer → Option (Buffer × List (Packet N))
  receive send [] recv_buf = some (recv_buf, [])
  receive send (x ∷ bytes) recv_buf = do
    let b = copy_at 0 (take 2048 (x ∷ bytes)) recv_buf
    p ← send b
    some (b, p ∷ [])

  -- One tick, with the datagrams on the two sockets, none or one each: the packets that are sent
  -- and the delay of the next tick.
  unfoldable pub schedule_next_tick :
      AppMixSim
      → (nonce : ℕ) (on_interest on_data : List ℕ) (recv_buf : Buffer) (vtime : ℕ) → Timeval
      → Option (AppMixSim × List (Packet N) × ℕ)
  unfolding send_ndn_interest send_ndn_data receive analyze_time_diff schedule
  schedule_next_tick s nonce on_interest on_data recv_buf vtime curr = do
    let s1 = record s { m_totalticks = (s.m_totalticks + 1) % 2 ^ 64 }
    a ← receive (λ b. do i ← send_ndn_interest nonce b; some (interest i)) on_interest recv_buf
    c ← receive (λ b. do d ← send_ndn_data s1 b; some (data_packet d)) on_data a.0
    let next = schedule s1 (analyze_time_diff s1 vtime curr)
    some (next.0, a.1 ++ c.1, next.1)

  -- The address of a remote host and a port.
  abbrev pub remote : (s_addr port : ℕ) → SockaddrIn
  remote s_addr port = record { sin_family = 2; sin_port = port % 2 ^ 16; s_addr = s_addr }

  -- `INADDR_ANY` and a port.
  abbrev pub any_address : (port : ℕ) → SockaddrIn
  any_address port = record { sin_family = 2; sin_port = port % 2 ^ 16; s_addr = 0 }

  -- What `StartApplication` does: the state, the `bind` of each socket, and the routes that are
  -- registered. The first tick follows.
  pub record Started : Type 0 where
    pub app : AppMixSim
    pub binds : List (Socket × SockaddrIn)
    pub routes : List (List ℕ)

  -- With `inet_addr` of the system, and the results of the two `bind`s; `none` is `exit(1)`.
  unfoldable pub start_application :
      AppMixSim → (inet_addr : List ℕ → ℕ) (bind_interest bind_data : ℤ) → Timeval → Option Started
  unfolding register_fib
  start_application s inet_addr (negsuc n) bind_data now = none
  start_application s inet_addr (pos m) (negsuc n) now = none
  start_application s inet_addr (pos m) (pos n) now = some (record {
    app = record s {
      m_interest_raddr = remote (inet_addr s.m_raip) s.m_interest_rport;
      m_data_raddr = remote (inet_addr s.m_raip) s.m_data_rport;
      m_start = now;
    };
    binds =
        (interest_udpfd, any_address s.m_interest_lport)
        ∷ (data_udpfd, any_address s.m_data_lport)
        ∷ [];
    routes = register_fib s.m_prefixes;
  })
