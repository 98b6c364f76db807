-- ===== src/AppMixSim/Create.antt =====
-- ndnSIM/apps/ndn-app-mixsim.cpp: the attributes and the constructor; and what
-- ndnSIM/examples/ndn-simple.cpp sets.
--
-- What the system calls return is an argument; `none` is `exit(1)`.
use mixsim.Prelude.{Bool, true, false, Option, none, some, if◌then◌else◌, ◌>>=◌, ℤ, pos, negsuc}
use mixsim.CText.{codes}
use mixsim.Ndn.{Ndn}
use mixsim.AppMixSim.{AppMixSim}

-- A descriptor, and whether a `recv` on it returns at once.
pub record Descriptor : Type 0 where
  pub fd : ℤ
  pub nonblocking : Bool

-- What `socket` and the two calls of `fcntl` return.
pub record FdCalls : Type 0 where
  pub fd : ℤ
  pub flag : ℤ
  pub result : ℤ

abbrev pub is_negative : ℤ → Bool
is_negative (pos n) = false
is_negative (negsuc n) = true

-- After an error, which is only printed, the socket stays as it is.
unfoldable pub setnonblocking : (flag result : ℤ) → Descriptor → Descriptor
setnonblocking flag result sockfd =
    if is_negative flag
    then sockfd
    else (if is_negative result then sockfd else record sockfd { nonblocking = true })

unfoldable pub open_socket : FdCalls → Option Descriptor
unfolding setnonblocking
open_socket c =
    if is_negative c.fd
    then none
    else some (setnonblocking c.flag c.result (record { fd = c.fd; nonblocking = false }))

-- The two descriptors of an application.
pub record Descriptors : Type 0 where
  pub interest_udpfd : Descriptor
  pub data_udpfd : Descriptor

module _ (N : Ndn) where
  -- The values of the attributes that nobody sets.
  unfoldable pub app_attributes : AppMixSim N → AppMixSim N
  app_attributes s = record s {
    m_prefixes = codes "/";
    m_interest_lport = 8787;
    m_interest_rport = 8798;
    m_data_lport = 8788;
    m_data_rport = 8797;
    m_raip = codes "127.0.0.1";
    m_signature = 0;
  }

  -- The constructor, for storage with the values of `s`.
  unfoldable pub create :
      (interest_calls data_calls : FdCalls) → AppMixSim N → Option (AppMixSim N × Descriptors)
  unfolding open_socket
  create interest_calls data_calls s = do
    i ← open_socket interest_calls
    d ← open_socket data_calls
    some (
      record s { m_totalticks = 0; m_case1ticks = 0; m_case2ticks = 0 },
      record { interest_udpfd = i; data_udpfd = d },
    )

  -- The calls of `mixSimHelper.SetAttribute`.
  unfoldable pub app_scenario : AppMixSim N → AppMixSim N
  app_scenario s = record s {
    m_prefixes = codes "/mixsim$/demo$/nip/lab101";
    m_interest_lport = 8787;
    m_data_lport = 8788;
    m_interest_rport = 8798;
    m_data_rport = 8797;
    m_raip = codes "192.168.3.216";
  }
