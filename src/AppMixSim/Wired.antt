-- ===== src/AppMixSim/Wired.antt =====
-- The application of ndnSIM/examples/ndn-simple.cpp, next to the sockets of the adaptor.
use mixsim.Prelude.{ℕ, ◌≡◌, some, List, [], ◌∷◌}
use mixsim.CText.{codes}
use mixsim.Buffer.{Buffer}
use mixsim.Sockets.{Coroutine, udp_interest_in, udp_data_in, sock_of, udp_port}
use mixsim.Ndn.{Ndn, Packet, interest, data_packet, nack}
use mixsim.ProducerVirtual.{ProducerVirtual}
use mixsim.ProducerVirtual
use mixsim.AppMixSim.{
  AppMixSim, Socket, interest_udpfd, data_udpfd, Started, any_address, Datagram, Timeval,
  register_fib, remote,
}

module _ (N : Ndn) where
  -- The coroutine of the adaptor for a packet, and the socket of the application for it.
  abbrev pub listener : Packet N → Coroutine
  listener (interest i) = udp_interest_in
  listener (data_packet d) = udp_data_in
  listener (nack i) = udp_data_in

  abbrev pub leaves : Packet N → Socket
  leaves (interest i) = data_udpfd
  leaves (data_packet d) = interest_udpfd
  leaves (nack i) = interest_udpfd

  -- The datagram for the packet leaves on its socket, to the port of its coroutine.
  pub record Goes (inet_addr : List ℕ → ℕ) (p : Packet N) (g : Datagram) : Type 0 where
    pub socket : g.socket ≡ leaves p
    pub family : g.to.sin_family ≡ 2
    pub port : udp_port (sock_of (listener p)) ≡ some g.to.sin_port
    pub host : g.to.s_addr ≡ inet_addr (codes "192.168.3.216")

  -- Where a datagram for a packet goes.
  abbrev Target : AppMixSim N → Packet N → Datagram → Type 0
  Target s (interest i) g = (g.socket ≡ data_udpfd) × (g.to ≡ s.m_interest_raddr)
  Target s (data_packet d) g = (g.socket ≡ interest_udpfd) × (g.to ≡ s.m_data_raddr)
  Target s (nack i) g = (g.socket ≡ interest_udpfd) × (g.to ≡ s.m_data_raddr)

  -- What StartApplication leaves, when it does not exit.
  record Leaves (s : AppMixSim N) (inet_addr : List ℕ → ℕ) (now : Timeval) (r : Started N)
      : Type 0 where
    state : r.app ≡ record s {
      m_interest_raddr = remote N (inet_addr s.m_raip) s.m_interest_rport;
      m_data_raddr = remote N (inet_addr s.m_raip) s.m_data_rport;
      m_start = now;
    }
    bindings :
        r.binds
        ≡ (interest_udpfd, any_address N s.m_interest_lport)
          ∷ (data_udpfd, any_address N s.m_data_lport)
          ∷ []
    routed : r.routes ≡ register_fib s.m_prefixes
