-- ===== src/Sockets/Tests.antt =====
-- The sockets of the adaptor when one bind fails.
use mixsim.Prelude.{◌≡◌, refl, [], pos, negsuc}
use mixsim.Sockets.{Calls, open_socks}

-- The second port is taken.
abbrev busy_port : Calls
busy_port = record {
  realtosim_udp = (pos 3, pos 0);
  simtoreal_udp = (pos 4, negsuc 0);
  simtoreal_nip = pos 5;
  realtosim_nip = (pos 6, pos 0);
}

busy_port_sock : (open_socks busy_port []).0.simtoreal_udpsock ≡ negsuc 1
unfolding open_socks
busy_port_sock = refl
