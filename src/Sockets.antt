-- ===== src/Sockets.antt =====
-- The sockets of adaptor/udp_adaptor.c and adaptor/nip_adaptor.c, and those that
-- adaptor/adaptor.c opens for the coroutines.
--
-- What the system calls return is an argument. The state is the descriptors that are open.
pub mod Opened
mod Tests
use mixsim.Prelude.{
  Option, none, some, ℕ, zero, suc, Bool, true, false, List, [], ◌∷◌, if◌then◌else◌, ℤ, pos, negsuc,
}

-- A `socket` that may succeed opens its descriptor.
unfoldable pub dyco_socket : (fd : ℤ) → List ℕ → List ℕ
dyco_socket (pos n) opened = n ∷ opened
dyco_socket (negsuc n) opened = opened

-- `clientfd <= 0`
abbrev pub is_bad_fd : ℤ → Bool
is_bad_fd (pos zero) = true
is_bad_fd (pos (suc n)) = false
is_bad_fd (negsuc n) = true

-- `result != 0`
abbrev pub is_not_zero : ℤ → Bool
is_not_zero (pos zero) = false
is_not_zero (pos (suc n)) = true
is_not_zero (negsuc n) = true

-- `err < 0`
abbrev pub is_negative : ℤ → Bool
is_negative (pos n) = false
is_negative (negsuc n) = true

-- What the functions return, and the descriptors that are open then. `fd` and `result` are the
-- results of `dyco_socket` and of `dyco_connect` or `bind`.
unfoldable pub init_realtosim_udpsock : (fd result : ℤ) → List ℕ → ℤ × List ℕ
unfolding dyco_socket
init_realtosim_udpsock fd result opened =
    if is_bad_fd fd
    then (negsuc 0, dyco_socket fd opened)
    else (if is_not_zero result
        then (negsuc 1, dyco_socket fd opened)
        else (fd, dyco_socket fd opened))

unfoldable pub init_udpsock : (fd result : ℤ) → List ℕ → ℤ × List ℕ
unfolding dyco_socket
init_udpsock fd result opened =
    if is_bad_fd fd
    then (negsuc 0, dyco_socket fd opened)
    else (if is_not_zero result
        then (negsuc 1, dyco_socket fd opened)
        else (fd, dyco_socket fd opened))

unfoldable pub init_realtosim_nipsock : (fd err : ℤ) → List ℕ → ℤ × List ℕ
unfolding dyco_socket
init_realtosim_nipsock fd err opened =
    if is_bad_fd fd
    then (negsuc 0, dyco_socket fd opened)
    else (if is_negative err
        then (negsuc 1, dyco_socket fd opened)
        else (fd, dyco_socket fd opened))

unfoldable pub init_simtoreal_nipsock : (fd : ℤ) → List ℕ → ℤ × List ℕ
unfolding dyco_socket
init_simtoreal_nipsock fd opened =
    if is_bad_fd fd then (negsuc 0, dyco_socket fd opened) else (fd, dyco_socket fd opened)

-- The coroutines, and the sockets of init_adaptor.
pub data Coroutine : Type 0 where
  udp_interest_out udp_interest_in udp_data_out udp_data_in : Coroutine
  nip_interest_out nip_interest_in nip_data_out nip_data_in : Coroutine

pub data Sock : Type 0 where
  realtosim_udp simtoreal_udp simtoreal_nip realtosim_nip : Sock

-- Which socket `dyco_coroutine_create` gives to a coroutine.
unfoldable pub sock_of : Coroutine → Sock
sock_of udp_interest_out = realtosim_udp
sock_of udp_interest_in = simtoreal_udp
sock_of udp_data_out = simtoreal_udp
sock_of udp_data_in = realtosim_udp
sock_of nip_interest_out = simtoreal_nip
sock_of nip_interest_in = realtosim_nip
sock_of nip_data_out = realtosim_nip
sock_of nip_data_in = simtoreal_nip

-- The port that init_udpsock is called with.
unfoldable pub udp_port : Sock → Option ℕ
udp_port realtosim_udp = some 8797
udp_port simtoreal_udp = some 8798
udp_port simtoreal_nip = none
udp_port realtosim_nip = none

-- What `socket` and `bind` return to the four calls of init_adaptor.
pub record Calls : Type 0 where
  pub realtosim_udp : ℤ × ℤ
  pub simtoreal_udp : ℤ × ℤ
  pub simtoreal_nip : ℤ
  pub realtosim_nip : ℤ × ℤ

-- The sockets that the coroutines get, in the order of the code. None is tested.
pub record Socks : Type 0 where
  pub realtosim_udpsock : ℤ
  pub simtoreal_udpsock : ℤ
  pub simtoreal_nipsock : ℤ
  pub realtosim_nipsock : ℤ

unfoldable pub open_socks : Calls → List ℕ → Socks × List ℕ
unfolding init_udpsock init_simtoreal_nipsock init_realtosim_nipsock
open_socks c opened =
    let (a, o1) = init_udpsock c.realtosim_udp.0 c.realtosim_udp.1 opened in
    let (b, o2) = init_udpsock c.simtoreal_udp.0 c.simtoreal_udp.1 o1 in
    let (n, o3) = init_simtoreal_nipsock c.simtoreal_nip o2 in
    let (m, o4) = init_realtosim_nipsock c.realtosim_nip.0 c.realtosim_nip.1 o3 in
    (
      record {
        realtosim_udpsock = a;
        simtoreal_udpsock = b;
        simtoreal_nipsock = n;
        realtosim_nipsock = m;
      },
      o4,
    )
