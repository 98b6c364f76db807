-- ===== src/Sockets/Opened.antt =====
-- What the functions that open a socket return, and what stays open.
use mixsim.Prelude.{ℕ, zero, suc, Bool, true, false, List, ◌∷◌, ℤ, pos, negsuc, if◌then◌else◌}
use mixsim.Sockets.{
  is_not_zero, is_negative, init_udpsock, init_realtosim_udpsock, init_realtosim_nipsock,
  init_simtoreal_nipsock, Calls, open_socks,
}

-- From the descriptor that `socket` returned and whether the `bind` or `connect` behind it
-- succeeds: the result, and the descriptors that are open then.
pub data Outcome (opened : List ℕ) : (fd : ℤ) (bound : Bool) → ℤ → List ℕ → Type 0 where
  no_socket : {n : ℕ} {bound : Bool} → Outcome opened (negsuc n) bound (negsuc 0) opened
  zero_socket : {bound : Bool} → Outcome opened (pos 0) bound (negsuc 0) (0 ∷ opened)
  left_open : {n : ℕ} → Outcome opened (pos (suc n)) false (negsuc 1) (suc n ∷ opened)
  ready : {n : ℕ} → Outcome opened (pos (suc n)) true (pos (suc n)) (suc n ∷ opened)

abbrev pub is_zero : ℤ → Bool
is_zero result = if is_not_zero result then false else true

abbrev pub is_fine : ℤ → Bool
is_fine err = if is_negative err then false else true

init_realtosim_udpsock-Outcome :
    (fd result : ℤ) (opened : List ℕ)
    → (let r = init_realtosim_udpsock fd result opened in
        Outcome opened fd (is_zero result) r.0 r.1)
unfolding init_realtosim_udpsock
init_realtosim_udpsock-Outcome (negsuc n) result opened = no_socket
init_realtosim_udpsock-Outcome (pos zero) result opened = zero_socket
init_realtosim_udpsock-Outcome (pos (suc n)) (negsuc k) opened = left_open
init_realtosim_udpsock-Outcome (pos (suc n)) (pos zero) opened = ready
init_realtosim_udpsock-Outcome (pos (suc n)) (pos (suc k)) opened = left_open

init_udpsock-Outcome :
    (fd result : ℤ) (opened : List ℕ)
    → (let r = init_udpsock fd result opened in Outcome opened fd (is_zero result) r.0 r.1)
unfolding init_udpsock
init_udpsock-Outcome (negsuc n) result opened = no_socket
init_udpsock-Outcome (pos zero) result opened = zero_socket
init_udpsock-Outcome (pos (suc n)) (negsuc k) opened = left_open
init_udpsock-Outcome (pos (suc n)) (pos zero) opened = ready
init_udpsock-Outcome (pos (suc n)) (pos (suc k)) opened = left_open

init_realtosim_nipsock-Outcome :
    (fd err : ℤ) (opened : List ℕ)
    → (let r = init_realtosim_nipsock fd err opened in Outcome opened fd (is_fine err) r.0 r.1)
unfolding init_realtosim_nipsock
init_realtosim_nipsock-Outcome (negsuc n) err opened = no_socket
init_realtosim_nipsock-Outcome (pos zero) err opened = zero_socket
init_realtosim_nipsock-Outcome (pos (suc n)) (negsuc k) opened = left_open
init_realtosim_nipsock-Outcome (pos (suc n)) (pos k) opened = ready

init_simtoreal_nipsock-Outcome :
    (fd : ℤ) (opened : List ℕ)
    → (let r = init_simtoreal_nipsock fd opened in Outcome opened fd true r.0 r.1)
unfolding init_simtoreal_nipsock
init_simtoreal_nipsock-Outcome (negsuc n) opened = no_socket
init_simtoreal_nipsock-Outcome (pos zero) opened = zero_socket
init_simtoreal_nipsock-Outcome (pos (suc n)) opened = ready

-- Each of the four sockets of init_adaptor is the descriptor if it is positive and its bind
-- succeeds, else -1 or -2; a descriptor that socket returned is open afterwards, also where bind
-- fails.
pub open_socks-Outcome :
    (c : Calls) (opened : List ℕ)
    → (let r = open_socks c opened in
        (o1 : List ℕ) × (o2 : List ℕ) × (o3 : List ℕ) × Outcome opened c.realtosim_udp.0
          (is_zero c.realtosim_udp.1)
          r.0.realtosim_udpsock
          o1
        × Outcome o1 c.simtoreal_udp.0 (is_zero c.simtoreal_udp.1) r.0.simtoreal_udpsock o2
        × Outcome o2 c.simtoreal_nip true r.0.simtoreal_nipsock o3
        × Outcome o3 c.realtosim_nip.0 (is_fine c.realtosim_nip.1) r.0.realtosim_nipsock r.1)
unfolding open_socks
open_socks-Outcome c opened =
    let o1 = (init_udpsock c.realtosim_udp.0 c.realtosim_udp.1 opened).1 in
    let o2 = (init_udpsock c.simtoreal_udp.0 c.simtoreal_udp.1 o1).1 in
    let o3 = (init_simtoreal_nipsock c.simtoreal_nip o2).1 in
    (
      o1,
      o2,
      o3,
      init_udpsock-Outcome c.realtosim_udp.0 c.realtosim_udp.1 opened,
      init_udpsock-Outcome c.simtoreal_udp.0 c.simtoreal_udp.1 o1,
      init_simtoreal_nipsock-Outcome c.simtoreal_nip o2,
      init_realtosim_nipsock-Outcome c.realtosim_nip.0 c.realtosim_nip.1 o3,
    )
