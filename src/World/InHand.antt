-- ===== src/World/InHand.antt =====
-- The buffers that suspended coroutines have in hand.
use mixsim.Prelude.{ℕ, ◌+◌, ◌≢◌}
use mixsim.Fifo.{Fifo, is_at}
use mixsim.World.{DataOut, idle, sending, System}
use mixsim.World.Owned.{IsOwned}

abbrev pub held : DataOut → ℕ → ℕ
held idle q = 0
held (sending p entry i) q = is_at q p

abbrev pub in_hand : (F : Fifo) → System F.Queue → ℕ → ℕ
in_hand F s q =
    is_at q s.udp_interest + held s.udp_data q + is_at q s.nip_data + is_at q s.nip_interest

abbrev pub IsBusy : DataOut → Type 0
IsBusy idle = Unit
IsBusy (sending p entry i) = p ≢ 0

-- Each buffer is in one queue or in one hand.
pub record IsOwnedSystem (F : Fifo) (s : System F.Queue) : Type 0 where
  pub owned : IsOwned F s.world (in_hand F s)
  pub busy : IsBusy s.udp_data
