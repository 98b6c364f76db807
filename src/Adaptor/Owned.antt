-- ===== src/Adaptor/Owned.antt =====
-- No buffer is ever in two places.
use mixsim.Prelude.{List, Ends-at}
use mixsim.Fifo.{Fifo}
use mixsim.World.{System, Packet}
use mixsim.World.InHand.{in_hand, IsOwnedSystem}
use mixsim.UdpAdaptor.Owned.{
  udp_data_body-IsOwned, udp_interest_body-IsOwned, udp_interest_out-IsOwned, udp_data_out-IsOwned,
}
use mixsim.NipAdaptor.Owned.{
  nip_interest_in-IsOwned, nip_data_in-IsOwned, nip_data_out-IsOwned, nip_interest_out-IsOwned,
}
use mixsim.Adaptor.{
  Step, udp_data_arrives, udp_interest_arrives, nip_interest_arrives, nip_data_arrives,
  udp_interest_runs, udp_data_runs, nip_data_runs, nip_interest_runs, Reach, start, later,
}

module _ (F : Fifo) where
  -- Over any first-in first-out queue: whatever coroutine runs, as long as no access leaves its
  -- object, as one does for a datagram or a packet that is longer than its buffer (such a run has
  -- no step), if malloc returns unused memory and each buffer stood in one queue or one
  -- coroutine's hand at most and was allocated, then so it is afterwards.
  pub Step-IsOwnedSystem :
      {s t : System F.Queue} {out : List Packet}
      → Step F s t out
      → IsOwnedSystem F s
      → IsOwnedSystem F t
  Step-IsOwnedSystem {s} (udp_data_arrives m buf fresh e) o = record {
    owned = Ends-at (udp_data_body-IsOwned F s.world (in_hand F s) m buf fresh o.owned) e;
    busy = o.busy;
  }
  Step-IsOwnedSystem {s} (udp_interest_arrives m mt buf client fresh e) o = record {
    owned =
        Ends-at (udp_interest_body-IsOwned F s.world (in_hand F s) m mt buf client fresh o.owned) e;
    busy = o.busy;
  }
  Step-IsOwnedSystem {s} (nip_interest_arrives m r fresh e) o = record {
    owned = Ends-at (nip_interest_in-IsOwned F s.world (in_hand F s) m r fresh o.owned) e;
    busy = o.busy;
  }
  Step-IsOwnedSystem {s} (nip_data_arrives m r fresh e) o = record {
    owned = Ends-at (nip_data_in-IsOwned F s.world (in_hand F s) m r fresh o.owned) e;
    busy = o.busy;
  }
  Step-IsOwnedSystem {s} (udp_interest_runs e) o = Ends-at (udp_interest_out-IsOwned F s o) e
  Step-IsOwnedSystem {s} (udp_data_runs e) o = Ends-at (udp_data_out-IsOwned F s o) e
  Step-IsOwnedSystem {s} (nip_data_runs e) o = Ends-at (nip_data_out-IsOwned F s o) e
  Step-IsOwnedSystem {s} (nip_interest_runs e) o = Ends-at (nip_interest_out-IsOwned F s o) e

  pub Reach-IsOwnedSystem :
      {s t : System F.Queue} → Reach F s t → IsOwnedSystem F s → IsOwnedSystem F t
  Reach-IsOwnedSystem start o = o
  Reach-IsOwnedSystem (later r st) o = Step-IsOwnedSystem st (Reach-IsOwnedSystem r o)
