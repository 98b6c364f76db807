-- ===== src/Adaptor/Tests.antt =====
-- A run of the adaptor from init_adaptor on, and its theorems at that run.
use mixsim.Prelude.{ℕ, ◌≡◌, refl, Option, none, some, List, [], ◌∷◌, arith, ◌==◌, if◌then◌else◌}
use mixsim.NutEntry.{SockaddrIn}
use mixsim.Nut.{Block, nut_create}
use mixsim.Nut.Valid.{IsValid}
use mixsim.Buffer.{Buffer}
use mixsim.Fifo.{list_fifo}
use mixsim.World.{World, idle, System, Packet, release, take_buffer, update_buffer, read_bytes}
use mixsim.World.InHand.{IsOwnedSystem}
use mixsim.NipAdaptor.{IsockBuf, nip_interest_in, nip_interest_out}
use mixsim.Adaptor.{
  init_adaptor, first_buffers, enqueue_blocks, Step, nip_interest_arrives, nip_interest_runs, start,
  later,
}
use mixsim.Adaptor.Owned.{Step-IsOwnedSystem}
use mixsim.Lfq.Provides.{LiveQueue, lfq_fifo}
use mixsim.Lfq.Samples.{empty_live}
use mixsim.Adaptor.Init.{blocks, init_adaptor-IsOwnedSystem, init_adaptor-Reach}

abbrev client : SockaddrIn
client = record { sin_family = 2; sin_port = 9; s_addr = 0x7f000001 }

abbrev raw_block : Block
raw_block = record {
  at = 0x1000;
  junk = λ i. record {
    name_len = 0;
    addr_num = 0;
    deleted = 0;
    canstop = 0;
    name = λ j. 0;
    addr = λ j. client;
  };
}

abbrev junk : ℕ → Buffer
junk i j = 0

abbrev freeblock : ℕ
freeblock = 0x10000

init : Option (System (List ℕ))
unfolding init_adaptor
init = init_adaptor list_fifo [] (some raw_block) freeblock junk

abbrev value {ℓ} : {A : Type ℓ} → A → Option A → A
value a none = a
value a (some b) = b

-- The adaptor with no table and no buffers.
abbrev nothing : System (List ℕ)
nothing = record {
  world = record {
    nut_table = record { table_cap = 0; entry_num = 0; base = 0; entries = []; kept = [] };
    realtosim_interest_queue = [];
    simtoreal_interest_queue = [];
    simtoreal_data_queue = [];
    realtosim_data_queue = [];
    freebuf_list = [];
    buffers = λ p. none;
  };
  udp_interest = 0;
  udp_data = idle;
  nip_data = 0;
  nip_interest = 0;
}

abbrev started : System (List ℕ)
started = value nothing init

-- A request for "ab" from the simulator.
abbrev request : IsockBuf
request = record { name = 97 ∷ 98 ∷ []; nlen = 2; content = []; dlen = 0; d_type = 0 }

abbrev asked : World (List ℕ)
asked = value nothing.world (nip_interest_in list_fifo none request started.world)

started-asked : Step list_fifo started (record started { world = asked }) []
unfolding init nut_create nip_interest_in take_buffer update_buffer read_bytes first_buffers
    enqueue_blocks
started-asked = nip_interest_arrives none request {w = asked} tt refl

init_adaptor-IsOwnedSystem_example :
    (s : System LiveQueue) × (init_adaptor lfq_fifo empty_live (some raw_block) freeblock junk
      ≡ some s)
    × IsValid s.nut_table
    × IsOwnedSystem lfq_fifo s
    × (lfq_fifo.elems s.freebuf_list ≡ blocks 16 0 freeblock)
    × (lfq_fifo.elems s.realtosim_interest_queue ≡ [])
    × (lfq_fifo.elems s.simtoreal_interest_queue ≡ [])
    × (lfq_fifo.elems s.simtoreal_data_queue ≡ [])
    × (lfq_fifo.elems s.realtosim_data_queue ≡ [])
init_adaptor-IsOwnedSystem_example =
    init_adaptor-IsOwnedSystem lfq_fifo empty_live raw_block freeblock junk refl (omega arith)

init_adaptor-Reach_example : IsOwnedSystem list_fifo (record started { world = asked })
unfolding init nut_create
init_adaptor-Reach_example =
    init_adaptor-Reach list_fifo [] raw_block freeblock junk started
      (record started { world = asked }) refl (omega arith) refl (later start started-asked)

-- A buffer in the hand of nip_interest_out.
abbrev in_nip : System (List ℕ)
in_nip = record nothing {
  world = record nothing.world { buffers = λ p. if p == 8 then some (λ i. 0) else none };
  nip_interest = 8;
}

abbrev sent : System (List ℕ) × List Packet
sent = value (nothing, []) (nip_interest_out list_fifo in_nip)

Step-IsOwnedSystem_example : IsOwnedSystem list_fifo sent.0
unfolding nip_interest_out release
Step-IsOwnedSystem_example =
    Step-IsOwnedSystem list_fifo {s = in_nip} {t = sent.0} {out = sent.1} (nip_interest_runs refl)
      (record {
        owned = record {
          once = λ p ne. ground arith;
          live = λ p ne h. ground arith;
          no_null = refl;
        };
        busy = tt;
      })
