-- ===== src/Adaptor.antt =====
-- adaptor/adaptor.c: the globals that init_adaptor sets up, and the eight coroutines that it
-- starts, in any order that the scheduler may choose.
--
-- The coroutines run on one thread and switch only in calls of the dyco library, so a step runs
-- one coroutine from one such call to the next. What it receives is an argument of the step.
pub mod Owned
pub mod Init
pub mod Names
pub mod Answer
mod Tests
use mixsim.Prelude.{
  ℕ, zero, suc, ◌+◌, ◌-◌, ◌*◌, ◌/◌, ◌%◌, ◌≡◌, Bool, true, false, ◌&&◌, Option, none, some, List, [],
  ◌∷◌, ltb, leb, ◌==◌, if◌then◌else◌, ◌>>=◌, ◌>>◌,
}
use mixsim.NutEntry.{SockaddrIn}
use mixsim.Nut.{Block, Nut, nut_create}
use mixsim.Buffer.{Buffer, buffer_size}
use mixsim.Fifo.{Fifo}
use mixsim.World.{World, idle, System, Packet, Malloc}
use mixsim.World.Owned.{IsFresh}
use mixsim.UdpAdaptor.{udp_data_body, udp_interest_body, udp_interest_out, udp_data_out}
use mixsim.NipAdaptor.{IsockBuf, nip_interest_in, nip_data_in, nip_data_out, nip_interest_out}

abbrev pub block_count : ℕ
block_count = 16

-- The address of a buffer of the first block.
abbrev pub block_at : ℕ → ℕ → ℕ
block_at freeblock i = freeblock + buffer_size * i

-- The cells of `malloc(sizeof(simple_name_data) * 16)`.
pub first_buffers : ℕ → (ℕ → Buffer) → ℕ → Option Buffer
first_buffers freeblock junk p =
    let i = (p - freeblock) / buffer_size in
    if leb freeblock p && ((p - freeblock) % buffer_size == 0) && ltb i block_count
    then some (junk i)
    else none

module _ (F : Fifo) where
  -- `for (i = 0; i < 16; i++) lfq_enqueue(&freebuf_list, …)`, with the rounds left first.
  pub enqueue_blocks : (rounds i freeblock : ℕ) → F.Queue → F.Queue
  enqueue_blocks zero i freeblock q = q
  enqueue_blocks (suc k) i freeblock q =
      enqueue_blocks k (i + 1) freeblock (F.enqueue q (block_at freeblock i))

  -- The globals and the coroutines at their start.
  abbrev pub set_up : F.Queue → (freeblock : ℕ) → (ℕ → Buffer) → Nut → System F.Queue
  set_up empty freeblock junk table = record {
    world = record {
      nut_table = table;
      realtosim_interest_queue = empty;
      simtoreal_interest_queue = empty;
      simtoreal_data_queue = empty;
      realtosim_data_queue = empty;
      freebuf_list = enqueue_blocks block_count 0 freeblock empty;
      buffers = first_buffers freeblock junk;
    };
    udp_interest = 0;
    udp_data = idle;
    nip_data = 0;
    nip_interest = 0;
  }

  -- The five queues come from `lfq_init`; `m` is for `nut_create`, and `freeblock` is not NULL.
  pub init_adaptor :
      (empty : F.Queue) → Option Block → (freeblock : ℕ) → (ℕ → Buffer) → Option (System F.Queue)
  unfolding enqueue_blocks first_buffers
  init_adaptor empty m freeblock junk = do
    table ← nut_create true m 64
    some (set_up empty freeblock junk table)

  -- One coroutine runs, and no access leaves its object: a datagram or a packet that is longer than
  -- its buffer has no step.
  pub data Step (s : System F.Queue) : System F.Queue → List Packet → Type 0 where
    udp_data_arrives :
        (m : Malloc) (buf : List ℕ) {w : World F.Queue}
        → IsFresh s.buffers m
        → udp_data_body F m buf s.world ≡ some w
        → Step s (record s { world = w }) []
    udp_interest_arrives :
        (m : Malloc) (mt : Option Block) (buf : List ℕ) (client : SockaddrIn) {w : World F.Queue}
        → IsFresh s.buffers m
        → udp_interest_body F m mt buf client s.world ≡ some w
        → Step s (record s { world = w }) []
    nip_interest_arrives :
        (m : Malloc) (r : IsockBuf) {w : World F.Queue}
        → IsFresh s.buffers m
        → nip_interest_in F m r s.world ≡ some w
        → Step s (record s { world = w }) []
    nip_data_arrives :
        (m : Malloc) (r : IsockBuf) {w : World F.Queue}
        → IsFresh s.buffers m
        → nip_data_in F m r s.world ≡ some w
        → Step s (record s { world = w }) []
    udp_interest_runs :
        {t : System F.Queue} {out : List Packet}
        → udp_interest_out F s ≡ some (t, out)
        → Step s t out
    udp_data_runs :
        {t : System F.Queue} {out : List Packet} → udp_data_out F s ≡ some (t, out) → Step s t out
    nip_data_runs :
        {t : System F.Queue} {out : List Packet} → nip_data_out F s ≡ some (t, out) → Step s t out
    nip_interest_runs :
        {t : System F.Queue} {out : List Packet}
        → nip_interest_out F s ≡ some (t, out)
        → Step s t out

  pub data Reach (s : System F.Queue) : System F.Queue → Type 0 where
    start : Reach s s
    later : {t u : System F.Queue} {out : List Packet} → Reach s t → Step t u out → Reach s u
