-- ===== src/UdpAdaptor/Deliver.antt =====
-- udp_data_out from one buffer to the next: what it sends, and to whom.
use mixsim.Prelude.{
  ℕ, zero, suc, ◌+◌, ◌≤◌, ◌<◌, ◌≡◌, ◌≢◌, refl, ap, sym, ◌∙◌, true, false, Option, none, some, inl,
  inr, List, [], ◌∷◌, ◌++◌, arith, ltb, ◌==◌, if◌then◌else◌, ◌>>=◌, length, tabulate, tabulate_cong,
  length-tabulate, some_eq, bytes_eq,
}
use mixsim.NutEntry.{SockaddrIn, NutEntry}
use mixsim.NutEntry.Key.{key_of, IsName}
use mixsim.NutEntry.Addrs.{addrs}
use mixsim.Nut.{Nut, EntryPtr, nut_get, read_entry, nut_del}
use mixsim.Nut.Valid.{IsValid, waiting}
use mixsim.Nut.Get.{Shows, nut_get-Shows, nut_del_lem}
use mixsim.Buffer.{Buffer, nlen, buf_from}
use mixsim.Fifo.{Fifo}
use mixsim.World.{idle, sending, System, Packet, datagram, release}
use mixsim.UdpAdaptor.{data_out_test, data_out_start, data_out_next, udp_data_out}

abbrev pub to_each : Buffer → List SockaddrIn → List Packet
to_each b [] = []
to_each b (a ∷ l) = datagram a b ∷ to_each b l

-- The addresses of an array from an index on.
abbrev addrs_from : (rounds i : ℕ) → (ℕ → SockaddrIn) → List SockaddrIn
addrs_from zero i f = []
addrs_from (suc k) i f = f i ∷ addrs_from k (i + 1) f

addrs_from-tabulate :
    (k i : ℕ) (f : ℕ → SockaddrIn) → addrs_from k i f ≡ tabulate k (λ j. f (i + j))
addrs_from-tabulate zero i f = refl
addrs_from-tabulate (suc k) i f =
    rw
      (
        addrs_from-tabulate k (i + 1) f,
        tabulate_cong k (λ j. f (i + 1 + j)) (λ j. f (i + suc j)) (λ j h. ap f (omega arith)),
      )
      (ground arith)

addrs_from-addrs : (e : NutEntry) → addrs_from e.addr_num 0 e.addr ≡ addrs e
addrs_from-addrs e =
    addrs_from-tabulate e.addr_num 0 e.addr
    ∙ tabulate_cong e.addr_num (λ j. e.addr (0 + j)) e.addr (λ j h. ap e.addr (omega arith))

suc_of : (n : ℕ) → 0 < n → (k : ℕ) × (n ≡ suc k)
suc_of zero h = absurd (omega arith)
suc_of (suc n) h = (n, refl)

module _ (F : Fifo) where
  -- The coroutine runs as often as given, and nothing else does.
  unfoldable pub run_data_out : ℕ → System F.Queue → Option (System F.Queue × List Packet)
  unfolding udp_data_out
  run_data_out zero s = some (s, [])
  run_data_out (suc n) s = do
    r ← udp_data_out F s
    rest ← run_data_out n r.0
    some (rest.0, r.1 ++ rest.1)

  -- After the last address.
  abbrev pub delivered : ℕ → Nut → System F.Queue → System F.Queue
  delivered p t s = record s {
    world = release F p (record s.world { nut_table = t });
    udp_data = idle;
  }

  module _ (s : System F.Queue) (p : ℕ) (entry : EntryPtr) (e : NutEntry) (b : Buffer) (t : Nut)
      (read : read_entry s.nut_table entry ≡ some e) (small : e.addr_num ≤ 8)
      (there : s.buffers p ≡ some b) (deleted : nut_del s.nut_table entry ≡ some t) where
    run_data_out-sending :
        (k i : ℕ)
        → i + suc k ≡ e.addr_num
        → run_data_out (suc k) (record s { udp_data = sending p entry i })
          ≡ some (delivered p t s, to_each b (addrs_from (suc k) i e.addr))
    unfolding run_data_out udp_data_out data_out_next data_out_test
    run_data_out-sending zero i h =
        let last : ltb (i + 1) e.addr_num ≡ false = ground arith in
        let inside : ltb i 8 ≡ true = ground arith in rw (read, inside, there, last, deleted)
    run_data_out-sending (suc k) i h =
        let more : ltb (i + 1) e.addr_num ≡ true = ground arith in
        let inside : ltb i 8 ≡ true = ground arith in
        let rest = run_data_out-sending k (i + 1) (omega arith) in
        rw (read, inside, there, more, rest)

  -- The first buffer of the queue.
  abbrev pub front : System F.Queue → ℕ
  front s = (F.dequeue s.realtosim_data_queue).0

  -- `udp_data_out` is at the head of its loop, and the first buffer of its queue is `b`,
  -- whose name lies inside of it.
  pub record IsNext (s : System F.Queue) (b : Buffer) : Type 0 where
    pub at_head : s.udp_data ≡ idle
    pub ne_null : front s ≢ 0
    pub there : s.buffers (front s) ≡ some b
    pub valid : IsValid s.nut_table
    pub named : IsName (buf_from 0 b) (nlen b)

  -- The name of the data.
  abbrev pub name_of : Buffer → List ℕ
  name_of b = key_of (buf_from 0 b) (nlen b)

  abbrev pub dequeued : System F.Queue → System F.Queue
  dequeued s = record s {
    world = record s.world { realtosim_data_queue = (F.dequeue s.realtosim_data_queue).1 };
  }

  module _ (s : System F.Queue) (b : Buffer) (next : IsNext s b) where
    some_pointer : (front s == 0) ≡ false
    some_pointer = let h = next.ne_null in ground arith

    -- The first run, to the `dyco_sendto` for the first address.
    data_out_start-sending :
        (entry : EntryPtr)
        → nut_get s.nut_table (buf_from 0 b) (nlen b) ≡ some (some entry)
        → (e : NutEntry) → read_entry s.nut_table entry ≡ some e
        → 0 < e.addr_num
        → udp_data_out F s ≡ some (record (dequeued s) { udp_data = sending (front s) entry 0 }, [])
    unfolding udp_data_out data_out_next data_out_start data_out_test
    data_out_start-sending entry g e read some_ =
        let more : ltb 0 e.addr_num ≡ true = ground arith in
        rw (next.at_head, some_pointer, next.there, g, read, more)

    -- When udp_data_out takes a buffer whose name lies inside of it, from a system with a valid
    -- table, and runs on without other coroutines, it sends the buffer to every address that waits
    -- for the name, in the order in which they came; then nobody waits for the name, every other
    -- name has the addresses that it had, the table is valid, and the buffer is at the end of the
    -- free list.
    pub udp_data_out-to_each :
        (l : List SockaddrIn)
        → waiting s.nut_table (name_of b) ≡ some l
        → (t : System F.Queue) × (run_data_out (suc (length l)) s ≡ some (t, to_each b l))
          × (t.udp_data ≡ idle)
          × IsValid t.nut_table
          × ((j : List ℕ)
              → waiting t.nut_table j
                ≡ (if bytes_eq (name_of b) j then none else waiting s.nut_table j))
          × (t.freebuf_list ≡ F.enqueue s.freebuf_list (front s))
    unfolding run_data_out release
    udp_data_out-to_each l w =
        let (r, g, o) = nut_get-Shows s.nut_table next.valid (buf_from 0 b) (nlen b) next.named in
        elim o [ inl (null, nobody) ↦ cc | inr (entry, e, shows) ↦ found entry (rw e at g) shows ]
      where
        found :
            (entry : EntryPtr)
            → nut_get s.nut_table (buf_from 0 b) (nlen b) ≡ some (some entry)
            → Shows s.nut_table (name_of b) entry
            → (t : System F.Queue) × (run_data_out (suc (length l)) s ≡ some (t, to_each b l))
              × (t.udp_data ≡ idle)
              × IsValid t.nut_table
              × ((j : List ℕ)
                  → waiting t.nut_table j
                    ≡ (if bytes_eq (name_of b) j then none else waiting s.nut_table j))
              × (t.freebuf_list ≡ F.enqueue s.freebuf_list (front s))
        found entry g shows =
            let (t, del, valid, view) =
              nut_del_lem s.nut_table next.valid (buf_from 0 b) (nlen b) next.named entry g in
            let e = shows.entry in
            let all : l ≡ addrs e = some_eq (sym w ∙ shows.all) in
            let size : length l ≡ e.addr_num = ap length all ∙ length-tabulate e.addr_num e.addr in
            let start = data_out_start-sending entry g e shows.read shows.fine.addr_some in
            let (k, count) = suc_of e.addr_num shows.fine.addr_some in
            let rest =
              run_data_out-sending (dequeued s) (front s) entry e b t shows.read
                shows.fine.addr_fits next.there del k 0 (omega (arith, count)) in
            (
              delivered (front s) t (dequeued s),
              rw (size, start, count, rest) (rw (all, sym (addrs_from-addrs e), count) refl),
              refl,
              valid,
              view,
              refl,
            )
