-- ===== src/UdpAdaptor/Owned.antt =====
-- The coroutines of adaptor/udp_adaptor.c keep each buffer in one place.
use mixsim.Prelude.{
  ℕ, ◌+◌, ◌≡◌, ◌≢◌, refl, Option, none, some, inl, inr, List, arith, ltb, leb, ◌==◌, Bool-cases, ℤ,
  guard, length, Ends, ends, Ends-bind, Ends-any, Ends-then, Ends-if,
}
use mixsim.NutEntry.{max_addr_pername, SockaddrIn}
use mixsim.Nut.{Block, Nut, EntryPtr, nut_set, nut_get, nut_del, read_entry}
use mixsim.Buffer.{buffer_size, copy_at, buf_from, nlen}
use mixsim.Fifo.{Fifo, is_at}
use mixsim.World.{World, DataOut, idle, sending, System, Malloc, release}
use mixsim.World.Owned.{
  IsFresh, IsOwned, count-enqueue, dequeue-Taken, IsOwned-drop, IsOwned-give, IsOwned-take,
  IsOwned-hand, IsOwned-table, take_buffer-Ends, update_buffer-Ends,
}
use mixsim.World.InHand.{in_hand, IsOwnedSystem}
use mixsim.UdpAdaptor.{
  is_one, udp_data_body, pass_interest, udp_interest_body, udp_interest_out, data_out_test,
  data_out_start, data_out_next, udp_data_out,
}

module _ (F : Fifo) where
  pub udp_data_body-IsOwned :
      (w : World F.Queue) (hand : ℕ → ℕ) (m : Malloc) (buf : List ℕ)
      → IsFresh w.buffers m
      → IsOwned F w hand
      → Ends (λ w'. IsOwned F w' hand) (udp_data_body F m buf w)
  unfolding udp_data_body
  udp_data_body-IsOwned w hand m buf fresh o =
      Ends-if (length buf == 0) (λ _. ends o)
        λ _. Ends-bind (take_buffer-Ends F w hand m fresh o) λ (p, w1) (ne, o1).
          Ends-then (guard (leb (length buf) buffer_size)) (
            Ends-bind (update_buffer-Ends F w1 _ p (copy_at 0 buf) o1) λ w2 o2.
              let w3 = record w2 { simtoreal_data_queue = F.enqueue w2.simtoreal_data_queue p } in
              ends (
                IsOwned-give F w2 w3 refl hand p ne
                  (λ q. omega (arith, count-enqueue F q w2.simtoreal_data_queue p)) o2))

  pass_interest-IsOwned :
      (w : World F.Queue) (hand : ℕ → ℕ) (p : ℕ) (r : Nut × ℤ)
      → p ≢ 0
      → IsOwned F w (λ q. hand q + is_at q p)
      → IsOwned F (pass_interest F p r w) hand
  unfolding pass_interest
  pass_interest-IsOwned w hand p r ne o =
      let w1 = record w { nut_table = r.0 } in
      let o1 : IsOwned F w1 (λ q. hand q + is_at q p) = IsOwned-table F w _ r.0 o in
      elim (Bool-cases (is_one r.1)) [
        | inl new ↦
            let w2 = record w1 {
              simtoreal_interest_queue = F.enqueue w1.simtoreal_interest_queue p;
            } in
            rw new (
              IsOwned-give F w1 w2 refl hand p ne
                (λ q. omega (arith, count-enqueue F q w1.simtoreal_interest_queue p)) o1)
        | inr old ↦ rw old (IsOwned-drop F w1 hand (λ q. is_at q p) o1)
      ]

  pub udp_interest_body-IsOwned :
      (w : World F.Queue) (hand : ℕ → ℕ) (m : Malloc) (mt : Option Block) (buf : List ℕ)
      (client : SockaddrIn)
      → IsFresh w.buffers m
      → IsOwned F w hand
      → Ends (λ w'. IsOwned F w' hand) (udp_interest_body F m mt buf client w)
  unfolding udp_interest_body
  udp_interest_body-IsOwned w hand m mt buf client fresh o =
      Ends-if (length buf == 0) (λ _. ends o)
        λ _. Ends-bind (take_buffer-Ends F w hand m fresh o) λ (p, w1) (ne, o1).
          Ends-then (guard (leb (length buf) buffer_size)) (
            Ends-bind (update_buffer-Ends F w1 _ p (copy_at 0 buf) o1) λ w2 o2.
              Ends-bind (Ends-any (w2.buffers p)) λ b _.
                Ends-bind (Ends-any (nut_set mt w2.nut_table (buf_from 0 b) (nlen b) client))
                  λ r _. ends (pass_interest-IsOwned w2 hand p r ne o2))

  module _ (s : System F.Queue) where
    pub udp_interest_out-IsOwned :
        IsOwnedSystem F s → Ends (λ r. IsOwnedSystem F r.0) (udp_interest_out F s)
    unfolding udp_interest_out release
    udp_interest_out-IsOwned o =
        Ends-if (s.udp_interest == 0)
          (λ e.
            let t = dequeue-Taken F s.realtosim_interest_queue in
            let p = (F.dequeue s.realtosim_interest_queue).0 in
            let w = record s.world {
              realtosim_interest_queue = (F.dequeue s.realtosim_interest_queue).1;
            } in
            ends (record {
              owned =
                  IsOwned-hand F w (λ q. in_hand F s q + is_at q p) _ (λ q ne. ground arith)
                    (IsOwned-take F s.world w refl (in_hand F s) p (λ q. omega (arith, t.less q))
                      (λ ne q. omega (arith, t.one ne q)) o.owned);
              busy = o.busy;
            }))
          (λ e.
            let p = s.udp_interest in
            let w = release F p s.world in
            let left = in_hand F (record s { udp_interest = 0 }) in
            Ends-bind (Ends-any (s.buffers p)) λ b _. ends (record {
              owned =
                  IsOwned-give F s.world w refl left p (ground arith)
                    (λ q. omega (arith, count-enqueue F q s.freebuf_list p))
                    (IsOwned-hand F s.world (in_hand F s) _ (λ q ne. ground arith) o.owned);
              busy = o.busy;
            }))

    -- The buffer of `udp_data_out` is in its hand, or goes to the free list.
    data_out_test-IsOwned :
        (p : ℕ) (entry : EntryPtr) (i : ℕ)
        → p ≢ 0
        → IsOwned F s.world (in_hand F (record s { udp_data = sending p entry i }))
        → Ends (IsOwnedSystem F) (data_out_test F p entry i s)
    unfolding data_out_test release
    data_out_test-IsOwned p entry i ne o =
        Ends-bind (Ends-any (read_entry s.nut_table entry)) λ e _.
          Ends-if (ltb i e.addr_num) (λ _. ends (record { owned = o; busy = ne }))
            (λ _. Ends-bind (Ends-any (nut_del s.nut_table entry)) λ t _.
              let w = record s.world { nut_table = t } in
              let left = in_hand F (record s { udp_data = idle }) in
              ends (record {
                owned =
                    IsOwned-give F w (release F p w) refl left p ne
                      (λ q. omega (arith, count-enqueue F q s.freebuf_list p))
                      (IsOwned-hand F w (in_hand F (record s { udp_data = sending p entry i })) _
                        (λ q h. omega arith) (IsOwned-table F s.world _ t o));
                busy = tt;
              }))

  data_out_start-IsOwned :
      (s : System F.Queue)
      → s.udp_data ≡ idle
      → IsOwnedSystem F s
      → Ends (IsOwnedSystem F) (data_out_start F s)
  unfolding data_out_start
  data_out_start-IsOwned s e o =
      let t = dequeue-Taken F s.realtosim_data_queue in
      let p = (F.dequeue s.realtosim_data_queue).0 in
      let w = record s.world { realtosim_data_queue = (F.dequeue s.realtosim_data_queue).1 } in
      let s' = record s { world = w } in
      let taken : IsOwned F w (λ q. in_hand F s q + is_at q p) =
        IsOwned-take F s.world w refl (in_hand F s) p (λ q. omega (arith, t.less q))
          (λ ne q. omega (arith, t.one ne q)) o.owned in
      let kept : IsOwnedSystem F s' = record {
        owned = IsOwned-drop F w (in_hand F s) (λ q. is_at q p) taken;
        busy = o.busy;
      } in
      Ends-if (p == 0) (λ _. ends kept)
        λ some_. Ends-bind (Ends-any (s.buffers p)) λ b _.
          Ends-bind (Ends-any (nut_get s.nut_table (buf_from 0 b) (nlen b))) λ r _.
            found r (ground arith) (λ entry. IsOwned-hand F w _ _ (λ q h. rw e (omega arith)) taken)
              kept
    where
      found :
          {p : ℕ} {s' : System F.Queue} (r : Option EntryPtr)
          → p ≢ 0
          → ((entry : EntryPtr)
              → IsOwned F s'.world (in_hand F (record s' { udp_data = sending p entry 0 })))
          → IsOwnedSystem F s'
          → Ends
              (IsOwnedSystem F)
              (elim r [ none ↦ some s' | some entry ↦ data_out_test F p entry 0 s' ])
      found none ne taken kept = ends kept
      found {p} {s'} (some entry) ne taken kept =
          data_out_test-IsOwned s' p entry 0 ne (taken entry)

  data_out_next-IsOwned :
      (s : System F.Queue) (d : DataOut)
      → s.udp_data ≡ d
      → IsOwnedSystem F s
      → Ends (λ r. IsOwnedSystem F r.0) (data_out_next F d s)
  unfolding data_out_next
  data_out_next-IsOwned s idle e o = Ends-bind (data_out_start-IsOwned s e o) (λ s' o'. ends o')
  data_out_next-IsOwned s (sending p entry i) e o =
      Ends-bind (Ends-any (read_entry s.nut_table entry)) λ a _.
        Ends-then (guard (ltb i max_addr_pername)) (
          Ends-bind (Ends-any (s.buffers p)) λ b _.
            Ends-bind
              (data_out_test-IsOwned s p entry (i + 1) (rw e at o.busy)
                (IsOwned-hand F s.world (in_hand F s) _ (λ q h. rw e (omega arith)) o.owned))
              λ s' o'. ends o')

  pub udp_data_out-IsOwned :
      (s : System F.Queue) → IsOwnedSystem F s → Ends (λ r. IsOwnedSystem F r.0) (udp_data_out F s)
  unfolding udp_data_out
  udp_data_out-IsOwned s o = data_out_next-IsOwned s s.udp_data refl o
