-- ===== src/NipAdaptor/Owned.antt =====
-- The coroutines of adaptor/nip_adaptor.c keep each buffer in one place.
use mixsim.Prelude.{
  ℕ, ◌+◌, ◌%◌, ◌^◌, refl, arith, leb, ◌==◌, guard, Ends, ends, Ends-bind, Ends-any, Ends-then,
  Ends-if,
}
use mixsim.Buffer.{buf_size, copy_at, set_nlen, set_dlen}
use mixsim.Fifo.{Fifo, is_at}
use mixsim.World.{World, System, Malloc, release, read_bytes}
use mixsim.World.Owned.{
  IsFresh, IsOwned, count-enqueue, dequeue-Taken, IsOwned-give, IsOwned-take, IsOwned-hand,
  take_buffer-Ends, update_buffer-Ends,
}
use mixsim.World.InHand.{in_hand, IsOwnedSystem}
use mixsim.NipAdaptor.{
  d_nack, IsockBuf, nip_interest_in, copy_content, nip_data_in, nip_data_out, nip_interest_out,
}

module _ (F : Fifo) where
  pub nip_interest_in-IsOwned :
      (w : World F.Queue) (hand : ℕ → ℕ) (m : Malloc) (r : IsockBuf)
      → IsFresh w.buffers m
      → IsOwned F w hand
      → Ends (λ w'. IsOwned F w' hand) (nip_interest_in F m r w)
  unfolding nip_interest_in
  nip_interest_in-IsOwned w hand m r fresh o =
      Ends-bind (take_buffer-Ends F w hand m fresh o) λ (p, w1) (ne, o1).
        Ends-bind (update_buffer-Ends F w1 _ p (set_nlen r.nlen) o1) λ w2 o2.
          Ends-bind (Ends-any (read_bytes r.nlen r.name)) λ bytes _.
            Ends-then (guard (leb r.nlen buf_size)) (
              Ends-bind (update_buffer-Ends F w2 _ p (λ b. set_dlen 0 (copy_at 8 bytes b)) o2)
                λ w3 o3.
                  let w4 = record w3 {
                    realtosim_interest_queue = F.enqueue w3.realtosim_interest_queue p;
                  } in
                  ends (
                    IsOwned-give F w3 w4 refl hand p ne
                      (λ q. omega (arith, count-enqueue F q w3.realtosim_interest_queue p)) o3))

  copy_content-IsOwned :
      (w : World F.Queue) (hand : ℕ → ℕ) (p : ℕ) (r : IsockBuf)
      → IsOwned F w hand
      → Ends (λ w'. IsOwned F w' hand) (copy_content F p r w)
  unfolding copy_content
  copy_content-IsOwned w hand p r o =
      Ends-if (r.d_type == d_nack) (λ _. update_buffer-Ends F w hand p (set_dlen 0) o)
        λ _. Ends-bind (update_buffer-Ends F w hand p (set_dlen (r.dlen % 2 ^ 32)) o) λ w1 o1.
          Ends-bind (Ends-any (read_bytes (r.dlen % 2 ^ 32) r.content)) λ bytes _.
            Ends-then (guard (leb (r.nlen + r.dlen % 2 ^ 32) buf_size))
              (update_buffer-Ends F w1 hand p (copy_at (8 + r.nlen) bytes) o1)

  pub nip_data_in-IsOwned :
      (w : World F.Queue) (hand : ℕ → ℕ) (m : Malloc) (r : IsockBuf)
      → IsFresh w.buffers m
      → IsOwned F w hand
      → Ends (λ w'. IsOwned F w' hand) (nip_data_in F m r w)
  unfolding nip_data_in
  nip_data_in-IsOwned w hand m r fresh o =
      Ends-bind (take_buffer-Ends F w hand m fresh o) λ (p, w1) (ne, o1).
        Ends-bind (update_buffer-Ends F w1 _ p (set_nlen r.nlen) o1) λ w2 o2.
          Ends-bind (Ends-any (read_bytes r.nlen r.name)) λ bytes _.
            Ends-then (guard (leb r.nlen buf_size)) (
              Ends-bind (update_buffer-Ends F w2 _ p (copy_at 8 bytes) o2) λ w3 o3.
                Ends-bind (copy_content-IsOwned w3 _ p r o3) λ w4 o4.
                  let w5 = record w4 {
                    realtosim_data_queue = F.enqueue w4.realtosim_data_queue p;
                  } in
                  ends (
                    IsOwned-give F w4 w5 refl hand p ne
                      (λ q. omega (arith, count-enqueue F q w4.realtosim_data_queue p)) o4))

  module _ (s : System F.Queue) where
    pub nip_data_out-IsOwned :
        IsOwnedSystem F s → Ends (λ r. IsOwnedSystem F r.0) (nip_data_out F s)
    unfolding nip_data_out release
    nip_data_out-IsOwned o =
        Ends-if (s.nip_data == 0)
          (λ e.
            let t = dequeue-Taken F s.simtoreal_data_queue in
            let p = (F.dequeue s.simtoreal_data_queue).0 in
            let w = record s.world {
              simtoreal_data_queue = (F.dequeue s.simtoreal_data_queue).1;
            } in
            ends (record {
              owned =
                  IsOwned-hand F w (λ q. in_hand F s q + is_at q p) _ (λ q ne. ground arith)
                    (IsOwned-take F s.world w refl (in_hand F s) p (λ q. omega (arith, t.less q))
                      (λ ne q. omega (arith, t.one ne q)) o.owned);
              busy = o.busy;
            }))
          (λ e.
            let p = s.nip_data in
            let w = release F p s.world in
            let left = in_hand F (record s { nip_data = 0 }) in
            Ends-bind (Ends-any (s.buffers p)) λ b _. ends (record {
              owned =
                  IsOwned-give F s.world w refl left p (ground arith)
                    (λ q. omega (arith, count-enqueue F q s.freebuf_list p))
                    (IsOwned-hand F s.world (in_hand F s) _ (λ q ne. ground arith) o.owned);
              busy = o.busy;
            }))

    pub nip_interest_out-IsOwned :
        IsOwnedSystem F s → Ends (λ r. IsOwnedSystem F r.0) (nip_interest_out F s)
    unfolding nip_interest_out release
    nip_interest_out-IsOwned o =
        Ends-if (s.nip_interest == 0)
          (λ e.
            let t = dequeue-Taken F s.simtoreal_interest_queue in
            let p = (F.dequeue s.simtoreal_interest_queue).0 in
            let w = record s.world {
              simtoreal_interest_queue = (F.dequeue s.simtoreal_interest_queue).1;
            } in
            ends (record {
              owned =
                  IsOwned-hand F w (λ q. in_hand F s q + is_at q p) _ (λ q ne. ground arith)
                    (IsOwned-take F s.world w refl (in_hand F s) p (λ q. omega (arith, t.less q))
                      (λ ne q. omega (arith, t.one ne q)) o.owned);
              busy = o.busy;
            }))
          (λ e.
            let p = s.nip_interest in
            let w = release F p s.world in
            let left = in_hand F (record s { nip_interest = 0 }) in
            Ends-bind (Ends-any (s.buffers p)) λ b _. ends (record {
              owned =
                  IsOwned-give F s.world w refl left p (ground arith)
                    (λ q. omega (arith, count-enqueue F q s.freebuf_list p))
                    (IsOwned-hand F s.world (in_hand F s) _ (λ q ne. ground arith) o.owned);
              busy = o.busy;
            }))
