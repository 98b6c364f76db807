-- ===== src/UdpAdaptor/Overlong.antt =====
-- udp_data_in at a datagram that may be longer than a buffer.
use mixsim.Prelude.{
  ℕ, ◌<◌, ◌≤◌, ◌≡◌, ◌≢◌, refl, true, false, Bool, Option, none, some, List, arith, leb, ◌==◌,
  length, take, length-take, Bool-cases, inl, inr,
}
use mixsim.Fifo.{Fifo}
use mixsim.Buffer.{Buffer}
use mixsim.World.{World, Malloc, take_buffer, update_buffer}
use mixsim.UdpAdaptor.{udp_data_body, udp_data_in}

abbrev pub runs {ℓ} : {A : Type ℓ} → Option A → Bool
runs none = false
runs (some a) = true

leb-within : (n k : ℕ) → n ≤ k → leb n k ≡ true
leb-within n k h = ground arith

leb-beyond : (n k : ℕ) → k < n → leb n k ≡ false
leb-beyond n k h = ground arith

fits-take : (xs : List ℕ) → leb (length (take 4096 xs)) 2048 ≡ leb (length xs) 2048
fits-take xs = elim (Bool-cases (leb (length xs) 2048)) [
  | inl fits ↦
      let whole : length xs ≤ 2048 = ground arith in
      let short : length (take 4096 xs) ≤ 2048 = omega (arith, length-take 4096 xs) in
      rw fits (leb-within (length (take 4096 xs)) 2048 short)
  | inr long ↦
      let some_ : 2048 < length xs = ground arith in
      let rest : 2048 < length (take 4096 xs) = omega (arith, length-take 4096 xs) in
      rw long (leb-beyond (length (take 4096 xs)) 2048 rest)
]

module _ (F : Fifo) (m : Malloc) (w : World F.Queue) (b : Buffer)
    (ne_null : (F.dequeue w.freebuf_list).0 ≢ 0)
    (there : w.buffers (F.dequeue w.freebuf_list).0 ≡ some b) where
  udp_data_body-runs : (buf : List ℕ) → runs (udp_data_body F m buf w) ≡ leb (length buf) 2048
  unfolding udp_data_body take_buffer update_buffer
  udp_data_body-runs buf =
      let own : ((F.dequeue w.freebuf_list).0 == 0) ≡ false = ground arith in
      elim (Bool-cases (length buf == 0)) [
        | inl nothing ↦
            let fits : leb (length buf) 2048 ≡ true = ground arith in rw (nothing, fits) refl
        | inr bytes ↦ elim (Bool-cases (leb (length buf) 2048)) [
          | inl fits ↦ rw (bytes, own, fits, there) refl
          | inr long ↦ rw (bytes, own, long) refl
        ]
      ]

  -- When the first buffer of the free list is allocated, udp_data_in of a datagram keeps inside
  -- its objects exactly if the datagram has at most 2048 bytes, although dyco_recv admits 4096.
  pub udp_data_in-runs :
      (datagram : List ℕ) → runs (udp_data_in F m datagram w) ≡ leb (length datagram) 2048
  unfolding udp_data_in
  udp_data_in-runs datagram = rw (udp_data_body-runs (take 4096 datagram), fits-take datagram) refl
