-- ===== src/NipAdaptor/Tests.antt =====
-- The theorems on nip_data_in at packets of a short and of a long content.
use mixsim.Prelude.{
  ℕ, ◌≤◌, ◌≡◌, refl, none, some, List, [], ◌∷◌, arith, ◌==◌, if◌then◌else◌, length, length-tabulate,
  tabulate,
}
use mixsim.Buffer.{Buffer}
use mixsim.Fifo.{list_fifo}
use mixsim.World.{World}
use mixsim.NipAdaptor.{IsockBuf, nip_data_in}
use mixsim.NipAdaptor.Content.{Contains, nip_data_in-Contains, nip_data_in-overflow}

abbrev world : World (List ℕ)
world = record {
  nut_table = record { table_cap = 0; entry_num = 0; base = 0; entries = []; kept = [] };
  realtosim_interest_queue = [];
  simtoreal_interest_queue = [];
  simtoreal_data_queue = [];
  realtosim_data_queue = [];
  freebuf_list = 16 ∷ [];
  buffers = λ p. if p == 16 then some (λ i. 0) else none;
}

abbrev short_packet : IsockBuf
short_packet = record {
  name = 97 ∷ 98 ∷ [];
  nlen = 2;
  content = 1 ∷ 2 ∷ 3 ∷ [];
  dlen = 3;
  d_type = 0;
}

bytes_enough : (n : ℕ) → n ≤ length (tabulate n (λ i. i))
bytes_enough n = omega (arith, length-tabulate n (λ i. i))

abbrev long_packet : IsockBuf
long_packet = record short_packet { content = tabulate 2039 (λ i. i); dlen = 2039 }

nip_data_in-Contains_example :
    (w : World (List ℕ)) × (b : Buffer) × (nip_data_in list_fifo none short_packet world ≡ some w)
    × (w.buffers 16 ≡ some b)
    × Contains b short_packet
    × (w.realtosim_data_queue ≡ 16 ∷ [])
nip_data_in-Contains_example =
    nip_data_in-Contains list_fifo world short_packet (λ i. 0)
      (record {
        ne_null = omega arith;
        there = refl;
        no_nack = omega arith;
        short = omega arith;
        name_there = omega arith;
        small = omega arith;
        data_there = omega arith;
      })
      none (omega arith)

nip_data_in-overflow_example : nip_data_in list_fifo none long_packet world ≡ none
nip_data_in-overflow_example =
    nip_data_in-overflow list_fifo world long_packet (λ i. 0)
      (record {
        ne_null = omega arith;
        there = refl;
        no_nack = omega arith;
        short = omega arith;
        name_there = omega arith;
        small = omega arith;
        data_there = bytes_enough 2039;
      })
      none (omega arith)
