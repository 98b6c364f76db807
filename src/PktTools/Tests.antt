-- ===== src/PktTools/Tests.antt =====
-- Packets of a decoder that reads a type and a length in two bytes.
use mixsim.Prelude.{
  ℕ, ◌+◌, ◌≡◌, refl, false, ltb, List, [], ◌∷◌, get_elem?, none, some, if◌then◌else◌, arith, ℤ, pos,
  negsuc, inl,
}
use mixsim.PktTools.{Tlv, returns, get_pkt_type, get_pkt_name, IsockBuf, InterestParts, DataParts}
use mixsim.PktTools.Scan.{Advances, Search, get_pkt_name-Search}

abbrev byte_at : List ℕ → ℕ → ℕ
byte_at s i = elim (get_elem? s i) [ none ↦ 0 | some c ↦ c ]

-- A type and a length in front of the value.
abbrev decode_bytes : List ℕ → (at len : ℕ) → ℤ × Tlv
decode_bytes s at len = (
  if ltb len (at + 2) then negsuc 21 else pos 0,
  record { tlv_type = byte_at s at; tlv_value = at + 2; tlv_len = byte_at s (at + 1) },
)

decode_bytes-Advances : (s : List ℕ) → Advances (decode_bytes s)
decode_bytes-Advances s at len h = omega arith

-- An Interest with a nonce of one byte and the name "/a"; 7 is TYPE_NAME.
abbrev packet : List ℕ
packet = 5 ∷ 7 ∷ 10 ∷ 1 ∷ 200 ∷ 7 ∷ 2 ∷ 47 ∷ 97 ∷ []

packet_name : get_pkt_name (decode_bytes packet) 7 8 9 ≡ returns (pos 2) (some 7)
unfolding get_pkt_name
packet_name = refl

packet_type : get_pkt_type (decode_bytes packet) 9 ≡ pos 5
unfolding get_pkt_type
packet_type = refl

get_pkt_name-Search_example :
    Search (decode_bytes packet) 7 9 9 2 (get_pkt_name (decode_bytes packet) 7 8 9)
get_pkt_name-Search_example =
    get_pkt_name-Search (decode_bytes packet) 7 9 (decode_bytes-Advances packet)
      (record { decoded = refl; typed = inl refl })

-- Data that are a key, and an Interest without flags.
abbrev key_data : List ℕ
key_data = 6 ∷ 0 ∷ []

abbrev no_interest : Tlv → InterestParts
no_interest t = record {
  res = pos 0;
  name_at = 4;
  nlen = 2;
  can_be_prefix = false;
  must_be_fresh = false;
  i_life_time = 2000;
}

abbrev key_parts : Tlv → DataParts
key_parts t = record {
  res = pos 0;
  name_at = 4;
  nlen = 2;
  data_at = 6;
  dlen = 9;
  d_type = 4;
  fresh_period = 0;
}

abbrev empty_isockbuf : IsockBuf
empty_isockbuf = record {
  type_ = 0;
  name_at = 0;
  nlen = 0;
  data_at = 0;
  dlen = 0;
  i_flags_d_type = 0;
  i_life_time_fresh_period = 0;
}
