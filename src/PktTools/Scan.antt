-- ===== src/PktTools/Scan.antt =====
-- The search for a name ends, and finds the first one.
use mixsim.Prelude.{
  ℕ, zero, suc, ◌+◌, ◌≤◌, ◌<◌, ◌≡◌, ◌≢◌, true, false, none, some, arith, ltb, ◌==◌, ℤ, inl, inr,
  Bool-cases, ◌⊎◌,
}
use mixsim.NipAdaptor.{type_interest, type_data}
use mixsim.PktTools.{
  Tlv, einval, is_zero, is_below, Found, to_int, returns, name_loop, get_pkt_name,
}

-- A TLV at an offset ends behind it: the header has a byte at least.
abbrev pub Advances : ((at len : ℕ) → ℤ × Tlv) → Type 0
Advances decode =
    (at len : ℕ)
    → is_below (decode at len).0 ≡ false
    → at < (decode at len).1.tlv_value + (decode at len).1.tlv_len

module _ (decode : (at len : ℕ) → ℤ × Tlv) (type_name len : ℕ) where
  -- The value of the TLV at an offset ends here.
  abbrev pub behind : ℕ → ℕ
  behind buf = (decode buf len).1.tlv_value + (decode buf len).1.tlv_len

  -- From an offset, over TLVs that are no names, to the first that is one, or to the end or one
  -- that cannot be read.
  pub data Search (tail : ℕ) : (buf : ℕ) → Found → Type 0 where
    past_end : {buf : ℕ} → tail ≤ buf → Search tail buf (returns einval none)
    broken :
        {buf : ℕ}
        → buf < tail
        → is_below (decode buf len).0 ≡ true
        → Search tail buf (returns einval none)
    name :
        {buf : ℕ}
        → buf < tail
        → is_below (decode buf len).0 ≡ false
        → (decode buf len).1.tlv_type ≡ type_name
        → Search tail buf
            (returns (to_int (decode buf len).1.tlv_len) (some (decode buf len).1.tlv_value))
    skip :
        {buf : ℕ} {r : Found}
        → buf < tail
        → is_below (decode buf len).0 ≡ false
        → (decode buf len).1.tlv_type ≢ type_name
        → Search tail (behind buf) r
        → Search tail buf r

  -- One round of the loop.
  name_loop-suc :
      (tail fuel buf : ℕ)
      → (buf < tail
          → is_below (decode buf len).0 ≡ false
          → Search tail (behind buf) (name_loop decode type_name len tail fuel (behind buf)))
      → Search tail buf (name_loop decode type_name len tail (suc fuel) buf)
  unfolding name_loop
  name_loop-suc tail fuel buf next = elim (Bool-cases (ltb buf tail)) [
    | inr done ↦ rw done (past_end (ground arith))
    | inl more ↦
        let before : buf < tail = ground arith in
        elim (Bool-cases (is_below (decode buf len).0)) [
          | inl bad ↦ rw (more, bad) (broken before bad)
          | inr fine ↦ elim (Bool-cases ((decode buf len).1.tlv_type == type_name)) [
            | inl here ↦ rw (more, fine, here) (name before fine (ground arith))
            | inr other ↦
                rw (more, fine, other) (skip before fine (ground arith) (next before fine))
          ]
        ]
  ]

  pub name_loop-Search :
      (tail fuel buf : ℕ)
      → Advances decode
      → tail ≤ buf + fuel
      → Search tail buf (name_loop decode type_name len tail (suc fuel) buf)
  name_loop-Search tail zero buf adv h =
      name_loop-suc tail zero buf (λ before fine. absurd (omega arith))
  name_loop-Search tail (suc k) buf adv h =
      name_loop-suc tail (suc k) buf
        (λ before fine. name_loop-Search tail k (behind buf) adv (omega (arith, adv buf len fine)))

  -- The packet is read, and is an Interest or Data.
  pub record IsNamed : Type 0 where
    pub decoded : is_zero (decode 0 len).0 ≡ true
    pub typed :
        ((decode 0 len).1.tlv_type ≡ type_interest) ⊎ ((decode 0 len).1.tlv_type ≡ type_data)

  -- When every TLV that the decoder reads ends behind the place where it was read, get_pkt_name of
  -- a packet that is an Interest or Data ends within one round more than the packet has bytes, and
  -- returns the length and place of the first TLV of type TYPE_NAME inside, or -EINVAL if one
  -- before it cannot be read or there is none.
  pub get_pkt_name-Search :
      Advances decode
      → IsNamed
      → Search
          (behind 0)
          (decode 0 len).1.tlv_value
          (get_pkt_name decode type_name (suc (decode 0 len).1.tlv_len) len)
  unfolding get_pkt_name
  get_pkt_name-Search adv h =
      let found =
        name_loop-Search (behind 0) (decode 0 len).1.tlv_len (decode 0 len).1.tlv_value adv
          (omega arith) in
      elim h.typed [ inl i ↦ rw (h.decoded, i) found | inr d ↦ rw (h.decoded, d) found ]
