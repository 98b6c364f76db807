-- ===== src/PktTools.antt =====
-- adaptor/nip_pkt_tools.c: the type and the name of a TLV packet, and its parts.
--
-- The TLV library is a parameter. A pointer into the packet is an offset.
pub mod Scan
pub mod Decap
mod Tests
use mixsim.Prelude.{
  ℕ, zero, suc, ◌+◌, ◌-◌, ◌%◌, ◌^◌, Bool, true, false, ◌&&◌, ◌||◌, Option, none, some, List, ltb,
  ◌==◌, if◌then◌else◌, ℤ, pos, negsuc,
}
use Prim.Native.Nat.{bit_or}
use mixsim.NipAdaptor.{type_interest, type_data}

-- `struct tlv_t`: the type, where the value stands, and its length.
pub record Tlv : Type 0 where
  pub tlv_type : ℕ
  pub tlv_value : ℕ
  pub tlv_len : ℕ

-- -EINVAL
abbrev pub einval : ℤ
einval = negsuc 21

-- The `int` that a number is returned as.
unfoldable pub to_int : ℕ → ℤ
to_int v = if ltb (v % 2 ^ 32) (2 ^ 31) then pos (v % 2 ^ 32) else negsuc (2 ^ 32 - v % 2 ^ 32 - 1)

abbrev pub is_zero : ℤ → Bool
is_zero (pos zero) = true
is_zero (pos (suc n)) = false
is_zero (negsuc n) = false

abbrev pub is_below : ℤ → Bool
is_below (pos n) = false
is_below (negsuc n) = true

-- What a search of the name returns, with the offset that it wrote; or the search did not end.
pub data Found : Type 0 where
  returns : ℤ → Option ℕ → Found
  out_of_fuel : Found

-- The fields of `struct isockbuf` that a packet sets; an array is where it stands. The union's
-- `i_flags` and `d_type` are one byte, and `i_life_time` and `fresh_period` one word.
pub record IsockBuf : Type 0 where
  pub type_ : ℕ
  pub name_at : ℕ
  pub nlen : ℕ
  pub data_at : ℕ
  pub dlen : ℕ
  pub i_flags_d_type : ℕ
  pub i_life_time_fresh_period : ℕ

-- What `decap_interest_buf` and `decap_data_buf` return and write.
pub record InterestParts : Type 0 where
  pub res : ℤ
  pub name_at : ℕ
  pub nlen : ℕ
  pub can_be_prefix : Bool
  pub must_be_fresh : Bool
  pub i_life_time : ℕ

pub record DataParts : Type 0 where
  pub res : ℤ
  pub name_at : ℕ
  pub nlen : ℕ
  pub data_at : ℕ
  pub dlen : ℕ
  pub d_type : ℕ
  pub fresh_period : ℕ

abbrev pub i_canbeprefix : ℕ
i_canbeprefix = 2

abbrev pub i_mustbefresh : ℕ
i_mustbefresh = 4

-- `ibuf->i_flags |= flag`
abbrev pub add_flag : Bool → ℕ → ℕ → ℕ
add_flag true flag flags = bit_or flags flag
add_flag false flag flags = flags

-- `tlv_decode_usr` of the packet: the result and the TLV at an offset, for a length.
module _ (decode : (at len : ℕ) → ℤ × Tlv) where
  unfoldable pub get_pkt_type : (len : ℕ) → ℤ
  unfolding to_int
  get_pkt_type len =
      let (err, tlv) = decode 0 len in if is_zero err then to_int tlv.tlv_type else err

  -- `while (buf < tail)`; `type_name` is TYPE_NAME. `len` stays the length of the whole packet.
  unfoldable pub name_loop : (type_name len tail fuel buf : ℕ) → Found
  unfolding to_int
  name_loop type_name len tail zero buf = out_of_fuel
  name_loop type_name len tail (suc k) buf =
      let (err, tlv) = decode buf len in
      let rest = name_loop type_name len tail k (tlv.tlv_value + tlv.tlv_len) in
      if ltb buf tail
      then (if is_below err
          then returns einval none
          else (if tlv.tlv_type == type_name
              then returns (to_int tlv.tlv_len) (some tlv.tlv_value)
              else rest))
      else returns einval none

  unfoldable pub get_pkt_name : (type_name fuel len : ℕ) → Found
  unfolding name_loop
  get_pkt_name type_name fuel len =
      let (err, tlv) = decode 0 len in
      let found = name_loop type_name len (tlv.tlv_value + tlv.tlv_len) fuel tlv.tlv_value in
      if (if is_zero err then false else true)
        || ((if tlv.tlv_type == type_interest then false else true)
            && (if tlv.tlv_type == type_data then false else true))
      then returns err none
      else found

  unfoldable pub decap_pkt :
      (Tlv → InterestParts) → (Tlv → DataParts) → (buf_len : ℕ) → IsockBuf → ℤ × IsockBuf
  decap_pkt decap_interest_buf decap_data_buf buf_len ibuf =
      let (err, tlv) = decode 0 buf_len in
      let typed = record ibuf { type_ = tlv.tlv_type } in
      let i = decap_interest_buf tlv in
      let d = decap_data_buf tlv in
      if is_below err
      then (einval, ibuf)
      else (if tlv.tlv_type == type_interest
          then (
            i.res,
            record typed {
              name_at = i.name_at;
              nlen = i.nlen;
              i_life_time_fresh_period = i.i_life_time;
              dlen = 0;
              i_flags_d_type =
                  add_flag i.must_be_fresh i_mustbefresh
                    (add_flag i.can_be_prefix i_canbeprefix ibuf.i_flags_d_type);
            },
          )
          else (if tlv.tlv_type == type_data
              then (
                d.res,
                record typed {
                  name_at = d.name_at;
                  nlen = d.nlen;
                  data_at = d.data_at;
                  dlen = d.dlen;
                  i_flags_d_type = d.d_type;
                  i_life_time_fresh_period = d.fresh_period;
                },
              )
              else (einval, typed)))
