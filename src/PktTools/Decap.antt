-- ===== src/PktTools/Decap.antt =====
-- Two packets one after the other in the same isockbuf.
use mixsim.Prelude.{ℕ, ◌≡◌, refl, false, ℤ}
use mixsim.NipAdaptor.{type_interest, type_data}
use mixsim.PktTools.{
  Tlv, is_below, IsockBuf, InterestParts, DataParts, i_canbeprefix, i_mustbefresh, add_flag,
  decap_pkt,
}

module _ (decode first : (at len : ℕ) → ℤ × Tlv) (interest first_interest : Tlv → InterestParts)
    (data_ first_data : Tlv → DataParts) (len first_len : ℕ) where
  -- The decoders read Data of the first buffer and an Interest of the second.
  pub record IsDataThenInterest : Type 0 where
    pub first_ok : is_below (first 0 first_len).0 ≡ false
    pub first_type : (first 0 first_len).1.tlv_type ≡ type_data
    pub second_ok : is_below (decode 0 len).0 ≡ false
    pub second_type : (decode 0 len).1.tlv_type ≡ type_interest

  -- When decap_pkt reads Data and then an Interest into the same isockbuf, the flags of the
  -- Interest are added to the type of the Data; the place of the data stays, with length 0.
  pub decap_pkt-decap_pkt :
      (ibuf : IsockBuf)
      → IsDataThenInterest
      → (let d = first_data (first 0 first_len).1 in
          let i = interest (decode 0 len).1 in
          let r =
            decap_pkt decode interest data_ len
              (decap_pkt first first_interest first_data first_len ibuf).1 in
          (r.0 ≡ i.res)
          × (r.1.type_ ≡ type_interest)
          × (r.1.name_at ≡ i.name_at)
          × (r.1.nlen ≡ i.nlen)
          × (r.1.data_at ≡ d.data_at)
          × (r.1.dlen ≡ 0)
          × (r.1.i_flags_d_type
              ≡ add_flag i.must_be_fresh i_mustbefresh
                  (add_flag i.can_be_prefix i_canbeprefix d.d_type)))
  unfolding decap_pkt
  decap_pkt-decap_pkt ibuf h =
      rw (h.first_ok, h.first_type, h.second_ok, h.second_type)
        (refl, refl, refl, refl, refl, refl, refl)
