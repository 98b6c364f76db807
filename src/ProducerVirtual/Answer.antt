-- ===== src/ProducerVirtual/Answer.antt =====
-- The answers of the provider, to one request and to two that overlap.
use mixsim.Prelude.{
  ℕ, zero, suc, ◌%◌, ◌^◌, ◌≤◌, ◌<◌, ◌≡◌, refl, ap, true, false, none, some, ltb, if◌then◌else◌,
  List, [], ◌∷◌, ◌++◌, leb, length, take, arith, All,
}
use mixsim.CText.{codes, print_uint, written}
use mixsim.AppMixSim.Names.{IsByte, c_string-All}
use mixsim.Ndn.{Ndn, Interest, Data, interest}
use mixsim.ProducerVirtual.{
  ProducerVirtual, time_prefix, response_text, fetch_time, on_interest, response_info, on_data,
}

-- A text that fits is what the buffer holds.
take-written :
    (n : ℕ) (text : List ℕ) → length text ≤ n → take (length text) (written (suc n) text) ≡ text
unfolding written
take-written n [] h = refl
take-written zero (c ∷ text) h = absurd (omega arith)
take-written (suc n) (c ∷ text) h = ap (λ l. c ∷ l) (take-written n text (omega arith))

module _ (N : Ndn) where
  -- The text of the answer, with the number of the request and the time that came.
  abbrev pub answer_text : (seq : ℕ) → (content : List ℕ) → List ℕ
  answer_text seq content =
      codes "("
      ++ (print_uint seq ++ (codes ")[I am a provider inside ndnSIM!]:[" ++ (content ++ codes "]")))

  asks :
      (s : ProducerVirtual N) (i : Interest N) (q nonce : ℕ)
      → s.m_active ≡ true
      → N.to_sequence_number i.name ≡ some q
      → q < 2 ^ 32
      → on_interest N nonce i s
        ≡ some (record s { m_interest_name = i.name }, interest (fetch_time N nonce q) ∷ [])
  unfolding on_interest
  asks s i q nonce active numbered small =
      let word : q % 2 ^ 32 ≡ q = omega arith in rw (active, numbered, word)

  -- What comes for the number `q`, in short enough a text without NULs.
  pub record IsTime (d : Data N) (q : ℕ) : Type 0 where
    pub named : d.name ≡ N.append_sequence_number (N.from_uri (codes "/mixsim/real/time")) q
    pub small : q < 2 ^ 32
    pub bytes : All IsByte d.content
    pub fits : length (answer_text q d.content) ≤ 2047

  on_data_lem :
      (s : ProducerVirtual N) (d : Data N) (q : ℕ)
      → IsTime d q
      → (r : Data N) × (on_data N d s ≡ some r)
        × (r.name ≡ s.m_interest_name)
        × (r.content ≡ answer_text q d.content)
        × (r.signature_info ≡ response_info N s)
  unfolding on_data response_text
  on_data_lem s d q t =
      let seq_of = N.to_sequence_number-append (N.from_uri time_prefix) q in
      let word : q % 2 ^ 32 ≡ q = let h = t.small in omega arith in
      let text = c_string-All d.content t.bytes in
      let inside : leb (length (answer_text q d.content)) 2048 ≡ true =
        let h = t.fits in ground arith in
      (
        record {
          name = s.m_interest_name;
          freshness = s.m_freshness;
          content =
              take (length (answer_text q d.content)) (written 2048 (answer_text q d.content));
          signature_info = response_info N s;
          signature_value = N.var_number s.m_signature;
        },
        rw (t.named, seq_of, word, text, inside),
        refl,
        take-written 2047 (answer_text q d.content) t.fits,
        refl,
      )

  module _ (s : ProducerVirtual N) (i : Interest N) (q nonce : ℕ) (active : s.m_active ≡ true)
      (numbered : N.to_sequence_number i.name ≡ some q) (d : Data N) (t : IsTime d q) where
    -- An active provider asks for /mixsim/real/time under the number below 2^32 of a request, with
    -- a nonce, no prefix match and a lifetime of 1000; when Data under that number come, of bytes
    -- without NUL, whose text fits into 2047 bytes, its answer has the name of the request, the
    -- number and the bytes in its text, and the key locator in its signature info exactly if that
    -- name is not empty.
    pub on_data-on_interest :
        (s' : ProducerVirtual N) × (r : Data N) × (on_interest N nonce i s
          ≡ some (
            s',
            interest (record {
              name = N.append_sequence_number (N.from_uri (codes "/mixsim/real/time")) q;
              nonce = some nonce;
              can_be_prefix = false;
              lifetime = 1000;
            })
                ∷ [],
          ))
        × (on_data N d s' ≡ some r)
        × (r.name ≡ i.name)
        × (r.content ≡ answer_text q d.content)
        × (r.signature_info ≡ record {
          type_ = 255;
          key_locator = if ltb 0 (N.size s.m_key_locator) then some s.m_key_locator else none;
        })
    unfolding response_info fetch_time
    on_data-on_interest =
        let (r, e, named, text, info) = on_data_lem (record s { m_interest_name = i.name }) d q t in
        (
          record s { m_interest_name = i.name },
          r,
          asks s i q nonce active numbered t.small,
          e,
          named,
          text,
          info,
        )

    -- When a second request comes before the time for the first one, the answer with the number
    -- and the bytes of the first carries the name of the second.
    pub on_data-on_interest_twice :
        (j : Interest N) (q' nonce' : ℕ)
        → N.to_sequence_number j.name ≡ some q'
        → q' < 2 ^ 32
        → (s' : ProducerVirtual N) × (s'' : ProducerVirtual N) × (r : Data N) × (on_interest N nonce
              i s
            ≡ some (s', interest (fetch_time N nonce q) ∷ []))
          × (on_interest N nonce' j s' ≡ some (s'', interest (fetch_time N nonce' q') ∷ []))
          × (on_data N d s'' ≡ some r)
          × (r.name ≡ j.name)
          × (r.content ≡ answer_text q d.content)
    on_data-on_interest_twice j q' nonce' numbered' small' =
        let s' = record s { m_interest_name = i.name } in
        let (r, e, named, text, info) =
          on_data_lem (record s' { m_interest_name = j.name }) d q t in
        (
          s',
          record s' { m_interest_name = j.name },
          r,
          asks s i q nonce active numbered t.small,
          asks s' j q' nonce' active numbered' small',
          e,
          named,
          text,
        )
