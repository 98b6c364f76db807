-- ===== src/ProducerVirtual/Tests.antt =====
-- Requests to the provider, over names that are a URI and numbers.
use mixsim.Prelude.{ℕ, ◌≡◌, refl, true, false, some, none, [], ◌∷◌, arith}
use mixsim.CText.{codes, print_uint}
use mixsim.Ndn.{Interest, Data, interest}
use mixsim.Ndn.Numbered.{numbered_names}
use mixsim.ProducerVirtual.{ProducerVirtual, time_prefix, fetch_time, on_interest, on_data}
use mixsim.ProducerVirtual.Answer.{
  answer_text, IsTime, on_data-on_interest, on_data-on_interest_twice,
}

abbrev provider : ProducerVirtual numbered_names
provider = record {
  m_prefix = (codes "/sim", []);
  m_postfix = (codes "/sim", []);
  m_virtual_payload_size = 1024;
  m_freshness = 1000;
  m_signature = 0;
  m_key_locator = (codes "/key", []);
  m_interest_name = (codes "/none", []);
  m_active = true;
}

abbrev request : ℕ → Interest numbered_names
request seq = record {
  name = (codes "/sim/a", seq ∷ []);
  nonce = none;
  can_be_prefix = false;
  lifetime = 1000;
}

-- The time "12" for the number 7.
abbrev time_data : Data numbered_names
time_data = record {
  name = (time_prefix, 7 ∷ []);
  freshness = 1000;
  content = codes "12";
  signature_info = record { type_ = 255; key_locator = none };
  signature_value = [];
}

time_data-IsTime : IsTime numbered_names time_data 7
unfolding print_uint
time_data-IsTime = record {
  named = refl;
  small = omega arith;
  bytes = (omega arith, (omega arith, tt));
  fits = omega arith;
}

text_of_time :
    answer_text numbered_names 7 (codes "12") ≡ codes "(7)[I am a provider inside ndnSIM!]:[12]"
unfolding print_uint
text_of_time = refl

on_data-on_interest_example :
    (s : ProducerVirtual numbered_names) × (r : Data numbered_names) × (on_interest numbered_names 5
        (request 7)
        provider
      ≡ some (
        s,
        interest (record {
          name =
              numbered_names.append_sequence_number
                (numbered_names.from_uri (codes "/mixsim/real/time"))
                7;
          nonce = some 5;
          can_be_prefix = false;
          lifetime = 1000;
        })
            ∷ [],
      ))
    × (on_data numbered_names time_data s ≡ some r)
    × (r.name ≡ (request 7).name)
    × (r.content ≡ answer_text numbered_names 7 (codes "12"))
    × (r.signature_info ≡ record { type_ = 255; key_locator = some (codes "/key", []) })
on_data-on_interest_example =
    on_data-on_interest numbered_names provider (request 7) 7 5 refl refl time_data time_data-IsTime

on_data-on_interest_twice_example :
    (s s' : ProducerVirtual numbered_names) × (r : Data numbered_names) × (on_interest
        numbered_names 5
        (request 7)
        provider
      ≡ some (s, interest (fetch_time numbered_names 5 7) ∷ []))
    × (on_interest numbered_names 6 (request 8) s
        ≡ some (s', interest (fetch_time numbered_names 6 8) ∷ []))
    × (on_data numbered_names time_data s' ≡ some r)
    × (r.name ≡ (request 8).name)
    × (r.content ≡ answer_text numbered_names 7 (codes "12"))
on_data-on_interest_twice_example =
    on_data-on_interest_twice numbered_names provider (request 7) 7 5 refl refl time_data
      time_data-IsTime (request 8) 8 6 refl (omega arith)
