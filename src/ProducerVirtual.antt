-- ===== src/ProducerVirtual.antt =====
-- ndnSIM/apps/ndn-provider-virtual.cpp: a provider in the simulation that asks the real network
-- for the time before it answers.
pub mod Answer
mod Tests
use mixsim.Prelude.{
  ℕ, ◌%◌, ◌^◌, Bool, true, false, Option, none, some, List, [], ◌∷◌, ◌++◌, ltb, leb, if◌then◌else◌,
  ◌>>=◌, ◌>>◌, guard, length, take,
}
use mixsim.CText.{codes, print_uint, c_string, written}
use mixsim.Ndn.{Ndn, Interest, SignatureInfo, Data, Packet, interest, data_packet}

abbrev pub time_prefix : List ℕ
time_prefix = codes "/mixsim/real/time"

-- `snprintf(buf, 2048, "(%u)[%s]:[%.*s]", …)`
unfoldable pub response_text : (seq : ℕ) → (content : List ℕ) → List ℕ
unfolding c_string
response_text seq content =
    codes "("
    ++ (print_uint seq
        ++ (codes ")[I am a provider inside ndnSIM!]:[" ++ (c_string content ++ codes "]")))

module _ (N : Ndn) where
  open N use {Name, from_uri, append_sequence_number, to_sequence_number, size, var_number}

  pub record ProducerVirtual : Type 0 where
    pub m_prefix : Name
    pub m_postfix : Name
    pub m_virtual_payload_size : ℕ
    pub m_freshness : ℕ
    pub m_signature : ℕ
    pub m_key_locator : Name
    pub m_interest_name : Name
    pub m_active : Bool

  -- The values of the attributes that nobody sets.
  unfoldable pub provider_attributes : ProducerVirtual → ProducerVirtual
  provider_attributes s = record s {
    m_prefix = from_uri (codes "/");
    m_postfix = from_uri (codes "/");
    m_virtual_payload_size = 1024;
    m_freshness = 0;
    m_signature = 0;
    m_key_locator = from_uri [];
  }

  -- What ndnSIM/examples/ndn-simple.cpp sets.
  unfoldable pub provider_scenario : ProducerVirtual → ProducerVirtual
  provider_scenario s = record s {
    m_prefix = from_uri (codes "/Rpi-1/lab1038");
    m_virtual_payload_size = 1024;
  }

  -- `FibHelper::AddRoute` for the prefix.
  unfoldable pub start_application : ProducerVirtual → List Name
  start_application s = s.m_prefix ∷ []

  unfoldable pub fetch_time : (nonce seq : ℕ) → Interest N
  fetch_time nonce seq = record {
    name = append_sequence_number (from_uri time_prefix) seq;
    nonce = some nonce;
    can_be_prefix = false;
    lifetime = 1000;
  }

  -- An inactive application does nothing; `none` is a name without a number.
  unfoldable pub on_interest :
      (nonce : ℕ) → Interest N → ProducerVirtual → Option (ProducerVirtual × List (Packet N))
  unfolding fetch_time
  on_interest nonce i s =
      if s.m_active
      then (do
        seq ← to_sequence_number i.name
        some (
          record s { m_interest_name = i.name },
          interest (fetch_time nonce (seq % 2 ^ 32)) ∷ [],
        ))
      else some (s, [])

  -- The key locator is set before the info is copied.
  unfoldable pub response_info : ProducerVirtual → SignatureInfo N
  response_info s = record {
    type_ = 255;
    key_locator = if ltb 0 (size s.m_key_locator) then some s.m_key_locator else none;
  }

  -- The response has as many bytes of `buf` as snprintf returned.
  unfoldable pub on_data : Data N → ProducerVirtual → Option (Data N)
  unfolding response_text response_info written
  on_data d s = do
    seq ← to_sequence_number d.name
    let text = response_text (seq % 2 ^ 32) d.content
    guard (leb (length text) 2048)
    some (record {
      name = s.m_interest_name;
      freshness = s.m_freshness;
      content = take (length text) (written 2048 text);
      signature_info = response_info s;
      signature_value = var_number s.m_signature;
    })
