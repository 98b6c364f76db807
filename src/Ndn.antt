-- ===== src/Ndn.antt =====
-- What the applications of ndnSIM/apps use of ndn-cxx and ns-3: names, packets, and what an
-- application sends. The names are a parameter, with the laws of their documentation.
pub mod Numbered
use mixsim.Prelude.{ℕ, Bool, Option, some, List, ◌≡◌}

-- `Name(const char *)`, `toUri`, `appendSequenceNumber`, `getPrefix(-1)`, and
-- `at(-1).toSequenceNumber()`, where `none` is an exception; and the bytes of `appendVarNumber`.
pub record Ndn : Type 1 where
  pub Name : Type 0
  pub from_uri : List ℕ → Name
  pub to_uri : Name → List ℕ
  pub append_sequence_number : Name → ℕ → Name
  pub get_prefix : Name → Name
  pub to_sequence_number : Name → Option ℕ
  pub size : Name → ℕ
  pub var_number : ℕ → List ℕ
  pub get_prefix-append : (n : Name) (s : ℕ) → get_prefix (append_sequence_number n s) ≡ n
  pub to_sequence_number-append :
      (n : Name) (s : ℕ) → to_sequence_number (append_sequence_number n s) ≡ some s

module _ (N : Ndn) where
  pub record Interest : Type 0 where
    pub name : N.Name
    pub nonce : Option ℕ
    pub can_be_prefix : Bool
    pub lifetime : ℕ

  pub record SignatureInfo : Type 0 where
    pub type_ : ℕ
    pub key_locator : Option N.Name

  pub record Data : Type 0 where
    pub name : N.Name
    pub freshness : ℕ
    pub content : List ℕ
    pub signature_info : SignatureInfo
    pub signature_value : List ℕ

  -- What an application hands to `m_appLink`, or gets from it.
  pub data Packet : Type 0 where
    interest : Interest → Packet
    data_packet : Data → Packet
    nack : Interest → Packet
