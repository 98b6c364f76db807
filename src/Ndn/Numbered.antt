-- ===== src/Ndn/Numbered.antt =====
-- Names that fill the interface: for runs and tests.
use mixsim.Prelude.{ℕ, ◌+◌, ◌%◌, ◌^◌, refl, Option, none, some, List, [], ◌∷◌, length}
use mixsim.Ndn.{Ndn}

abbrev without_last : List ℕ → List ℕ
without_last [] = []
without_last (s ∷ rest) = rest

abbrev last_number : List ℕ → Option ℕ
last_number [] = none
last_number (s ∷ rest) = some s

-- A name is a URI with the sequence numbers behind it, the last one first.
abbrev pub numbered_names : Ndn
numbered_names = record {
  Name = List ℕ × List ℕ;
  from_uri = λ u. (u, []);
  to_uri = λ n. n.0;
  append_sequence_number = λ n s. (n.0, s ∷ n.1);
  get_prefix = λ n. (n.0, without_last n.1);
  to_sequence_number = λ n. last_number n.1;
  size = λ n. length n.1 + 1;
  var_number = λ v. v % 2 ^ 8 ∷ [];
  get_prefix-append = λ n s. refl;
  to_sequence_number-append = λ n s. refl;
}
