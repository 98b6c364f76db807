-- ===== src/CText.antt =====
-- The C strings of the library calls that the simulator application makes, as lists of bytes:
-- `%u` and `%s` of snprintf, atoi, and the string that a char array holds.
pub mod Decimal
pub mod Slash
use Prim.Native.String.{String}
use Prim.Native.Char.{code}
use mixsim.Prelude.{
  ℕ, zero, suc, ◌+◌, ◌-◌, ◌*◌, ◌/◌, ◌%◌, ◌^◌, Bool, true, false, ◌&&◌, ◌||◌, List, [], ◌∷◌, ◌++◌,
  leb, ltb, ◌==◌, if◌then◌else◌, Option, none, some,
}

-- The bytes of an ASCII text.
abbrev pub codes : String → List ℕ
codes String.[] = []
codes (String.◌∷◌ c s) = code c ∷ codes s

abbrev pub slash : ℕ
slash = b'/'

-- The digits of a number in front of `out`, at most as many as the rounds.
unfoldable pub digits : (rounds n : ℕ) → List ℕ → List ℕ
digits zero n out = out
digits (suc k) n out =
    let rest = digits k (n / 10) ((b'0' + n % 10) ∷ out) in
    if n / 10 == 0 then (b'0' + n % 10) ∷ out else rest

-- `%u` of an `unsigned int`, which has ten digits at most.
unfoldable pub print_uint : ℕ → List ℕ
unfolding digits
print_uint n = digits 10 n []

-- The bytes before the first NUL.
unfoldable pub c_string : List ℕ → List ℕ
c_string [] = []
c_string (c ∷ s) = if c == 0 then [] else c ∷ c_string s

abbrev pub is_digit : ℕ → Bool
is_digit c = leb b'0' c && leb c b'9'

abbrev pub is_space : ℕ → Bool
is_space c = c == b' ' || (leb 9 c && leb c 13)

-- The number that the digits in front spell, behind the digits of `n`.
unfoldable pub read_digits : List ℕ → ℕ → ℕ
read_digits [] n = n
read_digits (c ∷ s) n = if is_digit c then read_digits s (n * 10 + (c - b'0')) else n

-- After the spaces: a sign at most, then digits.
abbrev pub read_signed : ℕ → List ℕ → ℕ
read_signed c s =
    if c == b'-'
    then (2 ^ 32 - read_digits s 0 % 2 ^ 32) % 2 ^ 32
    else (if c == b'+' then read_digits s 0 else read_digits (c ∷ s) 0) % 2 ^ 32

-- `uint32_t(atoi(s))`, for numbers that an `int` holds.
unfoldable pub atoi : List ℕ → ℕ
unfolding read_digits
atoi [] = 0
atoi (c ∷ s) = if is_space c then atoi s else read_signed c s

-- What `snprintf(buf, cap, …)` writes of a text: as much as fits in front of a NUL.
unfoldable pub written : (cap : ℕ) → List ℕ → List ℕ
written zero text = []
written (suc zero) text = 0 ∷ []
written (suc (suc n)) [] = 0 ∷ []
written (suc (suc n)) (c ∷ text) = c ∷ written (suc n) text

-- `for (idx = n - 1; buf[idx] != '/'; idx--)`: the index of the last slash among the first `n`
-- bytes; `none` is a read in front of the array.
unfoldable pub find_slash : ℕ → (ℕ → ℕ) → Option ℕ
find_slash zero buf = none
find_slash (suc idx) buf =
    let rest = find_slash idx buf in if buf idx == slash then some idx else rest
