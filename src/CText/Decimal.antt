-- ===== src/CText/Decimal.antt =====
-- Numbers that are printed and read back.
use mixsim.Prelude.{
  ℕ, zero, suc, ◌+◌, ◌*◌, ◌/◌, ◌%◌, ◌^◌, ◌≤◌, ◌<◌, ◌≡◌, refl, inl, inr, List, [], ◌∷◌, arith, ◌==◌,
  Bool-cases, length, All,
}
use mixsim.CText.{digits, print_uint, read_digits, atoi}

-- 10 ^ k
abbrev pub power : ℕ → ℕ
power zero = 1
power (suc k) = 10 * power k

read_digits-digits :
    (k n : ℕ) (out : List ℕ) → n < power k → read_digits (digits k n out) 0 ≡ read_digits out n
unfolding digits read_digits
read_digits-digits zero n out h = let z : n ≡ 0 = omega arith in rw z refl
read_digits-digits (suc k) n out h =
    ground (arith, read_digits-digits k (n / 10) ((b'0' + n % 10) ∷ out))

-- A number of at most `j` digits is printed in that many.
length-digits_le :
    (k j n : ℕ) (out : List ℕ) → n < power (suc j) → length (digits k n out) ≤ suc j + length out
unfolding digits
length-digits_le zero j n out h = omega arith
length-digits_le (suc k) zero n out h = ground arith
length-digits_le (suc k) (suc j) n out h =
    ground (arith, length-digits_le k j (n / 10) ((b'0' + n % 10) ∷ out))

abbrev pub IsDigit : ℕ → Type 0
IsDigit c = (b'0' ≤ c) × (c ≤ b'9')

digits-IsDigit : (k n : ℕ) (out : List ℕ) → All IsDigit out → All IsDigit (digits k n out)
unfolding digits
digits-IsDigit zero n out h = h
digits-IsDigit (suc k) n out h =
    let d : IsDigit (b'0' + n % 10) = omega arith in
    let rest = digits-IsDigit k (n / 10) ((b'0' + n % 10) ∷ out) (d, h) in
    elim (Bool-cases (n / 10 == 0)) [ inl e ↦ rw e (d, h) | inr e ↦ rw e rest ]

atoi-All : (s : List ℕ) → All IsDigit s → read_digits s 0 < 2 ^ 32 → atoi s ≡ read_digits s 0
unfolding atoi read_digits
atoi-All [] h small = refl
atoi-All (c ∷ s) (d, ds) small = ground arith

-- What `%u` prints of a number below 2 ^ 32, `atoi` reads.
pub atoi-print_uint : (n : ℕ) → n < 2 ^ 32 → atoi (print_uint n) ≡ n
unfolding print_uint read_digits
atoi-print_uint n h =
    let same : read_digits (digits 10 n []) 0 ≡ n = read_digits-digits 10 n [] (omega arith) in
    rw (atoi-All (digits 10 n []) (digits-IsDigit 10 n [] tt) (omega (arith, same))) same

pub print_uint-IsDigit : (n : ℕ) → All IsDigit (print_uint n)
unfolding print_uint
print_uint-IsDigit n = digits-IsDigit 10 n [] tt

pub length-print_uint_le : (n : ℕ) → n < 10 ^ 9 → length (print_uint n) ≤ 9
unfolding print_uint
length-print_uint_le n h = omega (arith, length-digits_le 10 8 n [] (omega arith))
