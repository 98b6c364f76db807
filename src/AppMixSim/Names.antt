-- ===== src/AppMixSim/Names.antt =====
-- The names that one side prints into a buffer, and the other takes apart.
use mixsim.Prelude.{
  ℕ, zero, suc, ◌+◌, ◌-◌, ◌^◌, ◌≤◌, ◌<◌, ◌≡◌, ◌≢◌, refl, ap, ◌∙◌, true, false, none, some, List, [],
  ◌∷◌, ◌++◌, ltb, leb, length, tabulate, get_elem?, get_elem?_total, length-append, All, arith,
}
use mixsim.CText.{slash, print_uint, c_string, written, find_slash}
use mixsim.CText.Decimal.{IsDigit, print_uint-IsDigit, atoi-print_uint, length-print_uint_le}
use mixsim.CText.Slash.{find_slash-last}
use mixsim.Buffer.{Buffer, nlen, set_nlen, set_dlen, put_u32, nlen-set_dlen}
use mixsim.Buffer.Copy.{copy_at-inside, nlen-set_nlen, set_dlen-behind}
use mixsim.AppMixSim.{buf_at, split_name, name_text, put_name}

-- The buffer holds a text, as long as its `nlen` says.
pub record Spells (b : Buffer) (text : List ℕ) : Type 0 where
  pub long : nlen b ≡ length text
  pub at : (i x : ℕ) → get_elem? text i ≡ some x → b (8 + i) ≡ x

get_elem?-left :
    (xs ys : List ℕ) (i x : ℕ) → get_elem? xs i ≡ some x → get_elem? (xs ++ ys) i ≡ some x
get_elem?-left [] ys i x h = cc
get_elem?-left (y ∷ xs) ys zero x h = h
get_elem?-left (y ∷ xs) ys (suc i) x h = get_elem?-left xs ys i x h

get_elem?-right : (xs ys : List ℕ) (i : ℕ) → get_elem? (xs ++ ys) (length xs + i) ≡ get_elem? ys i
get_elem?-right [] ys i = let e : 0 + i ≡ i = omega arith in rw e refl
get_elem?-right (x ∷ xs) ys i =
    let e : suc (length xs) + i ≡ suc (length xs + i) = omega arith in
    rw e (get_elem?-right xs ys i)

pub tabulate-get_elem? :
    (xs : List ℕ) (f : ℕ → ℕ)
    → ((i x : ℕ) → get_elem? xs i ≡ some x → f i ≡ x)
    → tabulate (length xs) f ≡ xs
tabulate-get_elem? [] f h = refl
tabulate-get_elem? (x ∷ xs) f h =
    ground (arith, h 0 x refl, tabulate-get_elem? xs (λ i. f (suc i)) (λ i y e. h (suc i) y e))

abbrev pub IsByte : ℕ → Type 0
IsByte c = c ≢ 0

pub c_string-All : (s : List ℕ) → All IsByte s → c_string s ≡ s
unfolding c_string
c_string-All [] h = refl
c_string-All (c ∷ s) (ne, hs) = ground (arith, c_string-All s hs)

digits-IsByte : (s : List ℕ) → All IsDigit s → All IsByte s
digits-IsByte [] h = tt
digits-IsByte (c ∷ s) (d, ds) = (omega arith, digits-IsByte s ds)

abbrev pub IsNotSlash : ℕ → Type 0
IsNotSlash c = c ≢ slash

pub digits-IsNotSlash : (s : List ℕ) → All IsDigit s → All IsNotSlash s
digits-IsNotSlash [] h = tt
digits-IsNotSlash (c ∷ s) (d, ds) = (omega arith, digits-IsNotSlash s ds)

IsNotSlash-at : (s : List ℕ) (i x : ℕ) → All IsNotSlash s → get_elem? s i ≡ some x → x ≢ slash
IsNotSlash-at [] i x h e = cc
IsNotSlash-at (c ∷ s) zero x (d, ds) e = ground arith
IsNotSlash-at (c ∷ s) (suc i) x (d, ds) e = IsNotSlash-at s i x ds e

get_elem?-written :
    (n : ℕ) (text : List ℕ) (i x : ℕ)
    → length text ≤ n
    → get_elem? text i ≡ some x
    → get_elem? (written (suc n) text) i ≡ some x
unfolding written
get_elem?-written n [] i x h e = cc
get_elem?-written zero (c ∷ text) i x h e = absurd (omega arith)
get_elem?-written (suc n) (c ∷ text) zero x h e = e
get_elem?-written (suc n) (c ∷ text) (suc i) x h e = get_elem?-written n text i x (omega arith) e

pub set_nlen-behind : (b : Buffer) (v i : ℕ) → 8 ≤ i → set_nlen v b i ≡ b i
unfolding set_nlen put_u32
set_nlen-behind b v i h = ground arith

-- A name that fits in front of the NUL is printed whole.
pub put_name-Spells :
    (name : List ℕ) (seq : ℕ) (b : Buffer)
    → length (name_text name seq) ≤ 1023
    → Spells (put_name name seq b) (name_text name seq)
unfolding put_name
put_name-Spells name seq b h = record {
  long = nlen-set_nlen _ _ (omega arith);
  at = λ i x e.
      set_nlen-behind _ _ (8 + i) (omega arith)
      ∙ copy_at-inside 8 _ b i x (get_elem?-written 1023 (name_text name seq) i x h e);
}

pub set_dlen-Spells :
    (b : Buffer) (v : ℕ) (text : List ℕ) → Spells b text → Spells (set_dlen v b) text
set_dlen-Spells b v text s = record {
  long = nlen-set_dlen b v ∙ s.long;
  at = λ i x e. set_dlen-behind b v (8 + i) (omega arith) ∙ s.at i x e;
}

-- A text that ends in a slash and bytes without one.
module _ (b : Buffer) (name digits : List ℕ) (s : Spells b (name ++ slash ∷ digits)) where
  text_long : nlen b ≡ suc (length name + length digits)
  text_long = omega (arith, s.long, length-append name (slash ∷ digits))

  at_slash : buf_at b 0 (length name) ≡ slash
  at_slash =
      let e : length name + 0 ≡ length name = omega arith in
      let g : get_elem? (name ++ slash ∷ digits) (length name) ≡ some slash =
        rw e at (get_elem?-right name (slash ∷ digits) 0) in
      let o : 8 + 0 + length name ≡ 8 + length name = omega arith in
      ap b o ∙ s.at (length name) slash g

  at_digit : (i x : ℕ) → get_elem? digits i ≡ some x → buf_at b (suc (length name)) i ≡ x
  at_digit i x e =
      let g = get_elem?-right name (slash ∷ digits) (suc i) in
      let o : 8 + suc (length name) + i ≡ 8 + (length name + suc i) = omega arith in
      ap b o ∙ s.at (length name + suc i) x (g ∙ e)

  -- That slash is the last one.
  find_slash-name : All IsNotSlash digits → find_slash (nlen b) (buf_at b 0) ≡ some (length name)
  find_slash-name whole =
      find_slash-last (nlen b) (length name) (buf_at b 0) (omega (arith, text_long)) at_slash
        λ j after before.
          let (x, e) = get_elem?_total digits (j - suc (length name)) (omega (arith, text_long)) in
          let d = IsNotSlash-at digits _ x whole e in
          let o : 8 + 0 + j ≡ 8 + suc (length name) + (j - suc (length name)) = omega arith in
          let same : buf_at b 0 j ≡ x = ap b o ∙ at_digit _ x e in omega arith

-- A name without a NUL and a number of nine digits at most are found again.
pub split_name-Spells :
    (b : Buffer) (name : List ℕ) (seq : ℕ)
    → Spells b (name_text name seq)
    → All IsByte name
    → length (name_text name seq) ≤ 2040
    → seq < 10 ^ 9
    → split_name b ≡ some (name, seq)
unfolding split_name
split_name-Spells b name seq s bytes fits small =
    let digits = print_uint seq in
    let long = text_long b name digits s in
    let short = length-print_uint_le seq small in
    let inside : leb (nlen b) 2040 ≡ true = let h = s.long in ground arith in
    let rest : nlen b - suc (length name) ≡ length digits = omega arith in
    let room : ltb (length digits) 10 ≡ true = ground arith in
    let first : tabulate (length name) (buf_at b 0) ≡ name =
      tabulate-get_elem? name (buf_at b 0) λ i x e.
        let o : 8 + 0 + i ≡ 8 + i = omega arith in
        ap b o ∙ s.at i x (get_elem?-left name (slash ∷ digits) i x e) in
    let second : tabulate (length digits) (buf_at b (suc (length name))) ≡ digits =
      tabulate-get_elem? digits (buf_at b (suc (length name))) (at_digit b name digits s) in
    rw (
      inside,
      find_slash-name b name digits s (digits-IsNotSlash _ (print_uint-IsDigit seq)),
      rest,
      room,
      first,
      second,
      c_string-All name bytes,
      c_string-All digits (digits-IsByte _ (print_uint-IsDigit seq)),
      atoi-print_uint seq (omega arith),
    )

-- A datagram whose name, of at most 2040 bytes, ends in a slash and ten bytes or more that hold no
-- slash makes SendNDNInterest write behind the array for the digits.
pub split_name-overflow :
    (b : Buffer) (name digits : List ℕ)
    → Spells b (name ++ slash ∷ digits)
    → All IsNotSlash digits
    → 10 ≤ length digits
    → length (name ++ slash ∷ digits) ≤ 2040
    → split_name b ≡ none
unfolding split_name
split_name-overflow b name digits s whole many fits =
    let long = text_long b name digits s in
    let inside : leb (nlen b) 2040 ≡ true = let h = s.long in ground arith in
    let rest : nlen b - suc (length name) ≡ length digits = omega arith in
    let room : ltb (length digits) 10 ≡ false = ground arith in
    rw (inside, find_slash-name b name digits s whole, rest, room) refl
