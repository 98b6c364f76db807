-- ===== src/AppMixSim/Fib.antt =====
-- registerFib takes the list of prefixes apart at each `$`.
use mixsim.Prelude.{
  ℕ, suc, ◌+◌, ◌≡◌, ◌≢◌, refl, ap, ◌∙◌, sym, false, List, [], ◌∷◌, ◌++◌, arith, ◌==◌, if◌then◌else◌,
  length, All, inl, inr, Bool-cases,
}
use mathlib.Core.List.{append-nil, append_assoc}
use mixsim.AppMixSim.{split_prefixes, register_fib}

-- The routes with `$` between them.
abbrev pub join : List (List ℕ) → List ℕ
join [] = []
join (r ∷ []) = r
join (r ∷ q ∷ rs) = r ++ b'$' ∷ join (q ∷ rs)

abbrev pub HasNoDollar : List ℕ → Type 0
HasNoDollar = All (λ c. c ≢ b'$')

-- How often `$` stands in a text.
abbrev pub dollars : List ℕ → ℕ
dollars [] = 0
dollars (c ∷ s) = (if c == b'$' then 1 else 0) + dollars s

All-snoc : (s : List ℕ) (c : ℕ) → HasNoDollar s → c ≢ b'$' → HasNoDollar (s ++ c ∷ [])
All-snoc [] c h ne = (ne, tt)
All-snoc (x ∷ s) c (hx, h) ne = (hx, All-snoc s c h ne)

-- What a part of the loop makes: routes without `$` that are the text when joined.
record IsSplit (text : List ℕ) (n : ℕ) (rs : List (List ℕ)) : Type 0 where
  pub joined : join rs ≡ text
  pub clean : All HasNoDollar rs
  pub many : length rs ≡ suc n

join-cons :
    (r text : List ℕ) (n : ℕ) (rs : List (List ℕ))
    → IsSplit text n rs
    → join (r ∷ rs) ≡ r ++ b'$' ∷ text
join-cons r text n [] s = let h = s.many in absurd (omega arith)
join-cons r text n (q ∷ rs) s = ap (λ t. r ++ b'$' ∷ t) s.joined

split_prefixes-IsSplit :
    (last buf : List ℕ)
    → HasNoDollar last
    → IsSplit (last ++ buf) (dollars buf) (split_prefixes last buf)
unfolding split_prefixes
split_prefixes-IsSplit last [] h = record {
  joined = sym (append-nil last);
  clean = (h, tt);
  many = omega arith;
}
split_prefixes-IsSplit last (c ∷ buf) h = elim (Bool-cases (c == b'$')) [
  | inl cut ↦
      let same : c ≡ b'$' = ground arith in
      let rest = split_prefixes-IsSplit [] buf tt in
      rw cut (record {
        joined = rw same (join-cons last buf (dollars buf) (split_prefixes [] buf) rest);
        clean = (h, rest.clean);
        many = omega (arith, rest.many);
      })
  | inr on ↦
      let ne : c ≢ b'$' = ground arith in
      let rest = split_prefixes-IsSplit (last ++ c ∷ []) buf (All-snoc last c h ne) in
      rw on (record {
        joined = rest.joined ∙ append_assoc last (c ∷ []) buf;
        clean = rest.clean;
        many = omega (arith, rest.many);
      })
]

-- The routes that registerFib adds for a list of prefixes that is not empty give the list again
-- when they are joined by $; no route holds a $, and there is one more of them than $.
pub join-register_fib :
    (prefixes : List ℕ)
    → prefixes ≢ []
    → (join (register_fib prefixes) ≡ prefixes)
      × All HasNoDollar (register_fib prefixes)
      × (length (register_fib prefixes) ≡ suc (dollars prefixes))
unfolding register_fib
join-register_fib [] h = absurd (h refl)
join-register_fib (c ∷ buf) h =
    let s = split_prefixes-IsSplit [] (c ∷ buf) tt in
    let some_ : (suc (length buf) == 0) ≡ false = ground arith in
    rw some_ (s.joined, s.clean, s.many)
