-- ===== src/CText/Slash.antt =====
-- The loop that looks for the last slash.
use mixsim.Prelude.{ℕ, zero, suc, ◌<◌, ◌≡◌, ◌≢◌, some, inl, inr, arith, ◌==◌, Bool-cases}
use mixsim.CText.{slash, find_slash}

-- A slash with no slash behind it is the one that is found.
pub find_slash-last :
    (n idx : ℕ) (f : ℕ → ℕ)
    → idx < n
    → f idx ≡ slash
    → ((j : ℕ) → idx < j → j < n → f j ≢ slash)
    → find_slash n f ≡ some idx
unfolding find_slash
find_slash-last zero idx f h e behind = absurd (omega arith)
find_slash-last (suc n) idx f h e behind = elim (Bool-cases (idx == n)) [
  | inl here ↦
      let same : idx ≡ n = ground arith in let at : f n ≡ slash = rw (← same) e in ground arith
  | inr there ↦
      let below : idx < n = ground arith in
      let other = behind n below (omega arith) in
      ground (arith, find_slash-last n idx f below e (λ j a b. behind j a (omega arith)))
]
