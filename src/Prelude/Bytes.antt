-- ===== src/Prelude/Bytes.antt =====
-- Texts as lists of bytes: their equality, and prefixes by their last byte.
use Prim.Native.Nat.{ℕ, zero, suc, ◌<◌}
use mathlib.Core.Path.{◌≡◌, refl, ap}
use mathlib.Core.Logic.{◌↔◌}
use mathlib.Core.Bool.{Bool, true, false, ◌&&◌}
use mathlib.Core.List.{List, [], ◌∷◌, ◌++◌}
use mathlib.Core.Option.{some}
use native.Mathlib.Omega.{arith}
use mixsim.Prelude.Tests.{◌==◌}
use mixsim.Prelude.Lists.{length, get_elem?, take, tabulate}

abbrev pub bytes_eq : List ℕ → List ℕ → Bool
bytes_eq [] [] = true
bytes_eq [] (y ∷ ys) = false
bytes_eq (x ∷ xs) [] = false
bytes_eq (x ∷ xs) (y ∷ ys) = (x == y) && bytes_eq xs ys

pub bytes_eq_refl : (xs : List ℕ) → bytes_eq xs xs ≡ true
bytes_eq_refl [] = refl
bytes_eq_refl (x ∷ xs) = ground (arith, bytes_eq_refl xs)

pub eq_of_bytes_eq : (xs ys : List ℕ) → bytes_eq xs ys ≡ true → xs ≡ ys
eq_of_bytes_eq [] [] h = refl
eq_of_bytes_eq [] (y ∷ ys) h = cc
eq_of_bytes_eq (x ∷ xs) [] h = cc
eq_of_bytes_eq (x ∷ xs) (y ∷ ys) h = ground (arith, eq_of_bytes_eq xs ys)

pub bytes_eq_iff : (xs ys : List ℕ) → (bytes_eq xs ys ≡ true) ↔ (xs ≡ ys)
bytes_eq_iff xs ys = (eq_of_bytes_eq xs ys, λ e. rw e (bytes_eq_refl ys))

pub bytes_eq-snoc :
    (xs ys : List ℕ) (x y : ℕ)
    → length xs ≡ length ys
    → bytes_eq (xs ++ x ∷ []) (ys ++ y ∷ []) ≡ (bytes_eq xs ys && (x == y))
bytes_eq-snoc [] [] x y h = ground arith
bytes_eq-snoc [] (b ∷ ys) x y h = absurd (omega arith)
bytes_eq-snoc (a ∷ xs) [] x y h = absurd (omega arith)
bytes_eq-snoc (a ∷ xs) (b ∷ ys) x y h = ground (arith, bytes_eq-snoc xs ys x y)

module _ {ℓ} {A : Type ℓ} where
  pub take-suc :
      (n : ℕ) (xs : List A) {x : A}
      → get_elem? xs n ≡ some x
      → take (suc n) xs ≡ take n xs ++ x ∷ []
  take-suc n [] h = cc
  take-suc zero (y ∷ xs) h = ground arith
  take-suc (suc n) (y ∷ xs) h = ap (λ l. y ∷ l) (take-suc n xs h)

  pub tabulate-suc : (n : ℕ) (f : ℕ → A) → tabulate (suc n) f ≡ tabulate n f ++ f n ∷ []
  tabulate-suc zero f = refl
  tabulate-suc (suc n) f = ap (λ l. f 0 ∷ l) (tabulate-suc n (λ i. f (suc i)))

  pub tabulate_cong :
      (n : ℕ) (f g : ℕ → A) → ((i : ℕ) → i < n → f i ≡ g i) → tabulate n f ≡ tabulate n g
  tabulate_cong zero f g h = refl
  tabulate_cong (suc n) f g h = ground (
    arith,
    h 0 (omega arith),
    tabulate_cong n (λ i. f (suc i)) (λ i. g (suc i)) (λ i p. h (suc i) (omega arith)),
  )
