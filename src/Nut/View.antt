-- ===== src/Nut/View.antt =====
-- What a table stands for: for each name the addresses that wait for it. `lookup` reads the
-- first live entry with the name among the first `n` cells of a block.
use mixsim.Prelude.{
  ℕ, zero, suc, ◌<◌, ◌≡◌, refl, Bool, true, false, Option, none, some, List, [], ◌∷◌, arith, ◌==◌,
  if◌then◌else◌, get_elem?, set, bytes_eq, bytes_eq_iff,
}
use mixsim.NutEntry.{SockaddrIn, NutEntry}
use mixsim.NutEntry.Key.{key}
use mixsim.NutEntry.Addrs.{addrs}

abbrev pub is_live : NutEntry → Bool
is_live e = if e.deleted == 1 then false else true

-- The entry is live and holds the name.
abbrev pub holds : List ℕ → NutEntry → Bool
holds k e = if e.deleted == 1 then false else bytes_eq k (key e)

unfoldable pub lookup : List ℕ → ℕ → List NutEntry → Option (List SockaddrIn)
lookup k zero es = none
lookup k (suc n) [] = none
lookup k (suc n) (e ∷ es) = if holds k e then some (addrs e) else lookup k n es

-- `e`, at index `i`, is the first live entry with the name among the first `n`.
pub data Found (k : List ℕ) : ℕ → List NutEntry → ℕ → NutEntry → Type 0 where
  here :
      {n : ℕ} {e : NutEntry} {es : List NutEntry} → holds k e ≡ true → Found k (suc n) (e ∷ es) 0 e
  there :
      {n i : ℕ} {e x : NutEntry} {es : List NutEntry}
      → holds k x ≡ false
      → Found k n es i e
      → Found k (suc n) (x ∷ es) (suc i) e

-- No two live entries hold one name.
abbrev pub Distinct : ℕ → List NutEntry → Type 0
Distinct zero es = Unit
Distinct (suc n) [] = Unit
Distinct (suc n) (e ∷ es) = (is_live e ≡ true → lookup (key e) n es ≡ none) × Distinct n es

module _ {k : List ℕ} where
  pub Found-bound : {n i : ℕ} {es : List NutEntry} {e : NutEntry} → Found k n es i e → i < n
  Found-bound (here h) = omega arith
  Found-bound (there h f) = omega (arith, Found-bound f)

  pub Found-get :
      {n i : ℕ} {es : List NutEntry} {e : NutEntry} → Found k n es i e → get_elem? es i ≡ some e
  Found-get (here h) = refl
  Found-get (there h f) = Found-get f

  pub Found-holds :
      {n i : ℕ} {es : List NutEntry} {e : NutEntry} → Found k n es i e → holds k e ≡ true
  Found-holds (here h) = h
  Found-holds (there h f) = Found-holds f

  pub Found-lookup :
      {n i : ℕ} {es : List NutEntry} {e : NutEntry}
      → Found k n es i e
      → lookup k n es ≡ some (addrs e)
  unfolding lookup
  Found-lookup (here h) = rw h
  Found-lookup (there h f) = rw h (Found-lookup f)

-- A name that another entry holds.
pub holds_ne :
    (j k : List ℕ) (e : NutEntry) → holds k e ≡ true → holds j e ≡ true → bytes_eq k j ≡ true
holds_ne j k e h g =
    ground (arith, bytes_eq_iff k (key e), bytes_eq_iff j (key e), bytes_eq_iff k j)

-- The entry found is written with another that still holds the name.
pub lookup-set-Found :
    (j k : List ℕ) {n i : ℕ} {es : List NutEntry} {e : NutEntry} (e' : NutEntry)
    → Found k n es i e
    → holds k e' ≡ true
    → lookup j n (set es i e') ≡ (if bytes_eq k j then some (addrs e') else lookup j n es)
unfolding lookup
lookup-set-Found j k e' (here {e} h) g =
    ground (arith, holds_ne j k e, holds_ne j k e', bytes_eq_iff k j)
lookup-set-Found j k e' (there {x} h f) g =
    ground (arith, lookup-set-Found j k e' f g, bytes_eq_iff k j)
