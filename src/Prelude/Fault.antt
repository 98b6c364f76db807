-- ===== src/Prelude/Fault.antt =====
-- Memory accesses that may fault: `none` is an access outside an object, whose behaviour C leaves
-- undefined.
use mixsim.Prelude.Tests.{if◌then◌else◌}
use mathlib.Core.Bool.{Bool, true, false}
use mathlib.Core.Option.{Option, none, some, some-injective}
use mathlib.Core.Path.{◌≡◌, refl, subst}

infixl 5 ◌>>=◌ ◌>>◌
abbrev pub ◌>>=◌ {ℓ κ} : {A : Type ℓ} {B : Type κ} → Option A → (A → Option B) → Option B
none >>= f = none
some a >>= f = f a

abbrev pub ◌>>◌ {ℓ κ} : {A : Type ℓ} {B : Type κ} → Option A → Option B → Option B
m >> k = m >>= λ _. k

-- The access is allowed only if the test holds.
abbrev pub guard : Bool → Option (Unit {0})
guard true = some tt
guard false = none

-- An access that succeeded: its parts did.
pub >>=-eq-some {ℓ κ} :
    {A : Type ℓ} {B : Type κ} (m : Option A) (f : A → Option B) {b : B}
    → (m >>= f) ≡ some b
    → (a : A) × (m ≡ some a) × (f a ≡ some b)
>>=-eq-some none f h = cc
>>=-eq-some (some a) f h = (a, refl, h)

pub some_eq {ℓ} : {A : Type ℓ} {a b : A} → some a ≡ some b → a ≡ b
some_eq {a} {b} e = some-injective a b e

-- If the accesses succeed, the result satisfies `P`.
pub data Ends {ℓ κ} {A : Type ℓ} (P : A → Type κ) : Option A → Type (ℓ ⊔ κ) where
  faults : Ends P none
  ends : {a : A} → P a → Ends P (some a)

module _ {ℓ κ} {A : Type ℓ} {P : A → Type κ} where
  pub Ends-of : (m : Option A) → ((a : A) → m ≡ some a → P a) → Ends P m
  Ends-of none h = faults
  Ends-of (some a) h = ends (h a refl)

  pub Ends-at : {m : Option A} {a : A} → Ends P m → m ≡ some a → P a
  Ends-at faults e = cc
  Ends-at (ends p) e = subst P (some_eq e) p

  pub Ends-bind {μ ν} :
      {B : Type μ} {Q : B → Type ν} {m : Option A} {f : A → Option B}
      → Ends P m
      → ((a : A) → P a → Ends Q (f a))
      → Ends Q (m >>= f)
  Ends-bind faults h = faults
  Ends-bind (ends p) h = h _ p

pub Ends-any {ℓ} : {A : Type ℓ} (m : Option A) → Ends (λ _. Unit {0}) m
Ends-any none = faults
Ends-any (some a) = ends tt

pub Ends-then {ℓ κ ν} :
    {A : Type ℓ} {B : Type κ} {Q : B → Type ν} (m : Option A) {k : Option B}
    → Ends Q k
    → Ends Q (m >> k)
Ends-then none h = faults
Ends-then (some a) h = h

pub Ends-if {ℓ κ} :
    {A : Type ℓ} {P : A → Type κ} (b : Bool) {m k : Option A}
    → (b ≡ true → Ends P m)
    → (b ≡ false → Ends P k)
    → Ends P (if b then m else k)
Ends-if true h g = h refl
Ends-if false h g = g refl
