-- ===== src/Nut/Writes.antt =====
-- What the writes of the table's operations do to the view: an entry filled at a deleted or a
-- next slot, an entry marked deleted; and that live entries keep distinct names.
use mixsim.Prelude.{
  ℕ, zero, suc, ◌<◌, ◌≡◌, refl, true, false, none, some, List, [], ◌∷◌, arith, if◌then◌else◌,
  length, get_elem?, set, bytes_eq, bytes_eq_iff,
}
use mixsim.NutEntry.{NutEntry}
use mixsim.NutEntry.Key.{key}
use mixsim.NutEntry.Addrs.{addrs}
use mixsim.Nut.View.{is_live, holds, lookup, Found, Distinct, holds_ne, lookup-set-Found}

-- Index `i` is below `n` and holds a deleted entry.
pub data Vacant : ℕ → List NutEntry → ℕ → Type 0 where
  here : {n : ℕ} {e : NutEntry} {es : List NutEntry} → is_live e ≡ false → Vacant (suc n) (e ∷ es) 0
  there :
      {n i : ℕ} {x : NutEntry} {es : List NutEntry}
      → Vacant n es i
      → Vacant (suc n) (x ∷ es) (suc i)

abbrev pub AllLive : ℕ → List NutEntry → Type 0
AllLive zero es = Unit
AllLive (suc n) [] = Unit
AllLive (suc n) (e ∷ es) = (is_live e ≡ true) × AllLive n es

pub Vacant-get :
    {n i : ℕ} {es : List NutEntry} → Vacant n es i → (e : NutEntry) × (get_elem? es i ≡ some e)
Vacant-get (Vacant.here {e} h) = (e, refl)
Vacant-get (Vacant.there v) = Vacant-get v

pub Vacant-bound : {n i : ℕ} {es : List NutEntry} → Vacant n es i → i < n
Vacant-bound (Vacant.here h) = omega arith
Vacant-bound (Vacant.there v) = omega (arith, Vacant-bound v)

module _ (k : List ℕ) (e' : NutEntry) (new : holds k e' ≡ true) where
  pub lookup-set-Vacant :
      (j : List ℕ) {n i : ℕ} {es : List NutEntry}
      → Vacant n es i
      → lookup k n es ≡ none
      → lookup j n (set es i e') ≡ (if bytes_eq k j then some (addrs e') else lookup j n es)
  unfolding lookup
  lookup-set-Vacant j (Vacant.here {e} h) g = ground (arith, holds_ne j k e', bytes_eq_iff k j)
  lookup-set-Vacant j (Vacant.there {x} v) g =
      ground (arith, lookup-set-Vacant j v, bytes_eq_iff k j)

  pub lookup-set_next :
      (j : List ℕ) (n : ℕ) (es : List NutEntry)
      → n < length es
      → lookup k n es ≡ none
      → lookup j (suc n) (set es n e') ≡ (if bytes_eq k j then some (addrs e') else lookup j n es)
  unfolding lookup
  lookup-set_next j n [] h g = absurd (omega arith)
  lookup-set_next j zero (x ∷ es) h g = ground (arith, holds_ne j k e', bytes_eq_iff k j)
  lookup-set_next j (suc n) (x ∷ es) h g = ground (arith, lookup-set_next j n es, bytes_eq_iff k j)

  -- The name `k` is held by the entry that is written, and by no other.
  pub Distinct-set-Found :
      {n i : ℕ} {es : List NutEntry} {e : NutEntry}
      → Found k n es i e
      → Distinct n es
      → Distinct n (set es i e')
  Distinct-set-Found (Found.here {e} h) (d, ds) =
      (ground (arith, bytes_eq_iff k (key e), bytes_eq_iff k (key e')), ds)
  Distinct-set-Found (Found.there {x} h f) (d, ds) = (
    ground (arith, lookup-set-Found (key x) k e' f new, bytes_eq_iff k (key x)),
    Distinct-set-Found f ds,
  )

  pub Distinct-set-Vacant :
      {n i : ℕ} {es : List NutEntry}
      → Vacant n es i
      → lookup k n es ≡ none
      → Distinct n es
      → Distinct n (set es i e')
  unfolding lookup
  Distinct-set-Vacant (Vacant.here {e} h) g (d, ds) = (ground (arith, bytes_eq_iff k (key e')), ds)
  Distinct-set-Vacant (Vacant.there {x} v) g (d, ds) = (
    ground (arith, lookup-set-Vacant (key x) v, bytes_eq_iff k (key x)),
    Distinct-set-Vacant v (ground arith) ds,
  )

  pub Distinct-set_next :
      (n : ℕ) (es : List NutEntry)
      → n < length es
      → lookup k n es ≡ none
      → Distinct n es
      → Distinct (suc n) (set es n e')
  unfolding lookup
  Distinct-set_next n [] h g d = absurd (omega arith)
  Distinct-set_next zero (x ∷ es) h g d = (λ _. refl, tt)
  Distinct-set_next (suc n) (x ∷ es) h g (d, ds) = (
    ground (arith, lookup-set_next (key x) n es, bytes_eq_iff k (key x)),
    Distinct-set_next n es (omega arith) (ground arith) ds,
  )

module _ (k : List ℕ) (e' : NutEntry) (dead : is_live e' ≡ false) where
  -- The entry found is marked deleted.
  pub lookup-set_dead :
      (j : List ℕ) {n i : ℕ} {es : List NutEntry} {e : NutEntry}
      → Found k n es i e
      → Distinct n es
      → lookup j n (set es i e') ≡ (if bytes_eq k j then none else lookup j n es)
  unfolding lookup
  lookup-set_dead j (Found.here {e} h) (d, ds) =
      ground (arith, holds_ne j k e, bytes_eq_iff k j, bytes_eq_iff k (key e))
  lookup-set_dead j (Found.there {x} h f) (d, ds) =
      ground (arith, lookup-set_dead j f ds, bytes_eq_iff k j)

  pub Distinct-set_dead :
      {n i : ℕ} {es : List NutEntry} {e : NutEntry}
      → Found k n es i e
      → Distinct n es
      → Distinct n (set es i e')
  Distinct-set_dead (Found.here {e} h) (d, ds) = (ground arith, ds)
  Distinct-set_dead (Found.there {x} h f) (d, ds) =
      (ground (arith, lookup-set_dead (key x) f ds), Distinct-set_dead f ds)
