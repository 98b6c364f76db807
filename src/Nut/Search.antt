-- ===== src/Nut/Search.antt =====
-- The loops of nut_set and nut_get find the first live entry with the name, or show that there is
-- none, and read no cell outside of the block.
use mixsim.Prelude.{
  ℕ, zero, suc, ◌+◌, ◌≤◌, ◌≡◌, refl, true, false, Option, none, some, inl, inr, List, [], ◌∷◌,
  arith, ◌==◌, Bool-cases, length, bytes_eq,
}
use mixsim.NutEntry.{NutEntry}
use mixsim.NutEntry.Key.{key, key_of, IsName, nut_entry_namematch_lem}
use mixsim.Nut.{Scan, hit, miss, first_of_two, nut_scan, get_scan}
use mixsim.Nut.View.{is_live, holds, lookup, Found}
use mixsim.Nut.Writes.{Vacant, AllLive}

-- The slot that a search leaves for a new entry: the first deleted index, if `first` holds none.
pub data Slot (cur n : ℕ) (es : List NutEntry) : Option ℕ → Option ℕ → Type 0 where
  kept : {d : ℕ} → Slot cur n es (some d) (some d)
  found : {i d : ℕ} → d ≡ cur + i → Vacant n es i → Slot cur n es none (some d)
  full : AllLive n es → Slot cur n es none none

-- What a search for `k` from index `cur` on says of the `n` cells there.
abbrev pub Scanned : List ℕ → (n cur : ℕ) → Option ℕ → List NutEntry → Scan → Type 0
Scanned k n cur first es (hit j e) = (i : ℕ) × (j ≡ cur + i) × Found k n es i e
Scanned k n cur first es (miss last c) =
    (lookup k n es ≡ none) × (c ≡ cur + n) × Slot cur n es first last

Slot-live :
    {cur n : ℕ} {e : NutEntry} {es : List NutEntry} {first last : Option ℕ}
    → is_live e ≡ true
    → Slot (cur + 1) n es first last
    → Slot cur (suc n) (e ∷ es) first last
Slot-live h kept = kept
Slot-live h (found {i} e v) = found {i = suc i} (omega arith) (Vacant.there v)
Slot-live h (full a) = full (h, a)

Slot-dead :
    {cur n : ℕ} {e : NutEntry} {es : List NutEntry} (first : Option ℕ) {last : Option ℕ}
    → is_live e ≡ false
    → Slot (cur + 1) n es (first_of_two first cur) last
    → Slot cur (suc n) (e ∷ es) first last
unfolding first_of_two
Slot-dead none h kept = found {i = 0} (omega arith) (Vacant.here h)
Slot-dead (some d) h kept = kept

Slot-nil : {cur : ℕ} {es : List NutEntry} (first : Option ℕ) → Slot cur 0 es first first
Slot-nil none = full tt
Slot-nil (some d) = kept

module _ (name : List ℕ) (nlen : ℕ) (h : IsName name nlen) where
  abbrev k : List ℕ
  k = key_of name nlen

  Scanned-skip :
      {n cur : ℕ} {e : NutEntry} {es : List NutEntry} {first next : Option ℕ} (s : Scan)
      → holds k e ≡ false
      → ((last : Option ℕ) → Slot (cur + 1) n es next last → Slot cur (suc n) (e ∷ es) first last)
      → Scanned k n (cur + 1) next es s
      → Scanned k (suc n) cur first (e ∷ es) s
  unfolding lookup
  Scanned-skip (hit j e) out slot (i, p, f) = (suc i, omega arith, Found.there out f)
  Scanned-skip (miss last c) out slot (none_, p, q) = (rw out none_, omega arith, slot last q)

  -- The loop of nut_set.
  pub nut_scan_lem :
      (n cur : ℕ) (first : Option ℕ) (es : List NutEntry)
      → n ≤ length es
      → (s : Scan) × (nut_scan name nlen n cur first es ≡ some s) × Scanned k n cur first es s
  unfolding nut_scan lookup
  nut_scan_lem zero cur first es g = (miss first cur, refl, (refl, omega arith, Slot-nil first))
  nut_scan_lem (suc n) cur first [] g = absurd (omega arith)
  nut_scan_lem (suc n) cur first (e ∷ es) g = elim (Bool-cases (e.deleted == 1)) [
    | inl dead ↦
        let (s, p, q) = nut_scan_lem n (cur + 1) (first_of_two first cur) es (omega arith) in
        (s, rw dead p, Scanned-skip s (rw dead) (λ last. Slot-dead first (rw dead)) q)
    | inr live ↦ elim (Bool-cases (bytes_eq k (key e))) [
      | inl same ↦ (
        hit cur e,
        rw (live, nut_entry_namematch_lem e name nlen h, same),
        (0, omega arith, Found.here (rw (live, same))),
      )
      | inr other ↦
          let (s, p, q) = nut_scan_lem n (cur + 1) first es (omega arith) in
          (
            s,
            rw (live, nut_entry_namematch_lem e name nlen h, other) p,
            Scanned-skip s (rw (live, other)) (λ last. Slot-live (rw live)) q,
          )
    ]
  ]

  -- What the loop of nut_get returns.
  abbrev pub Got : (n cur : ℕ) → List NutEntry → Option ℕ → Type 0
  Got n cur es none = lookup k n es ≡ none
  Got n cur es (some j) = (i : ℕ) × (e : NutEntry) × (j ≡ cur + i) × Found k n es i e

  Got-skip :
      (n cur : ℕ) (e : NutEntry) (es : List NutEntry) (r : Option ℕ)
      → holds k e ≡ false
      → Got n (cur + 1) es r
      → Got (suc n) cur (e ∷ es) r
  unfolding lookup
  Got-skip n cur e es none out q = rw out q
  Got-skip n cur x es (some j) out (i, e, p, f) = (suc i, e, omega arith, Found.there out f)

  pub get_scan_lem :
      (n cur : ℕ) (es : List NutEntry)
      → n ≤ length es
      → (r : Option ℕ) × (get_scan name nlen n cur es ≡ some r) × Got n cur es r
  unfolding get_scan lookup
  get_scan_lem zero cur es g = (none, refl, refl)
  get_scan_lem (suc n) cur [] g = absurd (omega arith)
  get_scan_lem (suc n) cur (e ∷ es) g =
      let (r, p, q) = get_scan_lem n (cur + 1) es (omega arith) in
      elim (Bool-cases (e.deleted == 1)) [
        | inl dead ↦ (r, rw dead p, Got-skip n cur e es r (rw dead) q)
        | inr live ↦ elim (Bool-cases (bytes_eq k (key e))) [
          | inl same ↦ (
            some cur,
            rw (live, nut_entry_namematch_lem e name nlen h, same),
            (0, e, omega arith, Found.here (rw (live, same))),
          )
          | inr other ↦ (
            r,
            rw (live, nut_entry_namematch_lem e name nlen h, other) p,
            Got-skip n cur e es r (rw (live, other)) q,
          )
        ]
      ]
