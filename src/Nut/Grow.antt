-- ===== src/Nut/Grow.antt =====
-- nut_grow moves the table to a larger block and keeps what it says of every name.
use mixsim.Prelude.{
  ℕ, zero, suc, ◌^◌, ◌≤◌, ◌<◌, ◌≡◌, refl, ap, ◌∙◌, some, List, [], ◌∷◌, arith, length,
  length-tabulate,
}
use mixsim.NutEntry.{NutEntry}
use mixsim.Nut.{Nut, Block, cells_of, address_of, copy_entries, grown_cap, free, nut_grow}
use mixsim.Nut.View.{lookup, Distinct}
use mixsim.Nut.Valid.{IsValid, AllEntries, waiting}

-- The first `n` cells of two blocks are the same.
data Agree : ℕ → List NutEntry → List NutEntry → Type 0 where
  none : {xs ys : List NutEntry} → Agree zero xs ys
  next :
      {n : ℕ} {e : NutEntry} {xs ys : List NutEntry}
      → Agree n xs ys
      → Agree (suc n) (e ∷ xs) (e ∷ ys)

copy_entries_lem :
    (n : ℕ) (src dst : List NutEntry)
    → n ≤ length src
    → n ≤ length dst
    → (r : List NutEntry) × (copy_entries n src dst ≡ some r)
      × (length r ≡ length dst)
      × Agree n src r
unfolding copy_entries
copy_entries_lem zero src dst h g = (dst, refl, refl, Agree.none)
copy_entries_lem (suc n) [] dst h g = absurd (omega arith)
copy_entries_lem (suc n) (e ∷ src) [] h g = absurd (omega arith)
copy_entries_lem (suc n) (e ∷ src) (d ∷ dst) h g =
    let (r, p, q, a) = copy_entries_lem n src dst (omega arith) (omega arith) in
    (e ∷ r, rw p, ap suc q, Agree.next a)

lookup-Agree :
    (j : List ℕ) {n : ℕ} {xs ys : List NutEntry} → Agree n xs ys → lookup j n ys ≡ lookup j n xs
unfolding lookup
lookup-Agree j Agree.none = refl
lookup-Agree j (Agree.next a) = rw (lookup-Agree j a)

Distinct-Agree : {n : ℕ} {xs ys : List NutEntry} → Agree n xs ys → Distinct n xs → Distinct n ys
Distinct-Agree Agree.none d = tt
Distinct-Agree (Agree.next a) (d, ds) = (λ h. rw (lookup-Agree _ a) (d h), Distinct-Agree a ds)

AllEntries-Agree :
    {n : ℕ} {xs ys : List NutEntry} → Agree n xs ys → AllEntries n xs → AllEntries n ys
AllEntries-Agree Agree.none d = tt
AllEntries-Agree (Agree.next a) (d, ds) = (d, AllEntries-Agree a ds)

pub grown_cap_bounds :
    (cap : ℕ) → 0 < cap → cap < 2 ^ 30 → (cap < grown_cap cap) × (grown_cap cap < 2 ^ 31)
unfolding grown_cap
grown_cap_bounds cap h g = ground arith

pub length-cells_of : (b : Block) (n : ℕ) → n < 2 ^ 31 → length (cells_of (some b) n) ≡ n
unfolding cells_of
length-cells_of b n h = ground (arith, length-tabulate n b.junk)

address_of_lem : (b : Block) (n : ℕ) → n < 2 ^ 31 → address_of (some b) n ≡ b.at
unfolding address_of
address_of_lem b n h = ground arith

-- What growing makes of a table.
pub record Grown (b : Block) (t t' : Nut) : Type 0 where
  pub moved : t'.base ≡ b.at
  pub left : t'.kept ≡ free t.base ((t.base, t.entries) ∷ t.kept)
  pub valid : IsValid t'
  pub larger : t.table_cap < t'.table_cap
  pub used : t'.entry_num ≡ t.entry_num
  pub same : (j : List ℕ) → waiting t' j ≡ waiting t j

-- nut_grow of a valid table of less than 2^30 cells moves it to the new block: the table is valid,
-- larger, and says of every name what it said.
pub nut_grow_lem :
    (b : Block) (t : Nut)
    → IsValid t
    → t.table_cap < 2 ^ 30
    → (t' : Nut) × (nut_grow (some b) t ≡ some t') × Grown b t t'
unfolding nut_grow
nut_grow_lem b t v h =
    let bounds = grown_cap_bounds t.table_cap v.some_cap h in
    let size = length-cells_of b (grown_cap t.table_cap) bounds.1 in
    let (es, p, q, a) =
      copy_entries_lem t.entry_num t.entries (cells_of (some b) (grown_cap t.table_cap))
        (omega (arith, v.cells, v.used)) (omega (arith, v.used)) in
    (
      record t {
        table_cap = grown_cap t.table_cap;
        base = address_of (some b) (grown_cap t.table_cap);
        entries = es;
        kept = free t.base ((t.base, t.entries) ∷ t.kept);
      },
      rw p,
      record {
        moved = address_of_lem b (grown_cap t.table_cap) bounds.1;
        left = refl;
        valid = record {
          cells = q ∙ size;
          used = omega (arith, v.used);
          some_cap = omega arith;
          small = bounds.1;
          entries_ok = AllEntries-Agree a v.entries_ok;
          distinct = Distinct-Agree a v.distinct;
        };
        larger = bounds.0;
        used = refl;
        same = λ j. lookup-Agree j a;
      },
    )
