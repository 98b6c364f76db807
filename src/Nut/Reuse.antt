-- ===== src/Nut/Reuse.antt =====
-- A table with a deleted entry takes a new name without growing.
use mixsim.Prelude.{ℕ, ◌≡◌, Option, none, some, List, arith, ℤ}
use mixsim.NutEntry.{SockaddrIn, NutEntry}
use mixsim.NutEntry.Key.{key_of, IsName}
use mixsim.Nut.{
  Block, Nut, int_rounds, Scan, hit, miss, new_slot, end_scan, nut_set, add_addr, fill_entry,
  put_entry,
}
use mixsim.Nut.Writes.{Vacant, AllLive}
use mixsim.Nut.Search.{found, full, Scanned, nut_scan_lem}
use mixsim.Nut.Valid.{IsValid}
use mixsim.Nut.Set.{Stored, add_addr-Stored, fill-Vacant-Stored}

-- The block and the counts of a table.
pub record SameBlock (t u : Nut) : Type 0 where
  pub cap : u.table_cap ≡ t.table_cap
  pub num : u.entry_num ≡ t.entry_num
  pub base : u.base ≡ t.base

not-AllLive : {n i : ℕ} {es : List NutEntry} → Vacant n es i → AllLive n es → ⊥
not-AllLive (Vacant.here h) (l, ls) = cc
not-AllLive (Vacant.there v) (l, ls) = not-AllLive v ls

put_entry-SameBlock : (t u : Nut) (i : ℕ) (e : NutEntry) → put_entry t i e ≡ some u → SameBlock t u
unfolding put_entry
put_entry-SameBlock t u i e h = ground arith

add_addr-SameBlock :
    (t : Nut) (i : ℕ) (e : NutEntry) (a : SockaddrIn) (r : Nut × ℤ)
    → add_addr t i e a ≡ some r
    → SameBlock t r.0
unfolding add_addr put_entry
add_addr-SameBlock t i e a r h = ground arith

fill_entry-SameBlock :
    (t : Nut) (i : ℕ) (name : List ℕ) (nlen : ℕ) (a : SockaddrIn) (r : Nut × ℤ)
    → fill_entry t i name nlen a ≡ some r
    → SameBlock t r.0
unfolding fill_entry put_entry
fill_entry-SameBlock t i name nlen a r h = ground arith

module _ (m : Option Block) (t : Nut) (name : List ℕ) (nlen : ℕ) (a : SockaddrIn) where
  end_scan-SameBlock :
      IsValid t
      → IsName name nlen
      → {i : ℕ} → Vacant t.entry_num t.entries i
      → (s : Scan) → Scanned (key_of name nlen) t.entry_num 0 none t.entries s
      → (r : Nut × ℤ) × (end_scan m t name nlen a s ≡ some r)
        × Stored (key_of name nlen) a t r
        × SameBlock t r.0
  unfolding end_scan new_slot
  end_scan-SameBlock v n dead (hit j e) (i, p, f) =
      let (r, q, st) = add_addr-Stored (key_of name nlen) a t v i e f in
      let at : j ≡ i = omega arith in rw at (r, q, st, add_addr-SameBlock t i e a r q)
  end_scan-SameBlock v n dead (miss (some d) c) (w, p, found {i} q vacant) =
      let (r, q', st) = fill-Vacant-Stored name nlen n a t i v w vacant in
      let at : d ≡ i = omega arith in rw at (r, q', st, fill_entry-SameBlock t i name nlen a r q')
  end_scan-SameBlock v n dead (miss none c) (w, p, full live) = absurd (not-AllLive dead live)

  -- For a valid table and a name and a length inside of its buffer: while an entry is deleted,
  -- nut_set needs no memory: whatever malloc would return, it does what bind_addr says, in the
  -- same block and with as many entries as before.
  pub nut_set-SameBlock :
      {i : ℕ}
      → IsValid t
      → IsName name nlen
      → Vacant t.entry_num t.entries i
      → (r : Nut × ℤ) × (nut_set m t name nlen a ≡ some r)
        × Stored (key_of name nlen) a t r
        × SameBlock t r.0
  unfolding nut_set int_rounds
  nut_set-SameBlock v n dead =
      let all : int_rounds t.entry_num ≡ t.entry_num = ground (arith, v.used, v.small) in
      let (s, p, q) =
        nut_scan_lem name nlen n t.entry_num 0 none t.entries (omega (arith, v.cells, v.used)) in
      rw (all, p) (end_scan-SameBlock v n dead s q)
