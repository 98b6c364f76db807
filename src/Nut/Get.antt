-- ===== src/Nut/Get.antt =====
-- nut_create, nut_get and nut_del, and how long the pointer of nut_get can be used.
use mixsim.Prelude.{
  ℕ, ◌^◌, ◌≤◌, ◌<◌, ◌≡◌, ◌≢◌, refl, true, false, ◌==◌, [], ◌∷◌, ◌&&◌, Option, none, some, ◌⊎◌, inl,
  inr, List, arith, ltb, if◌then◌else◌, set, bytes_eq, bytes_eq_iff,
}
use mixsim.NutEntry.{NutEntry}
use mixsim.NutEntry.Key.{key, key_of, IsName}
use mixsim.NutEntry.Addrs.{addrs}
use mixsim.Nut.{
  Block, Nut, EntryPtr, create_size, nut_create, int_rounds, nut_get, read_entry, put_entry,
  nut_grow, nut_del, free, find_block, write_entry,
}
use mixsim.Nut.View.{is_live, lookup, Found, Found-get, Found-holds, Found-lookup}
use mixsim.Nut.Writes.{lookup-set_dead, Distinct-set_dead}
use mixsim.Nut.Search.{Got, get_scan_lem}
use mixsim.Nut.Valid.{IsEntry, IsValid, waiting, Found-IsEntry}
use mixsim.Nut.Grow.{length-cells_of, nut_grow_lem}
use mixsim.Nut.Set.{put_entry-IsValid}

create_size_bounds : (n : ℕ) → (0 < create_size n) × (create_size n ≤ 32)
unfolding create_size
create_size_bounds n = ground arith

-- nut_create of init_size cells, or of 32 if that is not between 1 and 31, whose mallocs succeed,
-- makes a valid table in which no address waits for any name.
pub nut_create-IsValid :
    (b : Block) (init_size : ℕ)
    → (t : Nut) × (nut_create true (some b) init_size ≡ some t)
      × IsValid t
      × ((j : List ℕ) → waiting t j ≡ none)
      × (t.table_cap ≡ (if ltb 0 init_size && ltb init_size 32 then init_size else 32))
unfolding nut_create lookup
nut_create-IsValid b n =
    let bounds = create_size_bounds n in
    (
      _,
      refl,
      record {
        cells = length-cells_of b (create_size n) (omega arith);
        used = omega arith;
        some_cap = bounds.0;
        small = omega arith;
        entries_ok = tt;
        distinct = tt;
      },
      λ j. refl,
      unfold create_size in ground arith,
    )

-- A freed block is gone.
find_block-free : (a : ℕ) (bs : List (ℕ × List NutEntry)) → find_block a (free a bs) ≡ none
unfolding find_block free
find_block-free a [] = refl
find_block-free a (b ∷ bs) = ground (arith, find_block-free a bs)

-- What a pointer that nut_get returned shows.
pub record Shows (t : Nut) (k : List ℕ) (p : EntryPtr) : Type 0 where
  pub entry : NutEntry
  pub read : read_entry t p ≡ some entry
  pub live : is_live entry ≡ true
  pub named : key entry ≡ k
  pub all : waiting t k ≡ some (addrs entry)
  pub fine : IsEntry entry

module _ (t : Nut) (v : IsValid t) (name : List ℕ) (nlen : ℕ) (n : IsName name nlen) where
  rounds : int_rounds t.entry_num ≡ t.entry_num
  unfolding int_rounds
  rounds = ground (arith, v.used, v.small)

  Found-Shows :
      {i : ℕ} {e : NutEntry}
      → Found (key_of name nlen) t.entry_num t.entries i e
      → Shows t (key_of name nlen) (record { block = t.base; index = i })
  unfolding read_entry
  Found-Shows {e} f = record {
    entry = e;
    read = ground (arith, Found-get f);
    live = ground (arith, Found-holds f);
    named = ground (arith, Found-holds f, bytes_eq_iff (key_of name nlen) (key e));
    all = Found-lookup f;
    fine = Found-IsEntry f v.entries_ok;
  }

  -- What `nut_get` returns for an outcome of its loop.
  data Outcome : Option EntryPtr → Type 0 where
    absent : waiting t (key_of name nlen) ≡ none → Outcome none
    present :
        {i : ℕ} {e : NutEntry} {p : EntryPtr}
        → p ≡ record { block = t.base; index = i }
        → Found (key_of name nlen) t.entry_num t.entries i e
        → Outcome (some p)

  nut_get-Outcome : (r : Option EntryPtr) × (nut_get t name nlen ≡ some r) × Outcome r
  unfolding nut_get
  nut_get-Outcome =
      let (s, p, q) =
        get_scan_lem name nlen n t.entry_num 0 t.entries (omega (arith, v.used, v.cells)) in
      (_, rw (rounds, p), ends s q)
    where
      ends :
          (s : Option ℕ)
          → Got name nlen n t.entry_num 0 t.entries s
          → Outcome (elim s [ none ↦ none | some i ↦ some (record { block = t.base; index = i }) ])
      ends none q = absent q
      ends (some j) (i, e, at, f) = present (ground arith) f

  -- On a valid table, nut_get of a name and a length inside of its buffer reads inside its
  -- objects; it returns NULL exactly if no address waits for the name, and else a pointer to the
  -- live entry that holds the name and all its addresses.
  pub nut_get-Shows :
      (r : Option EntryPtr) × (nut_get t name nlen ≡ some r)
      × (((r ≡ none) × (waiting t (key_of name nlen) ≡ none))
          ⊎ ((p : EntryPtr) × (r ≡ some p) × Shows t (key_of name nlen) p))
  nut_get-Shows = let (r, e, o) = nut_get-Outcome in (r, e, ends o)
    where
      ends :
          {r : Option EntryPtr}
          → Outcome r
          → ((r ≡ none) × (waiting t (key_of name nlen) ≡ none))
            ⊎ ((p : EntryPtr) × (r ≡ some p) × Shows t (key_of name nlen) p)
      ends (absent q) = inl (refl, q)
      ends (present {p} at f) = inr (p, refl, rw at (Found-Shows f))

  nut_get-Found :
      (p : EntryPtr)
      → nut_get t name nlen ≡ some (some p)
      → (e : NutEntry) × Found (key_of name nlen) t.entry_num t.entries p.index e
        × (p.block ≡ t.base)
  nut_get-Found p g = let (r, e, o) = nut_get-Outcome in ends o (cc)
    where
      ends :
          {r : Option EntryPtr}
          → Outcome r
          → r ≡ some p
          → (e : NutEntry) × Found (key_of name nlen) t.entry_num t.entries p.index e
            × (p.block ≡ t.base)
      ends (absent q) h = cc
      ends (present {i} {e} {p = p'} at f) h =
          let index : i ≡ p.index = cc in
          let block : p.block ≡ t.base = cc in (e, rw index at f, block)

  -- The entry of a valid table that nut_get shows for a name and a length inside of its buffer can
  -- be deleted: then no address waits for its name, every other name has the addresses that it
  -- had, and the table is valid.
  pub nut_del_lem :
      (p : EntryPtr)
      → nut_get t name nlen ≡ some (some p)
      → (t' : Nut) × (nut_del t p ≡ some t')
        × IsValid t'
        × ((j : List ℕ)
            → waiting t' j ≡ (if bytes_eq (key_of name nlen) j then none else waiting t j))
  unfolding nut_del read_entry write_entry put_entry
  nut_del_lem p g =
      let (e, f, at) = nut_get-Found p g in
      let ok = Found-IsEntry f v.entries_ok in
      let dead = record e { deleted = 1 } in
      (
        record t { entries = set t.entries p.index dead },
        ground (arith, Found-get f),
        put_entry-IsValid t v p.index dead
            (record {
              name_fits = ok.name_fits;
              addr_some = ok.addr_some;
              addr_fits = ok.addr_fits;
              once = ok.once;
            })
            (Distinct-set_dead (key_of name nlen) dead refl f v.distinct),
        λ j. lookup-set_dead (key_of name nlen) dead refl j f v.distinct,
      )

  -- Once nut_grow has moved a valid table of less than 2^30 cells to another block, the old one is
  -- freed: a pointer that nut_get returned before, for a name and a length inside of its buffer,
  -- cannot be read.
  pub nut_grow-dangling :
      (p : EntryPtr) (b : Block)
      → nut_get t name nlen ≡ some (some p)
      → t.table_cap < 2 ^ 30
      → b.at ≢ t.base
      → (t' : Nut) × (nut_grow (some b) t ≡ some t') × (read_entry t' p ≡ none)
  unfolding read_entry
  nut_grow-dangling p b g room moved =
      let (t', e, grown) = nut_grow_lem b t v room in
      let (_, _, at) = nut_get-Found p g in
      let away : (p.block == t'.base) ≡ false = ground (arith, grown.moved, at) in
      (t', e, rw (away, at, grown.left, find_block-free t.base ((t.base, t.entries) ∷ t.kept)) refl)
