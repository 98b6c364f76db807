-- ===== src/Nut/Tests.antt =====
-- Runs of the name table: adaptor/nut_test.c, and the theorems at a table of two cells.
use Prim.Native.String.{String}
use Prim.Native.Char.{code}
use mixsim.Prelude.{
  ℕ, ◌+◌, ◌≡◌, ◌⊎◌, refl, Bool, true, false, ◌&&◌, Option, none, some, List, [], ◌∷◌, arith, ◌==◌,
  if◌then◌else◌, ℤ, pos, negsuc, ◌>>=◌, ◌>>◌, guard, length, bytes_eq,
}
use mixsim.CText.{codes}
use mixsim.NutEntry.{SockaddrIn, NutEntry, nut_entry_namematch}
use mixsim.NutEntry.Key.{key, key_of, IsName, nut_entry_namematch_lem}
use mixsim.NutEntry.Addrs.{has_addr}
use mixsim.Nut.{Block, Nut, EntryPtr, nut_create, nut_set, nut_get, nut_del, read_entry, nut_grow}
use mixsim.Nut.View.{lookup}
use mixsim.Nut.Writes.{Vacant}
use mixsim.Nut.Valid.{IsValid, waiting}
use mixsim.Nut.Set.{Stored, nut_set-bind_addr}
use mixsim.Nut.Get.{Shows, nut_get-Shows, nut_del_lem, nut_grow-dangling}
use mixsim.Nut.Reuse.{SameBlock, nut_set-SameBlock}

abbrev pub port : ℕ → SockaddrIn
port p = record { sin_family = 2; sin_port = p; s_addr = 0x7f000001 }

abbrev raw : NutEntry
raw = record {
  name_len = 7;
  addr_num = 9;
  deleted = 1;
  canstop = 0;
  name = λ i. 0;
  addr = λ i. port 0;
}

abbrev pub block : ℕ → Block
block p = record { at = p; junk = λ i. raw }

abbrev is_code : ℤ → ℤ → Bool
is_code (pos a) (pos b) = a == b
is_code (negsuc a) (negsuc b) = a == b
is_code _ _ = false

-- `assert(nut_set(table, name, strlen(name), addr[i]) == code)`
assert_set : Nut → String → ℕ → ℤ → Option Nut
assert_set t name i code = do
  r ← nut_set (some (block 0x2000)) t (codes name) (length (codes name)) (port i)
  guard (is_code r.1 code)
  some r.0

assert_get : Nut → String → Option NutEntry
assert_get t name = do r ← nut_get t (codes name) (length (codes name)); p ← r; read_entry t p

assert_deleted : Nut → String → Option Nut
assert_deleted t name = do
  r ← nut_get t (codes name) (length (codes name))
  p ← r
  t ← nut_del t p
  r ← nut_get t (codes name) (length (codes name))
  guard (elim r [ none ↦ true | some _ ↦ false ])
  some t

assert_ports : NutEntry → ℕ → ℕ → Option (Unit {0})
assert_ports e p q = guard ((e.addr 0).sin_port == p && (e.addr 1).sin_port == q)

-- `main` of nut_test.c: `some tt` is "PASS", `none` a failed assertion.
nut_test : Option (Unit {0})
unfolding assert_set assert_get assert_deleted assert_ports nut_create nut_set nut_get nut_del
    read_entry
nut_test = do
  t ← nut_create true (some (block 0x1000)) 4
  t ← assert_set t "prefix1" 1 (pos 1)
  t ← assert_set t "prefix1" 2 (pos 1)
  t ← assert_set t "prefix2" 3 (pos 1)
  t ← assert_set t "prefix2" 4 (pos 1)
  t ← assert_set t "prefix1" 1 (pos 0)
  e ← assert_get t "prefix1"
  guard (e.addr_num == 2)
  assert_ports e 1 2
  t ← assert_deleted t "prefix1"
  e ← assert_get t "prefix2"
  assert_ports e 3 4
  t ← assert_set t "prefix3" 5 (pos 1)
  guard (t.entry_num == 2 && (t.table_cap == 4))
  t ← assert_set t "prefix4" 6 (pos 1)
  t ← assert_set t "prefix5" 7 (pos 1)
  t ← assert_set t "prefix6" 8 (pos 1)
  guard (t.entry_num == 5 && (t.table_cap == 8))

nut_test_passes : nut_test ≡ some tt
unfolding nut_test
nut_test_passes = refl

-- A table of two cells: "ab" waits at port 1, and the second cell is not used yet.
abbrev ab : NutEntry
ab = record {
  name_len = 2;
  addr_num = 1;
  deleted = 0;
  canstop = 0;
  name = λ i. 97 + i;
  addr = λ i. port 1;
}

abbrev pub one_name : Nut
one_name = record {
  table_cap = 2;
  entry_num = 1;
  base = 0x1000;
  entries = ab ∷ raw ∷ [];
  kept = [];
}

pub one_name-IsValid : IsValid one_name
unfolding lookup has_addr
one_name-IsValid = record {
  cells = refl;
  used = omega arith;
  some_cap = omega arith;
  small = omega arith;
  entries_ok = (
    record {
      name_fits = omega arith;
      addr_some = omega arith;
      addr_fits = omega arith;
      once = (refl, tt);
    },
    tt,
  );
  distinct = (λ _. refl, tt);
}

abbrev cd : List ℕ
cd = 99 ∷ 100 ∷ []

cd-IsName : IsName cd 2
cd-IsName = record { inside = omega arith; positive = omega arith }

abbrev ab_name : List ℕ
ab_name = 97 ∷ 98 ∷ []

ab-IsName : IsName ab_name 2
ab-IsName = record { inside = omega arith; positive = omega arith }

-- The same table after its only entry was deleted.
abbrev one_deleted : Nut
one_deleted = record one_name { entries = record ab { deleted = 1 } ∷ raw ∷ [] }

one_deleted-IsValid : IsValid one_deleted
unfolding lookup has_addr
one_deleted-IsValid = record {
  cells = refl;
  used = omega arith;
  some_cap = omega arith;
  small = omega arith;
  entries_ok = (
    record {
      name_fits = omega arith;
      addr_some = omega arith;
      addr_fits = omega arith;
      once = (refl, tt);
    },
    tt,
  );
  distinct = (λ h. cc, tt);
}

ab_ptr : nut_get one_name ab_name 2 ≡ some (some (record { block = 0x1000; index = 0 }))
unfolding nut_get
ab_ptr = refl

nut_entry_namematch_lem_example :
    nut_entry_namematch ab cd 2 ≡ some (bytes_eq (key_of cd 2) (key ab))
nut_entry_namematch_lem_example = nut_entry_namematch_lem ab cd 2 cd-IsName

nut_set-bind_addr_example :
    (r : Nut × ℤ) × (nut_set (some (block 0x2000)) one_name cd 2 (port 4) ≡ some r)
    × Stored (key_of cd 2) (port 4) one_name r
nut_set-bind_addr_example =
    nut_set-bind_addr (block 0x2000) one_name cd 2 (port 4) one_name-IsValid cd-IsName (omega arith)

nut_set-SameBlock_example :
    (r : Nut × ℤ) × (nut_set none one_deleted cd 2 (port 4) ≡ some r)
    × Stored (key_of cd 2) (port 4) one_deleted r
    × SameBlock one_deleted r.0
nut_set-SameBlock_example =
    nut_set-SameBlock none one_deleted cd 2 (port 4) one_deleted-IsValid cd-IsName
      (Vacant.here refl)

nut_get-Shows_example :
    (r : Option EntryPtr) × (nut_get one_name cd 2 ≡ some r)
    × (((r ≡ none) × (waiting one_name (key_of cd 2) ≡ none))
        ⊎ ((p : EntryPtr) × (r ≡ some p) × Shows one_name (key_of cd 2) p))
nut_get-Shows_example = nut_get-Shows one_name one_name-IsValid cd 2 cd-IsName

nut_del_lem_example :
    (t : Nut) × (nut_del one_name (record { block = 0x1000; index = 0 }) ≡ some t)
    × IsValid t
    × ((j : List ℕ)
        → waiting t j ≡ (if bytes_eq (key_of ab_name 2) j then none else waiting one_name j))
nut_del_lem_example = nut_del_lem one_name one_name-IsValid ab_name 2 ab-IsName _ ab_ptr

nut_grow-dangling_example :
    (t : Nut) × (nut_grow (some (block 0x2000)) one_name ≡ some t)
    × (read_entry t (record { block = 0x1000; index = 0 }) ≡ none)
nut_grow-dangling_example =
    nut_grow-dangling one_name one_name-IsValid ab_name 2 ab-IsName _ (block 0x2000) ab_ptr
      (omega arith) (omega arith)
