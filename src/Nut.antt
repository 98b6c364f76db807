-- ===== src/Nut.antt =====
-- The name table of adaptor/name_udp_table.c and name_udp_table.h: which UDP addresses wait for
-- the data of which name. The children prove what the operations do.
--
-- The `malloc`ed array `entries` is the list of the cells of its block, which stands at the
-- address `base`; a NULL block is the empty list at address 0. `none` is an access outside an
-- object. An `int` is its 32-bit pattern.
pub mod View
pub mod Tests
pub mod Reuse
pub mod Get
pub mod Set
pub mod Valid
pub mod Grow
pub mod Search
pub mod Writes
use mixsim.Prelude.{
  ℕ, zero, suc, ◌+◌, ◌*◌, ◌/◌, ◌%◌, ◌^◌, Bool, ◌&&◌, ◌||◌, Option, none, some, List, [], ◌∷◌, ltb,
  leb, ◌==◌, if◌then◌else◌, ℤ, pos, negsuc, ◌>>=◌, ◌>>◌, guard, length, get_elem?, set, tabulate,
}
use mixsim.NutEntry.{
  max_namelen, max_addr_pername, SockaddrIn, NutEntry, cut_name, cut_nlen, nut_entry_namematch,
  nut_entry_fdmatch, copy_bytes, set_addr,
}

-- What `malloc` returned, if not NULL: the block's address and its uninitialised cells.
pub record Block : Type 0 where
  pub at : ℕ
  pub junk : ℕ → NutEntry

pub record Nut : Type 0 where
  pub table_cap : ℕ
  pub entry_num : ℕ
  pub base : ℕ
  pub entries : List NutEntry
  -- The blocks that the table has left and nobody has freed.
  pub kept : List (ℕ × List NutEntry)

-- A `nut_entry *`: a cell of the block at an address.
pub record EntryPtr : Type 0 where
  pub block : ℕ
  pub index : ℕ

-- `malloc(sizeof(nut_entry) * n)`; a count that is negative as an `int` is more than any block.
unfoldable pub cells_of : Option Block → ℕ → List NutEntry
cells_of none n = []
cells_of (some b) n = if ltb n (2 ^ 31) then tabulate n b.junk else []

unfoldable pub address_of : Option Block → ℕ → ℕ
address_of none n = 0
address_of (some b) n = if ltb n (2 ^ 31) then b.at else 0

-- `if (init_size <= 0 || init_size >= 32) init_size = 32;`
unfoldable pub create_size : ℕ → ℕ
create_size init_size =
    if (init_size == 0 || leb (2 ^ 31) init_size) || leb 32 init_size then 32 else init_size

-- `tab` says whether the `malloc` of the struct succeeded.
unfoldable pub nut_create : (tab : Bool) → Option Block → (init_size : ℕ) → Option Nut
unfolding create_size cells_of address_of
nut_create tab m init_size =
    guard tab
    >> some (record {
      table_cap = create_size init_size;
      entry_num = 0;
      base = address_of m (create_size init_size);
      entries = cells_of m (create_size init_size);
      kept = [];
    })

-- The rounds of a loop `for (cur_idx = 0; cur_idx < (int)n; cur_idx++)`.
unfoldable pub int_rounds : ℕ → ℕ
int_rounds n = if ltb n (2 ^ 31) then n else 0

-- How the search loop of `nut_set` ends: at the index of an entry with the name, or past the last
-- entry with the values of `first_deleted` (`none` is -1) and `cur_idx`.
pub data Scan : Type 0 where
  hit : ℕ → NutEntry → Scan
  miss : Option ℕ → ℕ → Scan

unfoldable pub first_of_two : Option ℕ → ℕ → Option ℕ
first_of_two none cur = some cur
first_of_two (some i) cur = some i

unfoldable pub nut_scan : List ℕ → ℕ → (rounds cur : ℕ) → Option ℕ → List NutEntry → Option Scan
unfolding first_of_two
nut_scan name nlen zero cur first es = some (miss first cur)
nut_scan name nlen (suc k) cur first [] = none
nut_scan name nlen (suc k) cur first (e ∷ es) =
    let rest =
      nut_scan name nlen k (cur + 1) (if e.deleted == 1 then first_of_two first cur else first)
        es in
    if e.deleted == 1
    then rest
    else do m ← nut_entry_namematch e name nlen; if m then some (hit cur e) else rest

-- `memcpy` of whole entries into another block.
unfoldable pub copy_entries : ℕ → List NutEntry → List NutEntry → Option (List NutEntry)
copy_entries zero src dst = some dst
copy_entries (suc n) [] dst = none
copy_entries (suc n) (e ∷ src) [] = none
copy_entries (suc n) (e ∷ src) (d ∷ dst) = do rest ← copy_entries n src dst; some (e ∷ rest)

unfoldable pub grown_cap : ℕ → ℕ
grown_cap cap = if ltb cap 256 then cap * 2 else (cap + cap / 4) % 2 ^ 32

-- `free` of the block at an address.
unfoldable pub free : ℕ → List (ℕ × List NutEntry) → List (ℕ × List NutEntry)
free a [] = []
free a (b ∷ bs) = if b.0 == a then free a bs else b ∷ free a bs

-- The old block stays until it is freed.
unfoldable pub nut_grow : Option Block → Nut → Option Nut
unfolding copy_entries grown_cap cells_of address_of free
nut_grow m table = do
  let target_cap = grown_cap table.table_cap
  target ← copy_entries table.entry_num table.entries (cells_of m target_cap)
  let moved = record table {
    base = address_of m target_cap;
    entries = target;
    kept = (table.base, table.entries) ∷ table.kept;
  }
  some (record moved { table_cap = target_cap; kept = free table.base moved.kept })

-- A write to a cell of the block.
unfoldable pub put_entry : Nut → ℕ → NutEntry → Option Nut
put_entry table i e = do
  _ ← get_elem? table.entries i
  some (record table { entries = set table.entries i e })

-- The branch of `nut_set` that found the name.
unfoldable pub add_addr : Nut → ℕ → NutEntry → SockaddrIn → Option (Nut × ℤ)
unfolding nut_entry_fdmatch set_addr put_entry
add_addr table i entry addr = do
  known ← nut_entry_fdmatch entry addr
  if known
      then some (table, pos 0)
      else (if entry.addr_num == max_addr_pername then some (table, negsuc 0) else do
        guard (ltb entry.addr_num max_addr_pername)
        table' ← put_entry table i (record entry {
          addr = set_addr entry.addr entry.addr_num addr;
          addr_num = (entry.addr_num + 1) % 2 ^ 16;
        })
        some (table', pos 1))

-- The writes to the entry at the slot, from `entry->deleted = 0` on.
unfoldable pub fill_entry : Nut → ℕ → List ℕ → ℕ → SockaddrIn → Option (Nut × ℤ)
unfolding cut_name cut_nlen copy_bytes set_addr put_entry
fill_entry table slot name nlen addr = do
  entry ← get_elem? table.entries slot
  guard (leb (cut_nlen nlen) max_namelen && leb (cut_nlen nlen) (length (cut_name name nlen)))
  table' ← put_entry table slot (record entry {
    deleted = 0;
    addr_num = 1;
    addr = set_addr entry.addr 0 addr;
    name_len = cut_nlen nlen % 2 ^ 16;
    name = copy_bytes (cut_nlen nlen) (cut_name name nlen) entry.name;
  })
  some (table', pos 1)

-- The slot of a new entry: the first deleted one, or the next one, for which a full table grows.
unfoldable pub new_slot : Option Block → Nut → Option ℕ → ℕ → Option (Nut × ℕ)
unfolding nut_grow
new_slot m table (some i) cur = some (table, i)
new_slot m table none cur = do
  table' ←
      (if ltb table.table_cap (2 ^ 31) && (cur == table.table_cap)
        then nut_grow m table
        else some table)
  some (record table' { entry_num = (table'.entry_num + 1) % 2 ^ 32 }, cur)

-- What `nut_set` does after its loop.
unfoldable pub end_scan : Option Block → Nut → List ℕ → ℕ → SockaddrIn → Scan → Option (Nut × ℤ)
unfolding add_addr fill_entry new_slot
end_scan m table name nlen addr (hit i entry) = add_addr table i entry addr
end_scan m table name nlen addr (miss first cur) = do
  r ← new_slot m table first cur
  fill_entry r.0 r.1 name nlen addr

-- `m` is what the `malloc` of `nut_grow` returns, if it is called.
unfoldable pub nut_set : Option Block → Nut → List ℕ → ℕ → SockaddrIn → Option (Nut × ℤ)
unfolding int_rounds nut_scan end_scan nut_entry_namematch
nut_set m table name nlen addr = do
  scan ← nut_scan name nlen (int_rounds table.entry_num) 0 none table.entries
  end_scan m table name nlen addr scan

-- The loop of `nut_get`, which ends at an index or with none.
unfoldable pub get_scan : List ℕ → ℕ → (rounds cur : ℕ) → List NutEntry → Option (Option ℕ)
get_scan name nlen zero cur es = some none
get_scan name nlen (suc k) cur [] = none
get_scan name nlen (suc k) cur (e ∷ es) =
    let rest = get_scan name nlen k (cur + 1) es in
    if e.deleted == 1
    then rest
    else do m ← nut_entry_namematch e name nlen; if m then some (some cur) else rest

-- `none` inside is NULL.
unfoldable pub nut_get : Nut → List ℕ → ℕ → Option (Option EntryPtr)
unfolding int_rounds get_scan nut_entry_namematch
nut_get table name nlen = do
  found ← get_scan name nlen (int_rounds table.entry_num) 0 table.entries
  some (elim found [ none ↦ none | some i ↦ some (record { block = table.base; index = i }) ])

-- The cells of the block at an address.
unfoldable pub find_block : ℕ → List (ℕ × List NutEntry) → Option (List NutEntry)
find_block a [] = none
find_block a (b ∷ bs) = if b.0 == a then some b.1 else find_block a bs

-- A read through a `nut_entry *`, of the table's block or of one that is not freed.
unfoldable pub read_entry : Nut → EntryPtr → Option NutEntry
unfolding find_block
read_entry table p =
    if p.block == table.base
    then get_elem? table.entries p.index
    else (do cells ← find_block p.block table.kept; get_elem? cells p.index)

-- A write through one.
unfoldable pub write_entry : Nut → EntryPtr → NutEntry → Option Nut
unfolding put_entry find_block
write_entry table p e = if p.block == table.base then put_entry table p.index e else (do
  cells ← find_block p.block table.kept
  _ ← get_elem? cells p.index
  some (record table { kept = (p.block, set cells p.index e) ∷ free p.block table.kept }))

unfoldable pub nut_del : Nut → EntryPtr → Option Nut
unfolding read_entry write_entry
nut_del table p = do entry ← read_entry table p; write_entry table p (record entry { deleted = 1 })
