-- ===== src/Nut/Set.antt =====
-- nut_set: what it returns and what the table says afterwards, on every branch.
use mixsim.Prelude.{
  ℕ, suc, ◌+◌, ◌%◌, ◌^◌, ◌<◌, ◌≡◌, refl, sym, ◌∙◌, true, false, none, some, inl, inr, List, [], ◌∷◌,
  ◌++◌, arith, ltb, ◌==◌, if◌then◌else◌, ℤ, pos, negsuc, Bool-cases, length, length-set, set,
  get_elem?, get_elem?_total, bytes_eq, bytes_eq_iff, bytes_eq_refl, length-tabulate,
}
use mixsim.NutEntry.{
  max_addr_pername, SockaddrIn, NutEntry, cut_name, cut_nlen, nut_entry_fdmatch, copy_bytes,
  set_addr,
}
use mixsim.NutEntry.Key.{key, key_of, IsName, cut_nlen-le, length-cut_name, copy_bytes-key}
use mixsim.NutEntry.Addrs.{addrs, has_addr, nut_entry_fdmatch_lem, tabulate-set_addr}
use mixsim.Nut.{
  Block, Nut, int_rounds, Scan, hit, miss, put_entry, add_addr, fill_entry, new_slot, end_scan,
  nut_set,
}
use mixsim.Nut.View.{holds, Distinct, Found, Found-get, Found-holds, Found-lookup, lookup-set-Found}
use mixsim.Nut.Writes.{
  Vacant, Vacant-get, lookup-set-Vacant, lookup-set_next, Distinct-set-Found, Distinct-set-Vacant,
  Distinct-set_next,
}
use mixsim.Nut.Search.{found, full, Scanned, nut_scan_lem}
use mixsim.Nut.Valid.{
  IsEntry, AllEntries-set, AllEntries-set_next, IsValid, waiting, bind_addr, NoRepeat-snoc,
  Found-IsEntry,
}
use mixsim.Nut.Grow.{nut_grow_lem}

-- The result and the new table of a request for `k` from `a`.
pub record Stored (k : List ℕ) (a : SockaddrIn) (t : Nut) (r : Nut × ℤ) : Type 0 where
  pub code : r.1 ≡ (bind_addr (waiting t k) a).1
  pub view :
      (j : List ℕ)
      → waiting r.0 j ≡ (if bytes_eq k j then some (bind_addr (waiting t k) a).0 else waiting t j)
  pub valid : IsValid r.0

abbrev with_addr : NutEntry → SockaddrIn → NutEntry
with_addr e a = record e {
  addr = set_addr e.addr e.addr_num a;
  addr_num = (e.addr_num + 1) % 2 ^ 16;
}

addrs-with_addr :
    (e : NutEntry) (a : SockaddrIn)
    → e.addr_num < max_addr_pername
    → addrs (with_addr e a) ≡ addrs e ++ a ∷ []
addrs-with_addr e a h =
    let n : (e.addr_num + 1) % 2 ^ 16 ≡ suc e.addr_num = omega arith in
    rw n (tabulate-set_addr e.addr_num e.addr a)

with_addr-IsEntry :
    (e : NutEntry) (a : SockaddrIn)
    → IsEntry e
    → e.addr_num < max_addr_pername
    → has_addr (addrs e) a ≡ false
    → IsEntry (with_addr e a)
with_addr-IsEntry e a ok h new = record {
  name_fits = ok.name_fits;
  addr_some = omega arith;
  addr_fits = omega arith;
  once = rw (addrs-with_addr e a h) (NoRepeat-snoc (addrs e) a ok.once new);
}

pub put_entry-IsValid :
    (t : Nut) (v : IsValid t) (i : ℕ) (e : NutEntry)
    → IsEntry e
    → Distinct t.entry_num (set t.entries i e)
    → IsValid (record t { entries = set t.entries i e })
put_entry-IsValid t v i e ok d = record {
  cells = length-set t.entries i e ∙ v.cells;
  used = v.used;
  some_cap = v.some_cap;
  small = v.small;
  entries_ok = AllEntries-set e ok t.entry_num i t.entries v.entries_ok;
  distinct = d;
}

module _ (k : List ℕ) (a : SockaddrIn) (t : Nut) (v : IsValid t) where
  unchanged :
      {l : List SockaddrIn} (code : ℤ)
      → waiting t k ≡ some l
      → bind_addr (some l) a ≡ (l, code)
      → Stored k a t (t, code)
  unchanged {l} code w b = record {
    code = rw (w, b);
    view = λ j. rw (w, b) (ground (arith, bytes_eq_iff k j));
    valid = v;
  }

  pub add_addr-Stored :
      (i : ℕ) (e : NutEntry)
      → Found k t.entry_num t.entries i e
      → (r : Nut × ℤ) × (add_addr t i e a ≡ some r) × Stored k a t r
  unfolding add_addr put_entry bind_addr
  add_addr-Stored i e f = elim (Bool-cases (has_addr (addrs e) a)) [
    | inl known ↦ ((t, pos 0), rw (test, known), unchanged (pos 0) (Found-lookup f) (rw known))
    | inr new ↦ elim (Bool-cases (e.addr_num == max_addr_pername)) [
      | inl at_most ↦ (
        (t, negsuc 0),
        rw (test, new, at_most),
        unchanged (negsuc 0) (Found-lookup f)
            (rw (new, length-tabulate e.addr_num e.addr, at_most)),
      )
      | inr below ↦
          let h : e.addr_num < max_addr_pername = ground (arith, ok.addr_fits) in
          (
            (record t { entries = set t.entries i (with_addr e a) }, pos 1),
            rw (test, new, below, Found-get f) (ground arith),
            record {
              code = rw (Found-lookup f, new, length-tabulate e.addr_num e.addr, below);
              view = λ j.
                  rw (Found-lookup f, new, length-tabulate e.addr_num e.addr, below)
                    (lookup-set-Found j k (with_addr e a) f (Found-holds f)
                      ∙ ground (arith, addrs-with_addr e a h));
              valid =
                  put_entry-IsValid t v i (with_addr e a) (with_addr-IsEntry e a ok h new)
                    (Distinct-set-Found k (with_addr e a) (Found-holds f) f v.distinct);
            },
          )
    ]
  ]
    where
      ok : IsEntry e
      ok = Found-IsEntry f v.entries_ok

      test : nut_entry_fdmatch e a ≡ some (has_addr (addrs e) a)
      test = nut_entry_fdmatch_lem e a ok.addr_fits

-- The entry that `nut_set` writes for a name that the table does not have.
abbrev filled : NutEntry → List ℕ → ℕ → SockaddrIn → NutEntry
filled e name nlen a = record e {
  deleted = 0;
  addr_num = 1;
  addr = set_addr e.addr 0 a;
  name_len = cut_nlen nlen % 2 ^ 16;
  name = copy_bytes (cut_nlen nlen) (cut_name name nlen) e.name;
}

module _ (name : List ℕ) (nlen : ℕ) (n : IsName name nlen) (a : SockaddrIn) where
  abbrev k : List ℕ
  k = key_of name nlen

  filled_len : cut_nlen nlen % 2 ^ 16 ≡ cut_nlen nlen
  filled_len = omega (arith, cut_nlen-le nlen n.positive)

  key-filled : (e : NutEntry) → key (filled e name nlen a) ≡ k
  key-filled e = rw filled_len (copy_bytes-key name nlen e.name n)

  filled-holds : (e : NutEntry) → holds k (filled e name nlen a) ≡ true
  filled-holds e = rw (key-filled e) (bytes_eq_refl k)

  addrs-filled : (e : NutEntry) → addrs (filled e name nlen a) ≡ a ∷ []
  addrs-filled e = tabulate-set_addr 0 e.addr a

  filled-IsEntry : (e : NutEntry) → IsEntry (filled e name nlen a)
  unfolding has_addr
  filled-IsEntry e = record {
    name_fits = omega (arith, filled_len, cut_nlen-le nlen n.positive);
    addr_some = omega arith;
    addr_fits = omega arith;
    once = (refl, tt);
  }

  fill_entry_lem :
      (t : Nut) (slot : ℕ) {e : NutEntry}
      → get_elem? t.entries slot ≡ some e
      → fill_entry t slot name nlen a
        ≡ some (record t { entries = set t.entries slot (filled e name nlen a) }, pos 1)
  unfolding fill_entry put_entry
  fill_entry_lem t slot e =
      ground (arith, e, cut_nlen-le nlen n.positive, length-cut_name name nlen n)

  -- The new entry is written over a deleted one.
  pub fill-Vacant-Stored :
      (t : Nut) (slot : ℕ)
      → IsValid t
      → waiting t k ≡ none
      → Vacant t.entry_num t.entries slot
      → (r : Nut × ℤ) × (fill_entry t slot name nlen a ≡ some r) × Stored k a t r
  unfolding bind_addr
  fill-Vacant-Stored t slot v w vacant =
      let (e, got) = Vacant-get vacant in
      (
        _,
        fill_entry_lem t slot got,
        record {
          code = rw w;
          view = λ j. rw w (
              lookup-set-Vacant k (filled e name nlen a) (filled-holds e) j vacant w
              ∙ ground (arith, addrs-filled e));
          valid =
              put_entry-IsValid t v slot (filled e name nlen a) (filled-IsEntry e)
                (Distinct-set-Vacant k (filled e name nlen a) (filled-holds e) vacant w v.distinct);
        },
      )

  -- The new entry is written behind the last one.
  fill_next-Stored :
      (t u : Nut) (slot : ℕ)
      → slot ≡ u.entry_num
      → IsValid u
      → u.entry_num < u.table_cap
      → ((j : List ℕ) → waiting u j ≡ waiting t j)
      → waiting t k ≡ none
      → (r : Nut × ℤ) × (fill_entry
            (record u { entry_num = (u.entry_num + 1) % 2 ^ 32 })
            slot
            name
            nlen
            a
          ≡ some r)
        × Stored k a t r
  unfolding bind_addr
  fill_next-Stored t u slot at v room same w = rw at (
      let (e, got) = get_elem?_total u.entries u.entry_num (omega (arith, v.cells)) in
      let new = filled e name nlen a in
      let below : u.entry_num < length u.entries = omega (arith, v.cells) in
      let w' : waiting u k ≡ none = same k ∙ w in
      let n : (u.entry_num + 1) % 2 ^ 32 ≡ suc u.entry_num = omega (arith, v.small) in
      (
        _,
        fill_entry_lem (record u { entry_num = (u.entry_num + 1) % 2 ^ 32 }) u.entry_num got,
        record {
          code = rw w;
          view = λ j.
              rw (w, n)
                (lookup-set_next k new (filled-holds e) j u.entry_num u.entries below w'
                  ∙ ground (arith, addrs-filled e, same j));
          valid = record {
            cells = length-set u.entries u.entry_num new ∙ v.cells;
            used = omega arith;
            some_cap = v.some_cap;
            small = v.small;
            entries_ok =
                rw n
                  (AllEntries-set_next new (filled-IsEntry e) u.entry_num u.entries v.entries_ok);
            distinct = rw n (
                Distinct-set_next k new (filled-holds e) u.entry_num u.entries below w' v.distinct);
          };
        },
      ))

  end_scan-Stored :
      (b : Block) (t : Nut)
      → IsValid t
      → t.table_cap < 2 ^ 30
      → (s : Scan) → Scanned k t.entry_num 0 none t.entries s
      → (r : Nut × ℤ) × (end_scan (some b) t name nlen a s ≡ some r) × Stored k a t r
  unfolding end_scan new_slot
  end_scan-Stored b t v room (hit j e) (i, p, f) =
      let at : j ≡ i = omega arith in rw at (add_addr-Stored k a t v i e f)
  end_scan-Stored b t v room (miss (some d) c) (w, p, found {i} q vacant) =
      let at : d ≡ i = omega arith in rw at (fill-Vacant-Stored t i v w vacant)
  end_scan-Stored b t v room (miss none c) (w, p, full live) =
      let at : c ≡ t.entry_num = omega arith in
      let small : ltb t.table_cap (2 ^ 31) ≡ true = ground (arith, v.small) in
      rw at (elim (Bool-cases (t.entry_num == t.table_cap)) [
        | inl last ↦
            let (u, grows, g) = nut_grow_lem b t v room in
            rw (small, last, grows)
              (fill_next-Stored t u t.entry_num (sym g.used) g.valid
                (ground (arith, v.used, g.larger, g.used)) g.same w)
        | inr before ↦
            rw (small, before)
              (fill_next-Stored t t t.entry_num refl v (ground (arith, v.used)) (λ j. refl) w)
      ])

-- On a valid table of less than 2^30 cells, with memory for a larger one, nut_set of a name and a
-- length inside of its buffer reads and writes inside its objects; it returns what bind_addr says
-- (1 for a new address, 0 for one that waits already, -1 if eight others wait), the table says the
-- new addresses of that name and of every other name what it said, and it is valid.
pub nut_set-bind_addr :
    (b : Block) (t : Nut) (name : List ℕ) (nlen : ℕ) (a : SockaddrIn)
    → IsValid t
    → IsName name nlen
    → t.table_cap < 2 ^ 30
    → (r : Nut × ℤ) × (nut_set (some b) t name nlen a ≡ some r) × Stored (key_of name nlen) a t r
unfolding nut_set int_rounds
nut_set-bind_addr b t name nlen a v n room =
    let all : int_rounds t.entry_num ≡ t.entry_num = ground (arith, v.used, v.small) in
    let (s, p, q) =
      nut_scan_lem name nlen n t.entry_num 0 none t.entries (omega (arith, v.cells, v.used)) in
    rw (all, p) (end_scan-Stored name nlen n a b t v room s q)
