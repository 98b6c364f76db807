-- ===== src/Nut/Valid.antt =====
-- The invariant of the name table, and what a table says of a name.
use mixsim.Prelude.{
  ℕ, zero, suc, ◌^◌, ◌≤◌, ◌<◌, ◌≡◌, refl, false, ◌||◌, Option, none, some, List, [], ◌∷◌, ◌++◌,
  arith, ◌==◌, if◌then◌else◌, ℤ, pos, negsuc, length, set,
}
use mixsim.NutEntry.{max_namelen, max_addr_pername, SockaddrIn, NutEntry, same_addr}
use mixsim.NutEntry.Addrs.{addrs, has_addr}
use mixsim.Nut.{Nut}
use mixsim.Nut.View.{lookup, Found, Distinct}

-- No address stands twice.
abbrev pub NoRepeat : List SockaddrIn → Type 0
NoRepeat [] = Unit
NoRepeat (x ∷ xs) = (has_addr xs x ≡ false) × NoRepeat xs

pub record IsEntry (e : NutEntry) : Type 0 where
  pub name_fits : e.name_len ≤ max_namelen
  pub addr_some : 0 < e.addr_num
  pub addr_fits : e.addr_num ≤ max_addr_pername
  pub once : NoRepeat (addrs e)

abbrev pub AllEntries : ℕ → List NutEntry → Type 0
AllEntries zero es = Unit
AllEntries (suc n) [] = Unit
AllEntries (suc n) (e ∷ es) = IsEntry e × AllEntries n es

pub record IsValid (t : Nut) : Type 0 where
  pub cells : length t.entries ≡ t.table_cap
  pub used : t.entry_num ≤ t.table_cap
  pub some_cap : 0 < t.table_cap
  pub small : t.table_cap < 2 ^ 31
  pub entries_ok : AllEntries t.entry_num t.entries
  pub distinct : Distinct t.entry_num t.entries

-- The addresses that wait for a name.
abbrev pub waiting : Nut → List ℕ → Option (List SockaddrIn)
waiting t k = lookup k t.entry_num t.entries

-- What a request from `a` makes of the addresses that wait for its name, and the result of
-- `nut_set`: 1 if the address is new, 0 if it waits already, -1 if eight others wait.
unfoldable pub bind_addr : Option (List SockaddrIn) → SockaddrIn → List SockaddrIn × ℤ
bind_addr none a = (a ∷ [], pos 1)
bind_addr (some l) a =
    if has_addr l a
    then (l, pos 0)
    else (if length l == max_addr_pername then (l, negsuc 0) else (l ++ a ∷ [], pos 1))

same_addr_comm : (a b : SockaddrIn) → same_addr a b ≡ same_addr b a
unfolding same_addr
same_addr_comm a b = ground arith

pub has_addr-snoc :
    (xs : List SockaddrIn) (a b : SockaddrIn)
    → has_addr (xs ++ a ∷ []) b ≡ (has_addr xs b || same_addr a b)
unfolding has_addr
has_addr-snoc [] a b = ground arith
has_addr-snoc (x ∷ xs) a b = ground (arith, has_addr-snoc xs a b)

pub NoRepeat-snoc :
    (xs : List SockaddrIn) (a : SockaddrIn)
    → NoRepeat xs
    → has_addr xs a ≡ false
    → NoRepeat (xs ++ a ∷ [])
unfolding has_addr
NoRepeat-snoc [] a r h = (refl, tt)
NoRepeat-snoc (x ∷ xs) a (d, r) h =
    (ground (arith, has_addr-snoc xs a x, same_addr_comm a x), NoRepeat-snoc xs a r (ground arith))

module _ (e' : NutEntry) (ok : IsEntry e') where
  pub AllEntries-set : (n i : ℕ) (es : List NutEntry) → AllEntries n es → AllEntries n (set es i e')
  AllEntries-set zero i es a = tt
  AllEntries-set (suc n) i [] a = tt
  AllEntries-set (suc n) zero (e ∷ es) (h, a) = (ok, a)
  AllEntries-set (suc n) (suc i) (e ∷ es) (h, a) = (h, AllEntries-set n i es a)

  pub AllEntries-set_next :
      (n : ℕ) (es : List NutEntry) → AllEntries n es → AllEntries (suc n) (set es n e')
  AllEntries-set_next n [] a = tt
  AllEntries-set_next zero (e ∷ es) a = (ok, tt)
  AllEntries-set_next (suc n) (e ∷ es) (h, a) = (h, AllEntries-set_next n es a)

pub Found-IsEntry :
    {k : List ℕ} {n i : ℕ} {es : List NutEntry} {e : NutEntry}
    → Found k n es i e
    → AllEntries n es
    → IsEntry e
Found-IsEntry (Found.here h) (ok, a) = ok
Found-IsEntry (Found.there h f) (ok, a) = Found-IsEntry f a
