-- ===== src/NutEntry.antt =====
-- The entries of the name table: `struct nut_entry` of adaptor/name_udp_table.h, and the tests
-- nut_entry_namematch and nut_entry_fdmatch of adaptor/name_udp_table.c. The children prove what
-- the tests decide.
--
-- A fixed array of a struct is a function of the index, read and written under a bound test.
-- `none` is an access outside an object. An `int` is its 32-bit pattern: `nlen` is negative from
-- 2^31 on. A `char *` is the list of the bytes from it to the end of its object.
pub mod Key
pub mod Addrs
use mixsim.Prelude.{
  ℕ, zero, suc, ◌+◌, ◌-◌, ◌^◌, Bool, true, false, ◌&&◌, Option, some, List, [], ◌∷◌, ltb, ◌==◌,
  if◌then◌else◌, ◌>>=◌, ◌>>◌, guard, get_elem?, drop,
}

abbrev pub max_namelen : ℕ
max_namelen = 1024

abbrev pub max_addr_pername : ℕ
max_addr_pername = 8

-- `struct sockaddr_in` of the system's headers, as far as the table reads it.
pub record SockaddrIn : Type 0 where
  pub sin_family : ℕ
  pub sin_port : ℕ
  pub s_addr : ℕ

pub record NutEntry : Type 0 where
  pub name_len : ℕ
  pub addr_num : ℕ
  pub deleted : ℕ
  pub canstop : ℕ
  pub name : ℕ → ℕ
  pub addr : ℕ → SockaddrIn

-- `if (nlen > MAX_NAMELEN) { name += (nlen - MAX_NAMELEN); nlen = MAX_NAMELEN; }`
unfoldable pub is_long : ℕ → Bool
is_long nlen = ltb max_namelen nlen && ltb nlen (2 ^ 31)

unfoldable pub cut_name : List ℕ → ℕ → List ℕ
unfolding is_long
cut_name name nlen = if is_long nlen then drop (nlen - max_namelen) name else name

unfoldable pub cut_nlen : ℕ → ℕ
unfolding is_long
cut_nlen nlen = if is_long nlen then max_namelen else nlen

-- `for (idx = n - 1; idx >= 0; idx--)` over both names.
unfoldable pub same_bytes : ℕ → List ℕ → (ℕ → ℕ) → Option Bool
same_bytes zero name entry_name = some true
same_bytes (suc idx) name entry_name =
    let rest = same_bytes idx name entry_name in
    do
      x ← get_elem? name idx
      guard (ltb idx max_namelen)
      if x == entry_name idx then rest else some false

unfoldable pub nut_entry_namematch : NutEntry → List ℕ → ℕ → Option Bool
unfolding cut_name cut_nlen same_bytes
nut_entry_namematch entry name nlen =
    if cut_nlen nlen == entry.name_len
    then same_bytes (cut_nlen nlen) (cut_name name nlen) entry.name
    else some false

unfoldable pub same_addr : SockaddrIn → SockaddrIn → Bool
same_addr a b = (a.s_addr == b.s_addr) && (a.sin_port == b.sin_port)

-- `for (idx = 0; idx < addr_num; idx++)`, with the rounds left first.
unfoldable pub any_addr : ℕ → ℕ → (ℕ → SockaddrIn) → SockaddrIn → Option Bool
unfolding same_addr
any_addr zero idx addrs addr = some false
any_addr (suc k) idx addrs addr =
    let rest = any_addr k (idx + 1) addrs addr in
    do guard (ltb idx max_addr_pername); if same_addr (addrs idx) addr then some true else rest

unfoldable pub nut_entry_fdmatch : NutEntry → SockaddrIn → Option Bool
unfolding any_addr
nut_entry_fdmatch entry addr = any_addr entry.addr_num 0 entry.addr addr

-- `memcpy(dst, src, n)` of bytes.
unfoldable pub copy_bytes : ℕ → List ℕ → (ℕ → ℕ) → ℕ → ℕ
copy_bytes zero src dst i = dst i
copy_bytes (suc n) [] dst i = dst i
copy_bytes (suc n) (x ∷ src) dst zero = x
copy_bytes (suc n) (x ∷ src) dst (suc i) = copy_bytes n src (λ j. dst (suc j)) i

unfoldable pub set_addr : (ℕ → SockaddrIn) → ℕ → SockaddrIn → ℕ → SockaddrIn
set_addr addrs i addr j = if i == j then addr else addrs j
