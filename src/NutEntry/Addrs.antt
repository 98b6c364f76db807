-- ===== src/NutEntry/Addrs.antt =====
-- The addresses of an entry, and nut_entry_fdmatch as membership among them.
use mixsim.Prelude.{
  ℕ, zero, suc, ◌+◌, ◌≤◌, ◌≡◌, refl, Bool, false, ◌||◌, some, List, [], ◌∷◌, ◌++◌, arith, tabulate,
  tabulate-suc, tabulate_cong, ap, ◌∙◌,
}
use mixsim.NutEntry.{
  max_addr_pername, SockaddrIn, NutEntry, same_addr, any_addr, nut_entry_fdmatch, set_addr,
}

-- The addresses that wait for the entry's name.
abbrev pub addrs : NutEntry → List SockaddrIn
addrs e = tabulate e.addr_num e.addr

unfoldable pub has_addr : List SockaddrIn → SockaddrIn → Bool
has_addr [] a = false
has_addr (x ∷ xs) a = same_addr x a || has_addr xs a

any_addr_lem :
    (k idx : ℕ) (f : ℕ → SockaddrIn) (a : SockaddrIn)
    → idx + k ≤ max_addr_pername
    → any_addr k idx f a ≡ some (has_addr (tabulate k (λ i. f (idx + i))) a)
unfolding any_addr has_addr
any_addr_lem zero idx f a h = refl
any_addr_lem (suc k) idx f a h =
    rw
      (
        any_addr_lem k (idx + 1) f a (omega arith),
        tabulate_cong k (λ i. f (idx + 1 + i)) (λ i. f (idx + suc i)) (λ i p. ap f (omega arith)),
      )
      (ground arith)

-- For an entry of at most eight addresses, nut_entry_fdmatch says whether the address and port are
-- among the entry's.
pub nut_entry_fdmatch_lem :
    (e : NutEntry) (a : SockaddrIn)
    → e.addr_num ≤ max_addr_pername
    → nut_entry_fdmatch e a ≡ some (has_addr (addrs e) a)
unfolding nut_entry_fdmatch
nut_entry_fdmatch_lem e a h =
    any_addr_lem e.addr_num 0 e.addr a (omega arith)
    ∙ ap (λ l. some (has_addr l a))
        (tabulate_cong e.addr_num (λ i. e.addr (0 + i)) e.addr (λ i p. ap e.addr (omega arith)))

-- A write behind the last address adds it.
pub tabulate-set_addr :
    (n : ℕ) (f : ℕ → SockaddrIn) (a : SockaddrIn)
    → tabulate (suc n) (set_addr f n a) ≡ tabulate n f ++ a ∷ []
unfolding set_addr
tabulate-set_addr n f a =
    tabulate-suc n (set_addr f n a)
    ∙ ground (arith, tabulate_cong n (set_addr f n a) f (λ i p. ground arith))
