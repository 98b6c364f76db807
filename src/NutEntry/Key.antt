-- ===== src/NutEntry/Key.antt =====
-- The names that entries and requests stand for, and nut_entry_namematch as their equality.
use mixsim.Prelude.{
  ℕ, zero, suc, ◌-◌, ◌^◌, ◌≤◌, ◌<◌, ◌≡◌, refl, ap, sym, ◌∙◌, true, some, List, [], ◌∷◌, arith,
  length, take, drop, ltb, if◌then◌else◌, tabulate, Bool-cases, inl, inr, length-take, length-drop,
  length-tabulate, get_elem?_total, bytes_eq, bytes_eq-snoc, bytes_eq_iff, take-suc, tabulate-suc,
}
use mixsim.NutEntry.{
  max_namelen, NutEntry, is_long, cut_name, cut_nlen, same_bytes, nut_entry_namematch, copy_bytes,
}

-- The name that an entry holds.
abbrev pub key : NutEntry → List ℕ
key e = tabulate e.name_len e.name

-- The name that a request means: the last 1024 bytes of its name, or all of a shorter one.
abbrev pub key_of : List ℕ → ℕ → List ℕ
key_of name nlen = if ltb 1024 nlen then take 1024 (drop (nlen - 1024) name) else take nlen name

-- The request's name lies inside its buffer, and its length is not negative.
pub record IsName (name : List ℕ) (nlen : ℕ) : Type 0 where
  pub inside : nlen ≤ length name
  pub positive : nlen < 2 ^ 31

pub cut_nlen-le : (nlen : ℕ) → nlen < 2 ^ 31 → cut_nlen nlen ≤ max_namelen
unfolding cut_nlen is_long
cut_nlen-le nlen h = ground arith

pub length-cut_name :
    (name : List ℕ) (nlen : ℕ) → IsName name nlen → cut_nlen nlen ≤ length (cut_name name nlen)
unfolding cut_nlen cut_name is_long
length-cut_name name nlen h = ground (arith, length-drop (nlen - max_namelen) name)

-- What nut_entry_namematch and nut_set cut off leaves that name.
pub key_of-cut_name :
    (name : List ℕ) (nlen : ℕ)
    → nlen < 2 ^ 31
    → key_of name nlen ≡ take (cut_nlen nlen) (cut_name name nlen)
unfolding cut_nlen cut_name is_long
key_of-cut_name name nlen h =
    let small : ltb nlen (2 ^ 31) ≡ true = ground arith in
    elim (Bool-cases (ltb 1024 nlen)) [
      | inl long ↦ rw (long, small) refl
      | inr short ↦ rw short refl
    ]

pub length-key_of :
    (name : List ℕ) (nlen : ℕ) → IsName name nlen → length (key_of name nlen) ≡ cut_nlen nlen
length-key_of name nlen h =
    rw (key_of-cut_name name nlen h.positive)
      (omega (arith, length-take (cut_nlen nlen) (cut_name name nlen), length-cut_name name nlen h))

same_bytes_lem :
    (n : ℕ) (xs : List ℕ) (f : ℕ → ℕ)
    → n ≤ length xs
    → n ≤ max_namelen
    → same_bytes n xs f ≡ some (bytes_eq (take n xs) (tabulate n f))
unfolding same_bytes
same_bytes_lem zero xs f h k = refl
same_bytes_lem (suc n) xs f h k =
    let (x, e) = get_elem?_total xs n (omega arith) in
    rw (take-suc n xs e, tabulate-suc n f)
      (ground (
        arith,
        bytes_eq-snoc (take n xs) (tabulate n f) x (f n),
        length-take n xs,
        length-tabulate n f,
        same_bytes_lem n xs f,
      ))

bytes_eq_lengths : (xs ys : List ℕ) → bytes_eq xs ys ≡ true → length xs ≡ length ys
bytes_eq_lengths xs ys h = ap length ((bytes_eq_iff xs ys).0 h)

-- For a name and a length inside of its buffer, nut_entry_namematch says whether the name, or the
-- last 1024 bytes of one that is longer, is the entry's name, and reads inside its objects.
pub nut_entry_namematch_lem :
    (e : NutEntry) (name : List ℕ) (nlen : ℕ)
    → IsName name nlen
    → nut_entry_namematch e name nlen ≡ some (bytes_eq (key_of name nlen) (key e))
unfolding nut_entry_namematch
nut_entry_namematch_lem e name nlen h = ground (
  arith,
  same_bytes_lem (cut_nlen nlen) (cut_name name nlen) e.name,
  length-cut_name name nlen h,
  cut_nlen-le nlen,
  bytes_eq_lengths (key_of name nlen) (key e),
  length-key_of name nlen h,
  key_of-cut_name name nlen h.positive,
  length-tabulate e.name_len e.name,
)

copy_bytes_lem :
    (n : ℕ) (src : List ℕ) (dst : ℕ → ℕ)
    → n ≤ length src
    → tabulate n (copy_bytes n src dst) ≡ take n src
unfolding copy_bytes
copy_bytes_lem zero src dst h = refl
copy_bytes_lem (suc n) [] dst h = absurd (omega arith)
copy_bytes_lem (suc n) (x ∷ src) dst h =
    ap (λ l. x ∷ l) (copy_bytes_lem n src (λ j. dst (suc j)) (omega arith))

-- What is copied is the request's name.
pub copy_bytes-key :
    (name : List ℕ) (nlen : ℕ) (dst : ℕ → ℕ)
    → IsName name nlen
    → tabulate (cut_nlen nlen) (copy_bytes (cut_nlen nlen) (cut_name name nlen) dst)
      ≡ key_of name nlen
copy_bytes-key name nlen dst h =
    copy_bytes_lem (cut_nlen nlen) (cut_name name nlen) dst (length-cut_name name nlen h)
    ∙ sym (key_of-cut_name name nlen h.positive)
