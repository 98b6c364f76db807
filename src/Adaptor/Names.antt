-- ===== src/Adaptor/Names.antt =====
-- The name in a buffer that holds a packet.
use mixsim.Prelude.{
  ltb, ℕ, zero, suc, ◌+◌, ◌-◌, ◌≤◌, ◌<◌, ◌≡◌, refl, ap, ◌∙◌, sym, some, List, [], ◌∷◌, arith, take,
  drop, tabulate, get_elem?, get_elem?_total, length, ◌≢◌, tabulate_cong, inl, inr, Bool-cases,
}
use mixsim.NutEntry.Key.{key_of, IsName}
use mixsim.Buffer.{Buffer, nlen, buf_from, length-buf_from}
use mixsim.NipAdaptor.{IsockBuf}
use mixsim.NipAdaptor.Content.{Contains}

take-tabulate : (n m : ℕ) (f : ℕ → ℕ) → n ≤ m → take n (tabulate m f) ≡ tabulate n f
take-tabulate zero m f h = refl
take-tabulate (suc n) zero f h = absurd (omega arith)
take-tabulate (suc n) (suc m) f h =
    ap (λ l. f 0 ∷ l) (take-tabulate n m (λ i. f (suc i)) (omega arith))

take-drop : (k j : ℕ) (xs : List ℕ) → take k (drop j xs) ≡ drop j (take (j + k) xs)
take-drop k zero xs = let e : 0 + k ≡ k = omega arith in rw e refl
take-drop zero (suc j) [] = let e : suc j + 0 ≡ suc j = omega arith in rw e refl
take-drop (suc k) (suc j) [] = let e : suc j + suc k ≡ suc (j + suc k) = omega arith in rw e refl
take-drop k (suc j) (x ∷ xs) =
    let e : suc j + k ≡ suc (j + k) = omega arith in rw e (take-drop k j xs)

-- A name depends on the bytes that its length covers.
key_of-take : (n : ℕ) (xs ys : List ℕ) → take n xs ≡ take n ys → key_of xs n ≡ key_of ys n
key_of-take n xs ys same = elim (Bool-cases (ltb 1024 n)) [
  | inl long ↦
      let e : n - 1024 + 1024 ≡ n = ground arith in
      rw (long, take-drop 1024 (n - 1024) xs, take-drop 1024 (n - 1024) ys, e, same)
  | inr short ↦ rw (short, same)
]

-- The packet has the name that the buffer holds, its arrays, and fits into a buffer.
pub record IsAnswer (b : Buffer) (r : IsockBuf) : Type 0 where
  pub same_len : r.nlen ≡ nlen b
  pub same_name : (i x : ℕ) → i < r.nlen → get_elem? r.name i ≡ some x → x ≡ b (8 + i)
  pub no_nack : r.d_type ≢ 1
  pub name_there : r.nlen ≤ length r.name
  pub data_there : r.dlen ≤ length r.content
  pub fits : r.nlen + r.dlen ≤ 2040

module _ (b b' : Buffer) (r : IsockBuf) (a : IsAnswer b r) (c : Contains b' r) where
  nlen_same : nlen b' ≡ nlen b
  nlen_same = c.name_len ∙ a.same_len

  take-buf_from :
      (n : ℕ) (d : Buffer) → n ≤ 2040 → take n (buf_from 0 d) ≡ tabulate n (λ i. d (8 + 0 + i))
  unfolding buf_from
  take-buf_from n d h = take-tabulate n 2040 (λ i. d (8 + 0 + i)) h

  byte_same : (i : ℕ) → i < r.nlen → b' (8 + 0 + i) ≡ b (8 + 0 + i)
  byte_same i h =
      let (x, e) = get_elem?_total r.name i (let k = a.name_there in omega arith) in
      let o : 8 + 0 + i ≡ 8 + i = omega arith in rw o (c.name_at i x h e ∙ a.same_name i x h e)

  -- The buffer that holds the packet has the same name.
  pub key_of-IsAnswer : key_of (buf_from 0 b') (nlen b') ≡ key_of (buf_from 0 b) (nlen b)
  key_of-IsAnswer =
      let short : nlen b ≤ 2040 = let h = a.fits in omega (arith, a.same_len) in
      let bytes : tabulate (nlen b) (λ i. b' (8 + 0 + i)) ≡ tabulate (nlen b) (λ i. b (8 + 0 + i)) =
        tabulate_cong (nlen b) (λ i. b' (8 + 0 + i)) (λ i. b (8 + 0 + i))
          (λ i h. byte_same i (omega (arith, a.same_len))) in
      rw nlen_same (
        key_of-take (nlen b) (buf_from 0 b') (buf_from 0 b)
          (take-buf_from (nlen b) b' short ∙ bytes ∙ sym (take-buf_from (nlen b) b short)))

  pub Contains-IsName : IsName (buf_from 0 b') (nlen b')
  Contains-IsName =
      let short : nlen b' ≤ 2040 = let h = a.fits in omega (arith, c.name_len) in
      record { inside = omega (arith, length-buf_from 0 b'); positive = omega arith }
