-- ===== src/Buffer/Copy.antt =====
-- Where the bytes of a buffer come from after copies into it.
use mixsim.Prelude.{ℕ, ◌+◌, ◌-◌, ◌≤◌, ◌<◌, ◌≡◌, ◌^◌, false, some, List, arith, ltb, get_elem?}
use mixsim.Buffer.{
  Buffer, get_u32, copy_at, nlen, dlen, set_nlen, set_dlen, put_u32, get_u32-put_u32,
}

pub copy_at-below : (o : ℕ) (xs : List ℕ) (b : Buffer) (i : ℕ) → i < o → copy_at o xs b i ≡ b i
unfolding copy_at
copy_at-below o xs b i h = ground arith

-- What was copied stands at the offset.
pub copy_at-inside :
    (o : ℕ) (xs : List ℕ) (b : Buffer) (i x : ℕ)
    → get_elem? xs i ≡ some x
    → copy_at o xs b (o + i) ≡ x
unfolding copy_at
copy_at-inside o xs b i x e =
    let behind : ltb (o + i) o ≡ false = ground arith in
    let index : o + i - o ≡ i = omega arith in rw (behind, index, e)

pub nlen-copy_at : (o : ℕ) (xs : List ℕ) (b : Buffer) → 4 ≤ o → nlen (copy_at o xs b) ≡ nlen b
unfolding nlen get_u32
nlen-copy_at o xs b h = rw (
  copy_at-below o xs b 0 (omega arith),
  copy_at-below o xs b 1 (omega arith),
  copy_at-below o xs b 2 (omega arith),
  copy_at-below o xs b 3 (omega arith),
)

pub dlen-copy_at : (o : ℕ) (xs : List ℕ) (b : Buffer) → 8 ≤ o → dlen (copy_at o xs b) ≡ dlen b
unfolding dlen get_u32
dlen-copy_at o xs b h = rw (
  copy_at-below o xs b 4 (omega arith),
  copy_at-below o xs b 5 (omega arith),
  copy_at-below o xs b 6 (omega arith),
  copy_at-below o xs b 7 (omega arith),
)

pub nlen-set_nlen : (b : Buffer) (v : ℕ) → v < 2 ^ 32 → nlen (set_nlen v b) ≡ v
unfolding nlen set_nlen
nlen-set_nlen b v h = get_u32-put_u32 b 0 v h

pub dlen-set_dlen : (b : Buffer) (v : ℕ) → v < 2 ^ 32 → dlen (set_dlen v b) ≡ v
unfolding dlen set_dlen
dlen-set_dlen b v h = get_u32-put_u32 b 4 v h

-- Behind the two lengths nothing changes.
pub set_dlen-behind : (b : Buffer) (v i : ℕ) → 8 ≤ i → set_dlen v b i ≡ b i
unfolding set_dlen put_u32
set_dlen-behind b v i h = ground arith
