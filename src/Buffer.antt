-- ===== src/Buffer.antt =====
-- `struct simple_name_data` of adaptor/adaptor.h as its 2048 bytes, the form in which it crosses
-- the network: `nlen` and `dlen` are little-endian words in front of `buf`.
pub mod Copy
use mixsim.Prelude.{
  ℕ, ◌+◌, ◌-◌, ◌*◌, ◌/◌, ◌%◌, ◌^◌, ◌<◌, ◌≡◌, refl, none, some, List, arith, ltb, ◌==◌,
  if◌then◌else◌, length, get_elem?, tabulate, length-tabulate,
}

abbrev pub Buffer : Type 0
Buffer = ℕ → ℕ

-- `sizeof(simple_name_data)` and `sizeof(buf)`
abbrev pub buffer_size : ℕ
buffer_size = 2048

abbrev pub buf_size : ℕ
buf_size = 2040

-- An unsigned int at an offset.
unfoldable pub get_u32 : Buffer → ℕ → ℕ
get_u32 b o = b o + 256 * b (o + 1) + 65536 * b (o + 2) + 16777216 * b (o + 3)

unfoldable pub put_u32 : Buffer → ℕ → ℕ → Buffer
put_u32 b o v i =
    if i == o
    then v % 256
    else (if i == o + 1
        then v / 256 % 256
        else (if i == o + 2
            then v / 65536 % 256
            else (if i == o + 3 then v / 16777216 % 256 else b i)))

-- `memcpy` of bytes to an offset.
unfoldable pub copy_at : ℕ → List ℕ → Buffer → Buffer
copy_at o xs b i = if ltb i o then b i else elim (get_elem? xs (i - o)) [ none ↦ b i | some x ↦ x ]

unfoldable pub nlen : Buffer → ℕ
unfolding get_u32
nlen b = get_u32 b 0

unfoldable pub dlen : Buffer → ℕ
unfolding get_u32
dlen b = get_u32 b 4

unfoldable pub set_nlen : ℕ → Buffer → Buffer
unfolding put_u32
set_nlen v b = put_u32 b 0 v

unfoldable pub set_dlen : ℕ → Buffer → Buffer
unfolding put_u32
set_dlen v b = put_u32 b 4 v

-- The bytes of `buf` from an offset to its end.
unfoldable pub buf_from : ℕ → Buffer → List ℕ
buf_from o b = tabulate (buf_size - o) (λ i. b (8 + o + i))

pub get_u32-put_u32 : (b : Buffer) (o v : ℕ) → v < 2 ^ 32 → get_u32 (put_u32 b o v) o ≡ v
unfolding get_u32 put_u32
get_u32-put_u32 b o v h = ground arith

pub nlen-set_dlen : (b : Buffer) (v : ℕ) → nlen (set_dlen v b) ≡ nlen b
unfolding nlen set_dlen
nlen-set_dlen b v = refl

pub length-buf_from : (o : ℕ) (b : Buffer) → length (buf_from o b) ≡ buf_size - o
unfolding buf_from
length-buf_from o b = length-tabulate (buf_size - o) (λ i. b (8 + o + i))
