-- ===== src/LfqMem.antt =====
-- The memory of the queue of adaptor/lfq.c: the nodes and the context of adaptor/lfq.h, and the
-- commands that read and write them.
--
-- Nodes lie at addresses, and a command works on them together with the fields of
-- `struct lfq_ctx`. `next` and `free_next` are one field, a union in the source.
pub mod Rules
pub mod Chain
use mixsim.Prelude.{ℕ, ◌-◌, ◌^◌, Bool, Option, none, some, List, ◌==◌, if◌then◌else◌}

abbrev pub Ptr : Type 0
Ptr = ℕ

-- `(void *)-1`
abbrev pub minus_one : Ptr
minus_one = 2 ^ 64 - 1

abbrev pub maxfree : ℕ
maxfree = 150

pub record LfqNode : Type 0 where
  pub content : ℕ
  pub next : Ptr
  pub can_free : ℕ

abbrev pub node : ℕ → Ptr → ℕ → LfqNode
node d q c = record { content = d; next = q; can_free = c }

-- The heap with the fields of `struct lfq_ctx`, less `count`, which no call uses. The arrays behind `HP` and `tid_map` are lists.
pub record Lfq : Type 0 where
  pub heap : Ptr → Option LfqNode
  pub head : Ptr
  pub tail : Ptr
  pub hp : List Ptr
  pub tid_map : List ℕ
  pub is_freeing : ℕ
  pub fph : Ptr
  pub fpt : Ptr
  pub max_hp_size : ℕ

-- `fault` is an access that C leaves undefined, `out_of_fuel` a loop that was cut short.
pub data Run (A : Type 0) : Type 0 where
  ok : A → Lfq → Run A
  fault : Run A
  out_of_fuel : Run A

abbrev pub Cmd : Type 0 → Type 0
Cmd A = Lfq → Run A

abbrev pub pure : {A : Type 0} → A → Cmd A
pure = ok

module _ {A B : Type 0} where
  abbrev pub and_then : Run A → (A → Cmd B) → Run B
  and_then (ok a m) k = k a m
  and_then fault k = fault
  and_then out_of_fuel k = out_of_fuel

  infixl 5 ◌>>=◌ ◌>>◌
  abbrev pub ◌>>=◌ : Cmd A → (A → Cmd B) → Cmd B
  c >>= k = λ m. and_then (c m) k

  abbrev pub ◌>>◌ : Cmd A → Cmd B → Cmd B
  c >> k = c >>= λ _. k

unfoldable pub write : (Ptr → Option LfqNode) → Ptr → Option LfqNode → Ptr → Option LfqNode
write h p c a = if a == p then c else h a

-- The fields of `*ctx`.
abbrev pub get : {A : Type 0} → (Lfq → A) → Cmd A
get f m = ok (f m) m

abbrev pub change : (Lfq → Lfq) → Cmd (Unit {0})
change f m = ok tt (f m)

-- `*p`: a fault at NULL and at a freed address.
unfoldable pub load : Ptr → Cmd LfqNode
load p m = if p == 0 then fault else elim (m.heap p) [ none ↦ fault | some n ↦ ok n m ]

abbrev pub store : Ptr → Option LfqNode → Cmd (Unit {0})
store p c = change (λ m. record m { heap = write m.heap p c })

unfoldable pub set_next : Ptr → Ptr → Cmd (Unit {0})
unfolding load write
set_next p q = do n ← load p; store p (some (record n { next = q }))

unfoldable pub set_can_free : Ptr → Cmd (Unit {0})
unfolding load write
set_can_free p = do n ← load p; store p (some (record n { can_free = 1 }))

unfoldable pub free : Ptr → Cmd (Unit {0})
unfolding load write
free p = load p >> store p none
