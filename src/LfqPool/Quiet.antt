-- ===== src/LfqPool/Quiet.antt =====
-- A context that no call is using: `safe_free` of a consumed node frees it at once, and the pool
-- stays at its one node.
use mixsim.Prelude.{
  ℕ, zero, suc, ◌≤◌, ◌≡◌, ◌≢◌, refl, ◌∙◌, Option, Bool, false, none, some, List, [], ◌∷◌, arith,
  ◌==◌, length,
}
use mixsim.LfqMem.{Ptr, minus_one, LfqNode, node, Lfq, ok, write, load}
use mixsim.LfqMem.Rules.{Holds, load-ok, set_next-ok, free-ok, write_self}
use mixsim.LfqPool.{
  take_freeing, end_freeing, in_hp_loop, in_hp, must_stay, pool_round, pool_loop, free_pool,
  safe_free,
}

abbrev pub AllZero : List ℕ → Type 0
AllZero [] = Unit
AllZero (x ∷ xs) = (x ≡ 0) × AllZero xs

-- No hazard pointer is set, nobody frees, and the pool holds one node.
pub record Quiet (m : Lfq) : Type 0 where
  pub no_hazard : AllZero m.hp
  pub hp_size : m.max_hp_size ≤ length m.hp
  pub idle : m.is_freeing ≡ 0
  pub pool_content : ℕ
  pub pool_free : ℕ
  pub pool : Holds m m.fph (node pool_content 0 pool_free)
  pub pool_one : m.fpt ≡ m.fph

-- The queue and the thread map are not what `Quiet` speaks of.
pub Quiet-move :
    (m : Lfq)
    → Quiet m
    → (g : Ptr → Option LfqNode) (hd tl : Ptr) (tids : List ℕ) → g m.fph ≡ m.heap m.fph
    → Quiet (record m { heap = g; head = hd; tail = tl; tid_map = tids })
Quiet-move m q g hd tl tids same = record {
  no_hazard = q.no_hazard;
  hp_size = q.hp_size;
  idle = q.idle;
  pool_content = q.pool_content;
  pool_free = q.pool_free;
  pool = record { ne_null = q.pool.ne_null; at = same ∙ q.pool.at };
  pool_one = q.pool_one;
}

in_hp_loop-false :
    (k : ℕ) (hp : List Ptr) (p : Ptr) (m : Lfq)
    → AllZero hp
    → k ≤ length hp
    → p ≢ 0
    → in_hp_loop k hp p m ≡ ok false m
unfolding in_hp_loop
in_hp_loop-false zero hp p m z h ne = refl
in_hp_loop-false (suc k) [] p m z h ne = absurd (omega arith)
in_hp_loop-false (suc k) (x ∷ hp) p m (z, zs) h ne =
    let rest = in_hp_loop-false k hp p m zs (omega arith) ne in
    let other : (x == p) ≡ false = ground arith in rw other rest

pub in_hp-false :
    (m : Lfq) (p : Ptr)
    → AllZero m.hp
    → m.max_hp_size ≤ length m.hp
    → p ≢ 0
    → in_hp p m ≡ ok false m
unfolding in_hp
in_hp-false m p z h ne = in_hp_loop-false m.max_hp_size m.hp p m z h ne

-- The head of the pool has no successor, so nothing is freed.
pub free_pool_last :
    (m : Lfq) (k d c : ℕ) (all : Bool)
    → m.is_freeing ≡ 0
    → Holds m m.fph (node d 0 c)
    → free_pool (suc k) all m ≡ ok tt (record m { is_freeing = 0 })
unfolding free_pool take_freeing end_freeing pool_loop pool_round must_stay load
free_pool_last m k d c all idle pool = ground (arith, idle, pool.at, pool.ne_null)

-- The memory after a node was poisoned and freed.
abbrev pub freed : Lfq → Ptr → LfqNode → Lfq
freed m p n = record m {
  is_freeing = 0;
  heap = write (write m.heap p (some (record n { next = minus_one }))) p none;
}

-- In a context that no call is using, whose pool holds one node, safe_free of another node that is
-- consumed frees it at once, and nothing else changes.
pub safe_free-freed :
    (m : Lfq) (p : Ptr) (n : LfqNode)
    → Quiet m
    → Holds m p n
    → n.can_free ≢ 0
    → p ≢ m.fph
    → safe_free p m ≡ ok tt (freed m p n)
unfolding safe_free take_freeing end_freeing write
safe_free-freed m p n quiet e used apart =
    let consumed : (n.can_free == 0) ≡ false = ground arith in
    let taken = record m { is_freeing = 1 } in
    let poisoned = record taken { heap = write m.heap p (some (record n { next = minus_one })) } in
    let e1 : Holds taken p n = record { ne_null = e.ne_null; at = e.at } in
    let e2 : Holds poisoned p (record n { next = minus_one }) = write_self taken p _ e.ne_null in
    rw
      (
        load-ok e,
        consumed,
        in_hp-false m p quiet.no_hazard quiet.hp_size e.ne_null,
        quiet.idle,
        set_next-ok e1 minus_one,
        free-ok e2,
      )
      (free_pool_last (freed m p n) 150 quiet.pool_content quiet.pool_free false refl
        (record { ne_null = quiet.pool.ne_null; at = ground (arith, quiet.pool.at) }))
