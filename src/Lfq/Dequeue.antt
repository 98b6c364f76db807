-- ===== src/Lfq/Dequeue.antt =====
-- lfq_dequeue takes the first element, and frees the node in front of it.
use mixsim.Prelude.{
  ℕ, zero, suc, ◌<◌, ◌≡◌, ◌≢◌, refl, ap, ◌∙◌, true, false, Option, none, some, List, [], ◌∷◌, arith,
  ◌==◌, length, length-set, set, get_elem?_total,
}
use mixsim.LfqMem.{Ptr, LfqNode, node, Lfq, minus_one, ok, write}
use mixsim.LfqMem.Rules.{Holds, load-ok, set_can_free-ok}
use mixsim.LfqPool.Quiet.{AllZero, Quiet, safe_free-freed}
use mixsim.Lfq.{set_tid, set_hp, dequeue_round, dequeue_loop, take_content, lfq_dequeue_tid}

pub AllZero-set : (xs : List ℕ) (i : ℕ) → AllZero xs → AllZero (set xs i 0)
AllZero-set [] i z = tt
AllZero-set (x ∷ xs) zero (z, zs) = (refl, zs)
AllZero-set (x ∷ xs) (suc i) (z, zs) = (z, AllZero-set xs i zs)

pub AllZero-set-set : (xs : List ℕ) (i v : ℕ) → AllZero xs → AllZero (set (set xs i v) i 0)
AllZero-set-set [] i v z = tt
AllZero-set-set (x ∷ xs) zero v (z, zs) = (refl, zs)
AllZero-set-set (x ∷ xs) (suc i) v (z, zs) = (z, AllZero-set-set xs i v zs)

pub length-set-set : (xs : List ℕ) (i v w : ℕ) → length (set (set xs i v) i w) ≡ length xs
length-set-set [] i v w = refl
length-set-set (x ∷ xs) zero v w = refl
length-set-set (x ∷ xs) (suc i) v w = ap suc (length-set-set xs i v w)

-- A hazard pointer that was set is cleared again.
pub Quiet-cleared :
    (m : Lfq) (tid : ℕ) (g : Ptr → Option LfqNode) (hd : Ptr) (tids : List ℕ)
    → Quiet m
    → g m.fph ≡ m.heap m.fph
    → Quiet (record m {
      heap = g;
      head = hd;
      hp = set (set m.hp tid m.head) tid 0;
      tid_map = tids;
      is_freeing = 0;
    })
Quiet-cleared m tid g hd tids q same = record {
  no_hazard = AllZero-set-set m.hp tid m.head q.no_hazard;
  hp_size = omega (arith, length-set-set m.hp tid m.head 0, q.hp_size);
  idle = refl;
  pool_content = q.pool_content;
  pool_free = q.pool_free;
  pool = record { ne_null = q.pool.ne_null; at = same ∙ q.pool.at };
  pool_one = q.pool_one;
}

pub set_hp-ok :
    (m : Lfq) (tid : ℕ) (p : Ptr)
    → tid < length m.hp
    → set_hp tid p m ≡ ok tt (record m { hp = set m.hp tid p })
unfolding set_hp
set_hp-ok m tid p h = let (x, e) = get_elem?_total m.hp tid h in rw (e, set_hp)

pub set_tid-ok :
    (m : Lfq) (tid v : ℕ)
    → tid < length m.tid_map
    → set_tid tid v m ≡ ok tt (record m { tid_map = set m.tid_map tid v })
unfolding set_tid
set_tid-ok m tid v h = let (x, e) = get_elem?_total m.tid_map tid h in rw (e, set_tid)

pub length-set_lt : (xs : List ℕ) (i v : ℕ) → i < length xs → i < length (set xs i v)
length-set_lt xs i v h = omega (arith, length-set xs i v)

-- The loop of `lfq_dequeue_tid` succeeds in its first round: no other thread moves the head.
module _ (m : Lfq) (tid k : ℕ) (room : tid < length m.hp) where
  dequeue_loop-some :
      (n : LfqNode)
      → Holds m m.head n
      → n.next ≢ 0
      → dequeue_loop (suc k) tid m
        ≡ ok (some (m.head, n.next)) (record m { hp = set m.hp tid m.head; head = n.next })
  unfolding dequeue_loop dequeue_round
  dequeue_loop-some n e ne =
      let seen = record m { hp = set m.hp tid m.head } in
      let e' : Holds seen m.head n = record { ne_null = e.ne_null; at = e.at } in
      let same : (m.head == m.head) ≡ true = ground arith in
      let more : (n.next == 0) ≡ false = ground arith in
      rw (set_hp-ok m tid m.head room, same, load-ok e', more, same)

  pub dequeue_loop-none :
      (n : LfqNode)
      → Holds m m.head n
      → n.next ≡ 0
      → dequeue_loop (suc k) tid m ≡ ok none (record m { hp = set (set m.hp tid m.head) tid 0 })
  unfolding dequeue_loop dequeue_round
  dequeue_loop-none n e z =
      let seen = record m { hp = set m.hp tid m.head } in
      let e' : Holds seen m.head n = record { ne_null = e.ne_null; at = e.at } in
      let same : (m.head == m.head) ≡ true = ground arith in
      let last : (n.next == 0) ≡ true = ground arith in
      rw (
        set_hp-ok m tid m.head room,
        same,
        load-ok e',
        last,
        set_hp-ok seen tid 0 (length-set_lt m.hp tid m.head room),
      )

-- The memory after a call of `lfq_dequeue_tid` that took the node at `q`, behind the dummy `n`.
abbrev pub taken : Lfq → (tid q v r : ℕ) → LfqNode → Lfq
taken m tid q v r n = record m {
  hp = set (set m.hp tid m.head) tid 0;
  head = q;
  is_freeing = 0;
  heap =
      write
        (write (write m.heap q (some (node v r 1))) m.head (some (record n { next = minus_one })))
        m.head none;
}

module _ (m : Lfq) (tid k q v r d c : ℕ) where
  pub lfq_dequeue_tid-taken :
      tid < length m.hp
      → Quiet m
      → Holds m m.head (node d q c)
      → Holds m q (node v r 0)
      → c ≢ 0
      → m.head ≢ q
      → m.head ≢ m.fph
      → m.fph ≢ q
      → lfq_dequeue_tid (suc k) tid m ≡ ok v (taken m tid q v r (node d q c))
  unfolding lfq_dequeue_tid take_content write
  lfq_dequeue_tid-taken room quiet e f used apart out out' =
      let seen = record m { hp = set m.hp tid m.head; head = q } in
      let clear = record seen { hp = set (set m.hp tid m.head) tid 0 } in
      let marked = record clear { heap = write m.heap q (some (node v r 1)) } in
      let quiet' : Quiet marked = record {
        no_hazard = AllZero-set-set m.hp tid m.head quiet.no_hazard;
        hp_size = omega (arith, length-set-set m.hp tid m.head 0, quiet.hp_size);
        idle = quiet.idle;
        pool_content = quiet.pool_content;
        pool_free = quiet.pool_free;
        pool = record { ne_null = quiet.pool.ne_null; at = ground (arith, quiet.pool.at) };
        pool_one = quiet.pool_one;
      } in
      let e' : Holds marked m.head (node d q c) = record {
        ne_null = e.ne_null;
        at = ground (arith, e.at);
      } in
      let f' : Holds clear q (node v r 0) = record { ne_null = f.ne_null; at = f.at } in
      rw (
        dequeue_loop-some m tid k room (node d q c) e f.ne_null,
        set_hp-ok seen tid 0 (length-set_lt m.hp tid m.head room),
        load-ok f',
        set_can_free-ok f',
        safe_free-freed marked m.head (node d q c) quiet' e' used out,
      )
