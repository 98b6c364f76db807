-- ===== src/LfqPool/Stuck.antt =====
-- The pool of adaptor/lfq.c once it holds a node that is never marked can_free, as the node of an
-- element.
use mixsim.Prelude.{
  ℕ, suc, ◌≤◌, ◌≡◌, ◌≢◌, refl, sym, ap, ◌∙◌, Bool, true, false, none, some, Option, arith, ◌==◌,
  inl, inr, Bool-cases, length,
}
use mixsim.LfqMem.{Ptr, LfqNode, node, Lfq, ok, write, load}
use mixsim.LfqMem.Rules.{Holds, load-ok, set_next-ok, free-ok}
use mixsim.LfqPool.{
  take_freeing, end_freeing, must_stay, pool_round, pool_loop, free_pool, enpool, safe_free,
}
use mixsim.LfqPool.Quiet.{AllZero, in_hp-false}

-- The head of the pool cannot be freed.
pub record IsStuck (m : Lfq) : Type 0 where
  pub head_content : ℕ
  pub head_next : Ptr
  pub pool : Holds m m.fph (node head_content head_next 0)
  pub last : LfqNode
  pub at_last : Holds m m.fpt last
  pub idle : m.is_freeing ≡ 0

abbrev pub flag_of : Option LfqNode → ℕ
flag_of none = 0
flag_of (some n) = n.can_free

-- The memory after `enpool`.
abbrev pub enpooled : Lfq → Ptr → (k t : LfqNode) → Lfq
enpooled m p k t = record m {
  heap = write (write m.heap p (some (record k { next = 0 }))) m.fpt (some (record t { next = p }));
  fpt = p;
}

pub enpool-ok :
    (m : Lfq) (p : Ptr) (k t : LfqNode)
    → Holds m p k
    → Holds m m.fpt t
    → m.fpt ≢ p
    → enpool p m ≡ ok tt (enpooled m p k t)
unfolding enpool write
enpool-ok m p k t e last apart =
    let g = write m.heap p (some (record k { next = 0 })) in
    let e' : Holds (record m { heap = g; fpt = p }) m.fpt t = record {
      ne_null = last.ne_null;
      at = let at = last.at in ground (arith, apart);
    } in
    rw (set_next-ok e 0, set_next-ok e' p) refl

pub free_pool_stays :
    (m : Lfq) (k : ℕ) (n : LfqNode) (all : Bool)
    → m.is_freeing ≡ 0
    → Holds m m.fph n
    → n.can_free ≡ 0
    → free_pool (suc k) all m ≡ ok tt (record m { is_freeing = 0 })
unfolding free_pool take_freeing end_freeing pool_loop pool_round must_stay load
free_pool_stays m k n all idle pool unused = ground (arith, idle, pool.at, pool.ne_null)

-- `enpool` keeps the flag of the head of the pool.
pub head_kept :
    (m : Lfq) (p : Ptr) (k t : LfqNode) (content next : ℕ)
    → Holds m m.fph (node content next 0)
    → Holds m m.fpt t
    → m.fph ≢ p
    → (n : LfqNode) × ((enpooled m p k t).heap m.fph ≡ some n) × (n.can_free ≡ 0)
unfolding write
head_kept m p k t content next pool last apart = elim (Bool-cases (m.fph == m.fpt)) [
  | inl one ↦
      let same : m.fph ≡ m.fpt = ground arith in
      (
        record t { next = p },
        rw one refl,
        ap flag_of (sym last.at ∙ ap m.heap (sym same) ∙ pool.at),
      )
  | inr two ↦ (node content next 0, (let at = pool.at in ground (arith, apart, two, at)), refl)
]

-- safe_free of the node of an element, when the head of the pool stays.
pub safe_free-stuck :
    (m : Lfq) (p v q : ℕ)
    → IsStuck m
    → Holds m p (node v q 0)
    → m.fpt ≢ p
    → m.fph ≢ p
    → (m' : Lfq) × (safe_free p m ≡ ok tt m')
      × IsStuck m'
      × (m'.fph ≡ m.fph)
      × (m'.fpt ≡ p)
      × ((a : Ptr) → a ≢ p → a ≢ m.fpt → m'.heap a ≡ m.heap a)
unfolding safe_free write
safe_free-stuck m p v q s e apart apart' =
    let k = node v q 0 in
    let m1 = enpooled m p k s.last in
    let new : m1.heap p ≡ some (node v 0 0) = ground (arith, apart) in
    let (n, at, free_) =
      head_kept m p k s.last s.head_content s.head_next s.pool s.at_last apart' in
    let kept : Holds m1 m.fph n = record { ne_null = s.pool.ne_null; at = at } in
    (
      record m1 { is_freeing = 0 },
      rw
          (
            load-ok e,
            enpool-ok m p k s.last e s.at_last apart,
            free_pool_stays m1 150 n false s.idle kept free_,
          )
          refl,
      record {
        head_content = n.content;
        head_next = n.next;
        pool = record {
          ne_null = s.pool.ne_null;
          at = at ∙ ap (λ c. some (node n.content n.next c)) free_;
        };
        last = node v 0 0;
        at_last = record { ne_null = e.ne_null; at = new };
        idle = refl;
      },
      refl,
      refl,
      λ a o o'. ground arith,
    )

-- The head of the pool is freed, and the next one stays.
abbrev pub advanced : Lfq → Ptr → Lfq
advanced m b = record m { is_freeing = 0; fph = b; heap = write m.heap m.fph none }

pub free_pool-advanced :
    (m : Lfq) (j d f b : ℕ) (k : LfqNode)
    → m.is_freeing ≡ 0
    → Holds m m.fph (node d b f)
    → f ≢ 0
    → Holds m b k
    → k.can_free ≡ 0
    → b ≢ m.fph
    → AllZero m.hp
    → m.max_hp_size ≤ length m.hp
    → free_pool (suc (suc j)) false m ≡ ok tt (advanced m b)
unfolding free_pool take_freeing end_freeing pool_loop pool_round must_stay write
free_pool-advanced m j d f b k idle pool used next unused apart hp size =
    let taken = record m { is_freeing = 1 } in
    let moved_ = record taken { fph = b } in
    let gone = record moved_ { heap = write m.heap m.fph none } in
    let e1 : Holds taken m.fph (node d b f) = record { ne_null = pool.ne_null; at = pool.at } in
    let e2 : Holds moved_ m.fph (node d b f) = record { ne_null = pool.ne_null; at = pool.at } in
    let e3 : Holds gone b k = record {
      ne_null = next.ne_null;
      at = let at = next.at in ground (arith, apart);
    } in
    let one : (f == 0) ≡ false = ground arith in
    let two : (b == 0) ≡ false = let ne = next.ne_null in ground arith in
    let three : (k.can_free == 0) ≡ true = ground (arith, unused) in
    rw
      (
        idle,
        load-ok e1,
        one,
        two,
        in_hp-false taken m.fph hp size pool.ne_null,
        free-ok e2,
        load-ok e3,
        three,
      )
      refl

-- safe_free of the first element: the node that was in the pool is freed.
pub safe_free-first :
    (m : Lfq) (p v q d f : ℕ)
    → Holds m m.fph (node d 0 f)
    → m.fpt ≡ m.fph
    → f ≢ 0
    → m.is_freeing ≡ 0
    → AllZero m.hp
    → m.max_hp_size ≤ length m.hp
    → Holds m p (node v q 0)
    → p ≢ m.fph
    → (m' : Lfq) × (safe_free p m ≡ ok tt m')
      × IsStuck m'
      × (m'.fph ≡ p)
      × (m'.fpt ≡ p)
      × ((a : Ptr) → a ≢ p → a ≢ m.fph → m'.heap a ≡ m.heap a)
unfolding safe_free write
safe_free-first m p v q d f pool one used idle hp size e apart =
    let t = node d 0 f in
    let k = node v q 0 in
    let last : Holds m m.fpt t = record {
      ne_null = λ z. pool.ne_null (sym one ∙ z);
      at = ap m.heap one ∙ pool.at;
    } in
    let m1 = enpooled m p k t in
    let here : (m.fph == m.fpt) ≡ true = ground (arith, one) in
    let other : (p == m.fpt) ≡ false = ground (arith, one, apart) in
    let other' : (p == m.fph) ≡ false = ground (arith, apart) in
    let e1 : Holds m1 m.fph (node d p f) = record { ne_null = pool.ne_null; at = rw here refl } in
    let e2 : Holds m1 p (node v 0 0) = record {
      ne_null = e.ne_null;
      at = rw other (ground arith);
    } in
    let ne : m.fpt ≢ p = λ z. apart (sym z ∙ one) in
    (
      advanced m1 p,
      rw
          (
            load-ok e,
            enpool-ok m p k t e last ne,
            free_pool-advanced m1 149 d f p (node v 0 0) idle e1 used e2 refl apart hp size,
          )
          refl,
      record {
        head_content = v;
        head_next = 0;
        pool = record { ne_null = e.ne_null; at = rw other' e2.at };
        last = node v 0 0;
        at_last = record { ne_null = e.ne_null; at = rw other' e2.at };
        idle = refl;
      },
      refl,
      refl,
      λ a o o'. ground (arith, one),
    )
