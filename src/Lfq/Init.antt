-- ===== src/Lfq/Init.antt =====
-- lfq_init: an empty queue, or -errno when a node cannot be allocated.
use mixsim.Prelude.{
  ℕ, zero, suc, ◌*◌, ◌<◌, ◌≡◌, ◌≢◌, refl, Bool, true, false, some, [], arith, ◌==◌, pos, length,
  tabulate, length-tabulate,
}
use mixsim.LfqMem.{Ptr, node, Lfq, ok, write}
use mixsim.LfqPool.Quiet.{AllZero}
use mixsim.Lfq.{negative, zeroes, lfq_init}
use mixsim.Lfq.Queue.{IsQueue}

AllZero-tabulate : (n : ℕ) → AllZero (tabulate n (λ i. 0))
AllZero-tabulate zero = tt
AllZero-tabulate (suc n) = (refl, AllZero-tabulate n)

AllZero-zeroes : (n : ℕ) → AllZero (zeroes true n)
unfolding zeroes
AllZero-zeroes n = AllZero-tabulate n

length-zeroes : (n : ℕ) → length (zeroes true n) ≡ n
unfolding zeroes
length-zeroes n = length-tabulate n (λ i. 0)

-- lfq_init for at least one consumer, with memory for two nodes and the arrays, at distinct
-- addresses, returns 0, makes an empty queue and writes only to the two nodes.
pub lfq_init-IsQueue :
    (m : Lfq) (dummy pool : Ptr) (errno n : ℕ)
    → dummy ≢ 0
    → pool ≢ 0
    → dummy ≢ pool
    → 0 < n
    → (m' : Lfq) × (lfq_init dummy pool true true errno n m ≡ ok (pos 0) m')
      × IsQueue m' []
      × (m'.head ≡ dummy)
      × ((a : Ptr) → a ≢ dummy → a ≢ pool → m'.heap a ≡ m.heap a)
unfolding lfq_init write
lfq_init-IsQueue m dummy pool errno n ne ne' apart some_ =
    let one : (dummy == 0) ≡ false = ground arith in
    let two : (pool == 0) ≡ false = ground arith in
    (
      record m {
        heap =
            write (write (write m.heap dummy (some (node 0 0 0))) pool (some (node 0 0 1))) dummy
              (some (node 0 0 1));
        max_hp_size = n;
        hp = zeroes true (3 * n);
        tid_map = zeroes true (6 * n);
        is_freeing = 0;
        head = dummy;
        tail = dummy;
        fph = pool;
        fpt = pool;
      },
      rw (one, two),
      record {
        dummy = 0;
        used = 1;
        consumed = omega arith;
        chain = (ne, ground arith, refl);
        quiet = record {
          no_hazard = AllZero-zeroes (3 * n);
          hp_size = omega (arith, length-zeroes (3 * n));
          idle = refl;
          pool_content = 0;
          pool_free = 1;
          pool = record { ne_null = ne'; at = ground arith };
          pool_one = refl;
        };
        pool_out = ground arith;
        threads = some_;
        tids_free = AllZero-zeroes (6 * n);
        tids_size = omega (arith, length-zeroes (6 * n));
      },
      refl,
      λ a o o'. ground arith,
    )

-- When the second node cannot be allocated, lfq_init returns -errno and leaves the first node
-- allocated, with no pointer to it in head or tail.
pub lfq_init-leak :
    (m : Lfq) (dummy : Ptr) (hp_ok tids_ok : Bool) (errno n : ℕ)
    → dummy ≢ 0
    → (m' : Lfq) × (lfq_init dummy 0 hp_ok tids_ok errno n m ≡ ok (negative errno) m')
      × (m'.heap dummy ≡ some (node 0 0 0))
      × (m'.head ≡ m.head)
      × (m'.tail ≡ m.tail)
unfolding lfq_init write
lfq_init-leak m dummy hp_ok tids_ok errno n ne =
    let one : (dummy == 0) ≡ false = ground arith in
    (record m { heap = write m.heap dummy (some (node 0 0 0)) }, rw one, ground arith, refl, refl)
