-- ===== src/Lfq/Stuck.antt =====
-- lfq_clean of a queue with elements: the node of an element is never marked can_free, so it stays
-- in the pool.
use mixsim.Prelude.{
  ℕ, suc, ◌≤◌, ◌≡◌, ◌≢◌, refl, sym, ap, ◌∙◌, true, false, some, [], ◌∷◌, arith, ◌==◌, inl, inr,
  Bool-cases, negsuc, length,
}
use mixsim.LfqMem.{Ptr, LfqNode, node, Lfq, ok, write}
use mixsim.LfqMem.Rules.{Holds, load-ok}
use mixsim.LfqMem.Chain.{Cells, Chain, member, Chain-frame, Chain-tail}
use mixsim.LfqPool.{safe_free}
use mixsim.LfqPool.Quiet.{AllZero, freed, safe_free-freed}
use mixsim.Lfq.{clean_loop, clean_pool, lfq_clean}
use mixsim.Lfq.Queue.{IsQueue}
use mixsim.LfqPool.Stuck.{IsStuck, free_pool_stays, safe_free-stuck, safe_free-first}

-- The head of the queue is not what `IsStuck` speaks of.
moved : (m : Lfq) (q : Ptr) → IsStuck m → IsStuck (record m { head = q })
moved m q s = record {
  head_content = s.head_content;
  head_next = s.head_next;
  pool = record { ne_null = s.pool.ne_null; at = s.pool.at };
  last = s.last;
  at_last = record { ne_null = s.at_last.ne_null; at = s.at_last.at };
  idle = s.idle;
}

-- The rounds of the loop over the nodes from a head on, and some to spare.
abbrev pub rounds_of : Cells → ℕ → ℕ
rounds_of [] k = suc (suc k)
rounds_of (x ∷ xs) k = suc (rounds_of xs k)

-- One round of the loop of lfq_clean.
clean_round :
    (m m1 : Lfq) (n : LfqNode) (k : ℕ)
    → Holds m m.head n
    → safe_free m.head m ≡ ok tt m1
    → clean_loop (suc k) m ≡ clean_loop k (record m1 { head = n.next })
unfolding clean_loop
clean_round m m1 n k e run =
    let some_ : (m.head == 0) ≡ false = let ne = e.ne_null in ground arith in
    rw (some_, load-ok e, run) refl

clean_end : (m : Lfq) (k : ℕ) → m.head ≡ 0 → clean_loop (suc k) m ≡ ok tt m
unfolding clean_loop
clean_end m k e = let null : (m.head == 0) ≡ true = ground arith in rw null refl

-- The rest of the loop of lfq_clean.
clean_loop-stuck :
    (m : Lfq) (k v : ℕ) (xs : Cells) (tl : Ptr)
    → Chain m.heap m.head v 0 xs tl
    → IsStuck m
    → member m.fpt m.head xs ≡ false
    → member m.fph m.head xs ≡ false
    → (m' : Lfq) × (clean_loop (rounds_of xs k) m ≡ ok tt m') × IsStuck m' × (m'.fph ≢ m'.fpt)
clean_loop-stuck m k v [] tl (ne, at, e) s out out' =
    let holds : Holds m m.head (node v 0 0) = record { ne_null = ne; at = at } in
    let (m1, run, s1, same, last, frame) =
      safe_free-stuck m m.head v 0 s holds (ground (arith, out)) (ground (arith, out')) in
    let end_ = record m1 { head = 0 } in
    (
      end_,
      clean_round m m1 (node v 0 0) (suc k) holds run ∙ clean_end end_ k refl,
      moved m1 0 s1,
      λ z. absurd (ground (arith, same, last, out', z)),
    )
clean_loop-stuck m k v ((q, w) ∷ xs) tl (ne, at, apart, rest) s out out' =
    let holds : Holds m m.head (node v q 0) = record { ne_null = ne; at = at } in
    let (m1, run, s1, same, last, frame) =
      safe_free-stuck m m.head v q s holds (ground (arith, out)) (ground (arith, out')) in
    let (m2, run', s2, two) =
      clean_loop-stuck (record m1 { head = q }) k w xs tl
        (Chain-frame m.heap q w 0 xs tl rest
          (λ a i. frame a (ground (arith, i, apart)) (ground (arith, i, out))))
        (moved m1 q s1) (ap (λ a. member a q xs) last ∙ apart)
        (ap (λ a. member a q xs) same ∙ ground (arith, out')) in
    (m2, clean_round m m1 (node v q 0) (rounds_of xs k) holds run ∙ run', s2, two)

-- The loop of lfq_clean from the first element on, behind which there is another.
clean_loop-first :
    (m : Lfq) (k v d f r w : ℕ) (xs : Cells) (tl : Ptr)
    → Chain m.heap m.head v 0 ((r, w) ∷ xs) tl
    → Holds m m.fph (node d 0 f)
    → m.fpt ≡ m.fph
    → m.is_freeing ≡ 0
    → AllZero m.hp
    → m.max_hp_size ≤ length m.hp
    → member m.fph m.head ((r, w) ∷ xs) ≡ false
    → (m' : Lfq) × (clean_loop (rounds_of ((r, w) ∷ xs) k) m ≡ ok tt m')
      × IsStuck m'
      × (m'.fph ≢ m'.fpt)
clean_loop-first m k v d f r w xs tl chain pool one idle hp size out = elim (Bool-cases (f == 0)) [
  | inl free_ ↦
      let zero_ : f ≡ 0 = ground arith in
      let pool' : Holds m m.fph (node d 0 0) = record {
        ne_null = pool.ne_null;
        at = pool.at ∙ ap (λ c. some (node d 0 c)) zero_;
      } in
      clean_loop-stuck m k v ((r, w) ∷ xs) tl chain
        (record {
          head_content = d;
          head_next = 0;
          pool = pool';
          last = node d 0 0;
          at_last = record {
            ne_null = λ z. pool.ne_null (sym one ∙ z);
            at = ap m.heap one ∙ pool'.at;
          };
          idle = idle;
        })
        (ap (λ a. member a m.head ((r, w) ∷ xs)) one ∙ out) out
  | inr used ↦
      let (ne, at, apart, rest) = chain in
      let holds : Holds m m.head (node v r 0) = record { ne_null = ne; at = at } in
      let (m1, run, s1, same, last, frame) =
        safe_free-first m m.head v r d f pool one (ground arith) idle hp size holds
          (ground (arith, out)) in
      let (m2, run', s2, two) =
        clean_loop-stuck (record m1 { head = r }) k w xs tl
          (Chain-frame m.heap r w 0 xs tl rest
            (λ a i. frame a (ground (arith, i, apart)) (ground (arith, i, out))))
          (moved m1 r s1) (ap (λ a. member a r xs) last ∙ apart)
          (ap (λ a. member a r xs) same ∙ apart) in
      (m2, clean_round m m1 (node v r 0) (rounds_of xs k) holds run ∙ run', s2, two)
]

-- The pool of more than one node.
clean_pool-stuck :
    (m : Lfq) (k : ℕ)
    → IsStuck m
    → m.fph ≢ m.fpt
    → clean_pool (suc k) m ≡ ok false (record m { is_freeing = 0 })
unfolding clean_pool
clean_pool-stuck m k s two =
    let other : (m.fph == m.fpt) ≡ false = ground arith in
    rw (free_pool_stays m k _ true s.idle s.pool refl, other) refl

-- The tail is not what `IsStuck` speaks of.
untailed : (m : Lfq) → IsStuck m → IsStuck (record m { tail = 0 })
untailed m s = record {
  head_content = s.head_content;
  head_next = s.head_next;
  pool = record { ne_null = s.pool.ne_null; at = s.pool.at };
  last = s.last;
  at_last = record { ne_null = s.at_last.ne_null; at = s.at_last.at };
  idle = s.idle;
}

-- lfq_clean behind its loop.
lfq_clean-stuck :
    (m m' : Lfq) (n : ℕ)
    → m.tail ≢ 0
    → m.head ≢ 0
    → clean_loop (suc n) m ≡ ok tt m'
    → IsStuck m'
    → m'.fph ≢ m'.fpt
    → lfq_clean (suc n) m ≡ ok (negsuc 0) (record m' { tail = 0; is_freeing = 0 })
unfolding lfq_clean
lfq_clean-stuck m m' n tail_ head_ run s two =
    let a : (m.tail == 0) ≡ false = ground arith in
    let b : (m.head == 0) ≡ false = ground arith in
    let c : (m'.fph == 0) ≡ false = let ne = s.pool.ne_null in ground arith in
    let d : (m'.fpt == 0) ≡ false = let ne = s.at_last.ne_null in ground arith in
    rw (a, b, run, c, d, clean_pool-stuck (record m' { tail = 0 }) n (untailed m' s) two) refl

-- On a queue with two elements or more that no call is using, lfq_clean, whose loops may run one
-- round more than the queue has nodes, returns -1, and leaves two nodes allocated, to which the
-- head and the tail of the pool point.
pub lfq_clean-cons :
    (m : Lfq) (k q v r w : ℕ) (xs : Cells)
    → IsQueue m ((q, v) ∷ (r, w) ∷ xs)
    → (m' : Lfq) × (lfq_clean (rounds_of ((q, v) ∷ (r, w) ∷ xs) k) m ≡ ok (negsuc 0) m')
      × (m'.fph ≢ m'.fpt)
      × ((a : LfqNode) × (m'.heap m'.fph ≡ some a))
      × ((b : LfqNode) × (m'.heap m'.fpt ≡ some b))
unfolding write
lfq_clean-cons m k q v r w xs is =
    let (ne, at, apart, rest) = is.chain in
    let quiet = is.quiet in
    let out = is.pool_out in
    let dummy : LfqNode = node is.dummy q is.used in
    let holds : Holds m m.head dummy = record { ne_null = ne; at = at } in
    let not_pool : m.head ≢ m.fph = ground (arith, out) in
    let out' : member m.fph q ((r, w) ∷ xs) ≡ false = ground (arith, out) in
    let m1 = record (freed m m.head dummy) { head = q } in
    let (m2, run, s, two) =
      clean_loop-first m1 k v quiet.pool_content quiet.pool_free r w xs m.tail
        (Chain-frame m.heap q v 0 ((r, w) ∷ xs) m.tail rest (λ a i. ground (arith, i, apart)))
        (record {
          ne_null = quiet.pool.ne_null;
          at = (let h = quiet.pool.at in ground (arith, h, not_pool));
        })
        quiet.pool_one refl quiet.no_hazard quiet.hp_size out' in
    let first =
      clean_round m (freed m m.head dummy) dummy (rounds_of ((r, w) ∷ xs) k) holds
        (safe_free-freed m m.head dummy quiet holds is.consumed not_pool) in
    (
      record m2 { tail = 0; is_freeing = 0 },
      lfq_clean-stuck m m2 (rounds_of ((r, w) ∷ xs) k)
          (Chain-tail m.heap m.head is.dummy is.used ((q, v) ∷ (r, w) ∷ xs) m.tail is.chain).0 ne
          (first ∙ run) s two,
      two,
      (node s.head_content s.head_next 0, s.pool.at),
      (s.last, s.at_last.at),
    )
