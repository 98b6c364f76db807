-- ===== src/Fifo.antt =====
-- What the adaptor needs of its queues: a first-in first-out queue of pointers whose `dequeue`
-- returns NULL when it is empty. Lfq/Provides makes one of the queue of adaptor/lfq.c.
use mixsim.Prelude.{ℕ, ◌+◌, ◌≤◌, ◌≡◌, ◌≢◌, refl, List, [], ◌∷◌, ◌++◌, arith, ◌==◌, if◌then◌else◌}

abbrev pub first : List ℕ → ℕ
first [] = 0
first (x ∷ xs) = x

abbrev pub others : List ℕ → List ℕ
others [] = []
others (x ∷ xs) = xs

pub record Fifo : Type 1 where
  pub Queue : Type 0
  pub elems : Queue → List ℕ
  pub enqueue : Queue → ℕ → Queue
  pub dequeue : Queue → ℕ × Queue
  pub elems-enqueue : (q : Queue) (p : ℕ) → elems (enqueue q p) ≡ elems q ++ p ∷ []
  pub dequeue-first : (q : Queue) → (dequeue q).0 ≡ first (elems q)
  pub elems-dequeue : (q : Queue) → elems (dequeue q).1 ≡ others (elems q)

-- How often a pointer stands in a list.
abbrev pub is_at : ℕ → ℕ → ℕ
is_at p x = if p == x then 1 else 0

abbrev pub count : ℕ → List ℕ → ℕ
count p [] = 0
count p (x ∷ xs) = is_at p x + count p xs

pub count-append : (p : ℕ) (xs ys : List ℕ) → count p (xs ++ ys) ≡ count p xs + count p ys
count-append p [] ys = omega arith
count-append p (x ∷ xs) ys = omega (arith, count-append p xs ys)

-- Taking the first pointer, if there is one, takes one occurrence.
pub count-others :
    (p : ℕ) (xs : List ℕ) → first xs ≢ 0 → count p (others xs) + is_at p (first xs) ≡ count p xs
count-others p [] h = absurd (h refl)
count-others p (x ∷ xs) h = omega arith

pub count-others_le : (p : ℕ) (xs : List ℕ) → count p (others xs) ≤ count p xs
count-others_le p [] = omega arith
count-others_le p (x ∷ xs) = omega arith

-- The plain lists are such a queue.
abbrev pub list_fifo : Fifo
list_fifo = record {
  Queue = List ℕ;
  elems = λ q. q;
  enqueue = λ q p. q ++ p ∷ [];
  dequeue = λ q. (first q, others q);
  elems-enqueue = λ q p. refl;
  dequeue-first = λ q. refl;
  elems-dequeue = λ q. refl;
}
