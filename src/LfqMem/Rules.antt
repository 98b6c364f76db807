-- ===== src/LfqMem/Rules.antt =====
-- What each command does at an address that holds a node.
use mixsim.Prelude.{◌≡◌, ◌≢◌, none, some, arith}
use mixsim.LfqMem.{Ptr, LfqNode, Lfq, ok, write, load, set_next, set_can_free, free}

pub record Holds (m : Lfq) (p : Ptr) (n : LfqNode) : Type 0 where
  pub ne_null : p ≢ 0
  pub at : m.heap p ≡ some n

module _ {m : Lfq} {p : Ptr} {n : LfqNode} (e : Holds m p n) where
  pub load-ok : load p m ≡ ok n m
  unfolding load
  load-ok = ground (arith, e.at, e.ne_null)

  pub set_next-ok :
      (q : Ptr)
      → set_next p q m ≡ ok tt (record m { heap = write m.heap p (some (record n { next = q })) })
  unfolding set_next
  set_next-ok q = rw load-ok

  pub set_can_free-ok :
      set_can_free p m
      ≡ ok tt (record m { heap = write m.heap p (some (record n { can_free = 1 })) })
  unfolding set_can_free
  set_can_free-ok = rw load-ok

  pub free-ok : free p m ≡ ok tt (record m { heap = write m.heap p none })
  unfolding free
  free-ok = rw load-ok

pub write_self :
    (m : Lfq) (p : Ptr) (n : LfqNode)
    → p ≢ 0
    → Holds (record m { heap = write m.heap p (some n) }) p n
unfolding write
write_self m p n ne = record { ne_null = ne; at = ground arith }
