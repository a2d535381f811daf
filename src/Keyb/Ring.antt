-- ===== src/Keyb/Ring.antt =====
-- The mouse queue of j820_keyb.c as a ring: the bytes that wait in it.
use jornada.Common.{ℕ, ◌^◌, ◌<◌, ◌≡◌, List, length}
use jornada.Common.Ring.{contents, between}
use jornada.Keyb.Aux.{Queue}

module _ (k : ℕ) where
  -- How many bytes wait.
  abbrev pub waiting : Queue → ℕ
  waiting q = between k q.tail q.head

  -- The bytes that wait, the oldest first.
  abbrev pub pending : Queue → List ℕ
  pending q = contents k q.buf q.tail (waiting q)

  -- The buffer has its size, and the indices are in it.
  pub record IsValid (q : Queue) : Type 0 where
    pub sized : length q.buf ≡ 2 ^ k
    pub head_in : q.head < 2 ^ k
    pub tail_in : q.tail < 2 ^ k
