-- ===== src/Lock/Cores.antt =====
-- src/kernel/lock.hpp on several cores that share one lock. A core tests and sets the lock in one
-- step, as the instruction is atomic; the steps of different cores come in any order.
mod Exclusion
mod Tests
use toystar.Prelude.{ℕ, ◌≡◌, Bool, true, false, if◌then◌else◌}
use toystar.Prelude.Word.{update}
use toystar.Lock.{LockT, test_and_set, release}

-- Where a core is: outside, in the loop of `acquire`, or between `acquire` and `release`.
pub data Phase : Type 0 where
  outside : Phase
  spinning : Phase
  inside : Phase

pub record Cores : Type 0 where
  pub lock : LockT
  pub phase : ℕ → Phase

abbrev pub start : Cores
start = record { lock = false; phase = λ core. outside }

-- One round of the loop of `acquire`: it ends if the lock was free.
unfoldable pub try_lock : ℕ → Cores → Cores
unfolding test_and_set
try_lock core s =
    let (old, lock') = test_and_set s.lock in
    record { lock = lock'; phase = update s.phase core (if old then spinning else inside) }

unfoldable pub leave_lock : ℕ → Cores → Cores
unfolding release
leave_lock core s = record { lock = release s.lock; phase = update s.phase core outside }

pub data Step (s : Cores) : Cores → Type 0 where
  arrive :
      (core : ℕ)
      → s.phase core ≡ outside
      → Step s (record s { phase = update s.phase core spinning })
  try : (core : ℕ) → s.phase core ≡ spinning → Step s (try_lock core s)
  leave : (core : ℕ) → s.phase core ≡ inside → Step s (leave_lock core s)

-- What any steps lead to.
pub data Reachable : Cores → Type 0 where
  begin : Reachable start
  after : {s t : Cores} → Reachable s → Step s t → Reachable t
