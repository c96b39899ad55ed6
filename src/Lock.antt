-- ===== src/Lock.antt =====
-- src/kernel/lock.hpp: a spin lock on one byte.
mod Cores
use toystar.Prelude.{Bool, true, false, if◌then◌else◌}
use toystar.Prelude.Outcome.{Outcome, done, hang}

-- `lock_t`; `true` is held.
abbrev pub LockT : Type 0
LockT = Bool

-- `__atomic_test_and_set`: the old value, and the lock set.
unfoldable pub test_and_set : LockT → Bool × LockT
test_and_set lock = (lock, true)

-- `acquire` on one core. A lock that is held stays held while it spins: no other core is modelled.
unfoldable pub acquire : LockT → Outcome LockT
unfolding test_and_set
acquire lock = let (old, lock') = test_and_set lock in if old then hang else done lock'

unfoldable pub release : LockT → LockT
release lock = false
