-- ===== src/Lock/Cores/Tests.antt =====
-- A run of two cores on the lock of src/kernel/lock.hpp, and its theorem there.
use toystar.Prelude.{ℕ, ◌≡◌, refl}
use toystar.Prelude.Word.{update}
use toystar.Lock.{test_and_set}
use toystar.Lock.Cores.{Cores, spinning, start, try_lock, arrive, try, Reachable, begin, after}
use toystar.Lock.Cores.Exclusion.{cores-exclude}

-- Cores 0 and 1 arrive.
abbrev waiting : Cores
waiting = record start { phase = update (update start.phase 0 spinning) 1 spinning }

waiting-Reachable : Reachable waiting
waiting-Reachable = after (after begin (arrive 0 refl)) (arrive 1 refl)

-- Core 1 goes inside, and core 0 tries in vain.
still : (try_lock 1 waiting).phase 0 ≡ spinning
unfolding try_lock
still = refl

contended-Reachable : Reachable (try_lock 0 (try_lock 1 waiting))
contended-Reachable = after (after waiting-Reachable (try 1 refl)) (try 0 still)

cores-exclude_example : ◌≡◌ {A = ℕ} 1 1
unfolding try_lock test_and_set
cores-exclude_example =
    cores-exclude (try_lock 0 (try_lock 1 waiting)) 1 1 contended-Reachable refl refl
