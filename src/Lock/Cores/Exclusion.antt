-- ===== src/Lock/Cores/Exclusion.antt =====
-- The lock of src/kernel/lock.hpp excludes: at most one core is between `acquire` and `release`.
use toystar.Prelude.{
  ℕ, ◌≡◌, ◌≢◌, refl, sym, ◌∙◌, ap, Bool, true, false, ◌==◌, arith, Bool-cases, inl, inr,
}
use mathlib.Core.Path.{subst}
use mathlib.Core.Bool.{true≢false}
use toystar.Prelude.Word.{update}
use toystar.Lock.{test_and_set, release}
use toystar.Lock.Cores.{
  Cores, Phase, outside, spinning, inside, start, try_lock, leave_lock, Step, arrive, try, leave,
  Reachable, begin, after,
}

abbrev is_inside : Phase → Bool
is_inside outside = false
is_inside spinning = false
is_inside inside = true

-- A core inside holds the lock, and it is the only one.
record Excludes (s : Cores) : Type 0 where
  held : (c : ℕ) → is_inside (s.phase c) ≡ true → s.lock ≡ true
  single : (c d : ℕ) → is_inside (s.phase c) ≡ true → is_inside (s.phase d) ≡ true → c ≡ d

start-Excludes : Excludes start
start-Excludes = record { held = λ c h. absurd (cc); single = λ c d h k. absurd (cc) }

-- A core that moves to a phase outside adds no core inside.
moved_outside :
    (phase : ℕ → Phase) (core c : ℕ) (p : Phase)
    → is_inside p ≡ false
    → is_inside (update phase core p c) ≡ true
    → (c ≢ core) × (is_inside (phase c) ≡ true)
moved_outside phase core c p e h = elim (Bool-cases (c == core)) [
  | inl b ↦ absurd (true≢false (sym (rw b at h) ∙ e))
  | inr b ↦ (ground arith, rw b at h)
]

-- If no core was inside, the one that moves inside is alone there.
moved_inside :
    (phase : ℕ → Phase) (core c : ℕ)
    → ((d : ℕ) → is_inside (phase d) ≡ false)
    → is_inside (update phase core inside c) ≡ true
    → c ≡ core
moved_inside phase core c none h = elim (Bool-cases (c == core)) [
  | inl b ↦ ground arith
  | inr b ↦ absurd (true≢false (sym (rw b at h) ∙ none c))
]

-- A lock that is free: no core is inside.
nobody : (s : Cores) → Excludes s → s.lock ≡ false → (d : ℕ) → is_inside (s.phase d) ≡ false
nobody s inv free d = elim (Bool-cases (is_inside (s.phase d))) [
  | inl b ↦ absurd (true≢false (sym (inv.held d b) ∙ free))
  | inr b ↦ b
]

-- A core moves outside while the lock stays as it is.
stays :
    (s : Cores) (core : ℕ) (p : Phase)
    → is_inside p ≡ false
    → Excludes s
    → Excludes (record s { phase = update s.phase core p })
stays s core p e inv = record {
  held = λ c h. inv.held c (moved_outside s.phase core c p e h).1;
  single = λ c d h k.
      inv.single c d (moved_outside s.phase core c p e h).1 (moved_outside s.phase core d p e k).1;
}

try_lock-held :
    (s : Cores) (core : ℕ)
    → s.lock ≡ true
    → try_lock core s ≡ record s { phase = update s.phase core spinning }
unfolding try_lock test_and_set
try_lock-held s core h = rw h

try_lock-free :
    (s : Cores) (core : ℕ)
    → s.lock ≡ false
    → try_lock core s ≡ record { lock = true; phase = update s.phase core inside }
unfolding try_lock test_and_set
try_lock-free s core h = rw h

try_lock-Excludes : (s : Cores) (core : ℕ) → Excludes s → Excludes (try_lock core s)
try_lock-Excludes s core inv = elim (Bool-cases s.lock) [
  | inl h ↦ subst Excludes (sym (try_lock-held s core h)) (stays s core spinning refl inv)
  | inr h ↦
      let alone = nobody s inv h in
      subst Excludes (sym (try_lock-free s core h)) (record {
        held = λ c k. refl;
        single = λ c d k l.
            moved_inside s.phase core c alone k ∙ sym (moved_inside s.phase core d alone l);
      })
]

leave_lock-Excludes :
    (s : Cores) (core : ℕ) → s.phase core ≡ inside → Excludes s → Excludes (leave_lock core s)
unfolding leave_lock release
leave_lock-Excludes s core h inv =
    let at : is_inside (s.phase core) ≡ true = ap is_inside h in
    record {
      held = λ c k.
          let (ne, was) = moved_outside s.phase core c outside refl k in
          absurd (ne (inv.single c core was at));
      single = λ c d k l.
          inv.single c d (moved_outside s.phase core c outside refl k).1
            (moved_outside s.phase core d outside refl l).1;
    }

Step-Excludes : {s t : Cores} → Excludes s → Step s t → Excludes t
Step-Excludes {s = s} inv (arrive core h) = stays s core spinning refl inv
Step-Excludes {s = s} inv (try core h) = try_lock-Excludes s core inv
Step-Excludes {s = s} inv (leave core h) = leave_lock-Excludes s core h inv

Reachable-Excludes : {s : Cores} → Reachable s → Excludes s
Reachable-Excludes begin = start-Excludes
Reachable-Excludes (after r step) = Step-Excludes (Reachable-Excludes r) step

-- However the steps of any cores are interleaved, two cores between `acquire` and `release` are
-- the same one.
pub cores-exclude :
    (s : Cores) (c d : ℕ) → Reachable s → s.phase c ≡ inside → s.phase d ≡ inside → c ≡ d
cores-exclude s c d r h k = (Reachable-Excludes r).single c d (ap is_inside h) (ap is_inside k)
