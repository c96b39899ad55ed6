-- ===== src/Drivers/Keyboard/Tests.antt =====
-- Runs of src/kernel/drivers/keyboard.cpp, and its theorems at concrete keys.
use toystar.Prelude.{ℕ, ◌≡◌, refl, true, false, inl, inr, List, [], ◌∷◌, arith}
use toystar.Prelude.Outcome.{done, fault}
use toystar.Drivers.Keyboard.{Modifiers, initial, Effect, print_char, eoi, isr_keyboard}
use toystar.Drivers.Keyboard.Press.{IsBehind, isr_keyboard-IsBehind}
use toystar.Drivers.Keyboard.Laws.{run, AreCovered, Typed, run-Typed}

abbrev shifted : Modifiers
shifted = record { shift = true; caps = false }

-- Shift down, A, shift up, A.
abbrev keys : List ℕ
keys = 42 ∷ 30 ∷ 170 ∷ 30 ∷ []

run_test :
    run initial keys ≡ done (initial, eoi ∷ print_char 65 ∷ eoi ∷ eoi ∷ print_char 97 ∷ eoi ∷ [])
unfolding isr_keyboard
run_test = refl

keys-AreCovered : AreCovered keys
keys-AreCovered = (
  omega arith,
  inl (omega arith),
  (
    omega arith,
    inl (omega arith),
    (omega arith, inr (inr (omega arith)), (omega arith, inl (omega arith), omega arith)),
  ),
)

run-Typed_example : (s : Modifiers) × (es : List Effect) × Typed initial keys s es
run-Typed_example = run-Typed keys initial keys-AreCovered

space-IsBehind : IsBehind shifted 57
space-IsBehind = (omega arith, omega arith, refl, omega arith)

-- Shift and the space bar.
isr_keyboard-IsBehind_example : isr_keyboard shifted 57 ≡ fault
isr_keyboard-IsBehind_example = isr_keyboard-IsBehind shifted 57 space-IsBehind
