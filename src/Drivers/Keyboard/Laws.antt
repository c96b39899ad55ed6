-- ===== src/Drivers/Keyboard/Laws.antt =====
-- What a sequence of key events does, for src/kernel/drivers/keyboard.cpp.
use toystar.Prelude.{
  ℕ, ◌+◌, ◌≤◌, ◌<◌, ◌≡◌, refl, ◌∙◌, ap, Bool, true, false, ◌⊎◌, List, [], ◌∷◌, ◌++◌, length, arith,
  Option-cases, inl, inr,
}
use toystar.Prelude.Outcome.{Outcome, done, ◌>>=◌}
use toystar.Drivers.Keyboard.{
  Modifiers, Effect, print_char, eoi, caps_key, max_scancode, isr_keyboard, rshift,
}
use toystar.Drivers.Keyboard.Press.{
  count_eoi, caps_presses, last_shift, after, flipped, IsBehind, step,
}

-- The handler for each of the keys, in order.
abbrev pub run : Modifiers → List ℕ → Outcome (Modifiers × List Effect)
run state [] = done (state, [])
run state (key ∷ keys) =
    isr_keyboard state key >>= λ r. run r.0 keys >>= λ rest. done (rest.0, r.1 ++ rest.1)

-- Keys that every table has, the keys of the modifiers, and releases.
abbrev pub AreCovered : List ℕ → Type 0
AreCovered [] = Unit {0}
AreCovered (key ∷ keys) =
    (key < 256) × ((key ≤ rshift) ⊎ (key ≡ caps_key) ⊎ (max_scancode ≤ key)) × AreCovered keys

covered :
    (state : Modifiers) (key : ℕ)
    → (key ≤ rshift) ⊎ (key ≡ caps_key) ⊎ (max_scancode ≤ key)
    → ¬ (IsBehind state key)
covered state key h b = ground arith

count_eoi-append : (xs ys : List Effect) → count_eoi (xs ++ ys) ≡ count_eoi xs + count_eoi ys
count_eoi-append [] ys = omega arith
count_eoi-append (eoi ∷ xs) ys = omega (arith, count_eoi-append xs ys)
count_eoi-append (print_char c ∷ xs) ys = count_eoi-append xs ys

flipped-add : (b : Bool) (m n : ℕ) → flipped (flipped b m) n ≡ flipped b (m + n)
flipped-add true m n = ground arith
flipped-add false m n = ground arith

caps-next :
    (b : Bool) (key : ℕ) (keys : List ℕ)
    → flipped (flipped b (caps_presses (key ∷ []))) (caps_presses keys)
      ≡ flipped b (caps_presses (key ∷ keys))
caps-next b key keys =
    flipped-add b (caps_presses (key ∷ [])) (caps_presses keys) ∙ ap (flipped b) (omega arith)

after-last :
    (old : Bool) (key : ℕ) (keys : List ℕ)
    → after (after old (last_shift (key ∷ []))) (last_shift keys)
      ≡ after old (last_shift (key ∷ keys))
after-last old key keys = elim (Option-cases (last_shift keys)) [ inl e ↦ rw e | inr (b, e) ↦ rw e ]

-- What a sequence of keys leaves behind.
pub record Typed (state : Modifiers) (keys : List ℕ) (state' : Modifiers) (es : List Effect)
    : Type 0 where
  pub ends : run state keys ≡ done (state', es)
  pub acknowledged : count_eoi es ≡ length keys
  pub capital : state'.caps ≡ flipped state.caps (caps_presses keys)
  pub shifted : state'.shift ≡ after state.shift (last_shift keys)

-- For any sequence of key events that the tables cover, every interrupt is handled and acknowledged
-- once, caps lock is flipped as often as its key was pressed, and shift is on exactly if the last
-- event of a shift key was a press.
pub run-Typed :
    (keys : List ℕ) (state : Modifiers)
    → AreCovered keys
    → (state' : Modifiers) × (es : List Effect) × Typed state keys state' es
run-Typed [] state h =
    (state, [], record { ends = refl; acknowledged = refl; capital = refl; shifted = refl })
run-Typed (key ∷ keys) state (byte, c, h) =
    let (mid, es, one) = step state key byte (covered state key c) in
    let (last, fs, more) = run-Typed keys mid h in
    (
      last,
      es ++ fs,
      record {
        ends = rw (one.ends, more.ends);
        acknowledged = omega (arith, count_eoi-append es fs, one.acknowledged, more.acknowledged);
        capital = more.capital ∙ rw one.capital (caps-next state.caps key keys);
        shifted = more.shifted ∙ rw one.shifted (after-last state.shift key keys);
      },
    )
