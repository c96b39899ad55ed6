-- ===== src/Drivers/Keyboard/Press.antt =====
-- One interrupt of the keyboard, for src/kernel/drivers/keyboard.cpp.
use toystar.Prelude.{
  ℕ, zero, suc, ◌+◌, ◌-◌, ◌%◌, ◌≤◌, ◌<◌, ◌≡◌, ◌≢◌, refl, Bool, true, false, not, Option, none, some,
  List, [], ◌∷◌, ◌==◌, leb, if◌then◌else◌, length, get_elem?, arith, Bool-cases, inl, inr,
}
use toystar.Prelude.Outcome.{done, fault}
use toystar.Drivers.Keyboard.{
  Modifiers, Effect, print_char, eoi, is_shift, caps_key, max_scancode, table, isr_keyboard,
}

abbrev pub count_eoi : List Effect → ℕ
count_eoi [] = 0
count_eoi (eoi ∷ es) = suc (count_eoi es)
count_eoi (print_char c ∷ es) = count_eoi es

-- How often the caps lock key is pressed.
abbrev pub caps_presses : List ℕ → ℕ
caps_presses [] = 0
caps_presses (key ∷ keys) = (if key == caps_key then 1 else 0) + caps_presses keys

-- The last press or release of a shift key: `true` for a press.
abbrev pub last_shift : List ℕ → Option Bool
last_shift [] = none
last_shift (key ∷ keys) = elim (last_shift keys) [
  | some b ↦ some b
  | none ↦
      if is_shift key then some true else if is_shift ((key + 128) % 256) then some false else none
]

abbrev pub after : Bool → Option Bool → Bool
after old none = old
after old (some b) = b

abbrev pub flipped : Bool → ℕ → Bool
flipped b n = if n % 2 == 0 then b else not b

-- The size of the table that the modifiers choose.
abbrev pub table_size : Modifiers → ℕ
table_size state = if state.shift then 54 else 58

length-table : (state : Modifiers) → length (table state) ≡ table_size state
length-table state = elim (Bool-cases state.shift) [
  | inl s ↦ elim (Bool-cases state.caps) [ inl c ↦ rw (s, c) | inr c ↦ rw (s, c) ]
  | inr s ↦ elim (Bool-cases state.caps) [ inl c ↦ rw (s, c) | inr c ↦ rw (s, c) ]
]

get_elem?-out : {A : Type 0} (xs : List A) (i : ℕ) → length xs ≤ i → get_elem? xs i ≡ none
get_elem?-out [] i h = refl
get_elem?-out (x ∷ xs) zero h = absurd (omega arith)
get_elem?-out (x ∷ xs) (suc i) h = get_elem?-out xs i (omega arith)

get_elem?-in :
    {A : Type 0} (xs : List A) (i : ℕ) → i < length xs → (x : A) × (get_elem? xs i ≡ some x)
get_elem?-in [] i h = absurd (omega arith)
get_elem?-in (x ∷ xs) zero h = (x, refl)
get_elem?-in (x ∷ xs) (suc i) h = get_elem?-in xs i (omega arith)

-- A printing key whose number lies behind the table of the current modifiers.
abbrev pub IsBehind : Modifiers → ℕ → Type 0
IsBehind state key =
    (table_size state ≤ key) × (key < max_scancode) × (is_shift key ≡ false) × (key ≢ caps_key)

-- For a key behind the table of the current modifiers, the function keys and, with shift, the
-- space bar among them, the handler reads outside the table.
pub isr_keyboard-IsBehind :
    (state : Modifiers) (key : ℕ) → IsBehind state key → isr_keyboard state key ≡ fault
unfolding isr_keyboard
isr_keyboard-IsBehind state key h =
    let low : leb max_scancode key ≡ false = ground arith in
    let other : (key == caps_key) ≡ false = ground arith in
    let e = get_elem?-out (table state) key (omega (arith, length-table state)) in
    rw (low, h.2, other, e)

-- One interrupt: the new modifiers, one end of interrupt.
pub record Handled (state : Modifiers) (key : ℕ) (state' : Modifiers) (es : List Effect)
    : Type 0 where
  pub ends : isr_keyboard state key ≡ done (state', es)
  pub acknowledged : count_eoi es ≡ 1
  pub capital : state'.caps ≡ flipped state.caps (caps_presses (key ∷ []))
  pub shifted : state'.shift ≡ after state.shift (last_shift (key ∷ []))

-- The tests of the handler in the order in which it makes them.
data Kind (state : Modifiers) (key : ℕ) : Type 0 where
  release : leb max_scancode key ≡ true → Kind state key
  press_shift : leb max_scancode key ≡ false → is_shift key ≡ true → Kind state key
  press_caps :
      leb max_scancode key ≡ false
      → is_shift key ≡ false
      → (key == caps_key) ≡ true
      → Kind state key
  print :
      leb max_scancode key ≡ false
      → is_shift key ≡ false
      → (key == caps_key) ≡ false
      → Kind state key

kind : (state : Modifiers) (key : ℕ) → Kind state key
kind state key = elim (Bool-cases (leb max_scancode key)) [
  | inl r ↦ release r
  | inr r ↦ elim (Bool-cases (is_shift key)) [
    | inl s ↦ press_shift r s
    | inr s ↦ elim (Bool-cases (key == caps_key)) [ inl c ↦ press_caps r s c | inr c ↦ print r s c ]
  ]
]

inside :
    (state : Modifiers) (key : ℕ)
    → ¬ (IsBehind state key)
    → leb max_scancode key ≡ false
    → is_shift key ≡ false
    → (key == caps_key) ≡ false
    → key < table_size state
inside state key h r s c = elim (Bool-cases (leb (table_size state) key)) [
  | inl b ↦ absurd (h (ground arith, ground arith, s, ground arith))
  | inr b ↦ ground arith
]

-- A key that is not behind the table of the current modifiers is handled.
pub step :
    (state : Modifiers) (key : ℕ)
    → key < 256
    → ¬ (IsBehind state key)
    → (state' : Modifiers) × (es : List Effect) × Handled state key state' es
unfolding isr_keyboard
step state key byte h = elim (kind state key) [
  | release r ↦
      let same : key + 256 - 128 ≡ key + 128 = omega arith in
      let c : (key == caps_key) ≡ false = ground arith in
      let s : is_shift key ≡ false = ground arith in
      elim (Bool-cases (is_shift ((key + 128) % 256))) [
        | inl b ↦ (
          record state { shift = false },
          eoi ∷ [],
          record {
            ends = rw (r, same, b);
            acknowledged = refl;
            capital = rw c;
            shifted = rw (s, b);
          },
        )
        | inr b ↦ (
          state,
          eoi ∷ [],
          record {
            ends = rw (r, same, b);
            acknowledged = refl;
            capital = rw c;
            shifted = rw (s, b);
          },
        )
      ]
  | press_shift r s ↦
      let c : (key == caps_key) ≡ false = ground arith in
      (
        record state { shift = true },
        eoi ∷ [],
        record { ends = rw (r, s); acknowledged = refl; capital = rw c; shifted = rw s },
      )
  | press_caps r s c ↦
      let b : is_shift ((key + 128) % 256) ≡ false = ground arith in
      (
        record state { caps = not state.caps },
        eoi ∷ [],
        record { ends = rw (r, s, c); acknowledged = refl; capital = rw c; shifted = rw (s, b) },
      )
  | print r s c ↦
      let b : is_shift ((key + 128) % 256) ≡ false = ground arith in
      let (x, e) =
        get_elem?-in (table state) key
          (omega (arith, length-table state, inside state key h r s c)) in
      (
        state,
        print_char x ∷ eoi ∷ [],
        record { ends = rw (r, s, c, e); acknowledged = refl; capital = rw c; shifted = rw (s, b) },
      )
]
