-- ===== src/Drivers/Keyboard.antt =====
-- src/kernel/drivers/keyboard.cpp and keyboard.hpp: the PS/2 keyboard's interrupt handler.
pub mod Press
pub mod Laws
mod Tests
use toystar.Prelude.{
  ℕ, ◌+◌, ◌-◌, ◌%◌, Bool, true, false, ◌||◌, ◌&&◌, not, Option, none, some, List, [], ◌∷◌, ◌==◌,
  leb, if◌then◌else◌, get_elem?,
}
use toystar.Prelude.Outcome.{Outcome, done, fault, ◌>>=◌}

abbrev pub max_scancode : ℕ
max_scancode = 89

abbrev pub lshift : ℕ
lshift = 42

abbrev pub rshift : ℕ
rshift = 54

abbrev pub caps_key : ℕ
caps_key = 58

-- `State`
pub record Modifiers : Type 0 where
  pub shift : Bool
  pub caps : Bool

abbrev pub initial : Modifiers
initial = record { shift = false; caps = false }

-- The characters of each key, from key 0 on.
abbrev pub sc_normal : List ℕ
sc_normal =
    0 ∷ 0 ∷ 49 ∷ 50 ∷ 51 ∷ 52 ∷ 53 ∷ 54 ∷ 55 ∷ 56 ∷ 57 ∷ 48 ∷ 45 ∷ 61 ∷ 0 ∷ 0 ∷ 113 ∷ 119 ∷ 101
    ∷ 114 ∷ 116 ∷ 121 ∷ 117 ∷ 105 ∷ 111 ∷ 112 ∷ 91 ∷ 93 ∷ 0 ∷ 0 ∷ 97 ∷ 115 ∷ 100 ∷ 102 ∷ 103 ∷ 104
    ∷ 106 ∷ 107 ∷ 108 ∷ 59 ∷ 39 ∷ 96 ∷ 0 ∷ 92 ∷ 122 ∷ 120 ∷ 99 ∷ 118 ∷ 98 ∷ 110 ∷ 109 ∷ 44 ∷ 46 ∷ 47
    ∷ 0 ∷ 0 ∷ 0 ∷ 32 ∷ []

abbrev pub sc_caps : List ℕ
sc_caps =
    0 ∷ 0 ∷ 49 ∷ 50 ∷ 51 ∷ 52 ∷ 53 ∷ 54 ∷ 55 ∷ 56 ∷ 57 ∷ 48 ∷ 45 ∷ 61 ∷ 0 ∷ 0 ∷ 81 ∷ 87 ∷ 69 ∷ 82
    ∷ 84 ∷ 89 ∷ 85 ∷ 73 ∷ 79 ∷ 80 ∷ 91 ∷ 93 ∷ 0 ∷ 0 ∷ 65 ∷ 83 ∷ 68 ∷ 70 ∷ 71 ∷ 72 ∷ 74 ∷ 75 ∷ 76
    ∷ 59 ∷ 39 ∷ 96 ∷ 0 ∷ 92 ∷ 90 ∷ 88 ∷ 67 ∷ 86 ∷ 66 ∷ 78 ∷ 77 ∷ 44 ∷ 46 ∷ 47 ∷ 0 ∷ 0 ∷ 0 ∷ 32 ∷ []

abbrev pub sc_shift : List ℕ
sc_shift =
    0 ∷ 0 ∷ 33 ∷ 64 ∷ 35 ∷ 36 ∷ 37 ∷ 94 ∷ 38 ∷ 42 ∷ 40 ∷ 41 ∷ 95 ∷ 43 ∷ 0 ∷ 0 ∷ 81 ∷ 87 ∷ 69 ∷ 82
    ∷ 84 ∷ 89 ∷ 85 ∷ 73 ∷ 79 ∷ 80 ∷ 123 ∷ 125 ∷ 0 ∷ 0 ∷ 65 ∷ 83 ∷ 68 ∷ 70 ∷ 71 ∷ 72 ∷ 74 ∷ 75 ∷ 76
    ∷ 58 ∷ 34 ∷ 126 ∷ 0 ∷ 124 ∷ 90 ∷ 88 ∷ 67 ∷ 86 ∷ 66 ∷ 78 ∷ 77 ∷ 60 ∷ 62 ∷ 63 ∷ []

abbrev pub sc_shift_caps : List ℕ
sc_shift_caps =
    0 ∷ 0 ∷ 33 ∷ 64 ∷ 35 ∷ 36 ∷ 37 ∷ 94 ∷ 38 ∷ 42 ∷ 40 ∷ 41 ∷ 95 ∷ 43 ∷ 0 ∷ 0 ∷ 113 ∷ 119 ∷ 101
    ∷ 114 ∷ 116 ∷ 121 ∷ 117 ∷ 105 ∷ 111 ∷ 112 ∷ 123 ∷ 125 ∷ 0 ∷ 0 ∷ 97 ∷ 115 ∷ 100 ∷ 102 ∷ 103 ∷ 104
    ∷ 106 ∷ 107 ∷ 108 ∷ 58 ∷ 34 ∷ 126 ∷ 0 ∷ 124 ∷ 122 ∷ 120 ∷ 99 ∷ 118 ∷ 98 ∷ 110 ∷ 109 ∷ 60 ∷ 62
    ∷ 63 ∷ []

-- What the handler does to the devices: `print_char`, and the local APIC's end of interrupt.
pub data Effect : Type 0 where
  print_char : ℕ → Effect
  eoi : Effect

abbrev pub is_shift : ℕ → Bool
is_shift key = (key == lshift) || (key == rshift)

-- The table that the modifiers choose.
abbrev pub table : Modifiers → List ℕ
table state =
    if state.shift && state.caps
    then sc_shift_caps
    else if state.shift
    then sc_shift
    else if state.caps
    then sc_caps
    else sc_normal

-- A read behind the end of a table is a fault.
unfoldable pub isr_keyboard : Modifiers → ℕ → Outcome (Modifiers × List Effect)
isr_keyboard state key =
    if leb max_scancode key
    then done (
      if is_shift ((key + 256 - 128) % 256) then record state { shift = false } else state,
      eoi ∷ [],
    )
    else if is_shift key
    then done (record state { shift = true }, eoi ∷ [])
    else if key == caps_key
    then done (record state { caps = not state.caps }, eoi ∷ [])
    else elim (get_elem? (table state) key) [
      | none ↦ fault
      | some buffer ↦ done (state, print_char buffer ∷ eoi ∷ [])
    ]
