-- ===== src/Klibc/Itoa.antt =====
-- `itoa` of src/klibc/strings.cpp. The text is written into the 20 characters of `charBuffer`, which
-- all callers share; a write behind them is a fault.
pub mod Digits
pub mod Decimal
pub mod Laws
mod Tests
use toystar.Prelude.{
  ℕ, zero, suc, ◌+◌, ◌-◌, ◌/◌, ◌%◌, Bool, true, false, ◌||◌, ◌&&◌, not, Option, none, some, List,
  [], ◌∷◌, ◌==◌, ltb, leb, if◌then◌else◌, length, get_elem?, set,
}
use toystar.Prelude.Outcome.{Outcome, done, hang, fault, ◌>>=◌}
use toystar.Klibc.Strings.{CString}

-- `charBuffer[i] = c`
unfoldable pub put_char : List ℕ → ℕ → ℕ → Outcome (List ℕ)
put_char buffer i c = if ltb i (length buffer) then done (set buffer i c) else fault

unfoldable pub get_char : List ℕ → ℕ → Outcome ℕ
get_char buffer i = elim (get_elem? buffer i) [ none ↦ fault | some c ↦ done c ]

abbrev pub digit_char : ℕ → ℕ
digit_char digit = if leb digit 9 then digit + 48 else digit - 10 + 65

-- `while (number)`: the digits, the last one first, from index `i` on. The result has the index
-- behind them.
unfoldable pub write_digits : ℕ → ℕ → ℕ → ℕ → List ℕ → Outcome (ℕ × List ℕ)
unfolding put_char
write_digits zero base number i buffer = hang
write_digits (suc fuel) base number i buffer =
    let rest =
      put_char buffer i (digit_char (number % base))
      >>= write_digits fuel base (number / base) (i + 1) in
    if number == 0 then done (i, buffer) else rest

-- `while (c < end)`: it exchanges the ends.
unfoldable pub reverse_between : ℕ → ℕ → ℕ → List ℕ → Outcome (List ℕ)
unfolding get_char put_char
reverse_between zero c end buffer = hang
reverse_between (suc fuel) c end buffer =
    let rest = (do
      last ← get_char buffer c
      other ← get_char buffer end
      swapped ← put_char buffer c other
      both ← put_char swapped end last
      reverse_between fuel (c + 1) (end - 1) both) in
    if ltb c end then rest else done buffer

-- The text that is returned: the buffer up to its terminator.
abbrev pub text_of : List ℕ → CString
text_of [] = []
text_of (c ∷ cs) = if c == 0 then [] else c ∷ text_of cs

-- The end of `itoa`: the digits in their order, and the terminator behind them.
unfoldable pub finish : ℕ → ℕ × List ℕ → Outcome (CString × List ℕ)
finish c (i, written) = do
  reversed ← reverse_between 65 c (i - 1) written
  ended ← put_char reversed i 0
  done (text_of ended, ended)

-- 65 rounds are enough for the digits of a number below 2 ^ 64.
unfoldable pub itoa : ℕ → ℕ → List ℕ → Outcome (CString × List ℕ)
unfolding finish
itoa number base buffer =
    if number == 0 || not (base == 16) && not (base == 10)
    then done (48 ∷ [], buffer)
    else if base == 16
    then (do
      b ← put_char buffer 0 48
      prefixed ← put_char b 1 120
      written ← write_digits 65 base number 2 prefixed
      finish 2 written)
    else write_digits 65 base number 0 buffer >>= finish 0
