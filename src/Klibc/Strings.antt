-- ===== src/Klibc/Strings.antt =====
-- src/klibc/strings.cpp: C strings. A string is the list of its characters up to the terminator, so
-- a read at its end finds 0. `itoa` stands in Itoa.
pub mod Compare
pub mod Numbers
mod Tests
use toystar.Prelude.{
  ℕ, zero, suc, ◌+◌, ◌-◌, ◌*◌, ◌%◌, Bool, true, false, List, [], ◌∷◌, ◌==◌, ltb, not, if◌then◌else◌,
}
use toystar.Prelude.Word.{u64_mod}

abbrev pub CString : Type 0
CString = List ℕ

-- `str[i]`
abbrev pub char_at : CString → ℕ → ℕ
char_at [] i = 0
char_at (c ∷ s) zero = c
char_at (c ∷ s) (suc i) = char_at s i

-- `while (str[i++]); return i - 1`
unfoldable pub strlen : CString → ℕ
strlen [] = 0
strlen (c ∷ s) = if c == 0 then 0 else suc (strlen s)

-- The loop of `strncmp` and `strcmp`, from index `i`, with `n` rounds left.
unfoldable pub same_from : ℕ → ℕ → CString → CString → Bool
same_from zero i msg1 msg2 = true
same_from (suc n) i msg1 msg2 =
    let rest = same_from n (i + 1) msg1 msg2 in
    if not (char_at msg1 i == char_at msg2 i) then false else rest

-- It returns `true` where C's `strncmp` returns 0.
unfoldable pub strncmp : CString → CString → ℕ → Bool
unfolding same_from
strncmp msg1 msg2 len = same_from len 0 msg1 msg2

unfoldable pub strcmp : CString → CString → Bool
unfolding strlen same_from
strcmp msg1 msg2 =
    if not (strlen msg1 == strlen msg2) then false else same_from (strlen msg1) 0 msg1 msg2

-- A `char` is signed: its value as it is added to a `size_t`.
abbrev pub char_value : ℕ → ℕ
char_value c = if ltb c 128 then c else c + u64_mod - 256

-- `while (str[i]) { num *= base; num += str[i] - '0'; i++; }`
unfoldable pub digits_from : ℕ → ℕ → CString → ℕ
digits_from base num [] = num
digits_from base num (c ∷ s) =
    let rest =
      digits_from base ((num * base % u64_mod + char_value c + u64_mod - 48) % u64_mod) s in
    if c == 0 then num else rest

unfoldable pub atoi : CString → ℕ
unfolding digits_from
atoi [] = 0
atoi (c ∷ s) =
    if c == b'-' then (u64_mod - digits_from 10 0 s) % u64_mod else digits_from 10 0 (c ∷ s)

unfoldable pub octal_to_int : CString → ℕ
unfolding digits_from
octal_to_int str = digits_from 8 0 str
