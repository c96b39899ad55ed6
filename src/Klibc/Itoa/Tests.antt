-- ===== src/Klibc/Itoa/Tests.antt =====
-- Runs of `itoa` of src/klibc/strings.cpp, and its theorem at a concrete number.
use toystar.Prelude.{ℕ, ◌≡◌, ◌^◌, ◌*◌, ◌≤◌, ◌<◌, length, refl, List, [], ◌∷◌, arith}
use toystar.Prelude.Outcome.{done, fault, ◌>>=◌}
use toystar.Klibc.Strings.{atoi}
use toystar.Klibc.Strings.Numbers.{AreDigits, value}
use Prim.Native.Nat.{max}
use toystar.Klibc.Itoa.{itoa, write_digits, reverse_between}
use toystar.Klibc.Itoa.Laws.{itoa-atoi, chars}

abbrev buffer : List ℕ
buffer = 0 ∷ 0 ∷ 0 ∷ 0 ∷ 0 ∷ 0 ∷ 0 ∷ 0 ∷ 0 ∷ 0 ∷ 0 ∷ 0 ∷ 0 ∷ 0 ∷ 0 ∷ 0 ∷ 0 ∷ 0 ∷ 0 ∷ 0 ∷ []

-- 0x2F
hexadecimal_test : (itoa 47 16 buffer >>= λ r. done (r.0)) ≡ done (48 ∷ 120 ∷ 50 ∷ 70 ∷ [])
unfolding itoa write_digits reverse_between
hexadecimal_test = refl

-- A number of 20 digits leaves no room for the terminator.
overflow_test : itoa (10 ^ 19) 10 buffer ≡ fault
unfolding itoa write_digits reverse_between
overflow_test = refl

itoa-atoi_example :
    (ds : List ℕ) × (buffer' : List ℕ) × (itoa 1024 10 buffer ≡ done (chars ds, buffer'))
    × AreDigits 10 ds
    × (value 10 ds ≡ 1024)
    × (0 < length ds)
    × (10 ^ length ds ≤ 10 * max 1024 1)
    × (atoi (chars ds) ≡ 1024)
itoa-atoi_example = itoa-atoi 1024 buffer (omega arith) refl
