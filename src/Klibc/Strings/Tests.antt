-- ===== src/Klibc/Strings/Tests.antt =====
-- Runs of src/klibc/strings.cpp.
use toystar.Prelude.{◌-◌, ◌≡◌, refl, true, false, [], ◌∷◌}
use toystar.Prelude.Word.{u64_mod}
use toystar.Klibc.Strings.{CString, strcmp, atoi}

abbrev dev : CString
dev = 47 ∷ 100 ∷ 101 ∷ 118 ∷ []

abbrev dev_tty : CString
dev_tty = 47 ∷ 100 ∷ 101 ∷ 118 ∷ 47 ∷ 116 ∷ []

strcmp_test : (strcmp dev dev ≡ true) × (strcmp dev dev_tty ≡ false)
unfolding strcmp
strcmp_test = (refl, refl)

-- "-12" wraps around, as the result is unsigned.
atoi_test : atoi (45 ∷ 49 ∷ 50 ∷ []) ≡ u64_mod - 12
unfolding atoi
atoi_test = refl
