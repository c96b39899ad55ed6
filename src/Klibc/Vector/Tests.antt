-- ===== src/Klibc/Vector/Tests.antt =====
-- Runs of src/klibc/vector.hpp.
use toystar.Prelude.{ℕ, ◌≡◌, refl, false, [], ◌∷◌}
use toystar.Prelude.Outcome.{done, panic, ◌>>=◌}
use toystar.Klibc.Vector.{Vector, vector, at, assign, push_back, pop_back}

abbrev three : Vector ℕ
three = record { m_data = 4 ∷ 5 ∷ 6 ∷ []; m_capacity = 3; m_is_empty = false }

push_back_test : (push_back 0 4 vector >>= push_back 0 5 >>= push_back 0 6) ≡ done three
unfolding push_back vector
push_back_test = refl

pop_back_test : (pop_back 0 three >>= λ v. at v 1) ≡ done 5
unfolding pop_back at
pop_back_test = refl

-- The index of an access is checked against the number of elements.
at_test : (at three 3 ≡ panic) × (assign three 3 7 ≡ panic)
unfolding at assign
at_test = (refl, refl)
