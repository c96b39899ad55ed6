-- ===== src/Prelude/Outcome.antt =====
-- How a call of kernel code ends.

-- `hang` is a loop that never ends, `panic` a call of `panic`, and `fault` an access through a
-- pointer that stands for no object, or arithmetic that C leaves undefined.
pub data Outcome {ℓ} (A : Type ℓ) : Type ℓ where
  done : A → Outcome A
  hang : Outcome A
  panic : Outcome A
  fault : Outcome A

infixl 5 ◌>>=◌
abbrev pub ◌>>=◌ {ℓ κ} : {A : Type ℓ} {B : Type κ} → Outcome A → (A → Outcome B) → Outcome B
done a >>= f = f a
hang >>= f = hang
panic >>= f = panic
fault >>= f = fault
