-- ===== src/Scheduler/Tasks/Erase.antt =====
-- The loops of `exit_process` of src/kernel/scheduler/scheduler.cpp that erase and delete.
use toystar.Prelude.{
  ℕ, zero, suc, ◌+◌, ◌≡◌, refl, sym, ◌∙◌, ap, Bool, Option, none, some, inl, inr, List, [], ◌∷◌,
  ◌++◌, ltb, length, get_elem?, Bool-cases, arith,
}
use mathlib.Core.Path.{subst}
use toystar.Prelude.Outcome.{Outcome, done, ◌>>=◌}
use toystar.Prelude.Word.{update}
use toystar.Klibc.Vector
use toystar.Klibc.Vector.{Vector, at}
use toystar.Klibc.Vector.Laws.{Holds, erase-Holds}
use toystar.Klibc.Vector.Access.{at-Holds}
use toystar.Fs.Files.{FileDescription}
use toystar.Scheduler.Links.{get_elem?-below}
use toystar.Scheduler.Tasks.{erase_where, delete_fds}

-- A list around one of its places.
split_at :
    (xs : List ℕ) (i x : ℕ)
    → get_elem? xs i ≡ some x
    → (front : List ℕ) × (rest : List ℕ) × (xs ≡ front ++ (x ∷ rest)) × (length front ≡ i)
split_at [] i x e = absurd (cc)
split_at (y ∷ xs) zero x e = let q : y ≡ x = cc in ([], xs, ap (λ z. z ∷ xs) q, refl)
split_at (y ∷ xs) (suc i) x e =
    let (front, rest, f, n) = split_at xs i x e in (y ∷ front, rest, ap (λ l. y ∷ l) f, ap suc n)

-- What is found in a list without one of its places is found in the list.
without_place :
    (front : List ℕ) (x : ℕ) (rest : List ℕ) (j y : ℕ)
    → get_elem? (front ++ rest) j ≡ some y
    → (k : ℕ) × (get_elem? (front ++ (x ∷ rest)) k ≡ some y)
without_place [] x rest j y e = (suc j, e)
without_place (z ∷ front) x rest zero y e = (zero, e)
without_place (z ∷ front) x rest (suc j) y e =
    let (k, f) = without_place front x rest j y e in (suc k, f)

-- A loop that erases ends, if its test does not fault.
pub erase_where-done :
    (past n i : ℕ) (test : ℕ → Outcome Bool) (v : Vector ℕ) (xs : List ℕ)
    → Holds v xs
    → ((j x : ℕ) → get_elem? xs j ≡ some x → (b : Bool) × (test x ≡ done b))
    → (v' : Vector ℕ) × (erase_where past n i test v ≡ done v')
unfolding erase_where
erase_where-done past zero i test v xs h tests = (v, refl)
erase_where-done past (suc n) i test v xs h tests = elim (Bool-cases (ltb i v.m_capacity)) [
  | inr b ↦ (v, rw b)
  | inl b ↦
      let (x, e) = get_elem?-below xs i (ground (arith, h.capacity)) in
      let (hit, f) = tests i x e in
      let found = at-Holds v xs i x h e in
      elim (Bool-cases hit) [
        | inr c ↦
            let (v', g) = erase_where-done past n (i + 1) test v xs h tests in
            (v', rw (b, found, f, c, g))
        | inl c ↦
            let (front, rest, s, l) = split_at xs i x e in
            let (w, o, k) = erase-Holds 0 past x v front rest (subst (Holds v) s h) in
            let (v', g) = erase_where-done past n (i + 1) test w (front ++ rest) k (λ j y z.
              let (p, q) = without_place front x rest j y z in
              tests p y (ap (λ m. get_elem? m p) s ∙ q)) in
            (
              v',
              rw (b, found, f, c)
                  (ap (λ m. Vector.erase 0 past m v >>= λ r. erase_where past n (i + 1) test r.1)
                      (sym l)
                    ∙ rw (o, g)),
            )
      ]
]

pub delete_fds-done :
    (n i : ℕ) (fds : Vector ℕ) (xs : List ℕ) (ds : ℕ → Option FileDescription)
    → Holds fds xs
    → n + i ≡ length xs
    → (ds' : ℕ → Option FileDescription) × (delete_fds n i fds ds ≡ done ds')
unfolding delete_fds
delete_fds-done zero i fds xs ds h e = (ds, refl)
delete_fds-done (suc n) i fds xs ds h e =
    let (x, f) = get_elem?-below xs i (omega arith) in
    let (ds', g) = delete_fds-done n (i + 1) fds xs (update ds x none) h (omega arith) in
    (ds', rw (at-Holds fds xs i x h f, g))
