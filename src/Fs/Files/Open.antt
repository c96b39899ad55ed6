-- ===== src/Fs/Files/Open.antt =====
-- The file descriptor that `syscall_open` of src/kernel/fs/files.cpp returns.
use toystar.Prelude.{
  ℕ, suc, ◌+◌, ◌-◌, ◌%◌, ◌<◌, ◌≡◌, ◌≢◌, refl, sym, ◌∙◌, ap, false, Option, none, some, ◌⊎◌, List,
  [], ◌∷◌, ◌++◌, ◌==◌, if◌then◌else◌, length, set, arith, Bool-cases, inl, inr,
}
use mathlib.Core.List.{append_assoc}
use mathlib.Core.Path.{subst}
use toystar.Prelude.Outcome.{done}
use toystar.Prelude.Word.{u64_mod, update}
use toystar.Klibc.Vector.{Vector}
use toystar.Klibc.Vector.Copy.{length-snoc}
use toystar.Klibc.Vector.Laws.{Holds, push_back-Holds}
use toystar.Klibc.Vector.Access.{at-middle, assign-Holds}
use toystar.Fs.Files.{Files, FileDescription, free_slot, place, syscall_open}

-- The lowest descriptor that is not in use.
abbrev pub lowest_free : List ℕ → ℕ
lowest_free [] = 0
lowest_free (x ∷ xs) = if x == 0 then 0 else suc (lowest_free xs)

-- The descriptors with `fd` at the lowest free place.
abbrev pub placed : ℕ → List ℕ → List ℕ
placed fd [] = fd ∷ []
placed fd (x ∷ xs) = if x == 0 then fd ∷ xs else x ∷ placed fd xs

abbrev found_at : ℕ → List ℕ → Option ℕ
found_at i [] = none
found_at i (x ∷ xs) = if x == 0 then some i else found_at (i + 1) xs

free_slot-rest :
    (v : Vector ℕ) (front rest : List ℕ)
    → Holds v (front ++ rest)
    → free_slot (length rest) (length front) v ≡ done (found_at (length front) rest)
unfolding free_slot
free_slot-rest v front [] h = refl
free_slot-rest v front (x ∷ rest) h =
    let more =
      free_slot-rest v (front ++ (x ∷ [])) rest
        (subst (Holds v) (sym (append_assoc front (x ∷ []) rest)) h) in
    let next = rw (length-snoc front x) at more in
    rw (at-middle v front x rest h, next)
      (elim (Bool-cases (x == 0)) [ inl b ↦ rw b | inr b ↦ rw b ])

free_slot-found_at :
    (v : Vector ℕ) (xs : List ℕ) → Holds v xs → free_slot v.m_capacity 0 v ≡ done (found_at 0 xs)
free_slot-found_at v xs h = ap (λ n. free_slot n 0 v) h.capacity ∙ free_slot-rest v [] xs h

-- The loop finds the lowest free place, or there is none.
found_at-lowest :
    (i fd : ℕ) (xs : List ℕ)
    → ((found_at i xs ≡ some (i + lowest_free xs))
        × (lowest_free xs < length xs)
        × (set xs (lowest_free xs) fd ≡ placed fd xs))
      ⊎ ((found_at i xs ≡ none) × (lowest_free xs ≡ length xs) × (xs ++ (fd ∷ []) ≡ placed fd xs))
found_at-lowest i fd [] = inr (refl, refl, refl)
found_at-lowest i fd (x ∷ xs) = elim (Bool-cases (x == 0)) [
  | inl b ↦ rw b (inl (ap some (omega arith), omega arith, refl))
  | inr b ↦
      let next : i + 1 + lowest_free xs ≡ i + suc (lowest_free xs) = omega arith in
      elim (found_at-lowest (i + 1) fd xs) [
        | inl (e, l, p) ↦ rw b (inl (e ∙ ap some next, omega arith, ap (λ t. x ∷ t) p))
        | inr (e, l, p) ↦ rw b (inr (e, ap suc l, ap (λ t. x ∷ t) p))
      ]
]

place-placed :
    (fd : ℕ) (v : Vector ℕ) (xs : List ℕ)
    → Holds v xs
    → length xs < u64_mod
    → (v' : Vector ℕ) × (place fd v ≡ done (lowest_free xs, v')) × Holds v' (placed fd xs)
unfolding place
place-placed fd v xs h small = elim (found_at-lowest 0 fd xs) [
  | inl (f, l, p) ↦
      let (v', a, k) = assign-Holds v xs (lowest_free xs) fd h l in
      let e : 0 + lowest_free xs ≡ lowest_free xs = omega arith in
      (v', rw (free_slot-found_at v xs h, f, e, a), subst (Holds v') p k)
  | inr (f, l, p) ↦
      let (v', a, k) = push_back-Holds 0 fd v xs h in
      let r : (v'.m_capacity + u64_mod - 1) % u64_mod ≡ lowest_free xs =
        omega (arith, k.capacity, length-snoc xs fd) in
      (v', rw (free_slot-found_at v xs h, f, a) (ap (λ n. done (n, v')) r), subst (Holds v') p k)
]

module _ {S : Type 0} where
  -- What a successful call leaves: the description at its address, its pointer at the descriptor.
  pub record Opened (st : Files S) (xs : List ℕ) (fd : ℕ) (d : FileDescription) (world : S)
      (st' : Files S) : Type 0 where
    pub table : Holds st'.fd_list (placed fd xs)
    pub described : st'.descriptions ≡ update st.descriptions fd (some d)
    pub state : st'.world ≡ world

  -- If `Vfs::open` gives a description, `syscall_open` returns the lowest descriptor that is not in
  -- use and puts the description there; the other descriptors are as they were.
  pub syscall_open-Opened :
      (opened : S → ℕ × FileDescription × S) (st : Files S) (xs : List ℕ) (fd : ℕ)
      (d : FileDescription) (world : S)
      → Holds st.fd_list xs
      → length xs < u64_mod
      → opened st.world ≡ (fd, d, world)
      → fd ≢ 0
      → (st' : Files S) × (syscall_open opened st ≡ done (lowest_free xs, st'))
        × Opened st xs fd d world st'
  unfolding syscall_open
  syscall_open-Opened opened st xs fd d world h small e good =
      let e0 : (opened st.world).0 ≡ fd = ap (λ t. t.0) e in
      let z' : ((opened st.world).0 == 0) ≡ false = ground arith in
      let (v, p, k) = place-placed fd st.fd_list xs h small in
      let p' = ap (λ x. place x st.fd_list) e0 ∙ p in
      (
        record { fd_list = v; descriptions = update st.descriptions fd (some d); world = world },
        rw (z', p', ap (λ t. t.1) e, ap (λ t. t.2) e, e0),
        record { table = k; described = refl; state = refl },
      )
