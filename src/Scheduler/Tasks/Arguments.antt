-- ===== src/Scheduler/Tasks/Arguments.antt =====
-- The stack that `create_program` of src/kernel/scheduler/scheduler.cpp prepares for a new program.
use toystar.Prelude.{
  ℕ, zero, suc, ◌+◌, ◌-◌, ◌*◌, ◌≤◌, ◌<◌, ◌≡◌, ◌≢◌, refl, sym, ◌∙◌, ap, false, none, some, List, [],
  ◌∷◌, ◌++◌, ◌==◌, if◌then◌else◌, length, get_elem?, Bool-cases, inl, inr, ==_refl, ==_iff, arith,
  length-append,
}
use toystar.Prelude.Outcome.{Outcome, done, fault, ◌>>=◌}
use toystar.Prelude.Word.{update, u64_mod, sub64}

-- The number of the arguments: the loop on `argv` up to a null pointer.
unfoldable pub count_arguments : List ℕ → Outcome ℕ
count_arguments [] = fault
count_arguments (arg ∷ argv) =
    let rest = count_arguments argv in if arg == 0 then done 0 else (rest >>= λ n. done (n + 1))

-- `for (i = argc; i > 0; --i) *(--rsp) = argv[i]`, on memory as words at their addresses.
unfoldable pub push_arguments : ℕ → List ℕ → ℕ → (ℕ → ℕ) → Outcome (ℕ × (ℕ → ℕ))
push_arguments zero argv rsp memory = done (rsp, memory)
push_arguments (suc i) argv rsp memory = elim (get_elem? argv (suc i)) [
  | none ↦ fault
  | some arg ↦ push_arguments i argv (sub64 rsp 8) (update memory (sub64 rsp 8) arg)
]

-- The end of `create_program`: the arguments on the stack at `old_rsp`, and the new value of `rsp`.
unfoldable pub start_stack : List ℕ → ℕ → ℕ → (ℕ → ℕ) → Outcome (ℕ × (ℕ → ℕ))
unfolding count_arguments push_arguments
start_stack argv regs_rsp old_rsp memory = do
  argc ← count_arguments argv
  r ← push_arguments argc argv old_rsp memory
  let rsp = sub64 r.0 8
  done (sub64 regs_rsp (sub64 old_rsp rsp), update r.1 rsp argc)

-- No pointer of the list is null.
abbrev pub NoneNull : List ℕ → Type 0
NoneNull [] = record {}
NoneNull (a ∷ args) = (a ≢ 0) × NoneNull args

count_arguments-length :
    (args : List ℕ) → NoneNull args → count_arguments (args ++ (0 ∷ [])) ≡ done (length args)
unfolding count_arguments
count_arguments-length [] h = refl
count_arguments-length (a ∷ args) (ne, h) =
    let b : (a == 0) ≡ false = ground arith in
    rw (b, count_arguments-length args h) (ap done (omega arith))

get_elem?-inside : (l : List ℕ) (i : ℕ) → i < length l → (x : ℕ) × (get_elem? l i ≡ some x)
get_elem?-inside [] i h = absurd (omega arith)
get_elem?-inside (x ∷ l) zero h = (x, refl)
get_elem?-inside (x ∷ l) (suc i) h = get_elem?-inside l i (omega arith)

-- The loop leaves the pointers behind the first one in their order, from `base` on.
push_arguments-words :
    (i : ℕ) (argv : List ℕ) (base rsp : ℕ) (memory : ℕ → ℕ)
    → i < length argv
    → rsp ≡ base + 8 * i
    → rsp < u64_mod
    → (memory' : ℕ → ℕ) × (push_arguments i argv rsp memory ≡ done (base, memory'))
      × ((k : ℕ) → k < i → get_elem? argv (suc k) ≡ some (memory' (base + 8 * k)))
      × ((a : ℕ) → rsp ≤ a → memory' a ≡ memory a)
unfolding push_arguments
push_arguments-words zero argv base rsp memory short at small =
    (memory, ap (λ n. done (n, memory)) (omega arith), λ k h. absurd (omega arith), λ a h. refl)
push_arguments-words (suc i) argv base rsp memory short at small =
    let (arg, e) = get_elem?-inside argv (suc i) short in
    let down : sub64 rsp 8 ≡ base + 8 * i = omega arith in
    let (memory', f, words, above) =
      push_arguments-words i argv base (sub64 rsp 8) (update memory (sub64 rsp 8) arg) (omega arith)
        down (omega arith) in
    (
      memory',
      rw (push_arguments, e) f,
      λ k h. elim (Bool-cases (k == i)) [
        | inl b ↦
            let q : k ≡ i = (==_iff k i).0 b in
            let here : sub64 rsp 8 ≡ base + 8 * k = down ∙ ap (λ n. base + 8 * n) (sym q) in
            let stored : memory' (sub64 rsp 8) ≡ arg =
              above (sub64 rsp 8) (omega arith) ∙ rw (==_refl (sub64 rsp 8)) in
            ap (λ n. get_elem? argv (suc n)) q
            ∙ e
            ∙ ap some (sym stored)
            ∙ ap (λ a. some (memory' a)) here
        | inr b ↦ words k (ground arith)
      ],
      λ a h. let ne : (a == sub64 rsp 8) ≡ false = ground arith in above a (omega arith) ∙ rw ne,
    )

-- Where `argv` ends with its one null pointer and there is room, a new program finds the number of its
-- arguments at its stack pointer, and behind it the pointers of `argv` from the second one on, the null
-- pointer last.
pub start_stack-arguments :
    (args : List ℕ) (regs_rsp base : ℕ) (memory : ℕ → ℕ)
    → NoneNull args
    → 8 * (length args + 1) ≤ regs_rsp
    → regs_rsp < u64_mod
    → base + 8 * (length args + 1) < u64_mod
    → (memory' : ℕ → ℕ) × (start_stack
          (args ++ (0 ∷ []))
          regs_rsp
          (base + 8 * (length args + 1))
          memory
        ≡ done (regs_rsp - 8 * (length args + 1), memory'))
      × (memory' base ≡ length args)
      × ((k : ℕ)
          → k < length args
          → get_elem? (args ++ (0 ∷ [])) (suc k) ≡ some (memory' (base + 8 * (k + 1))))
unfolding start_stack
start_stack-arguments args regs_rsp base memory h room small fits =
    let argv = args ++ (0 ∷ []) in
    let n = length args in
    let rsp = base + 8 * (n + 1) in
    let (memory', f, words, above) =
      push_arguments-words n argv (base + 8) rsp memory (omega (arith, length-append args (0 ∷ [])))
        (omega arith) fits in
    let low : sub64 (base + 8) 8 ≡ base = omega arith in
    let moved : sub64 regs_rsp (sub64 rsp base) ≡ regs_rsp - 8 * (n + 1) = omega arith in
    (
      update memory' base n,
      rw (count_arguments-length args h, f)
          (ap (λ a. done (sub64 regs_rsp (sub64 rsp a), update memory' a n)) low
            ∙ ap (λ a. done (a, update memory' base n)) moved),
      rw (==_refl base),
      λ k small'.
          let ne : (base + 8 * (k + 1) == base) ≡ false = ground arith in
          rw ne (words k small' ∙ ap (λ a. some (memory' a)) (omega arith)),
    )
