-- ===== src/Memory/Pmm/Search.antt =====
-- The search of `PMM::alloc` of src/kernel/memory/pmm.cpp, and the bits of a range of frames.
use toystar.Prelude.{
  ℕ, zero, suc, ◌+◌, ◌-◌, ◌≤◌, ◌<◌, ◌≡◌, Bool, true, false, none, some, ◌&&◌, ltb, leb, ◌==◌,
  if◌then◌else◌, arith, Bool-cases, inl, inr, ==_iff, ◌≢◌, sym, ◌∙◌,
}
use toystar.Klibc.Bitmap.{Bitmap, set_bit, clear_bit, is_bit_set}
use toystar.Klibc.Bitmap.Bits.{
  AreBytes, is_bit_set-set_bit, set_bit-AreBytes, is_bit_set-clear_bit, clear_bit-AreBytes,
}
use toystar.Memory.Pmm.{set_range, clear_range, find_run}

-- `i` is one of the `n` frames from `p` on.
abbrev pub within : ℕ → ℕ → ℕ → Bool
within p n i = leb p i && ltb i (p + n)

pub is_bit_set-set_range :
    (n p : ℕ) (bm : Bitmap) (j : ℕ)
    → AreBytes bm
    → is_bit_set (set_range n p bm) j ≡ (if within p n j then true else is_bit_set bm j)
unfolding set_range
is_bit_set-set_range zero p bm j h = ground arith
is_bit_set-set_range (suc n) p bm j h = ground (
  arith,
  is_bit_set-set_range n (p + 1) (set_bit bm p) j (set_bit-AreBytes bm p h),
  is_bit_set-set_bit bm p j h,
)

pub is_bit_set-clear_range :
    (n p : ℕ) (bm : Bitmap) (j : ℕ)
    → AreBytes bm
    → is_bit_set (clear_range n p bm) j ≡ (if within p n j then false else is_bit_set bm j)
unfolding clear_range
is_bit_set-clear_range zero p bm j h = ground arith
is_bit_set-clear_range (suc n) p bm j h = ground (
  arith,
  is_bit_set-clear_range n (p + 1) (clear_bit bm p) j (clear_bit-AreBytes bm p h),
  is_bit_set-clear_bit bm p j h,
)

-- The `count` frames from `p` on are free.
abbrev pub RunFree : Bitmap → ℕ → ℕ → Type 0
RunFree bm p count = (j : ℕ) → p ≤ j → j < p + count → is_bit_set bm j ≡ false

-- One step of the search.
find_run-used :
    (n i current count : ℕ) (bm : Bitmap)
    → is_bit_set bm i ≡ true
    → find_run (suc n) i current count bm ≡ find_run n (i + 1) 0 count bm
unfolding find_run
find_run-used n i current count bm b = rw b

find_run-free :
    (n i current count : ℕ) (bm : Bitmap)
    → is_bit_set bm i ≡ false
    → current + 1 ≢ count
    → find_run (suc n) i current count bm ≡ find_run n (i + 1) (current + 1) count bm
unfolding find_run
find_run-free n i current count bm b ne = ground arith

find_run-last :
    (n i current count : ℕ) (bm : Bitmap)
    → is_bit_set bm i ≡ false
    → current + 1 ≡ count
    → find_run (suc n) i current count bm ≡ some (i + 1 - count)
unfolding find_run
find_run-last n i current count bm b e = ground arith

-- Where the search stands: the last `current` of the frames below `i` are free, and fewer than
-- `count`.
pub record Searching (bm : Bitmap) (count i current : ℕ) : Type 0 where
  pub fewer : current < count
  pub below : current ≤ i
  pub free : (j : ℕ) → i ≤ j + current → j < i → is_bit_set bm j ≡ false

restart :
    (bm : Bitmap) (count i current : ℕ)
    → Searching bm count i current
    → Searching bm count (i + 1) 0
restart bm count i current s = record {
  fewer = omega (arith, s.fewer);
  below = omega arith;
  free = λ j lo hi. absurd (omega arith);
}

extend :
    (bm : Bitmap) (count i current : ℕ)
    → Searching bm count i current
    → is_bit_set bm i ≡ false
    → current + 1 ≢ count
    → Searching bm count (i + 1) (current + 1)
extend bm count i current s b ne = record {
  fewer = omega (arith, s.fewer);
  below = omega (arith, s.below);
  free = λ j lo hi. elim (Bool-cases (i == j)) [
    | inl e ↦ ground arith
    | inr e ↦ ground (arith, s.free j)
  ];
}

-- A run that the search returns is free and ends below the end of the search.
pub find_run-RunFree :
    (n i current count : ℕ) (bm : Bitmap) (p : ℕ)
    → Searching bm count i current
    → find_run n i current count bm ≡ some p
    → RunFree bm p count × (p + count ≤ i + n)
unfolding find_run
find_run-RunFree zero i current count bm p s e = absurd (ground arith)
find_run-RunFree (suc n) i current count bm p s e = elim (Bool-cases (is_bit_set bm i)) [
  | inl b ↦
      let r =
        find_run-RunFree n (i + 1) 0 count bm p (restart bm count i current s)
          (sym (find_run-used n i current count bm b) ∙ e) in
      (r.0, omega (arith, r.1))
  | inr b ↦ elim (Bool-cases (current + 1 == count)) [
    | inl q ↦
        let q' : current + 1 ≡ count = (==_iff _ _).0 q in
        let at : i + 1 - count ≡ p = cc (find_run-last n i current count bm b q') in
        (
          λ j lo hi. elim (Bool-cases (i == j)) [
            | inl e ↦ ground arith
            | inr e ↦ ground (arith, s.free j)
          ],
          omega (arith, s.below),
        )
    | inr q ↦
        let ne : current + 1 ≢ count = λ f. ground arith in
        let r =
          find_run-RunFree n (i + 1) (current + 1) count bm p (extend bm count i current s b ne)
            (sym (find_run-free n i current count bm b ne) ∙ e) in
        (r.0, omega (arith, r.1))
  ]
]

-- A search that returns nothing has passed no free run.
pub find_run-none :
    (n i current count : ℕ) (bm : Bitmap) (p : ℕ)
    → current < count
    → i ≤ p + current
    → p + count ≤ i + n
    → RunFree bm p count
    → find_run n i current count bm ≢ none
unfolding find_run
find_run-none zero i current count bm p few lo hi run e = absurd (omega arith)
find_run-none (suc n) i current count bm p few lo hi run e = elim (Bool-cases (is_bit_set bm i)) [
  | inl b ↦
      let out : i < p = ground (arith, run i) in
      find_run-none n (i + 1) 0 count bm p (omega arith) (omega arith) (omega arith) run
        (sym (find_run-used n i current count bm b) ∙ e)
  | inr b ↦ elim (Bool-cases (current + 1 == count)) [
    | inl q ↦ let r = find_run-last n i current count bm b ((==_iff _ _).0 q) in cc
    | inr q ↦
        let ne : current + 1 ≢ count = λ f. ground arith in
        find_run-none n (i + 1) (current + 1) count bm p (omega arith) (omega arith) (omega arith)
          run (sym (find_run-free n i current count bm b ne) ∙ e)
  ]
]
