-- ===== src/Memory/Vmm/Words.antt =====
-- The words of page tables in memory, as src/kernel/memory/vmm.cpp reads and writes them.
use toystar.Prelude.{
  ℕ, ◌+◌, ◌-◌, ◌/◌, ◌%◌, ◌^◌, ◌≤◌, ◌<◌, ◌≡◌, ◌⊎◌, inl, inr, true, false, leb, ltb, arith,
}
use toystar.Prelude.Word.{u64_mod}
use toystar.Memory.Vmm.{read_word, write_word}

abbrev pub AreApart : ℕ → ℕ → Type 0
AreApart a b = (a + 8 ≤ b) ⊎ (b + 8 ≤ a)

byte_inside :
    (memory : ℕ → ℕ) (a v i : ℕ) → i < 8 → write_word memory a v (a + i) ≡ v / 256 ^ i % 256
unfolding write_word
byte_inside memory a v i h =
    let lo : leb a (a + i) ≡ true = ground arith in
    let hi : ltb (a + i) (a + 8) ≡ true = ground arith in
    let d : a + i - a ≡ i = omega arith in rw (lo, hi, d)

byte_first : (memory : ℕ → ℕ) (a v : ℕ) → write_word memory a v a ≡ v % 256
unfolding write_word
byte_first memory a v =
    let lo : leb a a ≡ true = ground arith in
    let hi : ltb a (a + 8) ≡ true = ground arith in
    let d : a - a ≡ 0 = omega arith in rw (lo, hi, d) (omega arith)

pub read_word-write_word :
    (memory : ℕ → ℕ) (a v : ℕ) → v < u64_mod → read_word (write_word memory a v) a ≡ v
unfolding read_word
read_word-write_word memory a v h =
    let b0 = byte_first memory a v in
    let b1 = byte_inside memory a v 1 (omega arith) in
    let b2 = byte_inside memory a v 2 (omega arith) in
    let b3 = byte_inside memory a v 3 (omega arith) in
    let b4 = byte_inside memory a v 4 (omega arith) in
    let b5 = byte_inside memory a v 5 (omega arith) in
    let b6 = byte_inside memory a v 6 (omega arith) in
    let b7 = byte_inside memory a v 7 (omega arith) in
    rw (b0, b1, b2, b3, b4, b5, b6, b7) (omega arith)

byte_outside :
    (memory : ℕ → ℕ) (a v b c : ℕ)
    → AreApart a b
    → b ≤ c
    → c < b + 8
    → write_word memory a v c ≡ memory c
unfolding write_word
byte_outside memory a v b c (inl h) from below =
    let hi : ltb c (a + 8) ≡ false = ground arith in
    let lo : leb a c ≡ true = ground arith in rw (lo, hi)
byte_outside memory a v b c (inr h) from below = let lo : leb a c ≡ false = ground arith in rw lo

pub read_word-apart :
    (memory : ℕ → ℕ) (a v b : ℕ)
    → AreApart a b
    → read_word (write_word memory a v) b ≡ read_word memory b
unfolding read_word
read_word-apart memory a v b h =
    let same : (c : ℕ) → b ≤ c → c < b + 8 → write_word memory a v c ≡ memory c =
      λ c lo hi. byte_outside memory a v b c h lo hi in
    rw (
      same b (omega arith) (omega arith),
      same (b + 1) (omega arith) (omega arith),
      same (b + 2) (omega arith) (omega arith),
      same (b + 3) (omega arith) (omega arith),
      same (b + 4) (omega arith) (omega arith),
      same (b + 5) (omega arith) (omega arith),
      same (b + 6) (omega arith) (omega arith),
      same (b + 7) (omega arith) (omega arith),
    )
