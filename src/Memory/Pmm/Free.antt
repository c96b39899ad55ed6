-- ===== src/Memory/Pmm/Free.antt =====
-- `PMM::free` and `PMM::get_available_memory` of src/kernel/memory/pmm.cpp.
use toystar.Prelude.{
  ℕ, zero, suc, ◌+◌, ◌-◌, ◌*◌, ◌/◌, ◌<◌, ◌≡◌, refl, true, false, Option, some, if◌then◌else◌, arith,
  Bool-cases, Option-cases, inl, inr, min,
}
use Prim.Native.Nat.{max}
use toystar.Prelude.Outcome.{done}
use toystar.Klibc.Bitmap.{Bitmap, is_bit_set}
use toystar.Klibc.Bitmap.Bits.{AreBytes}
use toystar.Memory.Pmm.{
  Pmm, page_size, clear_range, alloc, free, find_run, set_range, count_free, get_available_memory,
}
use toystar.Memory.Pmm.Search.{within, RunFree, is_bit_set-clear_range}
use toystar.Memory.Pmm.Alloc.{Taken, alloc-none, alloc-found, alloc-Allocated, set_range-AreBytes}

-- With the lock free, `free` returns: the frames are free, and no other has changed.
pub free_lem :
    (ptr count : ℕ) (s : Pmm)
    → AreBytes s.bitmap
    → s.pmm_lock ≡ false
    → (s' : Pmm) × (free ptr count s ≡ done s')
      × ((j : ℕ)
          → is_bit_set s'.bitmap j
            ≡ (if within (ptr / page_size) count j then false else is_bit_set s.bitmap j))
      × (s'.memory ≡ s.memory)
      × (s'.pmm_lock ≡ false)
unfolding free
free_lem ptr count s bytes unlocked = (
  record s { bitmap = clear_range count (ptr / page_size) s.bitmap; pmm_lock = false },
  ground arith,
  λ j. is_bit_set-clear_range count (ptr / page_size) s.bitmap j bytes,
  refl,
  refl,
)

-- The part of the `c` frames from `p` on that lies among the `n` from `i` on.
overlap : ℕ → ℕ → ℕ → ℕ → ℕ
overlap p c n i = min (p + c) (i + n) - max p i

count_free-set :
    (n i p c : ℕ) (bm bm' : Bitmap)
    → RunFree bm p c
    → ((j : ℕ) → is_bit_set bm' j ≡ (if within p c j then true else is_bit_set bm j))
    → count_free n i bm' + overlap p c n i ≡ count_free n i bm
unfolding count_free overlap
count_free-set zero i p c bm bm' run change = omega arith
count_free-set (suc n) i p c bm bm' run change = elim (Bool-cases (within p c i)) [
  | inl w ↦ ground (arith, run i, change i, count_free-set n (i + 1) p c bm bm' run change)
  | inr w ↦ ground (arith, run i, change i, count_free-set n (i + 1) p c bm bm' run change)
]

available_memory :
    (count : ℕ) (s : Pmm) (addr : ℕ) (s' : Pmm)
    → Taken count s addr s'
    → get_available_memory s' + count * page_size ≡ get_available_memory s
unfolding get_available_memory overlap
available_memory count s addr s' (at, run, inside, bits, bytes, lock, size) = rw size (
    omega (
      arith,
      count_free-set (s.bitmap_size * 8) 0 (addr / page_size) count s.bitmap s'.bitmap run bits,
    ))

-- A successful `alloc` lowers what `get_available_memory` reports by exactly the frames handed out.
pub get_available_memory-alloc :
    (count : ℕ) (s : Pmm) (addr : ℕ) (s' : Pmm)
    → AreBytes s.bitmap
    → s.pmm_lock ≡ false
    → 0 < count
    → alloc count s ≡ done (some addr, s')
    → get_available_memory s' + count * page_size ≡ get_available_memory s
get_available_memory-alloc count s addr s' bytes unlocked pos e =
    available_memory count s addr s' ((rw e at (alloc-Allocated count s bytes unlocked pos)).1)

restored :
    (count : ℕ) (s : Pmm) (addr : ℕ) (s' : Pmm)
    → AreBytes s'.bitmap
    → Taken count s addr s'
    → (s'' : Pmm) × (free addr count s' ≡ done s'')
      × ((j : ℕ) → is_bit_set s''.bitmap j ≡ is_bit_set s.bitmap j)
restored count s addr s' bytes (at, run, inside, bits, zeroed, lock, size) =
    let r = free_lem addr count s' bytes lock in
    (
      r.0,
      r.1,
      λ j. elim (Bool-cases (within (addr / page_size) count j)) [
        | inl w ↦ ground (arith, r.2 j, bits j, run j)
        | inr w ↦ ground (arith, r.2 j, bits j)
      ],
    )

alloc-AreBytes :
    (count : ℕ) (s : Pmm) (r : Option ℕ) (s' : Pmm)
    → AreBytes s.bitmap
    → s.pmm_lock ≡ false
    → alloc count s ≡ done (r, s')
    → AreBytes s'.bitmap
alloc-AreBytes count s r s' bytes unlocked e =
    elim (Option-cases (find_run (s.bitmap_size * 8) 0 0 count s.bitmap)) [
      | inl q ↦ let t = alloc-none count s unlocked q in let u : s ≡ s' = cc t in rw u at bytes
      | inr (page, q) ↦
          let t = alloc-found count s page unlocked q in
          let u : set_range count page s.bitmap ≡ s'.bitmap = cc t in
          rw (← u) (set_range-AreBytes count page s.bitmap bytes)
    ]

-- Frames that `alloc` hands out and `free` takes back: every frame is as free or used as before.
pub free-alloc :
    (count : ℕ) (s : Pmm) (addr : ℕ) (s' : Pmm)
    → AreBytes s.bitmap
    → s.pmm_lock ≡ false
    → 0 < count
    → alloc count s ≡ done (some addr, s')
    → (s'' : Pmm) × (free addr count s' ≡ done s'')
      × ((j : ℕ) → is_bit_set s''.bitmap j ≡ is_bit_set s.bitmap j)
free-alloc count s addr s' bytes unlocked pos e =
    restored count s addr s' (alloc-AreBytes count s (some addr) s' bytes unlocked e)
      ((rw e at (alloc-Allocated count s bytes unlocked pos)).1)
