-- ===== src/Memory/Pmm/Alloc.antt =====
-- `PMM::alloc` of src/kernel/memory/pmm.cpp.
use toystar.Prelude.{
  ℕ, zero, suc, ◌+◌, ◌*◌, ◌/◌, ◌≤◌, ◌<◌, ◌≡◌, refl, true, false, Option, none, some, if◌then◌else◌,
  arith, inl, inr, ◌⊎◌, ◌==◌, ==_iff, Bool-cases, Option-cases,
}
use toystar.Prelude.Outcome.{Outcome, done, hang, panic, fault}
use toystar.Klibc.Bitmap.{Bitmap, set_bit, is_bit_set}
use toystar.Klibc.Bitmap.Bits.{AreBytes, set_bit-AreBytes}
use toystar.Memory.Pmm.{Pmm, page_size, set_range, find_run, alloc, memset, pointer}
use toystar.Memory.Pmm.Search.{
  within, is_bit_set-set_range, RunFree, Searching, find_run-RunFree, find_run-none,
}

pub set_range-AreBytes : (n p : ℕ) (bm : Bitmap) → AreBytes bm → AreBytes (set_range n p bm)
unfolding set_range
set_range-AreBytes zero p bm h = h
set_range-AreBytes (suc n) p bm h =
    set_range-AreBytes n (p + 1) (set_bit bm p) (set_bit-AreBytes bm p h)

-- The frames from `addr` on were free, and now they are used and zeroed; nothing else has changed.
abbrev pub Taken : ℕ → Pmm → ℕ → Pmm → Type 0
Taken count s addr s' =
    (addr ≡ addr / page_size * page_size)
    × RunFree s.bitmap (addr / page_size) count
    × (addr / page_size + count ≤ s.bitmap_size * 8)
    × ((j : ℕ)
        → is_bit_set s'.bitmap j
          ≡ (if within (addr / page_size) count j then true else is_bit_set s.bitmap j))
    × ((a : ℕ) → s'.memory a ≡ (if within addr (count * page_size) a then 0 else s.memory a))
    × (s'.pmm_lock ≡ false)
    × (s'.bitmap_size ≡ s.bitmap_size)

-- What `alloc` promises of each outcome.
abbrev pub Allocated : ℕ → Pmm → Outcome (Option ℕ × Pmm) → Type 0
Allocated count s (done (some addr, s')) = (0 < addr) × Taken count s addr s'
Allocated count s (done (none, s')) =
    ((s' ≡ s) × ((p : ℕ) → p + count ≤ s.bitmap_size * 8 → ¬ (RunFree s.bitmap p count)))
    ⊎ Taken count s 0 s'
Allocated count s hang = ⊥
Allocated count s panic = ⊥
Allocated count s fault = ⊥

pub alloc-found :
    (count : ℕ) (s : Pmm) (page : ℕ)
    → s.pmm_lock ≡ false
    → find_run (s.bitmap_size * 8) 0 0 count s.bitmap ≡ some page
    → alloc count s
      ≡ done (
        pointer (page * page_size),
        record s {
          bitmap = set_range count page s.bitmap;
          memory = memset s.memory (page * page_size) 0 (count * page_size);
          pmm_lock = false;
        },
      )
unfolding alloc
alloc-found count s page free e = ground arith

pub alloc-none :
    (count : ℕ) (s : Pmm)
    → s.pmm_lock ≡ false
    → find_run (s.bitmap_size * 8) 0 0 count s.bitmap ≡ none
    → alloc count s ≡ done (none, s)
unfolding alloc
alloc-none count s free e = ground arith

Allocated-pointer :
    (count : ℕ) (s : Pmm) (addr : ℕ) (s' : Pmm)
    → Taken count s addr s'
    → Allocated count s (done (pointer addr, s'))
Allocated-pointer count s addr s' taken = elim (Bool-cases (addr == 0)) [
  | inl z ↦ rw z (inr (rw ((==_iff addr 0).0 z) at taken))
  | inr z ↦ rw z (ground arith, taken)
]

-- With the lock free, `alloc` of at least one frame always returns. A pointer other than null is the
-- address of that many frames below the end of the bitmap, all of them free before; afterwards these
-- frames are used and their bytes 0, and no other frame or byte has changed. With the null pointer
-- either the state is unchanged and no such run of free frames exists, or the same has been done to the
-- frames from frame 0 on, whose address is the null pointer. The bitmap does not lie in these frames.
pub alloc-Allocated :
    (count : ℕ) (s : Pmm)
    → AreBytes s.bitmap
    → s.pmm_lock ≡ false
    → 0 < count
    → Allocated count s (alloc count s)
unfolding memset
alloc-Allocated count s bytes free pos =
    elim (Option-cases (find_run (s.bitmap_size * 8) 0 0 count s.bitmap)) [
      | inl e ↦ rw (alloc-none count s free e) (
          inl (
            refl,
            λ p hi run.
                find_run-none (s.bitmap_size * 8) 0 0 count s.bitmap p pos (omega arith)
                  (omega arith) run e,
          ))
      | inr (page, e) ↦
          let q : page * page_size / page_size ≡ page = omega arith in
          let start : Searching s.bitmap count 0 0 = record {
            fewer = pos;
            below = omega arith;
            free = λ j lo hi. absurd (omega arith);
          } in
          let r = find_run-RunFree (s.bitmap_size * 8) 0 0 count s.bitmap page start e in
          rw (alloc-found count s page free e) (
            Allocated-pointer count s (page * page_size) _ (
              rw q (
                refl,
                r.0,
                omega (arith, r.1),
                λ j. is_bit_set-set_range count page s.bitmap j bytes,
                λ a. refl,
                refl,
                refl,
              )))
    ]
