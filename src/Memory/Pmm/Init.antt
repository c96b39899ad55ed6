-- ===== src/Memory/Pmm/Init.antt =====
-- `PMM::init` of src/kernel/memory/pmm.cpp: the frames that are free at start.
use toystar.Prelude.{
  ℕ, zero, suc, ◌+◌, ◌*◌, ◌/◌, ◌<◌, ◌≡◌, refl, Bool, true, false, List, [], ◌∷◌, ◌&&◌, ◌||◌, not,
  if◌then◌else◌, arith, Bool-cases, inl, inr,
}
use toystar.Prelude.Outcome.{done}
use toystar.Klibc.Bitmap.{Bitmap, is_bit_set}
use toystar.Klibc.Bitmap.Bits.{AreBytes, clear_bit-AreBytes, is_bit_set-ones}
use toystar.Memory.Pmm.{
  Pmm, MmapEntry, page_size, div_ceil, is_free_type, memset, clear_range, free_entries, find_top,
  init,
}
use toystar.Memory.Pmm.Search.{within, is_bit_set-clear_range}

-- One of the entries marks frame `j` as free: it is of a free type, and `j` is one of its frames or
-- the frame behind its last.
abbrev pub covered : List MmapEntry → ℕ → Bool
covered [] j = false
covered (e ∷ es) j =
    (is_free_type e && within (e.base / page_size) (e.extent / page_size + 1) j) || covered es j

pub clear_range-AreBytes : (n p : ℕ) (bm : Bitmap) → AreBytes bm → AreBytes (clear_range n p bm)
unfolding clear_range
clear_range-AreBytes zero p bm h = h
clear_range-AreBytes (suc n) p bm h = clear_range-AreBytes n (p + 1) _ (clear_bit-AreBytes bm p h)

is_bit_set-free_entries :
    (es : List MmapEntry) (bm : Bitmap) (j : ℕ)
    → AreBytes bm
    → is_bit_set (free_entries es bm) j ≡ (if covered es j then false else is_bit_set bm j)
unfolding free_entries
is_bit_set-free_entries [] bm j h = refl
is_bit_set-free_entries (e ∷ es) bm j h = elim (Bool-cases (is_free_type e)) [
  | inl t ↦
      let n = e.extent / page_size + 1 in
      let p = e.base / page_size in
      rw t (
        ground (
          arith,
          is_bit_set-free_entries es (clear_range n p bm) j (clear_range-AreBytes n p bm h),
          is_bit_set-clear_range n p bm j h,
        ))
  | inr t ↦ rw t (is_bit_set-free_entries es bm j h)
]

memset-AreBytes : (m : Bitmap) (n : ℕ) → AreBytes m → AreBytes (memset m 0 255 n)
unfolding memset
memset-AreBytes m n h a = ground (arith, h a)

is_bit_set-memset : (m : Bitmap) (n j : ℕ) → j < n * 8 → is_bit_set (memset m 0 255 n) j ≡ true
unfolding memset
is_bit_set-memset m n j h = is_bit_set-ones (memset m 0 255 n) j (ground arith)

-- The state that `init` leaves, where it returns.
record Initialised (mmap : List MmapEntry) (s s' : Pmm) (mmap' : List MmapEntry) : Type 0 where
  size : s'.bitmap_size ≡ div_ceil (find_top mmap s.last_usable_page / page_size) 8
  bits : s'.bitmap ≡ free_entries mmap' (memset s.bitmap 0 255 s'.bitmap_size)

init-Initialised :
    (mmap mmap' : List MmapEntry) (s s' : Pmm)
    → init mmap s ≡ done (s', mmap')
    → Initialised mmap s s' mmap'
unfolding init
init-Initialised mmap mmap' s s' e = ground arith

-- Where `init` returns, a frame below the end of the bitmap is free exactly if an entry of a free
-- type covers it: one of the entry's frames, or the frame behind its last.
pub is_bit_set-init :
    (mmap mmap' : List MmapEntry) (s s' : Pmm) (j : ℕ)
    → AreBytes s.bitmap
    → init mmap s ≡ done (s', mmap')
    → j < s'.bitmap_size * 8
    → is_bit_set s'.bitmap j ≡ not (covered mmap' j)
is_bit_set-init mmap mmap' s s' j bytes e hi =
    let i = init-Initialised mmap mmap' s s' e in
    let m = memset s.bitmap 0 255 s'.bitmap_size in
    let ones : is_bit_set m j ≡ true = is_bit_set-memset s.bitmap s'.bitmap_size j hi in
    rw
      (
        i.bits,
        is_bit_set-free_entries mmap' m j (memset-AreBytes s.bitmap s'.bitmap_size bytes),
        ones,
      )
      (ground arith)
