-- ===== src/Memory/Pmm/Tests.antt =====
-- Runs of src/kernel/memory/pmm.cpp on small machines, and its theorems there.
use toystar.Prelude.{ℕ, ◌+◌, ◌*◌, ◌≡◌, refl, true, false, none, some, [], ◌∷◌, arith}
use toystar.Prelude.Outcome.{done, hang, fault}
use toystar.Klibc.Bitmap.{is_bit_set, set_bit}
use toystar.Klibc.Bitmap.Bits.{AreBytes}
use toystar.Memory.Pmm.{
  Pmm, MmapEntry, mmap_usable, page_size, memset, set_range, free_entries, init, alloc, free,
  get_available_memory,
}
use toystar.Memory.Pmm.Alloc.{Allocated, alloc-Allocated}
use toystar.Memory.Pmm.Free.{get_available_memory-alloc, free-alloc}
use toystar.Memory.Pmm.Init.{is_bit_set-init}

abbrev fresh : Pmm
fresh = record {
  bitmap = λ a. 0;
  bitmap_size = 0;
  last_usable_page = 0;
  pmm_lock = false;
  memory = λ a. 7;
}

fresh-AreBytes : AreBytes fresh.bitmap
fresh-AreBytes a = omega arith

abbrev region : MmapEntry
region = record { base = 0x4000; extent = 0x8000; type = mmap_usable }

-- The region after the bitmap has taken its first page.
abbrev region_left : MmapEntry
region_left = record { base = 0x5000; extent = 0x7000; type = mmap_usable }

-- Frames 0, 3, 8 and 11 used, the 12 others free.
abbrev some_used : Pmm
some_used = record {
  bitmap = λ a. 0b10010000;
  bitmap_size = 2;
  last_usable_page = 0x10000;
  pmm_lock = false;
  memory = λ a. 7;
}

some_used-AreBytes : AreBytes some_used.bitmap
some_used-AreBytes a = omega arith

-- After `alloc(3)`, which finds frames 4, 5 and 6.
abbrev taken : Pmm
taken = record some_used {
  bitmap = set_range 3 4 some_used.bitmap;
  memory = memset some_used.memory 0x4000 0 0x3000;
}

alloc_test : alloc 3 some_used ≡ done (some 0x4000, taken)
unfolding alloc is_bit_set
alloc_test = refl

alloc_too_many : alloc 5 some_used ≡ done (none, some_used)
unfolding alloc is_bit_set
alloc_too_many = refl

-- With frame 0 free it is taken, and its address is the null pointer.
alloc_first_frame :
    (s' : Pmm) × (alloc 1 (record some_used { bitmap = λ a. 0 }) ≡ done (none, s'))
    × (is_bit_set s'.bitmap 0 ≡ true)
unfolding alloc is_bit_set set_bit
alloc_first_frame = (_, refl, refl)

alloc_held : alloc 3 (record some_used { pmm_lock = true }) ≡ hang
unfolding alloc
alloc_held = refl

-- With no entry that can hold the bitmap, the bitmap is a null pointer.
init_empty : init [] fresh ≡ fault
unfolding init
init_empty = refl

-- The state that `init` leaves on the one region.
abbrev started : Pmm
started = record fresh {
  bitmap = free_entries (region_left ∷ []) (memset fresh.bitmap 0 255 2);
  bitmap_size = 2;
  last_usable_page = 0xc000;
}

init_test : init (region ∷ []) fresh ≡ done (started, region_left ∷ [])
unfolding init
init_test = refl

alloc-Allocated_example : Allocated 3 some_used (alloc 3 some_used)
alloc-Allocated_example = alloc-Allocated 3 some_used some_used-AreBytes refl (omega arith)

get_available_memory-alloc_example : get_available_memory taken + 3 * page_size ≡ 12 * page_size
unfolding get_available_memory is_bit_set
get_available_memory-alloc_example =
    get_available_memory-alloc 3 some_used 0x4000 taken some_used-AreBytes refl (omega arith)
      alloc_test

free-alloc_example :
    (s'' : Pmm) × (free 0x4000 3 taken ≡ done s'')
    × ((j : ℕ) → is_bit_set s''.bitmap j ≡ is_bit_set some_used.bitmap j)
free-alloc_example =
    free-alloc 3 some_used 0x4000 taken some_used-AreBytes refl (omega arith) alloc_test

is_bit_set-init_example : is_bit_set started.bitmap 5 ≡ false
is_bit_set-init_example =
    is_bit_set-init (region ∷ []) (region_left ∷ []) fresh started 5 fresh-AreBytes init_test
      (omega arith)
