-- ===== src/Memory/Heap/Tests.antt =====
-- Runs of src/kernel/memory/heap.cpp on a heap at 1 MiB, and its theorems there.
use toystar.Prelude.{ℕ, ◌+◌, ◌≡◌, ◌≢◌, refl, false, [], arith}
use toystar.Prelude.Outcome.{Outcome, done, fault, ◌>>=◌}
use toystar.Klibc.Bitmap.{is_bit_set, set_bit}
use toystar.Prelude.Word.{update}
use toystar.Memory.Pmm
use toystar.Memory.Pmm.{Pmm, physical_base_address, memset, set_range}
use toystar.Memory.Heap.{Heap, Ptr, null, split_block, kmalloc}
use toystar.Memory.Heap.Merge.{kfree}
use toystar.Memory.Heap.FreeLists.{IsHeap, width}
use toystar.Memory.Heap.Init.{
  fresh, fresh-IsHeap, one_block, buddy_allocator, buddy_allocator-IsHeap,
}
use toystar.Memory.Heap.Kmalloc.{
  Fits, Mallocs, kmalloc-Granted, kmalloc-exhausted, kmalloc-too_large,
}

abbrev blank : Heap
blank = record {
  bucket_list = λ i. null;
  base_addr = 0;
  heap_lock = false;
  blocks = λ p. record { size = 0; next = 0; reserved = 0 };
  payload = λ a. 0;
}

abbrev heap : Heap
unfolding fresh
heap = fresh 0x100000 blank

heap-IsHeap : IsHeap (fresh 0x100000 blank) (one_block 0x100000)
heap-IsHeap = fresh-IsHeap 0x100000 blank (omega arith) (omega arith)

-- A request of 100 bytes takes a block of 128.
hundred-Fits : Fits 100 13
unfolding width
hundred-Fits = record {
  order = omega arith;
  above = omega arith;
  below = omega arith;
  no_wrap = omega arith;
}

-- A map of outcomes that forgets the heap.
abbrev pointer : Outcome (Ptr × Heap) → Outcome Ptr
pointer r = r >>= λ p. done p.0

kmalloc_test : pointer (kmalloc 100 (fresh 0x100000 blank)) ≡ done 0x100018
unfolding fresh kmalloc split_block
kmalloc_test = refl

-- Two requests, both freed: the buddies merge up to the whole heap again.
abbrev merged : Outcome (Ptr × Ptr)
merged = do
  (p, s) ← kmalloc 100 (fresh 0x100000 blank)
  (q, s) ← kmalloc 100 s
  s ← kfree 20 p s
  s ← kfree 20 q s
  done (s.bucket_list 0, s.bucket_list 13)

merge_test : merged ≡ done (0x100000, null)
unfolding fresh kmalloc kfree split_block
merge_test = refl

-- A heap with no free block left.
abbrev full : Heap
full = record blank { base_addr = 0x100000 }

full-IsHeap : IsHeap full (λ i. [])
full-IsHeap = record {
  chains = λ i h. refl;
  distinct = λ i h. tt;
  apart = λ i j x y hi hj hx hy. cc;
  within = λ i x h e. cc;
  sizes = λ i x h e. cc;
  mapped = omega arith;
}

kmalloc-exhausted_example :
    (s' : Heap) × (kmalloc 100 full ≡ done (null, s'))
    × ((later : ℕ) (r : Ptr × Heap) → kmalloc later s' ≢ done r)
kmalloc-exhausted_example =
    kmalloc-exhausted 100 13 full (λ i. []) hundred-Fits full-IsHeap refl (omega arith)
      (λ i h. refl)

-- One MiB, with the whole heap free.
kmalloc-too_large_example : kmalloc 0x100000 heap ≡ fault
unfolding fresh
kmalloc-too_large_example = kmalloc-too_large 0x100000 heap refl (omega arith) (omega arith)

-- A machine with 320 frames, all free but the first.
abbrev frames : Pmm
frames = record {
  bitmap = update (λ a. 0) 0 0x80;
  bitmap_size = 40;
  last_usable_page = 0x140000;
  pmm_lock = false;
  memory = λ a. 0;
}

abbrev one_taken : Pmm
one_taken = record frames {
  bitmap = set_range 1 1 frames.bitmap;
  memory = memset frames.memory 0x1000 0 0x1000;
}

abbrev all_taken : Pmm
all_taken = record one_taken {
  bitmap = set_range 256 2 one_taken.bitmap;
  memory = memset one_taken.memory 0x2000 0 0x100000;
}

buddy_allocator-IsHeap_example :
    (s' : Heap) × (buddy_allocator frames blank ≡ done (s', all_taken))
    × IsHeap s' (one_block (0x2000 + physical_base_address))
    × (s'.heap_lock ≡ false)
unfolding Pmm.alloc is_bit_set set_bit
buddy_allocator-IsHeap_example =
    buddy_allocator-IsHeap frames one_taken all_taken blank 0x1000 0x2000 refl refl (omega arith)
      (omega arith)

kmalloc-Granted_example : Mallocs 100 13 (fresh 0x100000 blank) (one_block 0x100000)
unfolding fresh
kmalloc-Granted_example =
    kmalloc-Granted 100 13 0 (fresh 0x100000 blank) (one_block 0x100000) hundred-Fits heap-IsHeap
      refl (omega arith) (λ e. cc)
