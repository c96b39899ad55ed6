-- ===== src/Memory/Heap/Init.antt =====
-- The constructor of `BuddyAllocator` of src/kernel/memory/heap.cpp.
use toystar.Prelude.{
  ℕ, ◌+◌, ◌^◌, ◌<◌, ◌≡◌, refl, false, Option, none, some, [], ◌∷◌, ◌==◌, ◌||◌, arith, if◌then◌else◌,
  inl,
}
use toystar.Prelude.Word.{u64_mod, add64}
use toystar.Prelude.Outcome.{Outcome, done, panic, ◌>>=◌}
use toystar.Memory.Pmm
use toystar.Memory.Pmm.{Pmm, physical_base_address}
use toystar.Memory.Heap.{Heap, Ptr, null, max_power, sizeof_block, set_bucket, set_size, set_next}
use toystar.Memory.Heap.FreeLists.{FreeLists, IsHeap, width}

abbrev pub initial_pages : ℕ
initial_pages = 256

-- `PMM::alloc(…) + PHYSICAL_BASE_ADDRESS`
abbrev pub to_virtual : Option ℕ → Ptr
to_virtual none = physical_base_address
to_virtual (some a) = add64 a physical_base_address

-- The page of the buckets, which `PMM::alloc` has cleared if it returned one.
abbrev pub fresh_buckets : Option ℕ → Heap → ℕ → Ptr
fresh_buckets none s = s.bucket_list
fresh_buckets (some a) s = λ i. null

-- The constructor. Its test for null pointers comes after the base address is added.
unfoldable pub buddy_allocator : Pmm → Heap → Outcome (Heap × Pmm)
buddy_allocator p s = do
  (page, p1) ← Pmm.alloc 1 p
  (pages, p2) ← Pmm.alloc initial_pages p1
  let bucket_list = to_virtual page
  let first_block = to_virtual pages
  if bucket_list == 0 || first_block == 0
      then panic
      else (let s1 = set_bucket 0 first_block (record s { bucket_list = fresh_buckets page s }) in
          let s2 = set_next first_block null (set_size first_block (2 ^ max_power) s1) in
          done (record s2 { base_addr = first_block }, p2))

-- All of the heap is one free block.
abbrev pub one_block : Ptr → FreeLists
one_block b i = if i == 0 then b ∷ [] else []

-- A heap with the block at `b` alone.
unfoldable pub fresh : Ptr → Heap → Heap
fresh b s =
    let s1 = set_bucket 0 b (record s { bucket_list = λ i. null }) in
    let s2 = set_next b null (set_size b (2 ^ max_power) s1) in record s2 { base_addr = b }

pub fresh-IsHeap :
    (b : Ptr) (s : Heap)
    → 0 < b
    → b + 2 ^ max_power + sizeof_block < u64_mod
    → IsHeap (fresh b s) (one_block b)
unfolding fresh width
fresh-IsHeap b s pos hi = record {
  chains = λ i h. ground arith;
  distinct = λ i h. ground arith;
  apart = λ i j x y hi hj hx hy. inl (ground arith);
  within = λ i x h e. ground arith;
  sizes = λ i x h e. ground arith;
  mapped = omega arith;
}

-- When both allocations succeed, and the pages lie below the top of the mapped memory, the
-- constructor builds a heap whose only free block is all of it.
pub buddy_allocator-IsHeap :
    (p p1 p2 : Pmm) (s : Heap) (page pages : ℕ)
    → Pmm.alloc 1 p ≡ done (some page, p1)
    → Pmm.alloc initial_pages p1 ≡ done (some pages, p2)
    → page < 2 ^ 46
    → pages < 2 ^ 46
    → (s' : Heap) × (buddy_allocator p s ≡ done (s', p2))
      × IsHeap s' (one_block (pages + physical_base_address))
      × (s'.heap_lock ≡ s.heap_lock)
unfolding buddy_allocator fresh
buddy_allocator-IsHeap p p1 p2 s page pages e1 e2 small small2 =
    let v1 : add64 page physical_base_address ≡ page + physical_base_address = omega arith in
    let v2 : add64 pages physical_base_address ≡ pages + physical_base_address = omega arith in
    let z1 : (page + physical_base_address == 0) ≡ false = ground arith in
    let z2 : (pages + physical_base_address == 0) ≡ false = ground arith in
    (
      fresh (pages + physical_base_address) s,
      rw (e1, e2, v1, v2, z1, z2),
      fresh-IsHeap (pages + physical_base_address) s (omega arith) (omega arith),
      refl,
    )
