-- ===== src/Memory/Pmm.antt =====
-- src/kernel/memory/pmm.cpp: the allocator of physical frames, a bitmap with 1 for a used frame.
--
-- The static variables are the fields of `Pmm`. The bitmap is modelled apart from the bytes of the
-- frames, although it lies in physical memory too: no theorem here is about its own frames.
pub mod Search
pub mod Alloc
pub mod Free
pub mod Init
mod Tests
use toystar.Prelude.{
  ℕ, zero, suc, ◌+◌, ◌-◌, ◌*◌, ◌/◌, Bool, true, false, Option, none, some, List, [], ◌∷◌, ◌&&◌,
  ◌||◌, not, ◌==◌, ltb, leb, if◌then◌else◌,
}
use toystar.Prelude.Word.{add64, sub64}
use toystar.Prelude.Outcome.{Outcome, done, fault, ◌>>=◌}
use toystar.Lock.{LockT, acquire, release}
use toystar.Klibc.Bitmap.{Bitmap, set_bit, clear_bit, is_bit_set}

abbrev pub page_size : ℕ
page_size = 4096

abbrev pub physical_base_address : ℕ
physical_base_address = 0xFFFF800000000000

-- `DIV_CEIL` of src/klibc/math.hpp
abbrev pub div_ceil : ℕ → ℕ → ℕ
div_ceil y x = (y + x - 1) / x

abbrev pub mmap_usable : ℕ
mmap_usable = 1

abbrev pub mmap_bootloader_reclaimable : ℕ
mmap_bootloader_reclaimable = 0x1000

abbrev pub mmap_kernel_and_modules : ℕ
mmap_kernel_and_modules = 0x1001

-- `stivale2_mmap_entry`
pub record MmapEntry : Type 0 where
  pub base : ℕ
  pub extent : ℕ
  pub type : ℕ

pub record Pmm : Type 0 where
  pub bitmap : Bitmap
  pub bitmap_size : ℕ
  pub last_usable_page : ℕ
  pub pmm_lock : LockT
  -- the byte at each physical address, through the mapping at PHYSICAL_BASE_ADDRESS
  pub memory : ℕ → ℕ

-- `memset` of src/klibc/memory.cpp
unfoldable pub memset : (ℕ → ℕ) → ℕ → ℕ → ℕ → ℕ → ℕ
memset mem ptr value bytes a = if leb ptr a && ltb a (ptr + bytes) then value else mem a

-- The first loop of `init`.
unfoldable pub find_top : List MmapEntry → ℕ → ℕ
find_top [] last = last
find_top (e ∷ es) last =
    let top = add64 e.base e.extent in
    find_top es (
      if (e.type == mmap_usable || e.type == mmap_kernel_and_modules) && ltb last top
      then top
      else last)

abbrev pub is_free_type : MmapEntry → Bool
is_free_type e = e.type == mmap_usable || e.type == mmap_bootloader_reclaimable

-- The second loop of `init`: the entry that holds the bitmap gives up its first pages. The option
-- is the physical address of the bitmap.
unfoldable pub place_bitmap : ℕ → List MmapEntry → Option ℕ × List MmapEntry
place_bitmap size [] = (none, [])
place_bitmap size (e ∷ es) =
    let (found, rest) = place_bitmap size es in
    let pages = div_ceil size page_size in
    if is_free_type e && not (ltb e.extent size)
    then (
      some e.base,
      record e {
        base = add64 e.base (pages * page_size);
        extent = sub64 e.extent (pages * page_size);
      }
          ∷ es,
    )
    else (found, e ∷ rest)

-- `clear_bit` for `n` frames from `i` on.
unfoldable pub clear_range : ℕ → ℕ → Bitmap → Bitmap
clear_range zero i bm = bm
clear_range (suc n) i bm = clear_range n (i + 1) (clear_bit bm i)

unfoldable pub set_range : ℕ → ℕ → Bitmap → Bitmap
set_range zero i bm = bm
set_range (suc n) i bm = set_range n (i + 1) (set_bit bm i)

-- The third loop of `init`; its inner loop runs to `pageNumber + length` inclusive.
unfoldable pub free_entries : List MmapEntry → Bitmap → Bitmap
unfolding clear_range
free_entries [] bm = bm
free_entries (e ∷ es) bm =
    free_entries es (
      if is_free_type e then clear_range (e.extent / page_size + 1) (e.base / page_size) bm else bm)

-- `init`. With no room for it the bitmap stays a null pointer, and the third loop writes through it.
unfoldable pub init : List MmapEntry → Pmm → Outcome (Pmm × List MmapEntry)
unfolding find_top place_bitmap memset free_entries
init mmap s =
    let last = find_top mmap s.last_usable_page in
    let size = div_ceil (last / page_size) 8 in
    let (found, mmap') = place_bitmap size mmap in
    elim found [
      | none ↦ fault
      | some addr ↦
          let bm = free_entries mmap' (memset s.bitmap 0 0xFF size) in
          done (record s { bitmap = bm; bitmap_size = size; last_usable_page = last }, mmap')
    ]

-- The search of `alloc` with `n` rounds left, at bit `i` after `current` free ones: the page at
-- which a run of `count` begins.
unfoldable pub find_run : ℕ → ℕ → ℕ → ℕ → Bitmap → Option ℕ
find_run zero i current count bm = none
find_run (suc n) i current count bm =
    let more = find_run n (i + 1) (current + 1) count bm in
    let reset = find_run n (i + 1) 0 count bm in
    if not (is_bit_set bm i)
    then (if current + 1 == count then some (i + 1 - count) else more)
    else reset

-- A `void*` as a value: the address 0 is the null pointer, `none`.
abbrev pub pointer : ℕ → Option ℕ
pointer addr = if addr == 0 then none else some addr

-- `alloc`. A run that begins at frame 0 is taken like any other, and its address is the null pointer.
unfoldable pub alloc : ℕ → Pmm → Outcome (Option ℕ × Pmm)
unfolding acquire release find_run set_range memset
alloc count s = do
  lock ← acquire s.pmm_lock
  elim (find_run (s.bitmap_size * 8) 0 0 count s.bitmap) [
    | none ↦ done (none, record s { pmm_lock = release lock })
    | some page ↦
        let addr = page * page_size in
        done (
          pointer addr,
          record s {
            bitmap = set_range count page s.bitmap;
            memory = memset s.memory addr 0 (count * page_size);
            pmm_lock = release lock;
          },
        )
  ]

unfoldable pub free : ℕ → ℕ → Pmm → Outcome Pmm
unfolding acquire release clear_range
free ptr count s = do
  lock ← acquire s.pmm_lock
  done (record s { bitmap = clear_range count (ptr / page_size) s.bitmap; pmm_lock = release lock })

-- The loop of `get_available_memory` over `n` bits from `i` on.
unfoldable pub count_free : ℕ → ℕ → Bitmap → ℕ
count_free zero i bm = 0
count_free (suc n) i bm = (if is_bit_set bm i then 0 else 1) + count_free n (i + 1) bm

unfoldable pub get_available_memory : Pmm → ℕ
unfolding count_free
get_available_memory s = count_free (s.bitmap_size * 8) 0 s.bitmap * page_size
