-- ===== src/Memory/Vmm.antt =====
-- src/kernel/memory/vmm.cpp and vmm.hpp: page tables. A pointer into the mapping at
-- PHYSICAL_BASE_ADDRESS stands for the physical memory of Pmm. The loading of the page map and the
-- flushing of the processor's buffers are not modelled.
pub mod Words
pub mod Translate
mod Tests
use toystar.Prelude.{
  ℕ, zero, suc, ◌+◌, ◌-◌, ◌*◌, ◌/◌, ◌%◌, ◌^◌, bit_or, Option, none, some, List, [], ◌∷◌, ◌==◌, leb,
  ltb, ◌&&◌, if◌then◌else◌,
}
use toystar.Prelude.Outcome.{Outcome, done, fault, ◌>>=◌}
use toystar.Prelude.Word.{u64_mod, add64}
use toystar.Klibc.Vector
use toystar.Klibc.Vector.{Vector}
use toystar.Memory.Pmm.{Pmm, page_size, physical_base_address, alloc}

-- The frames with their memory, and `m_pml4` and `page_tables_addr` of a page map.
pub record Vmm : Type 0 where
  pub pmm : Pmm
  pub m_pml4 : ℕ
  pub page_tables_addr : Vector ℕ

-- A word of 8 bytes, the low byte first.
unfoldable pub read_word : (ℕ → ℕ) → ℕ → ℕ
read_word memory a =
    memory a
    + memory (a + 1) * 2 ^ 8
    + memory (a + 2) * 2 ^ 16
    + memory (a + 3) * 2 ^ 24
    + memory (a + 4) * 2 ^ 32
    + memory (a + 5) * 2 ^ 40
    + memory (a + 6) * 2 ^ 48
    + memory (a + 7) * 2 ^ 56

unfoldable pub write_word : (ℕ → ℕ) → ℕ → ℕ → ℕ → ℕ
write_word memory a v b = if leb a b && ltb b (a + 8) then v / 256 ^ (b - a) % 256 else memory b

-- Where `table[entry]` is in physical memory; below the mapping no such pointer is used.
unfoldable pub slot : ℕ → ℕ → Outcome ℕ
slot table entry =
    if leb physical_base_address table
    then done (table - physical_base_address + 8 * entry)
    else fault

unfoldable pub get_pml4e : ℕ → ℕ
get_pml4e virtual_addr = virtual_addr / 2 ^ 39 % 512

unfoldable pub get_pdpe : ℕ → ℕ
get_pdpe virtual_addr = virtual_addr / 2 ^ 30 % 512

unfoldable pub get_pde : ℕ → ℕ
get_pde virtual_addr = virtual_addr / 2 ^ 21 % 512

unfoldable pub get_pte : ℕ → ℕ
get_pte virtual_addr = virtual_addr / 2 ^ 12 % 512

-- `x & 0xfffffffffffff000`
abbrev pub frame_of : ℕ → ℕ
frame_of x = x / page_size * page_size

-- A failed allocation is address 0, which is not tested for. `!entry & 1` is `entry == 0`.
unfoldable pub get_next_level : ℕ → ℕ → Vmm → Outcome (ℕ × Vmm)
unfolding read_word write_word slot alloc
get_next_level curr_level entry s = do
  at ←
      slot (if curr_level / 2 ^ 47 == 0 then curr_level + physical_base_address else curr_level)
        entry
  if read_word s.pmm.memory at == 0
      then (do
        r ← alloc 1 s.pmm
        let allocated : ℕ = elim r.0 [ none ↦ 0 | some a ↦ a ]
        let pmm = record (r.1) { memory = write_word r.1.memory at (bit_or allocated 7) }
        tables ← Vector.push_back 0 allocated s.page_tables_addr
        done (
          add64 allocated physical_base_address,
          record s { pmm = pmm; page_tables_addr = tables },
        ))
      else done (add64 (frame_of (read_word s.pmm.memory at)) physical_base_address, s)

-- The word of the last level for an address: what `map_page` and `virtual_to_physical` do alike.
unfoldable pub walk : ℕ → Vmm → Outcome (ℕ × Vmm)
unfolding get_next_level slot get_pml4e get_pdpe get_pde get_pte
walk virt s = do
  pdp ← get_next_level s.m_pml4 (get_pml4e virt) s
  pd ← get_next_level pdp.0 (get_pdpe virt) pdp.1
  pt ← get_next_level pd.0 (get_pde virt) pd.1
  at ← slot pt.0 (get_pte virt)
  done (at, pt.1)

unfoldable pub map_page : ℕ → ℕ → ℕ → Vmm → Outcome Vmm
unfolding walk write_word
map_page virt phys flags s = do
  r ← walk virt s
  done (record (r.1) {
    pmm = record (r.1.pmm) { memory = write_word r.1.pmm.memory r.0 (bit_or phys flags) };
  })

unfoldable pub unmap_page : ℕ → Vmm → Outcome Vmm
unfolding map_page
unmap_page virt s = map_page virt 0 0 s

-- `for (i = 0; i <= length; i += PAGE_SIZE)` from `i` on, with the rounds that are left.
unfoldable pub map_pages : ℕ → ℕ → ℕ → ℕ → ℕ → Vmm → Outcome Vmm
unfolding map_page
map_pages zero i virt phys prot s = done s
map_pages (suc n) i virt phys prot s =
    map_page (add64 virt i) (add64 phys i) (prot % 2 ^ 16) s
    >>= map_pages n (i + page_size) virt phys prot

-- The loop has a round for each multiple of the page size up to the length, that one included.
unfoldable pub map_range_raw : ℕ → ℕ → ℕ → ℕ → Vmm → Outcome Vmm
unfolding map_pages
map_range_raw virt phys length prot s = map_pages (length / page_size + 1) 0 virt phys prot s

unfoldable pub virtual_to_physical : ℕ → Vmm → Outcome (ℕ × Vmm)
unfolding walk read_word
virtual_to_physical virt s = do r ← walk virt s; done (frame_of (read_word r.1.pmm.memory r.0), r.1)
