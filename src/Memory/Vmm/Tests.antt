-- ===== src/Memory/Vmm/Tests.antt =====
-- Mapping and translation by src/kernel/memory/vmm.cpp at small page tables.
use toystar.Prelude.{
  ℕ, ◌+◌, ◌*◌, ◌≡◌, inl, inr, refl, false, bit_or, ◌==◌, ◌||◌, if◌then◌else◌, arith,
}
use toystar.Prelude.Outcome.{done, ◌>>=◌}
use toystar.Klibc.Bitmap.{is_bit_set}
use toystar.Klibc.Vector.{vector, push_back}
use toystar.Memory.Pmm.{physical_base_address}
use toystar.Memory.Vmm.{
  Vmm, read_word, frame_of, get_pml4e, get_pdpe, get_pde, get_pte, get_next_level, map_page,
  map_range_raw, virtual_to_physical,
}
use toystar.Memory.Vmm.Translate.{Names, IsPath, IsOff, virtual_to_physical-map_page}

-- The tables 0x1000, 0x2000, 0x3000 and 0x4000 lead to the addresses from 0x400000 on.
abbrev tables : ℕ → ℕ
tables a =
    if a == 0x1000 || a == 0x2000 || a == 0x3010
    then 7
    else if a == 0x1001
    then 0x20
    else if a == 0x2001
    then 0x30
    else if a == 0x3011
    then 0x40
    else 0

abbrev state : Vmm
state = record {
  pmm = record {
    bitmap = λ i. if i == 0 then 0xFE else 0;
    bitmap_size = 8;
    last_usable_page = 0x40000;
    pmm_lock = false;
    memory = tables;
  };
  m_pml4 = 0x1000 + physical_base_address;
  page_tables_addr = vector;
}

first-Names : Names tables 0x1000 0x2000
unfolding read_word
first-Names = record { present = λ z. omega arith; points = refl; small = omega arith }

second-Names : Names tables 0x2000 0x3000
unfolding read_word
second-Names = record { present = λ z. omega arith; points = refl; small = omega arith }

third-Names : Names tables 0x3010 0x4000
unfolding read_word
third-Names = record { present = λ z. omega arith; points = refl; small = omega arith }

page-IsPath : IsPath state 0x400000 0x1000 0x2000 0x3000 0x4000
unfolding get_pml4e get_pdpe get_pde
page-IsPath = record {
  root = refl;
  low = omega arith;
  first = first-Names;
  second = second-Names;
  third = third-Names;
}

next-IsPath : IsPath state 0x401000 0x1000 0x2000 0x3000 0x4000
unfolding get_pml4e get_pdpe get_pde
next-IsPath = record {
  root = refl;
  low = omega arith;
  first = first-Names;
  second = second-Names;
  third = third-Names;
}

page-IsOff : IsOff (0x4000 + 8 * get_pte 0x400000) 0x400000 0x1000 0x2000 0x3000
unfolding get_pml4e get_pdpe get_pde get_pte
page-IsOff = record {
  first = inr (omega arith);
  second = inr (omega arith);
  third = inr (omega arith);
}

next-IsOff : IsOff (0x4000 + 8 * get_pte 0x400000) 0x401000 0x1000 0x2000 0x3000
unfolding get_pml4e get_pdpe get_pde get_pte
next-IsOff = record {
  first = inr (omega arith);
  second = inr (omega arith);
  third = inr (omega arith);
}

virtual_to_physical-map_page_example :
    (s' : Vmm) × (frame : ℕ) × (map_page 0x400000 0x7000 7 state ≡ done s')
    × (virtual_to_physical 0x400000 s' ≡ done (frame_of (bit_or 0x7000 7), s'))
    × (virtual_to_physical 0x401000 state ≡ done (frame, state))
    × (virtual_to_physical 0x401000 s' ≡ done (frame, s'))
unfolding get_pte
virtual_to_physical-map_page_example =
    virtual_to_physical-map_page 0x400000 0x7000 7 0x1000 0x2000 0x3000 0x4000 0x401000 0x2000
      0x3000 0x4000 state page-IsPath page-IsOff (omega arith) next-IsPath next-IsOff
      (inl (omega arith))

-- Where a table is missing it is allocated: the first free frame is 7.
allocates_test :
    (get_next_level state.m_pml4 1 state >>= λ r. done r.0) ≡ done (0x7000 + physical_base_address)
unfolding get_next_level is_bit_set push_back vector
allocates_test = refl

-- A range of one page maps two pages.
one_page_too_many_test :
    (map_range_raw 0x400000 0x7000 4096 7 state >>= virtual_to_physical 0x401000 >>= λ r. done r.0)
    ≡ done 0x8000
unfolding map_range_raw virtual_to_physical get_pte
one_page_too_many_test = refl
