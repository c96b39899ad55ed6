-- ===== src/Memory.antt =====
-- src/kernel/memory: frames, the kernel heap and page tables.
pub mod Pmm
pub mod Heap
pub mod Vmm
