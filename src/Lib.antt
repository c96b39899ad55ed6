-- ===== src/Lib.antt =====
-- Toystar, a 64-bit hobby kernel in C++: a model of its core and what is proved of it.
--
-- The kernel allocates frames (src/kernel/memory/pmm.cpp) from a bitmap (src/klibc/bitmap.hpp) and
-- heap blocks (src/kernel/memory/heap.cpp) from frames. Containers (src/klibc/vector.hpp,
-- src/klibc/queue.hpp) and strings (src/klibc/strings.cpp) serve the file systems: the mounts
-- (src/kernel/fs/vfs.cpp) and the system calls on descriptors (src/kernel/fs/files.cpp). The
-- keyboard's interrupt handler is src/kernel/drivers/keyboard.cpp. The scheduler
-- (src/kernel/scheduler/scheduler.cpp) keeps its threads in a queue and switches at timer interrupts.
--
-- Which file models what:
--   Prelude   shared names, lists and tests over native numbers; Outcome, how a call ends: `done`,
--             `hang` (a loop without end), `panic` (a call of panic), `fault` (an undefined access, but
--             for two: what `erase` reads behind its array is an argument, see Klibc/Vector, and
--             `reschedule` reads the value of an optional after its end as it was, see Scheduler)
--   Lock      src/kernel/lock.hpp, for one core; Cores: any cores on one lock, their steps interleaved
--   Klibc     Bitmap, Vector, Queue (with src/klibc/optional.hpp), Map, Strings, of the same names, and
--             Itoa, of strings.cpp as well
--   Memory    Pmm: namespace PMM, its globals in the record Pmm, with what `alloc` zeroes in
--             `memory`; Heap: class BuddyAllocator with its bucketList, blocks and heap_lock;
--             Vmm: page tables (src/kernel/memory/vmm.cpp) in the memory of Pmm
--   Fs        Vfs: namespace Vfs; Files: the four `syscall_` functions of files.cpp;
--             Tmpfs: src/kernel/fs/tmpfs.cpp, its nodes a store by address, with the paths; its children
--             Calls: open and mkdir, Contents: resize, read and write, Mounted: init and class tmpfs;
--             Devfs: src/kernel/fs/devfs.cpp
--   Drivers   Keyboard
--   Tables    src/kernel/x86_64/idt.cpp and gdt.cpp: what is in the descriptor tables
--   Apic      src/kernel/x86_64/apic.cpp: the walk over the MADT, and the entries of the I/O APICs
--   Scheduler threads, processes and `reschedule`; Machine: timer interrupts on several cores, one
--             after the other; Tasks: create_process, exit_process, fork, the arguments of a program
-- Definitions stand in the file of the component, theorems in its child modules, runs and examples
-- in the child Tests. Functions keep the source's names; a loop of a function is a function of its
-- own, and the comment above it names the loop.
--
-- Numbers are natural numbers with the wrap-around of 64 bits written out where the source can reach
-- it. A stateful function takes the state and returns the new one. A pointer to a heap object is its
-- address, and 0 is the null pointer. The operators `new` of containers and mounts are taken not to
-- fail. Outside of Lock/Cores and Scheduler/Machine one core is modelled: a lock that is held when it
-- is acquired hangs.
--
-- Bounds. `order_fuel` is 30 rounds: from order 4, a shift of an int is undefined after 28. The search
-- upwards of kmalloc has 21 rounds, more than there are orders. The loops over free lists take the
-- number of rounds as an argument, and `hang` is what lies beyond. So do the loops of path_to_node in
-- tmpfs, for which more than the number of nodes and the length of the path is enough, of the search
-- in devfs, for which more than the number of devices is, and of the walk over the MADT, for which more
-- than the number of entries is. Other loops count down the rounds that their bound leaves.
--
-- Not modelled: copies and the end of a page map, the ramdisk, the ELF loader, other devices, the
-- boot protocol beyond its memory map, and assembly; of the scheduler, what its calls do in page maps,
-- execve, and the start of a program from its file. What the file systems do is the record
-- `Filesystem` of functions for the mounts, which tmpfs fills, and what Vfs::open returns to
-- `syscall_open` is an argument.
pub mod Prelude
pub mod Lock
pub mod Klibc
pub mod Memory
pub mod Fs
pub mod Drivers
pub mod Tables
pub mod Scheduler
pub mod Apic
