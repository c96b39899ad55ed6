-- ===== src/Fs/Tmpfs/Grown.antt =====
-- `write` of src/kernel/fs/tmpfs.cpp beyond the end of the file.
use toystar.Prelude.{
  ℕ, ◌+◌, ◌*◌, ◌/◌, ◌^◌, ◌<◌, ◌≤◌, ◌≡◌, refl, true, false, some, ltb, arith, ==_refl,
}
use toystar.Prelude.Outcome.{done}
use toystar.Prelude.Word.{u64_mod, add64, update}
use toystar.Lock.{acquire, release}
use toystar.Klibc.Bitmap.Bits.{AreBytes}
use toystar.Memory.Pmm.{Pmm, page_size, physical_base_address, alloc, free, clear_range}
use toystar.Memory.Pmm.Alloc.{alloc-Allocated}
use toystar.Fs.Vfs.{FsNode, minus_one}
use toystar.Fs.Tmpfs.{Tmpfs, TmpfsNode}
use toystar.Fs.Tmpfs.Calls.{alloc_data}
use toystar.Fs.Tmpfs.Create.{pos-ne}
use toystar.Fs.Tmpfs.Tree.{deref-some}
use toystar.Fs.Tmpfs.Contents.{
  read, write, store, resize, pages_of, physical, copy, access-done, store-done, IsFile,
}

-- The frames that `alloc_data` finds; they lie in what is mapped.
record Given (mapped pages : ℕ) (pmm : Pmm) : Type 0 where
  start : ℕ
  after : Pmm
  given : alloc_data pages pmm ≡ done (physical_base_address + start, after)
  unlocked : after.pmm_lock ≡ false
  below : start + pages * page_size ≤ mapped

alloc_data-Given :
    (mapped pages : ℕ) (pmm after : Pmm) (addr : ℕ)
    → AreBytes pmm.bitmap
    → pmm.pmm_lock ≡ false
    → 0 < pages
    → pmm.bitmap_size * 8 * page_size ≤ mapped
    → mapped < 2 ^ 47
    → alloc pages pmm ≡ done (some addr, after)
    → Given mapped pages pmm
unfolding alloc_data
alloc_data-Given mapped pages pmm after addr bytes unlocked pos le top e =
    let (nonzero, (at, run, inside, bits, zeroed, free, size)) =
      rw e at (alloc-Allocated pages pmm bytes unlocked pos) in
    let fits : addr + pages * page_size ≤ mapped = omega (arith, at, inside) in
    let sum : add64 addr physical_base_address ≡ physical_base_address + addr = omega arith in
    record { start = addr; after = after; given = rw (e, sum); unlocked = free; below = fits }

module _ {st : Tmpfs} {path frame : ℕ} {nd : TmpfsNode} {file : FsNode ℕ}
    (h : IsFile st path frame nd file) where
  -- The state after `resize`.
  resized : (new_size : ℕ) (g : Given st.mapped (pages_of new_size) st.pmm) → Tmpfs
  resized new_size g =
      let new_data = physical_base_address + g.start in
      record st {
        pmm = record g.after {
          memory =
              copy g.after.memory (physical new_data) g.after.memory (physical nd.data_ptr)
                file.size;
          bitmap =
              clear_range (pages_of file.size) (physical nd.data_ptr / page_size) g.after.bitmap;
          pmm_lock = false;
        };
        nodes = update st.nodes file.device_node (some (record nd { data_ptr = new_data }));
      }

  resize-resized :
      (new_size : ℕ) (g : Given st.mapped (pages_of new_size) st.pmm)
      → st.mapped < 2 ^ 47
      → file.size ≤ pages_of new_size * page_size
      → resize file.device_node new_size true st ≡ done (true, resized new_size g)
  unfolding resize free acquire release resized
  resize-resized new_size g top le =
      let room = h.room in
      let lies = h.lies in
      let below = g.below in
      let new_data = physical_base_address + g.start in
      let moved =
        copy g.after.memory (physical new_data) g.after.memory (physical nd.data_ptr) file.size in
      let from : physical nd.data_ptr + file.size ≤ st.mapped = rw h.bytes (omega arith) in
      let to : physical new_data + file.size ≤ st.mapped = omega arith in
      let nonnull : 0 < new_data = omega arith in
      rw
        (
          g.given,
          pos-ne nonnull,
          deref-some st.nodes h.node_there,
          h.own,
          deref-some st.fs_nodes h.file_there,
          access-done st.mapped (physical nd.data_ptr) file.size moved from,
          access-done st.mapped (physical new_data) file.size moved to,
          g.unlocked,
        )
        refl

  node_there-resized :
      (new_size : ℕ) (g : Given st.mapped (pages_of new_size) st.pmm)
      → (resized new_size g).nodes file.device_node
        ≡ some (record nd { data_ptr = physical_base_address + g.start })
  unfolding resized
  node_there-resized new_size g = rw (==_refl file.device_node)

  -- The state after `write`.
  grown :
      (offset size buffer : ℕ) (g : Given st.mapped (pages_of (add64 offset size)) st.pmm) → Tmpfs
  grown offset size buffer g =
      let st' = resized (add64 offset size) g in
      let dest = physical (add64 (physical_base_address + g.start) offset) in
      record st' {
        pmm = record st'.pmm { memory = copy st'.pmm.memory dest st'.buffers buffer size };
      }

  store-resized :
      (offset size buffer : ℕ) (g : Given st.mapped (pages_of (add64 offset size)) st.pmm)
      → physical (add64 (physical_base_address + g.start) offset) + size ≤ st.mapped
      → store file.device_node offset size buffer (resized (add64 offset size) g)
        ≡ done (0, grown offset size buffer g)
  unfolding grown resized
  store-resized offset size buffer g le =
      store-done offset size buffer file.device_node
        (record nd { data_ptr = physical_base_address + g.start }) (resized (add64 offset size) g)
        (rw (==_refl file.device_node)) le

  write-grown :
      (offset size buffer : ℕ) (g : Given st.mapped (pages_of (add64 offset size)) st.pmm)
      → st.mapped < 2 ^ 47
      → file.size < offset + size
      → offset + size + page_size < u64_mod
      → write path offset size buffer st ≡ done (0, grown offset size buffer g)
  unfolding write
  write-grown offset size buffer g top lt no_wrap =
      let beyond : ltb file.size (add64 offset size) ≡ true = ground arith in
      let below = g.below in
      let dest = physical (add64 (physical_base_address + g.start) offset) in
      let to : dest + size ≤ st.mapped = omega arith in
      rw
        (
          deref-some st.fs_nodes h.file_there,
          deref-some st.nodes h.node_there,
          h.own,
          deref-some st.fs_nodes h.file_there,
          beyond,
          resize-resized (add64 offset size) g top (omega arith),
          store-resized offset size buffer g to,
        )
        refl

  read-grown :
      (offset size buffer buffer' : ℕ) (g : Given st.mapped (pages_of (add64 offset size)) st.pmm)
      → ltb file.size (add64 offset size) ≡ true
      → read path offset size buffer' (grown offset size buffer g)
        ≡ done (minus_one, grown offset size buffer g)
  unfolding read grown resized
  read-grown offset size buffer buffer' g beyond =
      rw
        (
          deref-some st.fs_nodes h.file_there,
          deref-some (resized (add64 offset size) g).nodes
              (node_there-resized (add64 offset size) g),
          h.own,
          deref-some st.fs_nodes h.file_there,
          beyond,
        )
        refl

  -- A write beyond the end of the file, for which frames are found, returns 0, but a read of the same
  -- range afterwards returns -1 and gives nothing. The file's bytes lie in the mapping. The frame
  -- allocator's lock is free, its bitmap is made of bytes and its frames lie in what is mapped, which
  -- is less than 2^47 bytes, and the sum of the offset and the size does not come near 2^64.
  pub read-write_grown :
      (offset size buffer buffer' addr : ℕ) (pmm' : Pmm)
      → file.size < offset + size
      → offset + size + page_size < u64_mod
      → AreBytes st.pmm.bitmap
      → st.pmm.pmm_lock ≡ false
      → st.pmm.bitmap_size * 8 * page_size ≤ st.mapped
      → st.mapped < 2 ^ 47
      → alloc (pages_of (offset + size)) st.pmm ≡ done (some addr, pmm')
      → (st' : Tmpfs) × (write path offset size buffer st ≡ done (0, st'))
        × (read path offset size buffer' st' ≡ done (minus_one, st'))
  read-write_grown offset size buffer buffer' addr pmm' lt no_wrap bytes unlocked le top e =
      let sum : add64 offset size ≡ offset + size = omega arith in
      let g =
        alloc_data-Given st.mapped (pages_of (add64 offset size)) st.pmm pmm' addr bytes unlocked
          (omega arith) le top (rw sum e) in
      let beyond : ltb file.size (add64 offset size) ≡ true = ground arith in
      (
        grown offset size buffer g,
        write-grown offset size buffer g top lt no_wrap,
        read-grown offset size buffer buffer' g beyond,
      )
