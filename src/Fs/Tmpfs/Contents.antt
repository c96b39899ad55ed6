-- ===== src/Fs/Tmpfs/Contents.antt =====
-- `resize`, `read` and `write` of src/kernel/fs/tmpfs.cpp.
use toystar.Prelude.{
  ℕ, ◌+◌, ◌-◌, ◌/◌, ◌<◌, ◌≤◌, ◌≡◌, refl, Bool, true, false, some, ◌==◌, ltb, leb, ◌||◌,
  if◌then◌else◌, arith, Bool-cases, inl, inr,
}
use toystar.Prelude.Outcome.{Outcome, done, fault, ◌>>=◌}
use toystar.Prelude.Word.{u64_mod, add64, sub64, mul64, update}
use toystar.Memory.Pmm
use toystar.Memory.Pmm.{Pmm, page_size, physical_base_address}
use toystar.Memory.Pmm.Search.{within}
use toystar.Fs.Vfs.{FsNode, minus_one}
use toystar.Fs.Tmpfs.{Tmpfs, TmpfsNode, deref}
use toystar.Fs.Tmpfs.Calls.{alloc_data}
use toystar.Fs.Tmpfs.Tree.{deref-some}

-- `p - PHYSICAL_BASE_ADDRESS`
abbrev pub physical : ℕ → ℕ
physical p = sub64 p physical_base_address

-- `memcpy` from one memory to another, or between ranges that do not overlap.
unfoldable pub copy : (ℕ → ℕ) → ℕ → (ℕ → ℕ) → ℕ → ℕ → ℕ → ℕ
copy to dest from src bytes a = if within dest bytes a then from (src + (a - dest)) else to a

-- An access to `size` bytes of physical memory from `a` on. Beyond what is mapped it is a fault.
unfoldable pub access {ℓ} : {A : Type ℓ} → ℕ → ℕ → ℕ → A → Outcome A
access mapped a size result = if size == 0 || leb (a + size) mapped then done result else fault

pub access-done {ℓ} :
    {A : Type ℓ} (mapped a size : ℕ) (result : A)
    → a + size ≤ mapped
    → access mapped a size result ≡ done result
unfolding access
access-done mapped a size result le =
    let inside : leb (a + size) mapped ≡ true = ground arith in
    elim (Bool-cases (size == 0)) [ inl z ↦ rw z | inr z ↦ rw (z, inside) ]

-- `DIV_CEIL(size, PAGE_SIZE)`
abbrev pub pages_of : ℕ → ℕ
pages_of size = add64 size (page_size - 1) / page_size

unfoldable pub resize : ℕ → ℕ → Bool → Tmpfs → Outcome (Bool × Tmpfs)
unfolding deref alloc_data copy access
resize node new_size grow st = do
  let pages = pages_of new_size
  (new_data, pmm) ← alloc_data pages st.pmm
  if new_data == 0 then done (false, record st { pmm = pmm }) else (do
    nd ← deref st.nodes node
    file ← deref st.fs_nodes nd.file
    let size = if grow then file.size else mul64 pages page_size
    let moved = copy pmm.memory (physical new_data) pmm.memory (physical nd.data_ptr) size
    copied ←
        access st.mapped (physical nd.data_ptr) size moved
        >>= access st.mapped (physical new_data) size
    pmm' ← Pmm.free (physical nd.data_ptr) (pages_of file.size) (record pmm { memory = copied })
    let nd' : TmpfsNode = record nd { data_ptr = new_data }
    done (true, record st { pmm = pmm'; nodes = update st.nodes node (some nd') }))

-- The buffer is an address in `buffers`.
unfoldable pub read : ℕ → ℕ → ℕ → ℕ → Tmpfs → Outcome (ℕ × Tmpfs)
unfolding deref copy access
read path offset size buffer st = do
  opened ← deref st.fs_nodes path
  nd ← deref st.nodes opened.device_node
  file ← deref st.fs_nodes nd.file
  if ltb file.size (add64 offset size) then done (minus_one, st) else (do
    let src = physical (add64 nd.data_ptr offset)
    buffers ← access st.mapped src size (copy st.buffers buffer st.pmm.memory src size)
    done (0, record st { buffers = buffers }))

-- The end of `write`, at the node's data.
unfoldable pub store : ℕ → ℕ → ℕ → ℕ → Tmpfs → Outcome (ℕ × Tmpfs)
unfolding deref copy access
store node offset size buffer st = do
  nd ← deref st.nodes node
  let dest = physical (add64 nd.data_ptr offset)
  memory ← access st.mapped dest size (copy st.pmm.memory dest st.buffers buffer size)
  done (0, record st { pmm = record st.pmm { memory = memory } })

pub store-done :
    (offset size buffer node : ℕ) (nd : TmpfsNode) (st : Tmpfs)
    → st.nodes node ≡ some nd
    → physical (add64 nd.data_ptr offset) + size ≤ st.mapped
    → store node offset size buffer st
      ≡ done (
        0,
        record st {
          pmm = record st.pmm {
            memory =
                copy st.pmm.memory (physical (add64 nd.data_ptr offset)) st.buffers buffer size;
          };
        },
      )
unfolding store
store-done offset size buffer node nd st there le =
    let place = physical (add64 nd.data_ptr offset) in
    rw
      (
        deref-some st.nodes there,
        access-done st.mapped place size (copy st.pmm.memory place st.buffers buffer size) le,
      )
      refl

unfoldable pub write : ℕ → ℕ → ℕ → ℕ → Tmpfs → Outcome (ℕ × Tmpfs)
unfolding deref
write path offset size buffer st = do
  opened ← deref st.fs_nodes path
  let node = opened.device_node
  nd ← deref st.nodes node
  file ← deref st.fs_nodes nd.file
  let inside = store node offset size buffer st
  let outside = resize node (add64 offset size) true st >>= λ r.
      if r.0 then store node offset size buffer r.1 else done (minus_one, r.1)
  if ltb file.size (add64 offset size) then outside else inside

-- The file behind a description: its `fs_node` at `path`, its node, and where its bytes are.
pub record IsFile (st : Tmpfs) (path frame : ℕ) (nd : TmpfsNode) (file : FsNode ℕ) : Type 0 where
  pub file_there : st.fs_nodes path ≡ some file
  pub node_there : st.nodes file.device_node ≡ some nd
  pub own : nd.file ≡ path
  pub bytes : nd.data_ptr ≡ physical_base_address + frame
  pub room : physical_base_address + frame + file.size < u64_mod
  pub lies : frame + file.size ≤ st.mapped

-- The byte of the file at `i`.
abbrev pub byte_at : Tmpfs → ℕ → ℕ → ℕ
byte_at st frame i = st.pmm.memory (frame + i)

module _ {st : Tmpfs} {path frame : ℕ} {nd : TmpfsNode} {file : FsNode ℕ}
    (h : IsFile st path frame nd file) where
  physical-data :
      (offset : ℕ) → offset ≤ file.size → physical (add64 nd.data_ptr offset) ≡ frame + offset
  physical-data offset le = let room = h.room in rw h.bytes (omega arith)

  pub read-inside :
      (offset size buffer : ℕ)
      → offset + size ≤ file.size
      → read path offset size buffer st
        ≡ done
            (0, record st { buffers = copy st.buffers buffer st.pmm.memory (frame + offset) size })
  unfolding read
  read-inside offset size buffer le =
      let room = h.room in
      let lies = h.lies in
      let inside : frame + offset + size ≤ st.mapped = omega arith in
      let fits : ltb file.size (add64 offset size) ≡ false = ground arith in
      rw
        (
          deref-some st.fs_nodes h.file_there,
          deref-some st.nodes h.node_there,
          h.own,
          deref-some st.fs_nodes h.file_there,
          fits,
          physical-data offset (omega arith),
          access-done st.mapped (frame + offset) size
              (copy st.buffers buffer st.pmm.memory (frame + offset) size) inside,
        )
        refl

  pub write-inside :
      (offset size buffer : ℕ)
      → offset + size ≤ file.size
      → write path offset size buffer st
        ≡ done (
          0,
          record st {
            pmm = record st.pmm {
              memory = copy st.pmm.memory (frame + offset) st.buffers buffer size;
            };
          },
        )
  unfolding write store
  write-inside offset size buffer le =
      let room = h.room in
      let lies = h.lies in
      let inside : frame + offset + size ≤ st.mapped = omega arith in
      let fits : ltb file.size (add64 offset size) ≡ false = ground arith in
      rw
        (
          deref-some st.fs_nodes h.file_there,
          deref-some st.nodes h.node_there,
          h.own,
          deref-some st.fs_nodes h.file_there,
          fits,
          physical-data offset (omega arith),
          access-done st.mapped (frame + offset) size
              (copy st.pmm.memory (frame + offset) st.buffers buffer size) inside,
        )
        refl
