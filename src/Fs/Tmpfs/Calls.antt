-- ===== src/Fs/Tmpfs/Calls.antt =====
-- `open` and `mkdir` of src/kernel/fs/tmpfs.cpp.
use toystar.Prelude.{ℕ, ◌||◌, not, none, some, ◌==◌, if◌then◌else◌}
use toystar.Prelude.Outcome.{Outcome, done, ◌>>=◌}
use toystar.Prelude.Word.{add64}
use toystar.Klibc.Strings.{CString, strcmp}
use toystar.Memory.Pmm
use toystar.Memory.Pmm.{Pmm, physical_base_address}
use toystar.Fs.Vfs.{FsNode, new_fs_node, minus_one}
use toystar.Fs.Files.{FileDescription}
use toystar.Fs.Tmpfs.{
  Tmpfs, TmpfsNode, Fresh, deref, put, file_type, directory_type, is_create, path_to_node,
  get_name_from_path,
}

-- `(working_dir != nullptr) ? working_dir->device_node : nullptr`
abbrev pub directory_of : Tmpfs → ℕ → Outcome ℕ
directory_of st working_dir =
    if working_dir == 0
    then done 0
    else (deref st.fs_nodes working_dir >>= λ file. done file.device_node)

-- A new node with its `fs_node`, as the first child of `parent`; `parent_file` is `parent->file`.
unfoldable pub link_child : Fresh → FsNode ℕ → ℕ → ℕ → Tmpfs → Outcome Tmpfs
unfolding deref
link_child fresh file bytes parent st = do
  fs_nodes ← put st.fs_nodes fresh.fs_node file
  above ← deref st.nodes parent
  let made : TmpfsNode = record {
    file = fresh.fs_node;
    data_ptr = bytes;
    next = above.children;
    parent = parent;
    children = 0;
  }
  nodes ← put st.nodes fresh.node made
  nodes' ← put nodes parent (record above { children = fresh.node })
  done (record st { nodes = nodes'; fs_nodes = fs_nodes })

-- `new file_description`, and its address.
unfoldable pub describe : Fresh → ℕ → ℕ → Tmpfs → Outcome (ℕ × Tmpfs)
describe fresh file mode st = do
  let fd : FileDescription = record { file = file; mode = mode; offset = 0 }
  descriptions ← put st.descriptions fresh.description fd
  done (fresh.description, record st { descriptions = descriptions })

-- `PMM::alloc(pages) + PHYSICAL_BASE_ADDRESS`, also where the allocator returns a null pointer.
unfoldable pub alloc_data : ℕ → Pmm → Outcome (ℕ × Pmm)
alloc_data pages pmm = do
  (frame, pmm') ← Pmm.alloc pages pmm
  done (add64 (elim frame [ none ↦ 0 | some addr ↦ addr ]) physical_base_address, pmm')

unfoldable pub open_file : ℕ → Fresh → ℕ → CString → ℕ → Tmpfs → Outcome (ℕ × Tmpfs)
unfolding deref
open_file fuel fresh working_dir path mode st = do
  wdir ← directory_of st working_dir
  node ← path_to_node fuel st path wdir
  if node == 0 then done (0, st) else (do
    nd ← deref st.nodes node
    file ← deref st.fs_nodes nd.file
    let name = get_name_from_path path
    if is_create mode
        then (if strcmp name file.name || not (file.ty == directory_type) then done (0, st) else (do
          (bytes, pmm) ← alloc_data 1 st.pmm
          let new_file = new_fs_node name 4096 0 file_type fresh.node nd.file st.tmp_filesystem
          st' ← link_child fresh new_file bytes node (record st { pmm = pmm })
          describe fresh fresh.fs_node mode st'))
        else (if not (strcmp name file.name) || not (file.ty == file_type)
            then done (0, st)
            else describe fresh nd.file mode st))

unfoldable pub mkdir : ℕ → Fresh → ℕ → CString → Tmpfs → Outcome (ℕ × Tmpfs)
unfolding deref
mkdir fuel fresh working_dir path st = do
  wdir ← directory_of st working_dir
  node ← path_to_node fuel st path wdir
  if node == 0 then done (minus_one, st) else (do
    nd ← deref st.nodes node
    file ← deref st.fs_nodes nd.file
    let name = get_name_from_path path
    if strcmp name file.name then done (minus_one, st) else (do
      let dir = new_fs_node name 0 0 directory_type fresh.node nd.file st.tmp_filesystem
      st' ← link_child fresh dir fresh.node_data node st
      done (0, st')))
