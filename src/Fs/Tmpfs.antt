-- ===== src/Fs/Tmpfs.antt =====
-- src/kernel/fs/tmpfs.cpp and tmpfs.hpp: the file system in memory.
--
-- `nodes`, `fs_nodes` and `descriptions` have what lies at each address of the kernel heap, none where
-- no object is alive; 0 is the null pointer, and an access to no object is a fault. Where the code
-- says `new`, the address that it gives is an argument. A name is its characters: the code keeps the
-- caller's pointer, so this holds as long as the caller leaves its path unchanged.
pub mod Tree
pub mod Within
pub mod Walk
pub mod Calls
pub mod Create
pub mod Created
pub mod NewNames
pub mod Opens
pub mod Mkdir
pub mod Start
pub mod Keeps
pub mod Contents
pub mod Transfer
pub mod Grown
pub mod Mounted
mod Tests
use toystar.Prelude.{
  ℕ, zero, suc, ◌+◌, ◌-◌, ◌*◌, ◌%◌, Bool, true, false, ◌||◌, ◌&&◌, not, Option, none, some, [], ◌∷◌,
  ◌==◌, ltb, leb, if◌then◌else◌, drop,
}
use toystar.Prelude.Outcome.{Outcome, done, hang, fault, ◌>>=◌}
use toystar.Prelude.Word.{add64, sub64, mul64, update}
use toystar.Klibc.Strings.{CString, char_at, strlen, strncmp, strcmp}
use toystar.Memory.Pmm
use toystar.Memory.Pmm.{Pmm, page_size, physical_base_address, div_ceil}
use toystar.Fs.Vfs.{FsNode, new_fs_node, slash, minus_one}
use toystar.Fs.Files.{FileDescription}

-- `tmpfs_node`
pub record TmpfsNode : Type 0 where
  pub file : ℕ
  pub data_ptr : ℕ
  pub next : ℕ
  pub parent : ℕ
  pub children : ℕ

-- The objects on the heap, the global variables, the frames, how many bytes of physical memory are
-- mapped at PHYSICAL_BASE_ADDRESS, and the memory in which the buffers of the callers lie, apart from
-- the frames.
pub record Tmpfs : Type 0 where
  pub nodes : ℕ → Option TmpfsNode
  pub fs_nodes : ℕ → Option (FsNode ℕ)
  pub descriptions : ℕ → Option FileDescription
  pub root_tmpfs_node : ℕ
  pub tmp_filesystem : ℕ
  pub pmm : Pmm
  pub mapped : ℕ
  pub buffers : ℕ → ℕ

-- What `new` gives: a node, with the bytes that `data` has before it is set, its `fs_node`, and a
-- description.
pub record Fresh : Type 0 where
  pub node : ℕ
  pub node_data : ℕ
  pub fs_node : ℕ
  pub description : ℕ

-- `Vfs::FileType` and `Vfs::Modes::CREATE`
abbrev pub file_type : ℕ
file_type = 0

abbrev pub directory_type : ℕ
directory_type = 1

abbrev pub is_create : ℕ → Bool
is_create mode = not (mode % 2 == 0)

abbrev pub dot : ℕ
dot = 46

-- `p->...`
unfoldable pub deref {ℓ} : {A : Type ℓ} → (ℕ → Option A) → ℕ → Outcome A
deref heap p = elim (heap p) [ none ↦ fault | some a ↦ done a ]

-- The writes to the object that `new` gave.
abbrev pub put {ℓ} : {A : Type ℓ} → (ℕ → Option A) → ℕ → A → Outcome (ℕ → Option A)
put heap p a = if p == 0 then fault else done (update heap p (some a))

unfoldable pub tmpfs : Fresh → Tmpfs → Outcome Tmpfs
unfolding new_fs_node
tmpfs fresh st = do
  let file = new_fs_node (slash ∷ []) 0 0 directory_type fresh.node 0 st.tmp_filesystem
  let root : TmpfsNode = record {
    file = fresh.fs_node;
    data_ptr = fresh.node_data;
    next = 0;
    parent = 0;
    children = 0;
  }
  fs_nodes ← put st.fs_nodes fresh.fs_node file
  nodes ← put st.nodes fresh.node root
  done (record st { nodes = nodes; fs_nodes = fs_nodes; root_tmpfs_node = fresh.node })

-- The loop of `get_name_from_path`: what follows the last slash that is not at the end.
unfoldable pub after_slash : CString → CString → CString
after_slash name [] = name
after_slash name (c ∷ path) =
    let here = after_slash path path in
    let rest = after_slash name path in
    if c == 0 then name else if (c == slash) && not (char_at path 0 == 0) then here else rest

unfoldable pub get_name_from_path : CString → CString
unfolding after_slash
get_name_from_path path = after_slash path path

-- The first loop of `path_to_node`, over `./` and `../`. `none`: the function returns a null pointer.
unfoldable pub climb : ℕ → Tmpfs → CString → ℕ → Outcome (Option (CString × ℕ))
unfolding deref
climb zero st path node = hang
climb (suc n) st path node =
    let up = deref st.nodes node >>= λ nd. climb n st (drop 3 path) nd.parent in
    let stay = climb n st (drop 2 path) node in
    if not (char_at path 0 == dot) || (node == 0)
    then done (some (path, node))
    else if char_at path 1 == dot
    then (if not (char_at path 2 == slash) then done none else up)
    else if not (char_at path 1 == slash)
    then done none
    else stay

-- How the second loop ends: with a `return`, or with what is left of the path, below `node`.
pub data WalkEnd : Type 0 where
  returned : ℕ → WalkEnd
  left : CString → ℕ → WalkEnd

unfoldable pub walk : ℕ → Tmpfs → CString → ℕ → ℕ → Outcome WalkEnd
unfolding deref
walk zero st path head node = hang
walk (suc n) st path head node =
    if (head == 0) || (char_at path 0 == 0) then done (left path node) else (do
      here ← deref st.nodes head
      file ← deref st.fs_nodes here.file
      let len = strlen file.name
      let further = walk n st path here.next node
      let below = walk n st (drop (len + 1) path) here.children head
      if strncmp file.name path len
          then (if not (char_at path len == slash) && not (char_at path len == 0)
              then further
              else if char_at path len == 0
              then done (returned head)
              else below)
          else further)

-- The last loop: whether more than one slash, not at the end, is left.
unfoldable pub too_deep : ℕ → CString → Bool
too_deep count [] = false
too_deep count (c ∷ path) =
    let one_more = too_deep (count + 1) path in
    let rest = too_deep count path in
    if c == 0
    then false
    else if (c == slash) && not (char_at path 0 == 0)
    then (if ltb 1 (count + 1) then true else one_more)
    else rest

unfoldable pub finish : WalkEnd → ℕ
unfolding too_deep
finish (returned node) = node
finish (left path node) = if too_deep 0 path then 0 else node

-- Without the test `path == "/"`, which compares pointers: it can hold for that path only, for which
-- the rest returns the root as well.
unfoldable pub path_to_node : ℕ → Tmpfs → CString → ℕ → Outcome ℕ
unfolding deref climb walk finish
path_to_node fuel st path curr_dir = do
  root ← deref st.nodes st.root_tmpfs_node
  if not (char_at path 0 == slash)
      then (if curr_dir == 0 then done 0 else (do
        start ← climb fuel st path curr_dir
        elim start [
          | none ↦ done 0
          | some (rest, node) ↦ if node == 0 then done 0 else (do
            nd ← deref st.nodes node
            end ← walk fuel st rest nd.children node
            done (finish end))
        ]))
      else (do end ← walk fuel st (drop 1 path) root.children st.root_tmpfs_node; done (finish end))
