-- ===== src/Fs/Vfs.antt =====
-- src/kernel/fs/vfs.cpp and vfs.hpp: the mounts. `print_nodes`, which only prints, is not modelled,
-- and nor are the parent pointers, which only it reads.
pub mod Names
pub mod Resolve
pub mod Mount
mod Tests
use toystar.Prelude.{
  ℕ, zero, suc, ◌+◌, ◌-◌, ◌^◌, ◌%◌, Bool, true, false, ◌||◌, ◌&&◌, not, Option, none, some, List,
  [], ◌∷◌, ◌==◌, if◌then◌else◌, drop, Option-cases,
}
use toystar.Prelude.Outcome.{Outcome, done, fault, ◌>>=◌}
use toystar.Lock.{LockT, acquire, release}
use toystar.Klibc.Vector
use toystar.Klibc.Vector.{Vector}
use toystar.Klibc.Strings.{CString, char_at, strlen, strncmp, strcmp}

-- `fs_node` without `link`, which nothing sets. Pointers are numbers, 0 is none.
pub record FsNode (F : Type 0) : Type 0 where
  pub name : CString
  pub size : ℕ
  pub permissions : ℕ
  pub ty : ℕ
  pub device_node : ℕ
  pub parent : ℕ
  pub fs : F

-- The virtual functions of `filesystem`, on the state `S` of the implementations.
pub record Filesystem (S : Type 0) : Type 0 where
  pub get_name : CString
  pub open_file : ℕ → CString → ℕ → S → ℕ × S
  pub read_file : ℕ → ℕ → ℕ → ℕ → S → ℕ × S
  pub write_file : ℕ → ℕ → ℕ → ℕ → S → ℕ × S
  pub make_directory : ℕ → CString → S → ℕ × S

-- A list of `node`s: `null`, or a node with its `name`, `fs`, `children` and `next`.
pub data Node (F : Type 0) : Type 0 where
  null : Node F
  node : CString → F → Node F → Node F → Node F

abbrev pub slash : ℕ
slash = 47

abbrev pub minus_one : ℕ
minus_one = 2 ^ 64 - 1

-- `vfs_root_node`, `fses` and `vfs_lock`.
pub record Vfs (S : Type 0) : Type 0 where
  pub vfs_root_node : Node (Filesystem S)
  pub fses : Vector (Filesystem S)
  pub vfs_lock : LockT

module _ {S : Type 0} where
  unfoldable pub add_fs : Filesystem S → Filesystem S → Vfs S → Outcome (Vfs S)
  add_fs blank fs v = do
    held ← acquire v.vfs_lock
    fses ← Vector.push_back blank fs v.fses
    done (record v { fses = fses; vfs_lock = release held })

  -- `for (i = 0; i < fses.size(); i++)`, with the rounds that are left.
  unfoldable pub find_fs : ℕ → ℕ → CString → Vector (Filesystem S) → Outcome (Option (Filesystem S))
  find_fs zero i source fses = done none
  find_fs (suc n) i source fses =
      let rest = find_fs n (i + 1) source fses in
      Vector.at fses i >>= λ fs. if strcmp fs.get_name source then done (some fs) else rest

  -- The loop of `mount` over a list of nodes. `none`: it went into no node of this list. Otherwise
  -- the list with the new node below the node that it went into.
  unfoldable pub descend :
      Filesystem S → CString → Node (Filesystem S) → Option (Node (Filesystem S))
  descend fs target null = none
  descend fs target (node name f children next) =
      let len = strlen name in
      let below = descend fs (drop len target) children in
      let further = descend fs target next in
      if char_at target 0 == 0
      then none
      else if strncmp name target len
          && ((char_at target len == slash) || (char_at target len == 0))
      then elim below [
        | none ↦ some (node name f (node (drop len target) fs null children) next)
        | some made ↦ some (node name f made next)
      ]
      else elim further [ none ↦ none | some made ↦ some (node name f children made) ]

  -- The new node becomes the first child of the node that the loop ended at.
  unfoldable pub attach : Filesystem S → CString → Node (Filesystem S) → Node (Filesystem S)
  unfolding descend
  attach fs target children = elim (descend fs target children) [
    | none ↦ node target fs null children
    | some made ↦ made
  ]

  unfoldable pub mount : CString → CString → Vfs S → Outcome (Bool × Vfs S)
  unfolding find_fs attach
  mount source target v = do
    held ← acquire v.vfs_lock
    found ← find_fs v.fses.m_capacity 0 source v.fses
    elim found [
      | none ↦ done (false, record v { vfs_lock = release held })
      | some fs ↦ elim v.vfs_root_node [
        | null ↦
            done
              (true, record v { vfs_root_node = node target fs null null; vfs_lock = release held })
        | node name f children next ↦ done (
          true,
          record v {
            vfs_root_node = node name f (attach fs target children) next;
            vfs_lock = release held;
          },
        )
      ]
    ]

  -- The loop of `get_absolute_path`: the file system of `parent`, and what is left of the path.
  unfoldable pub resolve : Filesystem S → CString → Node (Filesystem S) → Filesystem S × CString
  resolve fs path null = (fs, path)
  resolve fs path (node name f children next) =
      let len = strlen name in
      let below = resolve f (drop len path) children in
      let further = resolve fs path next in
      if strncmp name path len
      then (if not (char_at path len == slash) then further else below)
      else further

  -- It reads the root's children without a test that there is a root.
  unfoldable pub get_absolute_path : Vfs S → CString → Outcome (Filesystem S × CString)
  unfolding resolve
  get_absolute_path v vfs_path = elim v.vfs_root_node [
    | null ↦ fault
    | node name f children next ↦ done (resolve f vfs_path children)
  ]

  module _ (nodes : ℕ → FsNode (Filesystem S)) where
    unfoldable pub open_path : Vfs S → ℕ → CString → ℕ → S → Outcome (ℕ × S)
    unfolding get_absolute_path
    open_path v working_dir path mode s =
        if not (char_at path 0 == slash)
        then done ((nodes working_dir).fs.open_file working_dir path mode s)
        else (get_absolute_path v path >>= λ r. done (r.0.open_file 0 r.1 mode s))

    unfoldable pub read : ℕ → ℕ → ℕ → ℕ → S → ℕ × S
    read path offset size buffer s = (nodes path).fs.read_file path offset size buffer s

    unfoldable pub write : ℕ → ℕ → ℕ → ℕ → S → ℕ × S
    write path offset size buffer s = (nodes path).fs.write_file path offset size buffer s

    unfoldable pub mkdir : Vfs S → ℕ → CString → S → Outcome (ℕ × S)
    unfolding get_absolute_path
    mkdir v working_dir path s =
        if not (char_at path 0 == slash)
        then done ((nodes working_dir).fs.make_directory working_dir path s)
        else (get_absolute_path v path >>= λ r. done (r.0.make_directory 0 r.1 s))

-- `new_fs_node`
unfoldable pub new_fs_node : {F : Type 0} → CString → ℕ → ℕ → ℕ → ℕ → ℕ → F → FsNode F
new_fs_node name size permi ty dn parent fs = record {
  name = name;
  size = size;
  permissions = permi % 256;
  ty = ty % 256;
  device_node = dn;
  parent = parent;
  fs = fs;
}
