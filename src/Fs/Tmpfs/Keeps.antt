-- ===== src/Fs/Tmpfs/Keeps.antt =====
-- The calls of src/kernel/fs/tmpfs.cpp keep the nodes a tree.
use toystar.Prelude.{
  ℕ, ◌<◌, ◌≡◌, refl, inl, inr, true, false, ◌||◌, not, some, ◌==◌, length, Bool-cases,
}
use toystar.Prelude.Outcome.{Outcome, done}
use toystar.Klibc.Strings.{CString, strcmp}
use toystar.Klibc.Strings.Compare.{IsText}
use toystar.Memory.Pmm.{Pmm}
use toystar.Fs.Vfs.{FsNode, new_fs_node, minus_one}
use toystar.Fs.Tmpfs.{
  Tmpfs, TmpfsNode, Fresh, is_create, file_type, directory_type, get_name_from_path, path_to_node,
}
use toystar.Fs.Tmpfs.Calls.{open_file, mkdir, directory_of}
use toystar.Fs.Tmpfs.Tree.{Dir, size, Has, whole, IsTree, deref-some}
use toystar.Fs.Tmpfs.Walk.{IsNode, path_to_node-IsNode}
use toystar.Fs.Tmpfs.Within.{within}
use toystar.Fs.Tmpfs.Create.{graft, grow, IsFresh, linked, link_child-linked, Lies-linked, pos-ne}
use toystar.Fs.Tmpfs.Opens.{
  new_file, new_directory, described, describe-described, alloc_data-done, Lies-else,
}
use toystar.Fs.Tmpfs.NewNames.{Has-pos}
use toystar.Fs.Tmpfs.Start.{get_name_from_path-IsText}

-- No directory, or one of the tree.
abbrev pub IsWorkingDir : Tmpfs → Dir → ℕ → Type 0
IsWorkingDir st d working_dir =
    (dir : ℕ) × (directory_of st working_dir ≡ done dir) × IsNode st d dir

-- The call returns, and leaves a tree.
abbrev KeepsTree : Outcome (ℕ × Tmpfs) → Type 0
KeepsTree o = (r : ℕ) × (st' : Tmpfs) × (d' : Dir) × (o ≡ done (r, st')) × IsTree st' d'

IsFresh-else :
    (st : Tmpfs) (pmm : Pmm) (fresh : Fresh)
    → IsFresh st fresh
    → IsFresh (record st { pmm = pmm }) fresh
IsFresh-else st pmm fresh f = record {
  node_pos = f.node_pos;
  fs_node_pos = f.fs_node_pos;
  description_pos = f.description_pos;
  node_free = f.node_free;
  fs_node_free = f.fs_node_free;
}

module _ (st : Tmpfs) (d : Dir) (tree : IsTree st d) where
  linked-IsTree :
      (fresh : Fresh) (file : FsNode ℕ) (bytes p : ℕ) (above : TmpfsNode)
      → IsFresh st fresh
      → st.nodes p ≡ some above
      → IsText file.name
      → file.device_node ≡ fresh.node
      → IsTree
          (linked fresh file bytes p above st)
          (grow p file.name fresh.node st.root_tmpfs_node d)
  linked-IsTree fresh file bytes p above f at text device =
      Lies-linked fresh file bytes p above st f at text device (whole st d) 0 st.root_tmpfs_node
        tree

  module _ (fuel : ℕ) (fresh : Fresh) (working_dir : ℕ) (path : CString) (f : IsFresh st fresh)
      (w : IsWorkingDir st d working_dir) (text : IsText path) (lt : size (whole st d) < fuel)
      (long : length path < fuel) where
    -- On a tree `mkdir` returns, whatever the path is, and the nodes are a tree again. The working
    -- directory is none or one of the tree; what `new` gives is not in use; and the fuel is above the
    -- number of nodes and the length of the path.
    pub mkdir-IsTree :
        (r : ℕ) × (st' : Tmpfs) × (d' : Dir) × (mkdir fuel fresh working_dir path st
          ≡ done (r, st'))
        × IsTree st' d'
    unfolding mkdir new_fs_node
    mkdir-IsTree =
        let (dir, at_dir, is_dir) = w in
        let (p, e, at) = path_to_node-IsNode fuel st d path dir tree is_dir lt long in
        elim at [
          | inl z ↦ (minus_one, st, d, rw (at_dir, e, z), tree)
          | inr has ↦
              let n = within st 0 st.root_tmpfs_node (whole st d) p tree has in
              let name = get_name_from_path path in
              let pos = Has-pos st 0 st.root_tmpfs_node (whole st d) p tree has in
              elim (Bool-cases (strcmp name n.file.name)) [
                | inl b ↦ (
                  minus_one,
                  st,
                  d,
                  rw (
                    at_dir,
                    e,
                    pos-ne pos,
                    deref-some st.nodes n.node_lies,
                    deref-some st.fs_nodes n.file_lies,
                    b,
                  ),
                  tree,
                )
                | inr b ↦ (
                  0,
                  linked fresh (new_directory fresh name n.node st) fresh.node_data p n.node st,
                  grow p name fresh.node st.root_tmpfs_node d,
                  rw
                      (
                        at_dir,
                        e,
                        pos-ne pos,
                        deref-some st.nodes n.node_lies,
                        deref-some st.fs_nodes n.file_lies,
                        b,
                        link_child-linked fresh (new_directory fresh name n.node st) fresh.node_data
                            p n.node st f pos n.node_lies,
                      )
                      refl,
                  linked-IsTree fresh (new_directory fresh name n.node st) fresh.node_data p n.node
                      f n.node_lies (get_name_from_path-IsText path text) refl,
                )
              ]
        ]

    -- `open` with CREATE where the path leads to a node.
    open_file-new :
        (mode p : ℕ)
        → is_create mode ≡ true
        → st.pmm.pmm_lock ≡ false
        → path_to_node fuel st path w.0 ≡ done p
        → Has p (whole st d)
        → KeepsTree (open_file fuel fresh working_dir path mode st)
    unfolding open_file new_fs_node
    open_file-new mode p create free e has =
        let (bytes, pmm, given) = alloc_data-done 1 st.pmm free in
        let n = within st 0 st.root_tmpfs_node (whole st d) p tree has in
        let name = get_name_from_path path in
        let made = new_file fresh name n.node st in
        let pos = Has-pos st 0 st.root_tmpfs_node (whole st d) p tree has in
        let node_there = deref-some st.nodes n.node_lies in
        let file_there = deref-some st.fs_nodes n.file_lies in
        let linked_st : Tmpfs = record (linked fresh made bytes p n.node st) { pmm = pmm } in
        let linking =
          link_child-linked fresh made bytes p n.node (record st { pmm = pmm })
            (IsFresh-else st pmm fresh f) pos n.node_lies in
        elim (Bool-cases (strcmp name n.file.name || not (n.file.ty == directory_type))) [
          | inl b ↦ (0, st, d, rw (w.1, e, pos-ne pos, node_there, file_there, create, b), tree)
          | inr b ↦ (
            fresh.description,
            described fresh fresh.fs_node mode linked_st,
            grow p name fresh.node st.root_tmpfs_node d,
            rw
                (
                  w.1,
                  e,
                  pos-ne pos,
                  node_there,
                  file_there,
                  create,
                  b,
                  given,
                  linking,
                  describe-described fresh fresh.fs_node mode linked_st f.description_pos,
                )
                refl,
            Lies-else (linked fresh made bytes p n.node st) pmm
                (described fresh fresh.fs_node mode st).descriptions 0 st.root_tmpfs_node
                (graft p name fresh.node (whole st d))
                (linked-IsTree fresh made bytes p n.node f n.node_lies
                  (get_name_from_path-IsText path text) refl),
          )
        ]

    -- `open` without CREATE where the path leads to a node.
    open_file-old :
        (mode p : ℕ)
        → is_create mode ≡ false
        → path_to_node fuel st path w.0 ≡ done p
        → Has p (whole st d)
        → KeepsTree (open_file fuel fresh working_dir path mode st)
    unfolding open_file
    open_file-old mode p plain e has =
        let n = within st 0 st.root_tmpfs_node (whole st d) p tree has in
        let name = get_name_from_path path in
        let pos = Has-pos st 0 st.root_tmpfs_node (whole st d) p tree has in
        let node_there = deref-some st.nodes n.node_lies in
        let file_there = deref-some st.fs_nodes n.file_lies in
        elim (Bool-cases (not (strcmp name n.file.name) || not (n.file.ty == file_type))) [
          | inl b ↦ (0, st, d, rw (w.1, e, pos-ne pos, node_there, file_there, plain, b), tree)
          | inr b ↦ (
            fresh.description,
            described fresh n.node.file mode st,
            d,
            rw
                (
                  w.1,
                  e,
                  pos-ne pos,
                  node_there,
                  file_there,
                  plain,
                  b,
                  describe-described fresh n.node.file mode st f.description_pos,
                )
                refl,
            Lies-else st st.pmm (described fresh n.node.file mode st).descriptions 0
                st.root_tmpfs_node (whole st d) tree,
          )
        ]

    -- On a tree `open` returns, whatever the path and the mode are, and the nodes are a tree again,
    -- where the frame allocator's lock is free, the working directory is none or one of the tree,
    -- what `new` gives is not in use, and the fuel is above the number of nodes and the length of the
    -- path.
    pub open_file-IsTree :
        (mode : ℕ)
        → st.pmm.pmm_lock ≡ false
        → (r : ℕ) × (st' : Tmpfs) × (d' : Dir) × (open_file fuel fresh working_dir path mode st
            ≡ done (r, st'))
          × IsTree st' d'
    unfolding open_file
    open_file-IsTree mode free =
        let (p, e, at) = path_to_node-IsNode fuel st d path w.0 tree w.2 lt long in
        elim at [
          | inl z ↦ (0, st, d, rw (w.1, e, z), tree)
          | inr has ↦ elim (Bool-cases (is_create mode)) [
            | inl create ↦ open_file-new mode p create free e has
            | inr plain ↦ open_file-old mode p plain e has
          ]
        ]
