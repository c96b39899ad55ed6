-- ===== src/Fs/Tmpfs/Mkdir.antt =====
-- `mkdir` of src/kernel/fs/tmpfs.cpp on a path whose directory exists.
use toystar.Prelude.{ℕ, ◌<◌, ◌≡◌, refl, true, ◌∷◌, ==_refl, some}
use toystar.Prelude.Outcome.{done}
use toystar.Klibc.Strings.{CString, strcmp}
use toystar.Klibc.Strings.Compare.{strcmp_iff}
use toystar.Fs.Vfs.{FsNode, new_fs_node, slash, minus_one}
use toystar.Fs.Tmpfs.{Tmpfs, TmpfsNode, Fresh, finish}
use toystar.Fs.Tmpfs.Calls.{mkdir, link_child}
use toystar.Fs.Tmpfs.Tree.{Dir, size, whole, IsTree, deref-some}
use toystar.Fs.Tmpfs.Within.{path_to_node-absolute}
use toystar.Fs.Tmpfs.Create.{grow, IsFresh, linked, Lies-linked, linked_new, pos-ne}
use toystar.Fs.Tmpfs.Opens.{new_directory, look-with_file}
use toystar.Fs.Tmpfs.NewNames.{IsNewIn, parent_pos, path_to_node-parent}

module _ {st : Tmpfs} {d : Dir} {path name : CString} {p : ℕ} {above : TmpfsNode} {file : FsNode ℕ}
    (h : IsNewIn st d path name p above file) (fresh : Fresh) (f : IsFresh st fresh) where
  mkdir-linked :
      (fuel : ℕ)
      → size d < fuel
      → mkdir fuel fresh 0 (slash ∷ path) st
        ≡ done (0, linked fresh (new_directory fresh name above st) fresh.node_data p above st)
  unfolding mkdir link_child new_fs_node
  mkdir-linked fuel lt =
      rw
        (
          path_to_node-parent h fuel 0 lt,
          pos-ne (parent_pos h),
          deref-some st.nodes h.there,
          deref-some st.fs_nodes h.file_there,
          h.last,
          h.other_name,
          pos-ne f.fs_node_pos,
          pos-ne f.node_pos,
        )
        refl

  linked-IsTree :
      IsTree
        (linked fresh (new_directory fresh name above st) fresh.node_data p above st)
        (grow p name fresh.node st.root_tmpfs_node d)
  unfolding new_fs_node
  linked-IsTree =
      Lies-linked fresh (new_directory fresh name above st) fresh.node_data p above st f h.there
        h.text refl (whole st d) 0 st.root_tmpfs_node h.tree

  mkdir-linked_again :
      (fuel : ℕ) (fresh' : Fresh)
      → size (grow p name fresh.node st.root_tmpfs_node d) < fuel
      → let st' = linked fresh (new_directory fresh name above st) fresh.node_data p above st in
        mkdir fuel fresh' 0 (slash ∷ path) st' ≡ done (minus_one, st')
  unfolding mkdir new_fs_node finish
  mkdir-linked_again fuel fresh' lt =
      let made = new_directory fresh name above st in
      let st' = linked fresh made fresh.node_data p above st in
      let file_there : st'.fs_nodes fresh.fs_node ≡ some made = rw (==_refl fresh.fs_node) in
      let same : strcmp name name ≡ true = (strcmp_iff name name h.text h.text).1 refl in
      rw
        (
          path_to_node-absolute fuel st' (grow p name fresh.node st.root_tmpfs_node d) path 0
              linked-IsTree lt,
          look-with_file h fresh f,
          pos-ne f.node_pos,
          deref-some st'.nodes (linked_new fresh made fresh.node_data p above st f h.there),
          deref-some st'.fs_nodes file_there,
          h.last,
          same,
        )
        refl

  -- `mkdir` on a path whose directory is in the tree and has another name, where only the new name is
  -- left of the path: it returns 0, and the nodes are the tree with the new node as the first child
  -- of that directory. A second `mkdir` of the same path returns -1 and changes nothing. What `new`
  -- gives is not in use, and the fuel is above the number of nodes.
  pub mkdir_twice :
      (fuel fuel' : ℕ) (fresh' : Fresh)
      → size d < fuel
      → size (grow p name fresh.node st.root_tmpfs_node d) < fuel'
      → (st' : Tmpfs) × (mkdir fuel fresh 0 (slash ∷ path) st ≡ done (0, st'))
        × IsTree st' (grow p name fresh.node st.root_tmpfs_node d)
        × (mkdir fuel' fresh' 0 (slash ∷ path) st' ≡ done (minus_one, st'))
  mkdir_twice fuel fuel' fresh' lt lt' = (
    linked fresh (new_directory fresh name above st) fresh.node_data p above st,
    mkdir-linked fuel lt,
    linked-IsTree,
    mkdir-linked_again fuel' fresh' lt',
  )
