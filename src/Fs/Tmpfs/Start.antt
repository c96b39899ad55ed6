-- ===== src/Fs/Tmpfs/Start.antt =====
-- The constructor of src/kernel/fs/tmpfs.cpp, and the names that paths end in.
use toystar.Prelude.{
  ℕ, ◌<◌, ◌≡◌, refl, inl, inr, ◌&&◌, not, some, [], ◌∷◌, ◌==◌, arith, Bool-cases, ==_refl,
}
use toystar.Prelude.Outcome.{done}
use toystar.Prelude.Word.{update}
use toystar.Klibc.Strings.{CString, char_at}
use toystar.Klibc.Strings.Compare.{IsText}
use toystar.Fs.Vfs.{FsNode, new_fs_node, slash}
use toystar.Fs.Tmpfs.{
  Tmpfs, TmpfsNode, Fresh, directory_type, after_slash, get_name_from_path, tmpfs,
}
use toystar.Fs.Tmpfs.Tree.{leaf, IsTree}
use toystar.Fs.Tmpfs.Create.{pos-ne}

after_slash-IsText :
    (name path : CString) → IsText name → IsText path → IsText (after_slash name path)
unfolding after_slash
after_slash-IsText name [] hn h = hn
after_slash-IsText name (c ∷ path) hn (pos, h) =
    let here = after_slash-IsText path path h h in
    let rest = after_slash-IsText name path hn h in
    rw (pos-ne pos) (elim (Bool-cases ((c == slash) && not (char_at path 0 == 0))) [
      | inl b ↦ rw b here
      | inr b ↦ rw b rest
    ])

pub get_name_from_path-IsText : (path : CString) → IsText path → IsText (get_name_from_path path)
unfolding get_name_from_path
get_name_from_path-IsText path h = after_slash-IsText path path h h

-- The constructor makes the root, without children.
tmpfs-IsTree :
    (fresh : Fresh) (st : Tmpfs)
    → 0 < fresh.node
    → 0 < fresh.fs_node
    → (st' : Tmpfs) × (tmpfs fresh st ≡ done st') × IsTree st' leaf
unfolding tmpfs new_fs_node
tmpfs-IsTree fresh st pos pos' =
    let file : FsNode ℕ =
      new_fs_node (slash ∷ []) 0 0 directory_type fresh.node 0 st.tmp_filesystem in
    let root : TmpfsNode = record {
      file = fresh.fs_node;
      data_ptr = fresh.node_data;
      next = 0;
      parent = 0;
      children = 0;
    } in
    (
      record st {
        nodes = update st.nodes fresh.node (some root);
        fs_nodes = update st.fs_nodes fresh.fs_node (some file);
        root_tmpfs_node = fresh.node;
      },
      rw (pos-ne pos, pos-ne pos') refl,
      (
        root,
        file,
        record {
          first = refl;
          real = pos;
          node_lies = rw (==_refl fresh.node);
          file_lies = rw (==_refl fresh.fs_node);
          named = refl;
          text = (omega arith, tt);
          above = refl;
          device = refl;
        },
        (λ h. h),
        refl,
        refl,
      ),
    )
