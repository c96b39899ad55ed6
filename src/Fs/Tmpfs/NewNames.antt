-- ===== src/Fs/Tmpfs/NewNames.antt =====
-- A name that is not in its directory yet, in src/kernel/fs/tmpfs.cpp: where its path leads.
use toystar.Prelude.{
  ℕ, ◌<◌, ◌≡◌, refl, sym, ap, ◌∙◌, inl, inr, false, some, [], ◌∷◌, ◌==◌, length, arith, Bool-cases,
}
use mathlib.Core.Path.{subst}
use toystar.Prelude.Outcome.{done}
use toystar.Klibc.Strings.{CString, strcmp}
use toystar.Klibc.Strings.Compare.{IsText}
use toystar.Fs.Vfs.{FsNode, slash}
use toystar.Fs.Vfs.Names.{HasNoSlash}
use toystar.Fs.Tmpfs.{
  Tmpfs, TmpfsNode, left, directory_type, get_name_from_path, too_deep, finish, path_to_node,
}
use toystar.Fs.Tmpfs.Tree.{Dir, leaf, entry, size, Has, Lies, whole, IsTree, look}
use toystar.Fs.Tmpfs.Within.{target, look-target, path_to_node-absolute}

-- The path ends below the directory `p`, with only a name left, which is not that of `p`.
pub record IsNewIn (st : Tmpfs) (d : Dir) (path name : CString) (p : ℕ) (above : TmpfsNode)
    (file : FsNode ℕ) : Type 0 where
  pub tree : IsTree st d
  pub ends : look d path st.root_tmpfs_node ≡ left name p
  pub last : get_name_from_path (slash ∷ path) ≡ name
  pub text : IsText name
  pub plain : HasNoSlash name
  pub real : 0 < length name
  pub there : st.nodes p ≡ some above
  pub file_there : st.fs_nodes above.file ≡ some file
  pub is_directory : file.ty ≡ directory_type
  pub other_name : strcmp name file.name ≡ false

too_deep-HasNoSlash : (n : ℕ) (name : CString) → HasNoSlash name → too_deep n name ≡ false
unfolding too_deep
too_deep-HasNoSlash n [] h = refl
too_deep-HasNoSlash n (c ∷ name) (ne, h) =
    let rest = too_deep-HasNoSlash n name h in
    let test : (c == slash) ≡ false = ground arith in
    rw (test, rest) (elim (Bool-cases (c == 0)) [ inl b ↦ rw b | inr b ↦ rw b ])

pub Has-pos :
    (st : Tmpfs) (owner head : ℕ) (d : Dir) (p : ℕ) → Lies st owner head d → Has p d → 0 < p
Has-pos st owner head leaf p h has = elim has [ ]
Has-pos st owner head (entry n a children next) p (node, file, s, acyclic, hc, hn) (inl e) =
    rw e s.real
Has-pos st owner head (entry n a children next) p (node, file, s, acyclic, hc, hn) (inr (inl h)) =
    Has-pos st a node.children children p hc h
Has-pos st owner head (entry n a children next) p (node, file, s, acyclic, hc, hn) (inr (inr h)) =
    Has-pos st owner node.next next p hn h

module _ {st : Tmpfs} {d : Dir} {path name : CString} {p : ℕ} {above : TmpfsNode} {file : FsNode ℕ}
    (h : IsNewIn st d path name p above file) where
  pub parent_pos : 0 < p
  parent_pos =
      Has-pos st 0 st.root_tmpfs_node (whole st d) p h.tree
        (elim (look-target d path st.root_tmpfs_node) [
          | inl e ↦ inl (sym (ap target h.ends) ∙ e)
          | inr has ↦ inr (inl (subst (λ t. Has t d) (ap target h.ends) has))
        ])

  pub path_to_node-parent :
      (fuel curr_dir : ℕ) → size d < fuel → path_to_node fuel st (slash ∷ path) curr_dir ≡ done p
  unfolding finish
  path_to_node-parent fuel curr_dir lt = rw (
    path_to_node-absolute fuel st d path curr_dir h.tree lt,
    h.ends,
    too_deep-HasNoSlash 0 name h.plain,
  )
