-- ===== src/Fs/Tmpfs/Opens.antt =====
-- `open` with CREATE, `open` and `mkdir` of src/kernel/fs/tmpfs.cpp on a path whose directory exists.
use toystar.Prelude.{
  ℕ, ◌*◌, ◌<◌, ◌≡◌, refl, inl, inr, true, false, Option, none, some, ◌∷◌, ==_refl, Option-cases,
}
use toystar.Prelude.Outcome.{done}
use toystar.Prelude.Word.{add64, update}
use toystar.Klibc.Strings.{CString, strcmp}
use toystar.Klibc.Strings.Compare.{strcmp_iff}
use toystar.Memory.Pmm.{Pmm, find_run, alloc, physical_base_address}
use toystar.Memory.Pmm.Alloc.{alloc-found, alloc-none}
use toystar.Fs.Vfs.{FsNode, new_fs_node, slash}
use toystar.Fs.Files.{FileDescription}
use toystar.Fs.Tmpfs.{
  Tmpfs, TmpfsNode, Fresh, returned, is_create, file_type, directory_type, finish,
}
use toystar.Fs.Tmpfs.Calls.{open_file, link_child, describe, alloc_data}
use toystar.Fs.Tmpfs.Tree.{Dir, leaf, entry, size, Lies, whole, IsTree, look, deref-some}
use toystar.Fs.Tmpfs.Within.{path_to_node-absolute}
use toystar.Fs.Tmpfs.Create.{grow, graft, IsFresh, linked, Lies-linked, linked_new, pos-ne}
use toystar.Fs.Tmpfs.Created.{Lies-Acyclic, look-grow}
use toystar.Fs.Tmpfs.NewNames.{IsNewIn, parent_pos, path_to_node-parent}

alloc_data-alloc :
    (pages : ℕ) (pmm pmm' : Pmm) (frame : Option ℕ)
    → alloc pages pmm ≡ done (frame, pmm')
    → (bytes : ℕ) × (pmm'' : Pmm) × (alloc_data pages pmm ≡ done (bytes, pmm''))
unfolding alloc_data
alloc_data-alloc pages pmm pmm' none e = (add64 0 physical_base_address, pmm', rw e)
alloc_data-alloc pages pmm pmm' (some addr) e = (add64 addr physical_base_address, pmm', rw e)

pub alloc_data-done :
    (pages : ℕ) (pmm : Pmm)
    → pmm.pmm_lock ≡ false
    → (bytes : ℕ) × (pmm' : Pmm) × (alloc_data pages pmm ≡ done (bytes, pmm'))
alloc_data-done pages pmm free =
    elim (Option-cases (find_run (pmm.bitmap_size * 8) 0 0 pages pmm.bitmap)) [
      | inl e ↦ alloc_data-alloc pages pmm _ _ (alloc-none pages pmm free e)
      | inr (page, e) ↦ alloc_data-alloc pages pmm _ _ (alloc-found pages pmm page free e)
    ]

-- The state after `describe`.
abbrev pub described : Fresh → ℕ → ℕ → Tmpfs → Tmpfs
described fresh file mode st = record st {
  descriptions =
      update st.descriptions fresh.description
        (some (record { file = file; mode = mode; offset = 0 }));
}

pub describe-described :
    (fresh : Fresh) (file mode : ℕ) (st : Tmpfs)
    → 0 < fresh.description
    → describe fresh file mode st ≡ done (fresh.description, described fresh file mode st)
unfolding describe
describe-described fresh file mode st pos = rw (pos-ne pos)

-- The tree does not depend on the frames and the descriptions.
pub Lies-else :
    (st : Tmpfs) (pmm : Pmm) (descriptions : ℕ → Option FileDescription) (owner head : ℕ) (d : Dir)
    → Lies st owner head d
    → Lies (record st { pmm = pmm; descriptions = descriptions }) owner head d
Lies-else st pmm descriptions owner head leaf h = h
Lies-else st pmm descriptions owner head (entry n a children next)
      (node, file, s, acyclic, hc, hn) =
    (
      node,
      file,
      record {
        first = s.first;
        real = s.real;
        node_lies = s.node_lies;
        file_lies = s.file_lies;
        named = s.named;
        text = s.text;
        above = s.above;
        device = s.device;
      },
      acyclic,
      Lies-else st pmm descriptions a node.children children hc,
      Lies-else st pmm descriptions owner node.next next hn,
    )

-- The `fs_node` of a new file or directory.
abbrev pub new_file : Fresh → CString → TmpfsNode → Tmpfs → FsNode ℕ
new_file fresh name above st =
    new_fs_node name 4096 0 file_type fresh.node above.file st.tmp_filesystem

abbrev pub new_directory : Fresh → CString → TmpfsNode → Tmpfs → FsNode ℕ
new_directory fresh name above st =
    new_fs_node name 0 0 directory_type fresh.node above.file st.tmp_filesystem

-- The state after `open` has made a file.
abbrev pub with_file : Fresh → CString → ℕ → ℕ → ℕ → TmpfsNode → Pmm → Tmpfs → Tmpfs
with_file fresh name mode bytes p above pmm st = record st {
  nodes = (linked fresh (new_file fresh name above st) bytes p above st).nodes;
  fs_nodes = (linked fresh (new_file fresh name above st) bytes p above st).fs_nodes;
  pmm = pmm;
  descriptions = (described fresh fresh.fs_node mode st).descriptions;
}

module _ {st : Tmpfs} {d : Dir} {path name : CString} {p : ℕ} {above : TmpfsNode} {file : FsNode ℕ}
    (h : IsNewIn st d path name p above file) (fresh : Fresh) (f : IsFresh st fresh) where
  pub open_file-with_file :
      (fuel mode bytes : ℕ) (pmm : Pmm)
      → is_create mode ≡ true
      → size d < fuel
      → alloc_data 1 st.pmm ≡ done (bytes, pmm)
      → open_file fuel fresh 0 (slash ∷ path) mode st
        ≡ done (fresh.description, with_file fresh name mode bytes p above pmm st)
  unfolding open_file link_child describe new_fs_node
  open_file-with_file fuel mode bytes pmm create lt e =
      rw
        (
          path_to_node-parent h fuel 0 lt,
          pos-ne (parent_pos h),
          deref-some st.nodes h.there,
          deref-some st.fs_nodes h.file_there,
          create,
          h.last,
          h.other_name,
          h.is_directory,
          e,
          pos-ne f.fs_node_pos,
          pos-ne f.node_pos,
          pos-ne f.description_pos,
        )
        refl

  with_file-IsTree :
      (mode bytes : ℕ) (pmm : Pmm)
      → IsTree
          (with_file fresh name mode bytes p above pmm st)
          (grow p name fresh.node st.root_tmpfs_node d)
  unfolding new_fs_node
  with_file-IsTree mode bytes pmm =
      let made = new_file fresh name above st in
      Lies-else (linked fresh made bytes p above st) pmm
        (described fresh fresh.fs_node mode st).descriptions 0 st.root_tmpfs_node
        (graft p name fresh.node (whole st d))
        (Lies-linked fresh made bytes p above st f h.there h.text refl (whole st d) 0
          st.root_tmpfs_node h.tree)

  pub look-with_file :
      look (grow p name fresh.node st.root_tmpfs_node d) path st.root_tmpfs_node
      ≡ returned fresh.node
  look-with_file =
      let (_, acyclic, _) = Lies-Acyclic st 0 st.root_tmpfs_node (whole st d) h.tree in
      let (root_out, _, _) = Lies-Acyclic st 0 st.root_tmpfs_node (whole st d) h.tree in
      look-grow p name fresh.node h.text h.real d path st.root_tmpfs_node acyclic root_out h.ends

  pub open_file-with_file_again :
      (mode bytes : ℕ) (pmm : Pmm) (fuel mode' : ℕ) (fresh' : Fresh)
      → is_create mode' ≡ false
      → size (grow p name fresh.node st.root_tmpfs_node d) < fuel
      → 0 < fresh'.description
      → let st' = with_file fresh name mode bytes p above pmm st in
        open_file fuel fresh' 0 (slash ∷ path) mode' st'
        ≡ done (fresh'.description, described fresh' fresh.fs_node mode' st')
  unfolding open_file describe new_fs_node finish
  open_file-with_file_again mode bytes pmm fuel mode' fresh' create lt pos =
      let st' = with_file fresh name mode bytes p above pmm st in
      let made = new_file fresh name above st in
      let new_there = linked_new fresh made bytes p above st f h.there in
      let file_there : st'.fs_nodes fresh.fs_node ≡ some made = rw (==_refl fresh.fs_node) in
      let same : strcmp name name ≡ true = (strcmp_iff name name h.text h.text).1 refl in
      rw
        (
          path_to_node-absolute fuel st' (grow p name fresh.node st.root_tmpfs_node d) path 0
              (with_file-IsTree mode bytes pmm) lt,
          look-with_file,
          pos-ne f.node_pos,
          deref-some st'.nodes new_there,
          deref-some st'.fs_nodes file_there,
          create,
          h.last,
          same,
          pos-ne pos,
        )
        refl

  -- `open` with CREATE on a path whose directory is in the tree and has another name, where only the
  -- new name is left of the path: it returns the new description, of the new file from its start;
  -- the nodes are the tree with the file as the first child of that directory; and `open` without
  -- CREATE then finds the same file under that path. What `new` gives is not in use, the frame
  -- allocator's lock is free, and the fuel is above the number of nodes.
  pub open_file-again :
      (fuel fuel' mode mode' : ℕ) (fresh' : Fresh)
      → is_create mode ≡ true
      → is_create mode' ≡ false
      → st.pmm.pmm_lock ≡ false
      → size d < fuel
      → size (grow p name fresh.node st.root_tmpfs_node d) < fuel'
      → 0 < fresh'.description
      → (st' : Tmpfs) × (open_file fuel fresh 0 (slash ∷ path) mode st
          ≡ done (fresh.description, st'))
        × (st'.descriptions fresh.description
            ≡ some (record { file = fresh.fs_node; mode = mode; offset = 0 }))
        × IsTree st' (grow p name fresh.node st.root_tmpfs_node d)
        × (open_file fuel' fresh' 0 (slash ∷ path) mode' st'
            ≡ done (fresh'.description, described fresh' fresh.fs_node mode' st'))
  open_file-again fuel fuel' mode mode' fresh' create plain free lt lt' pos =
      let (bytes, pmm, e) = alloc_data-done 1 st.pmm free in
      (
        with_file fresh name mode bytes p above pmm st,
        open_file-with_file fuel mode bytes pmm create lt e,
        rw (==_refl fresh.description),
        with_file-IsTree mode bytes pmm,
        open_file-with_file_again mode bytes pmm fuel' mode' fresh' plain lt' pos,
      )
