-- ===== src/Fs/Tmpfs/Mounted.antt =====
-- src/kernel/fs/tmpfs.cpp as a file system of src/kernel/fs/vfs.cpp: its virtual functions, `init`, and
-- the calls of Vfs on it.
mod Tests
use toystar.Prelude.{
  ℕ, ◌<◌, ◌≡◌, refl, sym, ap, ◌∙◌, Bool, true, false, some, List, [], ◌∷◌, ◌++◌, ◌==◌,
}
use toystar.Prelude.Outcome.{Outcome, done, hang, panic, fault, ◌>>=◌}
use toystar.Klibc.Strings.{CString}
use toystar.Klibc.Strings.Compare.{IsText}
use toystar.Klibc.Vector.Laws.{Holds}
use toystar.Fs.Vfs.{Vfs, FsNode, Filesystem, Node, node, slash, add_fs, mount, open_path}
use toystar.Fs.Vfs.Mount.{AreTexts}
use toystar.Fs.Vfs.Resolve.{named, mount-resolves}
use toystar.Fs.Tmpfs.{Tmpfs, TmpfsNode, Fresh, is_create, tmpfs}
use toystar.Fs.Tmpfs.Calls.{open_file, mkdir}
use toystar.Fs.Tmpfs.Contents.{read, write}
use toystar.Fs.Tmpfs.Tree.{Dir, size}
use toystar.Fs.Tmpfs.Create.{grow, IsFresh}
use toystar.Fs.Tmpfs.Opens.{
  described, with_file, alloc_data-done, open_file-with_file, open_file-with_file_again,
}
use toystar.Fs.Tmpfs.NewNames.{IsNewIn}

-- The state behind the virtual functions is the file system's, or how the kernel ended.
abbrev pub World : Type 0
World = Outcome Tmpfs

-- A call, where the kernel still runs. The result of a call that does not return is 0.
abbrev pub ended : Outcome (ℕ × Tmpfs) → ℕ × World
ended (done (r, st)) = (r, done st)
ended hang = (0, hang)
ended panic = (0, panic)
ended fault = (0, fault)

abbrev pub call : (Tmpfs → Outcome (ℕ × Tmpfs)) → World → ℕ × World
call f s = ended (s >>= f)

module _ (fuel : ℕ) (news : Tmpfs → Fresh) where
  -- The name is "tmpfs"; `news` is what `new` gives in a state.
  unfoldable pub filesystem : Filesystem World
  filesystem = record {
    get_name = b't' ∷ b'm' ∷ b'p' ∷ b'f' ∷ b's' ∷ [];
    open_file = λ wd path mode. call (λ st. open_file fuel (news st) wd path mode st);
    read_file = λ path offset size buffer. call (read path offset size buffer);
    write_file = λ path offset size buffer. call (write path offset size buffer);
    make_directory = λ wd path. call (λ st. mkdir fuel (news st) wd path st);
  }

  -- `init`; the file system itself is at the address `self`.
  unfoldable pub init : ℕ → Filesystem World → Tmpfs → Vfs World → Outcome (Tmpfs × Vfs World)
  unfolding filesystem
  init self blank st v = do
    st' ← tmpfs (news st) st
    v' ← add_fs blank filesystem v
    done (record st' { tmp_filesystem = self }, v')

  module _ {st : Tmpfs} {d : Dir} {name : CString} {above : TmpfsNode} {file : FsNode ℕ}
      (h : IsNewIn st d name name st.root_tmpfs_node above file) (f : IsFresh st (news st))
      (real : (s : Tmpfs) → 0 < (news s).description) where
    -- Once tmpfs is mounted, `Vfs::open` with CREATE on a new name directly below the mount makes a
    -- file in the root of tmpfs, and `Vfs::open` without CREATE on the same path then opens that
    -- file. The target of the mount is an absolute path, tmpfs is among the registered file systems
    -- under its name, there is a root, the locks are free, `new` gives what is not in use and no
    -- null pointer, and the fuel is above the number of nodes.
    pub open_path-mount :
        (v : Vfs World) (fses : List (Filesystem World)) (root : Filesystem World)
        (root_name source target : CString) (children next : Node (Filesystem World))
        (nodes : ℕ → FsNode (Filesystem World)) (working_dir mode mode' : ℕ)
        → v.vfs_lock ≡ false
        → Holds v.fses fses
        → named source fses ≡ some filesystem
        → v.vfs_root_node ≡ node root_name root children next
        → AreTexts children
        → IsText (slash ∷ target)
        → is_create mode ≡ true
        → is_create mode' ≡ false
        → st.pmm.pmm_lock ≡ false
        → size d < fuel
        → size (grow st.root_tmpfs_node name (news st).node st.root_tmpfs_node d) < fuel
        → let path = (slash ∷ target) ++ (slash ∷ name) in
          (v' : Vfs World) × (st' : Tmpfs) × (mount source (slash ∷ target) v ≡ done (true, v'))
          × (open_path nodes v' working_dir path mode (done st)
              ≡ done ((news st).description, done st'))
          × (open_path nodes v' working_dir path mode' (done st')
              ≡ done
                  ((news st').description, done (described (news st') (news st).fs_node mode' st')))
    unfolding open_path filesystem
    open_path-mount v fses root root_name source target children next nodes working_dir mode mode'
          lock held found at texts text create plain unlocked lt lt' =
        let (v', mounted, _, leads) =
          mount-resolves v fses root filesystem root_name source (slash ∷ target) name children next
            lock held found at texts text h.plain in
        let (bytes, pmm, e) = alloc_data-done 1 st.pmm unlocked in
        let st' = with_file (news st) name mode bytes st.root_tmpfs_node above pmm st in
        let made = open_file-with_file h (news st) f fuel mode bytes pmm create lt e in
        let again =
          open_file-with_file_again h (news st) f mode bytes pmm fuel mode' (news st') plain lt'
            (real st') in
        (v', st', mounted, rw (leads, made) refl, rw (leads, again) refl)
