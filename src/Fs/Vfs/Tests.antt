-- ===== src/Fs/Vfs/Tests.antt =====
-- Runs of src/kernel/fs/vfs.cpp, and its theorems at concrete mounts.
use toystar.Prelude.{ℕ, ◌≡◌, refl, true, false, [], ◌∷◌, arith}
use toystar.Prelude.Outcome.{done}
use toystar.Klibc.Strings.{CString, strcmp, strncmp, strlen}
use toystar.Klibc.Vector.Laws.{Holds}
use toystar.Fs.Vfs.{Vfs, Filesystem, null, node, mount, get_absolute_path}
use toystar.Fs.Vfs.Resolve.{mount-resolves}

abbrev filesystem : CString → Filesystem ℕ
filesystem name = record {
  get_name = name;
  open_file = λ working_dir path mode s. (0, s);
  read_file = λ path offset size buffer s. (0, s);
  write_file = λ path offset size buffer s. (0, s);
  make_directory = λ working_dir path s. (0, s);
}

abbrev tmpfs : Filesystem ℕ
tmpfs = filesystem (116 ∷ [])

abbrev devfs : Filesystem ℕ
devfs = filesystem (100 ∷ [])

abbrev slash_dev : CString
slash_dev = 47 ∷ 100 ∷ []

abbrev slash_dev_pts : CString
slash_dev_pts = 47 ∷ 100 ∷ 47 ∷ 112 ∷ []

-- The root is a `tmpfs`, and the other one is mounted at slash_dev.
abbrev start : Vfs ℕ
start = record {
  vfs_root_node = node (47 ∷ []) tmpfs (node slash_dev devfs null null) null;
  fses = record { m_data = tmpfs ∷ devfs ∷ []; m_capacity = 2; m_is_empty = false };
  vfs_lock = false;
}

start-Holds : Holds start.fses (tmpfs ∷ devfs ∷ [])
start-Holds = record { elements = refl; capacity = refl; is_empty = refl }

get_absolute_path_test :
    get_absolute_path start (47 ∷ 100 ∷ 47 ∷ 116 ∷ []) ≡ done (devfs, 47 ∷ 116 ∷ [])
unfolding get_absolute_path strncmp strlen
get_absolute_path_test = refl

-- The path of the mounted directory itself has no slash behind the name and leads to the root.
get_absolute_path_bare : get_absolute_path start slash_dev ≡ done (tmpfs, slash_dev)
unfolding get_absolute_path strncmp strlen
get_absolute_path_bare = refl

mount-resolves_example :
    (v : Vfs ℕ) × (mount (116 ∷ []) slash_dev_pts start ≡ done (true, v))
    × (v.vfs_lock ≡ false)
    × (get_absolute_path v (47 ∷ 100 ∷ 47 ∷ 112 ∷ 47 ∷ 48 ∷ []) ≡ done (tmpfs, 47 ∷ 48 ∷ []))
unfolding strcmp
mount-resolves_example =
    mount-resolves start (tmpfs ∷ devfs ∷ []) tmpfs tmpfs (47 ∷ []) (116 ∷ []) slash_dev_pts
      (48 ∷ []) (node slash_dev devfs null null) null refl start-Holds refl refl (omega arith)
      (omega arith) (omega arith)
