-- ===== src/Fs/Tmpfs/Mounted/Tests.antt =====
-- tmpfs below a mount of src/kernel/fs/vfs.cpp, with only its root at first.
use toystar.Prelude.{ℕ, ◌≡◌, refl, true, false, none, some, [], ◌∷◌, ◌++◌, arith}
use toystar.Prelude.Outcome.{Outcome, done, fault, ◌>>=◌}
use toystar.Prelude.Word.{update}
use toystar.Klibc.Strings.{CString, strcmp, strlen}
use toystar.Klibc.Vector.{push_back}
use toystar.Lock.{acquire, release}
use toystar.Klibc.Vector.Laws.{Holds}
use toystar.Fs.Vfs.{
  Vfs, add_fs, new_fs_node, FsNode, Filesystem, null, node, slash, mount, open_path,
}
use toystar.Fs.Tmpfs.{Tmpfs, tmpfs, TmpfsNode, Fresh, directory_type, get_name_from_path}
use toystar.Fs.Tmpfs.Tree.{leaf, IsTree}
use toystar.Fs.Tmpfs.Create.{IsFresh}
use toystar.Fs.Tmpfs.Opens.{described}
use toystar.Fs.Tmpfs.NewNames.{IsNewIn}
use toystar.Fs.Tmpfs.Mounted.{World, filesystem, init, open_path-mount}

abbrev root_node : TmpfsNode
root_node = record { file = 11; data_ptr = 0; next = 0; parent = 0; children = 0 }

abbrev root_file : FsNode ℕ
root_file = record {
  name = slash ∷ [];
  size = 0;
  permissions = 0;
  ty = directory_type;
  device_node = 1;
  parent = 0;
  fs = 9;
}

abbrev bare : Tmpfs
bare = record {
  nodes = update (λ p. none) 1 (some root_node);
  fs_nodes = update (λ p. none) 11 (some root_file);
  descriptions = λ p. none;
  root_tmpfs_node = 1;
  tmp_filesystem = 9;
  pmm = record {
    bitmap = λ a. 0;
    bitmap_size = 2;
    last_usable_page = 0x10000;
    pmm_lock = false;
    memory = λ a. 7;
  };
  mapped = 0x100000;
  buffers = λ a. 0;
}

abbrev four : Fresh
four = record { node = 4; node_data = 0; fs_node = 14; description = 24 }

abbrev news : Tmpfs → Fresh
news st = four

bare-IsTree : IsTree bare leaf
bare-IsTree = (
  root_node,
  root_file,
  record {
    first = refl;
    real = omega arith;
    node_lies = refl;
    file_lies = refl;
    named = refl;
    text = (omega arith, tt);
    above = refl;
    device = refl;
  },
  (λ h. h),
  refl,
  refl,
)

abbrev name_c : CString
name_c = b'c' ∷ []

c-IsNewIn : IsNewIn bare leaf name_c name_c 1 root_node root_file
unfolding get_name_from_path strcmp strlen
c-IsNewIn = record {
  tree = bare-IsTree;
  ends = refl;
  last = refl;
  text = (omega arith, tt);
  plain = ((λ e. absurd (omega arith)), tt);
  real = omega arith;
  there = refl;
  file_there = refl;
  is_directory = refl;
  other_name = refl;
}

bare-IsFresh : IsFresh bare four
bare-IsFresh = record {
  node_pos = omega arith;
  fs_node_pos = omega arith;
  description_pos = omega arith;
  node_free = refl;
  fs_node_free = refl;
}

abbrev tmpfs_name : CString
tmpfs_name = b't' ∷ b'm' ∷ b'p' ∷ b'f' ∷ b's' ∷ []

abbrev start : Vfs World
start = record {
  vfs_root_node = node (slash ∷ []) (filesystem 9 news) null null;
  fses = record { m_data = filesystem 9 news ∷ []; m_capacity = 1; m_is_empty = false };
  vfs_lock = false;
}

start-Holds : Holds start.fses (filesystem 9 news ∷ [])
start-Holds = record { elements = refl; capacity = refl; is_empty = refl }

-- No relative path is opened, so what the working directory is does not matter.
abbrev no_nodes : ℕ → FsNode (Filesystem World)
no_nodes p = record {
  name = [];
  size = 0;
  permissions = 0;
  ty = 0;
  device_node = 0;
  parent = 0;
  fs = filesystem 9 news;
}

-- The mount at `/t`, and the file `/t/c`.
open_path-mount_example :
    let path = (slash ∷ b't' ∷ []) ++ (slash ∷ name_c) in
    (v' : Vfs World) × (st' : Tmpfs) × (mount tmpfs_name (slash ∷ b't' ∷ []) start
      ≡ done (true, v'))
    × (open_path no_nodes v' 0 path 3 (done bare) ≡ done (24, done st'))
    × (open_path no_nodes v' 0 path 4 (done st') ≡ done (24, done (described four 14 4 st')))
unfolding filesystem strcmp strlen
open_path-mount_example =
    open_path-mount 9 news c-IsNewIn bare-IsFresh (λ s. omega arith) start (filesystem 9 news ∷ [])
      (filesystem 9 news) (slash ∷ []) tmpfs_name (b't' ∷ []) null null no_nodes 0 3 4 refl
      start-Holds refl refl tt (omega arith, (omega arith, tt)) refl refl refl (omega arith)
      (omega arith)

abbrev no_vfs : Vfs World
no_vfs = record {
  vfs_root_node = null;
  fses = record { m_data = []; m_capacity = 0; m_is_empty = true };
  vfs_lock = false;
}

-- After `init` the root's `fs` is still what `tmp_filesystem` was before.
abbrev after_init : Tmpfs × Vfs World → Outcome (ℕ × ℕ × ℕ)
after_init (st, v) = elim (st.fs_nodes 14) [
  | none ↦ fault
  | some file ↦ done (st.tmp_filesystem, file.fs, v.fses.m_capacity)
]

init_test :
    (init 9 news 9 (filesystem 9 news) (record bare { tmp_filesystem = 0 }) no_vfs >>= after_init)
    ≡ done (9, 0, 1)
unfolding init tmpfs new_fs_node add_fs push_back acquire release
init_test = refl
