-- ===== src/Fs/Tmpfs/Tests.antt =====
-- Runs of src/kernel/fs/tmpfs.cpp on a directory `/a` with a file `/a/b`, and its theorems there.
use toystar.Prelude.{
  ℕ, ◌+◌, ◌-◌, ◌<◌, ◌≡◌, refl, false, none, some, [], ◌∷◌, if◌then◌else◌, arith, inl, inr,
}
use toystar.Prelude.Outcome.{done}
use toystar.Prelude.Word.{update}
use toystar.Klibc.Strings.{CString, strcmp, strncmp, strlen}
use toystar.Klibc.Bitmap.Bits.{AreBytes}
use toystar.Klibc.Bitmap.{is_bit_set}
use toystar.Memory.Pmm.{physical_base_address, alloc}
use toystar.Memory.Pmm.Search.{within}
use toystar.Fs.Vfs.{FsNode, slash, minus_one}
use toystar.Fs.Tmpfs.{
  Tmpfs, TmpfsNode, Fresh, deref, file_type, directory_type, get_name_from_path, path_to_node,
}
use toystar.Fs.Tmpfs.Calls.{open_file, mkdir, describe}
use toystar.Fs.Tmpfs.Tree.{Dir, leaf, entry, size, Stands, IsTree}
use toystar.Fs.Tmpfs.Walk.{IsNode, path_to_node-IsNode}
use toystar.Fs.Tmpfs.Create.{grow, IsFresh}
use toystar.Fs.Tmpfs.Opens.{described, open_file-again}
use toystar.Fs.Tmpfs.NewNames.{IsNewIn}
use toystar.Fs.Tmpfs.Mkdir.{mkdir_twice}
use toystar.Fs.Tmpfs.Keeps.{IsWorkingDir, open_file-IsTree, mkdir-IsTree}
use toystar.Fs.Tmpfs.Contents.{read, write, IsFile, byte_at}
use toystar.Fs.Tmpfs.Transfer.{read-write}
use toystar.Fs.Tmpfs.Grown.{read-write_grown}

abbrev name_a : CString
name_a = b'a' ∷ []

abbrev name_b : CString
name_b = b'b' ∷ []

abbrev path_ab : CString
path_ab = b'a' ∷ slash ∷ b'b' ∷ []

abbrev path_ac : CString
path_ac = b'a' ∷ slash ∷ b'c' ∷ []

-- `../a/b`
abbrev path_up : CString
path_up = b'.' ∷ b'.' ∷ slash ∷ path_ab

abbrev some_file : CString → ℕ → ℕ → ℕ → ℕ → FsNode ℕ
some_file name size ty node parent = record {
  name = name;
  size = size;
  permissions = 0;
  ty = ty;
  device_node = node;
  parent = parent;
  fs = 9;
}

abbrev some_node : ℕ → ℕ → ℕ → ℕ → TmpfsNode
some_node file bytes parent children = record {
  file = file;
  data_ptr = bytes;
  next = 0;
  parent = parent;
  children = children;
}

-- Frame 0 and the file's frame, 9, are used.
abbrev used : ℕ → ℕ
used = update (update (λ a. 0) 0 0x80) 1 0x40

abbrev machine : Tmpfs
machine = record {
  nodes =
      update
        (update (update (λ p. none) 1 (some (some_node 11 0 0 2))) 2 (some (some_node 12 0 1 3))) 3
        (some (some_node 13 (physical_base_address + 0x9000) 2 0));
  fs_nodes =
      update
        (update (update (λ p. none) 11 (some (some_file (slash ∷ []) 0 directory_type 1 0))) 12
          (some (some_file name_a 0 directory_type 2 11)))
        13 (some (some_file name_b 4096 file_type 3 12));
  descriptions = λ p. none;
  root_tmpfs_node = 1;
  tmp_filesystem = 9;
  pmm = record {
    bitmap = used;
    bitmap_size = 2;
    last_usable_page = 0x10000;
    pmm_lock = false;
    memory = λ a. 7;
  };
  mapped = 0x100000;
  buffers = λ a. a;
}

abbrev dir_a : Dir
dir_a = entry name_a 2 (entry name_b 3 leaf leaf) leaf

abbrev four : Fresh
four = record { node = 4; node_data = 0; fs_node = 14; description = 24 }

abbrev five : Fresh
five = record { node = 5; node_data = 0; fs_node = 15; description = 25 }

get_name_test : get_name_from_path (slash ∷ path_ab) ≡ name_b
unfolding get_name_from_path
get_name_test = refl

path_to_node_test : path_to_node 9 machine (slash ∷ path_ab) 0 ≡ done 3
unfolding path_to_node strlen strncmp
path_to_node_test = refl

path_to_node_root : path_to_node 9 machine (slash ∷ []) 0 ≡ done 1
unfolding path_to_node
path_to_node_root = refl

path_to_node_up : path_to_node 9 machine path_up 2 ≡ done 3
unfolding path_to_node strlen strncmp
path_to_node_up = refl

path_to_node_new : path_to_node 9 machine (slash ∷ path_ac) 0 ≡ done 2
unfolding path_to_node strlen strncmp
path_to_node_new = refl

-- `/c/d`, though there is no `/c`: a new file of that path would go into the root.
path_to_node_no_directory : path_to_node 9 machine (slash ∷ b'c' ∷ slash ∷ b'd' ∷ []) 0 ≡ done 1
unfolding path_to_node strlen strncmp
path_to_node_no_directory = refl

open_test : open_file 9 four 0 (slash ∷ path_ab) 4 machine ≡ done (24, described four 13 4 machine)
unfolding open_file path_to_node strlen strncmp strcmp get_name_from_path describe
open_test = refl

-- `/a/a` is refused: the directory has that name.
open_same_name : open_file 9 four 0 (slash ∷ b'a' ∷ slash ∷ b'a' ∷ []) 1 machine ≡ done (0, machine)
unfolding open_file path_to_node strlen strncmp strcmp get_name_from_path
open_same_name = refl

abbrev root_node : TmpfsNode
root_node = some_node 11 0 0 2

abbrev root_file : FsNode ℕ
root_file = some_file (slash ∷ []) 0 directory_type 1 0

abbrev node_a : TmpfsNode
node_a = some_node 12 0 1 3

abbrev file_a : FsNode ℕ
file_a = some_file name_a 0 directory_type 2 11

abbrev node_b : TmpfsNode
node_b = some_node 13 (physical_base_address + 0x9000) 2 0

abbrev file_b : FsNode ℕ
file_b = some_file name_b 4096 file_type 3 12

root-Stands : Stands machine 0 1 (slash ∷ []) 1 root_node root_file
root-Stands = record {
  first = refl;
  real = omega arith;
  node_lies = refl;
  file_lies = refl;
  named = refl;
  text = (omega arith, tt);
  above = refl;
  device = refl;
}

a-Stands : Stands machine 1 2 name_a 2 node_a file_a
a-Stands = record {
  first = refl;
  real = omega arith;
  node_lies = refl;
  file_lies = refl;
  named = refl;
  text = (omega arith, tt);
  above = refl;
  device = refl;
}

b-Stands : Stands machine 2 3 name_b 3 node_b file_b
b-Stands = record {
  first = refl;
  real = omega arith;
  node_lies = refl;
  file_lies = refl;
  named = refl;
  text = (omega arith, tt);
  above = refl;
  device = refl;
}

machine-IsTree : IsTree machine dir_a
machine-IsTree = (
  root_node,
  root_file,
  root-Stands,
  (λ h. absurd (ground arith)),
  (
    node_a,
    file_a,
    a-Stands,
    (λ h. absurd (ground arith)),
    (node_b, file_b, b-Stands, (λ h. h), refl, refl),
    refl,
  ),
  refl,
)

four-IsFresh : IsFresh machine four
four-IsFresh = record {
  node_pos = omega arith;
  fs_node_pos = omega arith;
  description_pos = omega arith;
  node_free = refl;
  fs_node_free = refl;
}

-- `/a/c` is a new name in `/a`.
ac-IsNewIn : IsNewIn machine dir_a path_ac (b'c' ∷ []) 2 node_a file_a
unfolding get_name_from_path strcmp strlen
ac-IsNewIn = record {
  tree = machine-IsTree;
  ends = refl;
  last = refl;
  text = (omega arith, tt);
  plain = ((λ e. absurd (omega arith)), tt);
  real = omega arith;
  there = refl;
  file_there = refl;
  is_directory = refl;
  other_name = refl;
}

path_to_node-IsNode_example :
    (p : ℕ) × (path_to_node 9 machine path_up 2 ≡ done p) × IsNode machine dir_a p
path_to_node-IsNode_example =
    path_to_node-IsNode 9 machine dir_a path_up 2 machine-IsTree (inr (inr (inl (inl refl))))
      (omega arith) (omega arith)

open_file-again_example :
    (st' : Tmpfs) × (open_file 9 four 0 (slash ∷ path_ac) 3 machine ≡ done (24, st'))
    × (st'.descriptions 24 ≡ some (record { file = 14; mode = 3; offset = 0 }))
    × IsTree st' (grow 2 (b'c' ∷ []) 4 1 dir_a)
    × (open_file 9 five 0 (slash ∷ path_ac) 4 st' ≡ done (25, described five 14 4 st'))
open_file-again_example =
    open_file-again ac-IsNewIn four four-IsFresh 9 9 3 4 five refl refl refl (omega arith)
      (omega arith) (omega arith)

mkdir_twice_example :
    (st' : Tmpfs) × (mkdir 9 four 0 (slash ∷ path_ac) machine ≡ done (0, st'))
    × IsTree st' (grow 2 (b'c' ∷ []) 4 1 dir_a)
    × (mkdir 9 five 0 (slash ∷ path_ac) st' ≡ done (minus_one, st'))
mkdir_twice_example = mkdir_twice ac-IsNewIn four four-IsFresh 9 9 five (omega arith) (omega arith)

-- The working directory is `/a`.
at_a : IsWorkingDir machine dir_a 12
unfolding deref
at_a = (2, refl, inr (inr (inl (inl refl))))

open_file-IsTree_example :
    (r : ℕ) × (st' : Tmpfs) × (d' : Dir) × (open_file 9 four 12 path_up 5 machine ≡ done (r, st'))
    × IsTree st' d'
open_file-IsTree_example =
    open_file-IsTree machine dir_a machine-IsTree 9 four 12 path_up four-IsFresh at_a (ground arith)
      (omega arith) (omega arith) 5 refl

mkdir-IsTree_example :
    (r : ℕ) × (st' : Tmpfs) × (d' : Dir) × (mkdir 9 four 12 name_b machine ≡ done (r, st'))
    × IsTree st' d'
mkdir-IsTree_example =
    mkdir-IsTree machine dir_a machine-IsTree 9 four 12 name_b four-IsFresh at_a (omega arith, tt)
      (omega arith) (omega arith)

b-IsFile : IsFile machine 13 0x9000 node_b file_b
b-IsFile = record {
  file_there = refl;
  node_there = refl;
  own = refl;
  bytes = refl;
  room = omega arith;
  lies = omega arith;
}

read-write_example :
    (st₁ st₂ : Tmpfs) × (write 13 10 4 1000 machine ≡ done (0, st₁))
    × (read 13 8 8 2000 st₁ ≡ done (0, st₂))
    × ((i : ℕ)
        → i < 8
        → st₂.buffers (2000 + i) ≡ (
            if within 10 4 (8 + i)
            then machine.buffers (1000 + (8 + i - 10))
            else byte_at machine 0x9000 (8 + i)))
    × ((a : ℕ) → within 0x9000 4096 a ≡ false → st₁.pmm.memory a ≡ machine.pmm.memory a)
read-write_example = read-write b-IsFile 10 4 1000 8 8 2000 (omega arith) (omega arith)

machine-AreBytes : AreBytes machine.pmm.bitmap
machine-AreBytes a = ground arith

read-write_grown_example :
    (st' : Tmpfs) × (write 13 4090 10 1000 machine ≡ done (0, st'))
    × (read 13 4090 10 2000 st' ≡ done (minus_one, st'))
unfolding alloc is_bit_set
read-write_grown_example =
    read-write_grown b-IsFile 4090 10 1000 2000 0x1000 _ (omega arith) (omega arith)
      machine-AreBytes refl (omega arith) (omega arith) refl
