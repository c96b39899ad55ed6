-- ===== src/Fs/Devfs/Tests.antt =====
-- Runs of src/kernel/fs/devfs.cpp with the device `tty`, and its theorem there.
use toystar.Prelude.{ℕ, ◌+◌, ◌≡◌, refl, none, some, [], ◌∷◌, if◌then◌else◌, arith}
use toystar.Prelude.Outcome.{done, fault, ◌>>=◌}
use toystar.Prelude.Word.{update}
use toystar.Klibc.Strings.{CString, strcmp, strlen}
use toystar.Fs.Vfs.{FsNode, new_fs_node, slash}
use toystar.Fs.Tmpfs.{Fresh}
use toystar.Fs.Devfs.{
  Devfs, DevfsNode, device_type, devfs, add_device, describe, open_file, find_device, write, read,
}
use toystar.Fs.Devfs.Devices.{first_named, open_file-add_device, opened}

abbrev tty : CString
tty = b't' ∷ b't' ∷ b'y' ∷ []

abbrev nul : CString
nul = b'n' ∷ []

abbrev root_node : DevfsNode
root_node = record { file = 0; dev = 0; next = 0; children = 2 }

abbrev tty_node : DevfsNode
tty_node = record { file = 12; dev = 70; next = 0; children = 0 }

abbrev tty_file : FsNode ℕ
tty_file = record {
  name = tty;
  size = 0;
  permissions = 0;
  ty = device_type;
  device_node = 2;
  parent = 0;
  fs = 9;
}

abbrev machine : Devfs ℕ
machine = record {
  nodes = update (update (λ p. none) 1 (some root_node)) 2 (some tty_node);
  fs_nodes = update (λ p. none) 12 (some tty_file);
  descriptions = λ p. none;
  devfs_root_node = 1;
  devfs_filesystem = 9;
  world = 0;
}

abbrev four : Fresh
four = record { node = 4; node_data = 0; fs_node = 14; description = 24 }

abbrev five : Fresh
five = record { node = 5; node_data = 0; fs_node = 15; description = 25 }

-- A device that counts the bytes.
abbrev count : ℕ → ℕ → ℕ → ℕ → ℕ → ℕ × ℕ
count dev offset size buffer w = (size, w + size)

write_test : (write count 12 0 8 0 machine >>= λ r. done r.0) ≡ done 8
unfolding write
write_test = refl

read_test : read count 12 0 8 0 machine ≡ fault
unfolding read write
read_test = refl

open_file_test :
    (devfs four machine >>= add_device five nul 71 >>= open_file 3 five 0 (slash ∷ tty) 4 >>= λ r.
    done r.0)
    ≡ done 0
unfolding devfs add_device open_file describe new_fs_node strcmp strlen find_device
open_file_test = refl

open_file-add_device_example :
    (st' : Devfs ℕ) × (add_device four nul 71 machine ≡ done st')
    × (open_file 3 five 0 (slash ∷ tty) 4 st'
        ≡ done (
            opened 25 4 (if strcmp tty nul then some 14 else first_named tty ((tty, 12) ∷ [])) st'))
open_file-add_device_example =
    open_file-add_device four five nul tty 71 slash 3 0 4 root_node machine ((tty, 12) ∷ [])
      (omega arith) (omega arith) refl refl (omega arith) refl
      (
        2,
        tty_node,
        tty_file,
        record {
          first = refl;
          real = omega arith;
          no_root = λ e. absurd (omega arith);
          node_lies = refl;
          file_lies = refl;
          named = refl;
        },
        refl,
        refl,
      )
      (omega arith) (omega arith)
