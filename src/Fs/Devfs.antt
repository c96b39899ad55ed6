-- ===== src/Fs/Devfs.antt =====
-- src/kernel/fs/devfs.cpp: the file system of the devices. As in Tmpfs, the objects of the heap are
-- stores by address, and what `new` gives is an argument.
pub mod Devices
mod Tests
use toystar.Prelude.{ℕ, zero, suc, ◌==◌, ◌∷◌, Option, none, some, if◌then◌else◌, drop}
use toystar.Prelude.Outcome.{Outcome, done, hang, fault, ◌>>=◌}
use toystar.Klibc.Strings.{CString, strcmp}
use toystar.Fs.Vfs.{FsNode, new_fs_node}
use toystar.Fs.Files.{FileDescription}
use toystar.Fs.Tmpfs.{Fresh, deref, put}

-- `devfs_node`
pub record DevfsNode : Type 0 where
  pub file : ℕ
  pub dev : ℕ
  pub next : ℕ
  pub children : ℕ

-- The objects on the heap and the global variables; `world` is the state of the devices.
pub record Devfs (W : Type 0) : Type 0 where
  pub nodes : ℕ → Option DevfsNode
  pub fs_nodes : ℕ → Option (FsNode ℕ)
  pub descriptions : ℕ → Option FileDescription
  pub devfs_root_node : ℕ
  pub devfs_filesystem : ℕ
  pub world : W

-- `Vfs::FileType::Device`
abbrev pub device_type : ℕ
device_type = 3

module _ {W : Type 0} where
  -- The constructor does not set the root's `file`.
  unfoldable pub devfs : Fresh → Devfs W → Outcome (Devfs W)
  devfs fresh st = do
    let root : DevfsNode = record { file = fresh.node_data; dev = 0; next = 0; children = 0 }
    nodes ← put st.nodes fresh.node root
    done (record st { nodes = nodes; devfs_root_node = fresh.node })

  unfoldable pub add_device : Fresh → CString → ℕ → Devfs W → Outcome (Devfs W)
  unfolding deref new_fs_node
  add_device fresh name new_device st = do
    let file = new_fs_node name 0 0 device_type fresh.node 0 st.devfs_filesystem
    fs_nodes ← put st.fs_nodes fresh.fs_node file
    root ← deref st.nodes st.devfs_root_node
    let made : DevfsNode = record {
      file = fresh.fs_node;
      dev = new_device;
      next = root.children;
      children = 0;
    }
    nodes ← put st.nodes fresh.node made
    nodes' ← put nodes st.devfs_root_node (record root { children = fresh.node })
    done (record st { nodes = nodes'; fs_nodes = fs_nodes })

  -- The loop of `open`: the file of the device of that name.
  unfoldable pub find_device : ℕ → Devfs W → CString → ℕ → Outcome (Option ℕ)
  unfolding deref
  find_device zero st path head = hang
  find_device (suc n) st path head = if head == 0 then done none else (do
    here ← deref st.nodes head
    file ← deref st.fs_nodes here.file
    let rest = find_device n st path here.next
    if strcmp path file.name then done (some here.file) else rest)

  -- A new description of the file that was found.
  unfoldable pub describe : Fresh → ℕ → Option ℕ → Devfs W → Outcome (ℕ × Devfs W)
  describe fresh mode none st = done (0, st)
  describe fresh mode (some file) st = do
    let fd : FileDescription = record { file = file; mode = mode; offset = 0 }
    descriptions ← put st.descriptions fresh.description fd
    done (fresh.description, record st { descriptions = descriptions })

  -- `open`; the first character of the path is skipped.
  unfoldable pub open_file : ℕ → Fresh → ℕ → CString → ℕ → Devfs W → Outcome (ℕ × Devfs W)
  unfolding deref
  open_file fuel fresh working_dir path mode st = do
    root ← deref st.nodes st.devfs_root_node
    found ← find_device fuel st (drop 1 path) root.children
    describe fresh mode found st

  -- `access` is the virtual function of the device at an address.
  unfoldable pub write :
      (ℕ → ℕ → ℕ → ℕ → W → ℕ × W) → ℕ → ℕ → ℕ → ℕ → Devfs W → Outcome (ℕ × Devfs W)
  unfolding deref
  write access path offset size buffer st = do
    file ← deref st.fs_nodes path
    device ← deref st.nodes file.device_node
    let (r, world) = access device.dev offset size buffer st.world
    if device.dev == 0 then fault else done (r, record st { world = world })

  -- `read` ends without a `return`, which C++ leaves undefined.
  unfoldable pub read :
      (ℕ → ℕ → ℕ → ℕ → W → ℕ × W) → ℕ → ℕ → ℕ → ℕ → Devfs W → Outcome (ℕ × Devfs W)
  read access path offset size buffer st = write access path offset size buffer st >>= λ r. fault
