-- ===== src/Fs/Devfs/Devices.antt =====
-- `add_device` and `open` of src/kernel/fs/devfs.cpp: which device a path opens.
use toystar.Prelude.{
  ℕ, zero, suc, ◌+◌, ◌<◌, ◌≡◌, ◌≢◌, refl, sym, ◌∙◌, Option, none, some, List, [], ◌∷◌,
  if◌then◌else◌, length, arith, Bool-cases, inl, inr,
}
use toystar.Prelude.Outcome.{done}
use toystar.Prelude.Word.{update}
use toystar.Klibc.Strings.{CString, strcmp}
use toystar.Fs.Vfs.{FsNode, new_fs_node}
use toystar.Fs.Tmpfs.{Fresh}
use toystar.Fs.Tmpfs.Tree.{deref-some}
use toystar.Fs.Tmpfs.Create.{pos-ne, apart, update_other, update_here}
use toystar.Fs.Devfs.{Devfs, DevfsNode, device_type, add_device, find_device, describe, open_file}

-- The node that `add_device` makes.
abbrev new_node : Fresh → ℕ → DevfsNode → DevfsNode
new_node fresh new_device root = record {
  file = fresh.fs_node;
  dev = new_device;
  next = root.children;
  children = 0;
}

-- The file of the first device of that name.
abbrev pub first_named : CString → List (CString × ℕ) → Option ℕ
first_named path [] = none
first_named path ((name, file) ∷ ds) = if strcmp path name then some file else first_named path ds

module _ {W : Type 0} where
  -- The device at `a`, in the list from `head` on.
  pub record Stands (st : Devfs W) (head a : ℕ) (name : CString) (node : DevfsNode)
      (file : FsNode ℕ) : Type 0 where
    pub first : head ≡ a
    pub real : 0 < a
    pub no_root : a ≢ st.devfs_root_node
    pub node_lies : st.nodes a ≡ some node
    pub file_lies : st.fs_nodes node.file ≡ some file
    pub named : file.name ≡ name

  -- The names of the devices from `head` on, and the addresses of their files.
  abbrev pub Devices : Devfs W → ℕ → List (CString × ℕ) → Type 0
  Devices st head [] = head ≡ 0
  Devices st head ((name, path) ∷ ds) =
      (a : ℕ) × (node : DevfsNode) × (file : FsNode ℕ) × Stands st head a name node file
      × (node.file ≡ path)
      × Devices st node.next ds

  find_device-first_named :
      (n : ℕ) (st : Devfs W) (path : CString) (head : ℕ) (ds : List (CString × ℕ))
      → Devices st head ds
      → length ds < n
      → find_device n st path head ≡ done (first_named path ds)
  unfolding find_device
  find_device-first_named zero st path head ds h lt = absurd (omega arith)
  find_device-first_named (suc n) st path head [] h lt = rw h
  find_device-first_named (suc n) st path head ((name, p) ∷ ds) (a, node, file, s, e, h) lt =
      let rest = find_device-first_named n st path node.next ds h (omega arith) in
      rw
        (
          s.first,
          pos-ne s.real,
          deref-some st.nodes s.node_lies,
          deref-some st.fs_nodes s.file_lies,
          s.named,
          rest,
          e,
        )
        (elim (Bool-cases (strcmp path name)) [ inl b ↦ rw b | inr b ↦ rw b ])

  -- The state after `add_device`.
  abbrev added : Fresh → CString → ℕ → DevfsNode → Devfs W → Devfs W
  added fresh name new_device root st = record st {
    nodes =
        update (update st.nodes fresh.node (some (new_node fresh new_device root)))
          st.devfs_root_node (some (record root { children = fresh.node }));
    fs_nodes =
        update st.fs_nodes fresh.fs_node
          (some (new_fs_node name 0 0 device_type fresh.node 0 st.devfs_filesystem));
  }

  -- The devices that were there stay.
  Devices-added :
      (fresh : Fresh) (name : CString) (new_device : ℕ) (root : DevfsNode) (st : Devfs W)
      → st.nodes fresh.node ≡ none
      → st.fs_nodes fresh.fs_node ≡ none
      → (ds : List (CString × ℕ)) (head : ℕ) → Devices st head ds
      → Devices (added fresh name new_device root st) head ds
  Devices-added fresh name new_device root st free free' [] head h = h
  Devices-added fresh name new_device root st free free' ((n, p) ∷ ds) head
        (a, node, file, s, e, h) =
      (
        a,
        node,
        file,
        record {
          first = s.first;
          real = s.real;
          no_root = s.no_root;
          node_lies =
              update_other (update st.nodes fresh.node (some (new_node fresh new_device root)))
                st.devfs_root_node (some (record root { children = fresh.node })) a s.no_root
              ∙ update_other st.nodes fresh.node (some (new_node fresh new_device root)) a
                  (apart st.nodes free s.node_lies)
              ∙ s.node_lies;
          file_lies =
              update_other st.fs_nodes fresh.fs_node
                (some (new_fs_node name 0 0 device_type fresh.node 0 st.devfs_filesystem)) node.file
                (apart st.fs_nodes free' s.file_lies)
              ∙ s.file_lies;
          named = s.named;
        },
        e,
        Devices-added fresh name new_device root st free free' ds node.next h,
      )

  add_device-added :
      (fresh : Fresh) (name : CString) (new_device : ℕ) (root : DevfsNode) (st : Devfs W)
      → 0 < fresh.node
      → 0 < fresh.fs_node
      → 0 < st.devfs_root_node
      → st.nodes st.devfs_root_node ≡ some root
      → add_device fresh name new_device st ≡ done (added fresh name new_device root st)
  unfolding add_device
  add_device-added fresh name new_device root st pos pos' root_pos at =
      rw (pos-ne pos', deref-some st.nodes at, pos-ne pos, pos-ne root_pos) refl

  -- The new device is the first one.
  Devices-new :
      (fresh : Fresh) (name : CString) (new_device : ℕ) (root : DevfsNode) (st : Devfs W)
      (ds : List (CString × ℕ))
      → 0 < fresh.node
      → st.nodes fresh.node ≡ none
      → st.fs_nodes fresh.fs_node ≡ none
      → st.nodes st.devfs_root_node ≡ some root
      → Devices st root.children ds
      → Devices (added fresh name new_device root st) fresh.node ((name, fresh.fs_node) ∷ ds)
  unfolding new_fs_node
  Devices-new fresh name new_device root st ds pos free free' at h =
      let other : fresh.node ≢ st.devfs_root_node = λ e. apart st.nodes free at (sym e) in
      let made = new_node fresh new_device root in
      (
        fresh.node,
        made,
        new_fs_node name 0 0 device_type fresh.node 0 st.devfs_filesystem,
        record {
          first = refl;
          real = pos;
          no_root = other;
          node_lies =
              update_other (update st.nodes fresh.node (some made)) st.devfs_root_node
                (some (record root { children = fresh.node })) fresh.node other
              ∙ update_here st.nodes fresh.node (some made);
          file_lies =
              update_here st.fs_nodes fresh.fs_node
                (some (new_fs_node name 0 0 device_type fresh.node 0 st.devfs_filesystem));
          named = refl;
        },
        refl,
        Devices-added fresh name new_device root st free free' ds root.children h,
      )

  -- What a call of `open` that finds `found` returns, and the state after it.
  abbrev pub opened : ℕ → ℕ → Option ℕ → Devfs W → ℕ × Devfs W
  opened description mode none st = (0, st)
  opened description mode (some file) st = (
    description,
    record st {
      descriptions =
          update st.descriptions description
            (some (record { file = file; mode = mode; offset = 0 }));
    },
  )

  describe-opened :
      (fresh : Fresh) (mode : ℕ) (found : Option ℕ) (st : Devfs W)
      → 0 < fresh.description
      → describe fresh mode found st ≡ done (opened fresh.description mode found st)
  unfolding describe
  describe-opened fresh mode none st pos = refl
  describe-opened fresh mode (some file) st pos = rw (pos-ne pos) refl

  -- After `add_device`, `open` of a path returns a description that is new: its file is the new
  -- device's, if what follows the path's first character is its name, and otherwise that of the first
  -- device of that name from before; its mode is the given one and its offset 0, and nothing else
  -- changes. With no such device the null pointer is returned and nothing changes. What `new` gives is
  -- not null, the node and the file that it gives are not in use, the root is there, and the fuel is
  -- above the number of devices.
  pub open_file-add_device :
      (fresh fresh' : Fresh) (name path : CString) (new_device c fuel working_dir mode : ℕ)
      (root : DevfsNode) (st : Devfs W) (ds : List (CString × ℕ))
      → 0 < fresh.node
      → 0 < fresh.fs_node
      → st.nodes fresh.node ≡ none
      → st.fs_nodes fresh.fs_node ≡ none
      → 0 < st.devfs_root_node
      → st.nodes st.devfs_root_node ≡ some root
      → Devices st root.children ds
      → length ds + 1 < fuel
      → 0 < fresh'.description
      → (st' : Devfs W) × (add_device fresh name new_device st ≡ done st')
        × (open_file fuel fresh' working_dir (c ∷ path) mode st'
            ≡ done (
                opened fresh'.description mode
                  (if strcmp path name then some fresh.fs_node else first_named path ds)
                  st'))
  unfolding open_file
  open_file-add_device fresh fresh' name path new_device c fuel working_dir mode root st ds pos pos'
        free free' root_pos at h lt some_description =
      let st' = added fresh name new_device root st in
      let root' : DevfsNode = record root { children = fresh.node } in
      let there : st'.nodes st.devfs_root_node ≡ some root' =
        update_here (update st.nodes fresh.node (some (new_node fresh new_device root)))
          st.devfs_root_node (some root') in
      (
        st',
        add_device-added fresh name new_device root st pos pos' root_pos at,
        rw
            (
              deref-some st'.nodes there,
              find_device-first_named fuel st' path fresh.node ((name, fresh.fs_node) ∷ ds)
                  (Devices-new fresh name new_device root st ds pos free free' at h) (omega arith),
            )
            (describe-opened fresh' mode
              (if strcmp path name then some fresh.fs_node else first_named path ds) st'
              some_description),
      )
