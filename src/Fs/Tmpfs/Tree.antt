-- ===== src/Fs/Tmpfs/Tree.antt =====
-- The nodes of src/kernel/fs/tmpfs.cpp as a tree, and where a path leads in it.
use toystar.Prelude.{
  ℕ, zero, suc, ◌+◌, ◌<◌, ◌≡◌, refl, ◌⊎◌, Bool, true, false, ◌&&◌, not, Option, some, [], ◌∷◌, ◌==◌,
  if◌then◌else◌, length, drop, arith,
}
use toystar.Prelude.Outcome.{done}
use toystar.Klibc.Strings.{CString, char_at}
use toystar.Klibc.Strings.Compare.{IsText, starts, strlen-length, strncmp-starts}
use toystar.Fs.Vfs.{FsNode, slash}
use toystar.Fs.Tmpfs.{Tmpfs, TmpfsNode, WalkEnd, returned, left, deref, walk}

-- The children of a directory: a child's name and address, its children, and the further children.
pub data Dir : Type 0 where
  leaf : Dir
  entry : CString → ℕ → Dir → Dir → Dir

abbrev pub size : Dir → ℕ
size leaf = 0
size (entry name a children next) = suc (size children + size next)

-- A node of that address stands somewhere in the tree.
abbrev pub Has : ℕ → Dir → Type 0
Has p leaf = ⊥
Has p (entry name a children next) = (p ≡ a) ⊎ (Has p children ⊎ Has p next)

-- The node `node` with `file` at the address `a` is a child of `owner` with that name.
pub record Stands (st : Tmpfs) (owner head : ℕ) (name : CString) (a : ℕ) (node : TmpfsNode)
    (file : FsNode ℕ) : Type 0 where
  pub first : head ≡ a
  pub real : 0 < a
  pub node_lies : st.nodes a ≡ some node
  pub file_lies : st.fs_nodes node.file ≡ some file
  pub named : file.name ≡ name
  pub text : IsText name
  pub above : node.parent ≡ owner
  pub device : file.device_node ≡ a

-- The list of children of `owner` from `head` on is the tree. No node is its own descendant.
abbrev pub Lies : Tmpfs → ℕ → ℕ → Dir → Type 0
Lies st owner head leaf = head ≡ 0
Lies st owner head (entry name a children next) =
    (node : TmpfsNode) × (file : FsNode ℕ) × Stands st owner head name a node file
    × ¬ (Has a children)
    × Lies st a node.children children
    × Lies st owner node.next next

-- The root with its children, `d`.
abbrev pub whole : Tmpfs → Dir → Dir
whole st d = entry (slash ∷ []) st.root_tmpfs_node d leaf

-- The nodes are the tree below the root with the children `d`.
abbrev pub IsTree : Tmpfs → Dir → Type 0
IsTree st d = Lies st 0 st.root_tmpfs_node (whole st d)

-- Where the path leads from the children of `owner`.
abbrev pub look : Dir → CString → ℕ → WalkEnd
look leaf path owner = left path owner
look (entry name a children next) path owner =
    let further = look next path owner in
    let below = look children (drop (length name + 1) path) a in
    if char_at path 0 == 0
    then left path owner
    else if starts name path
    then (if not (char_at path (length name) == slash) && not (char_at path (length name) == 0)
        then further
        else if char_at path (length name) == 0
        then returned a
        else below)
    else further

pub deref-some {ℓ} :
    {A : Type ℓ} (heap : ℕ → Option A) {p : ℕ} {x : A} → heap p ≡ some x → deref heap p ≡ done x
unfolding deref
deref-some heap e = rw (deref, e)

-- A round of the second loop of `path_to_node`, at a node.
walk-Stands :
    (n : ℕ) (st : Tmpfs) (path : CString) (owner head : ℕ) (name : CString) (a : ℕ)
    (node : TmpfsNode) (file : FsNode ℕ)
    → Stands st owner head name a node file
    → walk (suc n) st path head owner ≡ (
        if char_at path 0 == 0
        then done (left path owner)
        else if starts name path
        then (if not (char_at path (length name) == slash) && not (char_at path (length name) == 0)
            then walk n st path node.next owner
            else if char_at path (length name) == 0
            then done (returned a)
            else walk n st (drop (length name + 1) path) node.children a)
        else walk n st path node.next owner)
unfolding walk
walk-Stands n st path owner head name a node file s =
    let z : (a == 0) ≡ false = (let r = s.real in ground arith) in
    rw (
      s.first,
      z,
      deref-some st.nodes s.node_lies,
      deref-some st.fs_nodes s.file_lies,
      s.named,
      strncmp-starts name path s.text,
      strlen-length name s.text,
    )

-- The four tests of a round.
round-done :
    {A : Type 0} (b₁ b₂ b₃ b₄ : Bool) (stop further back below : A)
    → (if b₁
        then done stop
        else if b₂
        then (if b₃ then done further else if b₄ then done back else done below)
        else done further)
      ≡ done (
          if b₁
          then stop
          else if b₂
          then (if b₃ then further else if b₄ then back else below)
          else further)
round-done true b₂ b₃ b₄ stop further back below = refl
round-done false true true b₄ stop further back below = refl
round-done false true false true stop further back below = refl
round-done false true false false stop further back below = refl
round-done false false b₃ b₄ stop further back below = refl

-- On a tree the second loop of `path_to_node` ends, without a fault, where the path leads.
pub walk-look :
    (n : ℕ) (st : Tmpfs) (d : Dir) (path : CString) (owner head : ℕ)
    → Lies st owner head d
    → size d < n
    → walk n st path head owner ≡ done (look d path owner)
walk-look zero st d path owner head h lt = absurd (omega arith)
walk-look (suc n) st leaf path owner head h lt = unfold walk in rw h
walk-look (suc n) st (entry name a children next) path owner head (node, file, s, acyclic, hc, hn)
      lt =
    rw
      (
        walk-Stands n st path owner head name a node file s,
        walk-look n st children (drop (length name + 1) path) a node.children hc (omega arith),
        walk-look n st next path owner node.next hn (omega arith),
      )
      (round-done (char_at path 0 == 0) (starts name path)
        (not (char_at path (length name) == slash) && not (char_at path (length name) == 0))
        (char_at path (length name) == 0) (left path owner) (look next path owner) (returned a)
        (look children (drop (length name + 1) path) a))
