-- ===== src/Fs/Tmpfs/Within.antt =====
-- Where an absolute path leads in src/kernel/fs/tmpfs.cpp, and what is at a node of the tree.
use toystar.Prelude.{ℕ, ◌+◌, ◌<◌, ◌≡◌, refl, ◌⊎◌, inl, inr, some, ◌∷◌, length, drop, arith}
use toystar.Prelude.Outcome.{done}
use toystar.Klibc.Strings.{CString}
use toystar.Fs.Vfs.{FsNode, slash}
use toystar.Fs.Tmpfs.{Tmpfs, TmpfsNode, WalkEnd, returned, left, finish, path_to_node}
use toystar.Fs.Tmpfs.Tree.{Dir, leaf, entry, size, Has, Lies, IsTree, look, walk-look, deref-some}

-- The node at which the walk ended.
abbrev pub target : WalkEnd → ℕ
target (returned node) = node
target (left path node) = node

-- A walk ends at the node it started below, or in the tree.
pub look-target :
    (d : Dir) (path : CString) (owner : ℕ)
    → (target (look d path owner) ≡ owner) ⊎ Has (target (look d path owner)) d
look-target leaf path owner = inl refl
look-target (entry name a children next) path owner =
    let further = look-target next path owner in
    let below = look-target children (drop (length name + 1) path) a in ground arith

pub path_to_node-absolute :
    (fuel : ℕ) (st : Tmpfs) (d : Dir) (path : CString) (curr_dir : ℕ)
    → IsTree st d
    → size d < fuel
    → path_to_node fuel st (slash ∷ path) curr_dir ≡ done (finish (look d path st.root_tmpfs_node))
unfolding path_to_node
path_to_node-absolute fuel st d path curr_dir (node, file, s, acyclic, hc, hn) lt = rw (
  deref-some st.nodes s.node_lies,
  walk-look fuel st d path st.root_tmpfs_node node.children hc lt,
)

-- What is at a node of the tree.
pub record Within (st : Tmpfs) (owner : ℕ) (d : Dir) (p : ℕ) : Type 0 where
  pub node : TmpfsNode
  pub children : Dir
  pub node_lies : st.nodes p ≡ some node
  pub file : FsNode ℕ
  pub file_lies : st.fs_nodes node.file ≡ some file
  pub children_lie : Lies st p node.children children
  pub smaller : size children < size d
  pub inside : (q : ℕ) → Has q children → Has q d
  pub parent_in : (node.parent ≡ owner) ⊎ Has node.parent d

pub within :
    (st : Tmpfs) (owner head : ℕ) (d : Dir) (p : ℕ)
    → Lies st owner head d
    → Has p d
    → Within st owner d p
within st owner head leaf p h has = elim has [ ]
within st owner head (entry name a children next) p (node, file, s, acyclic, hc, hn) (inl e) =
    record {
      node = node;
      children = children;
      node_lies = rw (e, s.node_lies);
      file = file;
      file_lies = s.file_lies;
      children_lie = rw e hc;
      smaller = omega arith;
      inside = λ q has. inr (inl has);
      parent_in = inl s.above;
    }
within st owner head (entry name a children next) p (node, file, s, acyclic, hc, hn)
      (inr (inl has)) =
    let w = within st a node.children children p hc has in
    record {
      node = w.node;
      children = w.children;
      node_lies = w.node_lies;
      file = w.file;
      file_lies = w.file_lies;
      children_lie = w.children_lie;
      smaller = let lt = w.smaller in omega arith;
      inside = λ q has. inr (inl (w.inside q has));
      parent_in = elim w.parent_in [ inl e ↦ inr (inl e) | inr h ↦ inr (inr (inl h)) ];
    }
within st owner head (entry name a children next) p (node, file, s, acyclic, hc, hn)
      (inr (inr has)) =
    let w = within st owner node.next next p hn has in
    record {
      node = w.node;
      children = w.children;
      node_lies = w.node_lies;
      file = w.file;
      file_lies = w.file_lies;
      children_lie = w.children_lie;
      smaller = let lt = w.smaller in omega arith;
      inside = λ q has. inr (inr (w.inside q has));
      parent_in = elim w.parent_in [ inl e ↦ inl e | inr h ↦ inr (inr (inr h)) ];
    }
