-- ===== src/Fs/Tmpfs/Walk.antt =====
-- `path_to_node` of src/kernel/fs/tmpfs.cpp on a tree: it ends, and where.
use toystar.Prelude.{
  ℕ, zero, suc, ◌<◌, ◌≤◌, ◌≡◌, refl, sym, ◌⊎◌, inl, inr, Bool, true, false, ◌||◌, not, Option, none,
  some, [], ◌∷◌, ◌==◌, if◌then◌else◌, length, drop, arith, Bool-cases,
}
use mathlib.Core.Path.{subst}
use toystar.Prelude.Outcome.{Outcome, done, hang, panic, fault, ◌>>=◌}
use toystar.Klibc.Strings.{CString, char_at}
use toystar.Fs.Vfs.{slash}
use toystar.Fs.Tmpfs.{
  Tmpfs, WalkEnd, returned, left, deref, dot, walk, climb, finish, too_deep, path_to_node,
}
use toystar.Fs.Tmpfs.Tree.{Dir, size, Has, whole, IsTree, look, walk-look, deref-some}
use toystar.Fs.Tmpfs.Within.{target, look-target, within}

length-drop_le : (n : ℕ) (path : CString) → length (drop n path) ≤ length path
length-drop_le zero path = omega arith
length-drop_le (suc n) [] = omega arith
length-drop_le (suc n) (c ∷ path) = omega (arith, length-drop_le n path)

-- No node, or a node of the tree.
abbrev pub IsNode : Tmpfs → Dir → ℕ → Type 0
IsNode st d p = (p ≡ 0) ⊎ Has p (whole st d)

-- The first loop of `path_to_node` ends at no node or at a node of the tree.
abbrev Climbed : Tmpfs → Dir → Outcome (Option (CString × ℕ)) → Type 0
Climbed st d (done none) = Unit {0}
Climbed st d (done (some (path, p))) = IsNode st d p
Climbed st d hang = ⊥
Climbed st d panic = ⊥
Climbed st d fault = ⊥

Climbed-if :
    (st : Tmpfs) (d : Dir) (b : Bool) (x y : Outcome (Option (CString × ℕ)))
    → Climbed st d x
    → Climbed st d y
    → Climbed st d (if b then x else y)
Climbed-if st d true x y hx hy = hx
Climbed-if st d false x y hx hy = hy

or_true : (b : Bool) → (b || true) ≡ true
or_true true = refl
or_true false = refl

climb-Climbed :
    (n : ℕ) (st : Tmpfs) (d : Dir) (path : CString) (p : ℕ)
    → IsTree st d
    → IsNode st d p
    → length path < n
    → Climbed st d (climb n st path p)
unfolding climb
climb-Climbed zero st d path p tree has lt = absurd (omega arith)
climb-Climbed (suc n) st d path p tree (inl z) lt =
    rw (z, or_true (not (char_at path 0 == dot))) (inl refl)
climb-Climbed (suc n) st d [] p tree (inr has) lt = inr has
climb-Climbed (suc n) st d (c ∷ path) p tree (inr has) lt =
    let w = within st 0 st.root_tmpfs_node (whole st d) p tree has in
    let below = length-drop_le 2 path in
    let below' = length-drop_le 1 path in
    let up : Climbed st d (deref st.nodes p >>= λ nd. climb n st (drop 2 path) nd.parent) =
      rw (deref-some st.nodes w.node_lies)
        (climb-Climbed n st d (drop 2 path) w.node.parent tree w.parent_in (omega arith)) in
    let stay = climb-Climbed n st d (drop 1 path) p tree (inr has) (omega arith) in
    Climbed-if st d (not (c == dot) || (p == 0)) _ _ (inr has) (
      Climbed-if st d (char_at path 0 == dot) _ _
        (Climbed-if st d (not (char_at path 1 == slash)) (done none) _ tt up)
        (Climbed-if st d (not (char_at path 0 == slash)) (done none) _ tt stay))

target-finish : (end : WalkEnd) → (finish end ≡ 0) ⊎ (finish end ≡ target end)
unfolding finish
target-finish (returned node) = inr refl
target-finish (left path node) = elim (Bool-cases (too_deep 0 path)) [
  | inl b ↦ inl (rw b)
  | inr b ↦ inr (rw b)
]

-- The second and the third loop, from the children of a node of the tree.
descend-IsNode :
    (fuel : ℕ) (st : Tmpfs) (d : Dir) (path : CString) (p : ℕ)
    → IsTree st d
    → Has p (whole st d)
    → size (whole st d) < fuel
    → (q : ℕ) × ((do
      nd ← deref st.nodes p
      end ← walk fuel st path nd.children p
      done (finish end))
        ≡ done q)
      × IsNode st d q
descend-IsNode fuel st d path p tree has lt =
    let w = within st 0 st.root_tmpfs_node (whole st d) p tree has in
    let lt' = w.smaller in
    let end = look w.children path p in
    let ended : IsNode st d (target end) = elim (look-target w.children path p) [
      | inl e ↦ subst (IsNode st d) (sym e) (inr has)
      | inr h ↦ inr (w.inside (target end) h)
    ] in
    (
      finish end,
      rw (
        deref-some st.nodes w.node_lies,
        walk-look fuel st w.children path p w.node.children w.children_lie (omega arith),
      ),
      elim (target-finish end) [ inl e ↦ inl e | inr e ↦ subst (IsNode st d) (sym e) ended ],
    )

-- The rest of `path_to_node` for a relative path.
abbrev from_climb : ℕ → Tmpfs → Option (CString × ℕ) → Outcome ℕ
from_climb fuel st none = done 0
from_climb fuel st (some (rest, node)) =
    if node == 0
    then done 0
    else (do nd ← deref st.nodes node; end ← walk fuel st rest nd.children node; done (finish end))

from_climb-IsNode :
    (fuel : ℕ) (st : Tmpfs) (d : Dir) (start : Outcome (Option (CString × ℕ)))
    → IsTree st d
    → size (whole st d) < fuel
    → Climbed st d start
    → (q : ℕ) × ((start >>= from_climb fuel st) ≡ done q) × IsNode st d q
from_climb-IsNode fuel st d (done none) tree lt c = (0, refl, inl refl)
from_climb-IsNode fuel st d (done (some (rest, p))) tree lt (inl z) = (0, rw z, inl refl)
from_climb-IsNode fuel st d (done (some (rest, p))) tree lt (inr has) = elim (Bool-cases (p == 0)) [
  | inl b ↦ (0, rw b, inl refl)
  | inr b ↦ rw b (descend-IsNode fuel st d rest p tree has lt)
]
from_climb-IsNode fuel st d hang tree lt c = absurd c
from_climb-IsNode fuel st d panic tree lt c = absurd c
from_climb-IsNode fuel st d fault tree lt c = absurd c

-- On a tree `path_to_node` ends without a fault, for an absolute path and for a path from no
-- directory or a directory of the tree, with the null pointer or a node of the tree. Fuel above the
-- number of nodes and the length of the path is enough.
pub path_to_node-IsNode :
    (fuel : ℕ) (st : Tmpfs) (d : Dir) (path : CString) (curr_dir : ℕ)
    → IsTree st d
    → IsNode st d curr_dir
    → size (whole st d) < fuel
    → length path < fuel
    → (p : ℕ) × (path_to_node fuel st path curr_dir ≡ done p) × IsNode st d p
unfolding path_to_node
path_to_node-IsNode fuel st d path curr_dir (node, file, s, acyclic, hc, hn) at lt long =
    let tree : IsTree st d = (node, file, s, acyclic, hc, hn) in
    rw (deref-some st.nodes s.node_lies) (elim (Bool-cases (char_at path 0 == slash)) [
      | inl b ↦
          let found =
            descend-IsNode fuel st d (drop 1 path) st.root_tmpfs_node tree (inl refl) lt in
          rw b (rw (deref-some st.nodes s.node_lies) at found)
      | inr b ↦ rw b (elim (Bool-cases (curr_dir == 0)) [
        | inl z ↦ rw z (0, refl, inl refl)
        | inr z ↦ rw z (
            from_climb-IsNode fuel st d (climb fuel st path curr_dir) tree lt
              (climb-Climbed fuel st d path curr_dir tree at long))
      ])
    ])
