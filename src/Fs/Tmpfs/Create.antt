-- ===== src/Fs/Tmpfs/Create.antt =====
-- A new node in the tree of src/kernel/fs/tmpfs.cpp, and the paths to it.
use toystar.Prelude.{
  ℕ, ◌<◌, ◌≡◌, ◌≢◌, refl, sym, ap, ◌∙◌, ◌⊎◌, inl, inr, false, Option, none, some, ◌==◌,
  if◌then◌else◌, arith, Bool-cases, ==_iff,
}
use mathlib.Core.Option.{none-ne-some, some-injective}
use toystar.Prelude.Outcome.{done}
use toystar.Prelude.Word.{update}
use toystar.Klibc.Strings.{CString}
use toystar.Klibc.Strings.Compare.{IsText}
use toystar.Fs.Vfs.{FsNode}
use toystar.Fs.Tmpfs.{Tmpfs, TmpfsNode, Fresh}
use toystar.Fs.Tmpfs.Calls.{link_child}
use toystar.Fs.Tmpfs.Tree.{Dir, leaf, entry, Has, Lies, deref-some}

-- The tree with `q` under that name as a new first child of `p`.
abbrev pub graft : ℕ → CString → ℕ → Dir → Dir
graft p name q leaf = leaf
graft p name q (entry n a children next) =
    let below = graft p name q children in
    entry n a (if a == p then entry name q leaf below else below) (graft p name q next)

-- The children of `owner` after that.
abbrev pub grow : ℕ → CString → ℕ → ℕ → Dir → Dir
grow p name q owner d =
    if owner == p then entry name q leaf (graft p name q d) else graft p name q d

-- What `new` gave is not in use.
pub record IsFresh (st : Tmpfs) (fresh : Fresh) : Type 0 where
  pub node_pos : 0 < fresh.node
  pub fs_node_pos : 0 < fresh.fs_node
  pub description_pos : 0 < fresh.description
  pub node_free : st.nodes fresh.node ≡ none
  pub fs_node_free : st.fs_nodes fresh.fs_node ≡ none

abbrev pub child : Fresh → ℕ → ℕ → TmpfsNode → TmpfsNode
child fresh bytes p above = record {
  file = fresh.fs_node;
  data_ptr = bytes;
  next = above.children;
  parent = p;
  children = 0;
}

-- The state after `link_child`, where `above` is at `p`.
abbrev pub linked : Fresh → FsNode ℕ → ℕ → ℕ → TmpfsNode → Tmpfs → Tmpfs
linked fresh file bytes p above st = record st {
  nodes =
      update (update st.nodes fresh.node (some (child fresh bytes p above))) p
        (some (record above { children = fresh.node }));
  fs_nodes = update st.fs_nodes fresh.fs_node (some file);
}

pub pos-ne : {n : ℕ} → 0 < n → (n == 0) ≡ false
pos-ne h = ground arith

pub link_child-linked :
    (fresh : Fresh) (file : FsNode ℕ) (bytes p : ℕ) (above : TmpfsNode) (st : Tmpfs)
    → IsFresh st fresh
    → 0 < p
    → st.nodes p ≡ some above
    → link_child fresh file bytes p st ≡ done (linked fresh file bytes p above st)
unfolding link_child
link_child-linked fresh file bytes p above st f pos e =
    rw (pos-ne f.fs_node_pos, deref-some st.nodes e, pos-ne f.node_pos, pos-ne pos)

-- An object is at no address where there was none.
pub apart :
    {A : Type 0} (heap : ℕ → Option A) {a q : ℕ} {x : A} → heap q ≡ none → heap a ≡ some x → a ≢ q
apart heap free at e = none-ne-some _ (sym free ∙ ap heap (sym e) ∙ at)

pub update_other :
    {A : Type 0} (heap : ℕ → A) (q : ℕ) (x : A) (a : ℕ) → a ≢ q → update heap q x a ≡ heap a
update_other heap q x a ne = ground arith

pub update_here : {A : Type 0} (heap : ℕ → A) (q : ℕ) (x : A) → update heap q x q ≡ x
update_here heap q x = ground arith

Has-grow :
    (p : ℕ) (name : CString) (q owner : ℕ) (d : Dir) (a : ℕ)
    → (Has a (graft p name q d) → (a ≡ q) ⊎ Has a d)
    → Has a (grow p name q owner d)
    → (a ≡ q) ⊎ Has a d
Has-grow p name q owner d a below h = elim (Bool-cases (owner == p)) [
  | inl b ↦ elim (rw b at h) [
    | inl e ↦ inl e
    | inr k ↦ elim k [ inl l ↦ absurd l | inr l ↦ below l ]
  ]
  | inr b ↦ below (rw b at h)
]

Has-graft :
    (p : ℕ) (name : CString) (q : ℕ) (d : Dir) (a : ℕ)
    → Has a (graft p name q d)
    → (a ≡ q) ⊎ Has a d
Has-graft p name q leaf a h = elim h [ ]
Has-graft p name q (entry n b children next) a (inl e) = inr (inl e)
Has-graft p name q (entry n b children next) a (inr (inr h)) = elim (Has-graft p name q next a h) [
  | inl e ↦ inl e
  | inr k ↦ inr (inr (inr k))
]
Has-graft p name q (entry n b children next) a (inr (inl h)) =
    elim (Has-grow p name q b children a (Has-graft p name q children a) h) [
      | inl e ↦ inl e
      | inr k ↦ inr (inr (inl k))
    ]

abbrev with_child : ℕ → TmpfsNode → Option TmpfsNode
with_child q node = some (record node { children = q })

pub linked_new :
    (fresh : Fresh) (file : FsNode ℕ) (bytes p : ℕ) (above : TmpfsNode) (st : Tmpfs)
    → IsFresh st fresh
    → st.nodes p ≡ some above
    → (linked fresh file bytes p above st).nodes fresh.node ≡ some (child fresh bytes p above)
linked_new fresh file bytes p above st f at =
    update_other (update st.nodes fresh.node (some (child fresh bytes p above))) p
      (some (record above { children = fresh.node })) fresh.node
      (λ e. apart st.nodes f.node_free at (sym e))
    ∙ update_here st.nodes fresh.node (some (child fresh bytes p above))

-- A new child of `p` in the tree of the nodes.
pub Lies-linked :
    (fresh : Fresh) (file : FsNode ℕ) (bytes p : ℕ) (above : TmpfsNode) (st : Tmpfs)
    → IsFresh st fresh
    → st.nodes p ≡ some above
    → IsText file.name
    → file.device_node ≡ fresh.node
    → (d : Dir) (owner head : ℕ) → Lies st owner head d
    → Lies (linked fresh file bytes p above st) owner head (graft p file.name fresh.node d)
Lies-linked fresh file bytes p above st f at text device leaf owner head h = h
Lies-linked fresh file bytes p above st f at text device (entry n a children next) owner head
      (node, nfile, s, acyclic, hc, hn) =
    let q = fresh.node in
    let st' = linked fresh file bytes p above st in
    let kept : st'.fs_nodes node.file ≡ some nfile =
      update_other st.fs_nodes fresh.fs_node (some file) node.file
        (apart st.fs_nodes f.fs_node_free s.file_lies)
      ∙ s.file_lies in
    let rest = Lies-linked fresh file bytes p above st f at text device next owner node.next hn in
    let below =
      Lies-linked fresh file bytes p above st f at text device children a node.children hc in
    let acyclic' : ¬ (Has a (grow p file.name q a children)) = λ has.
      elim (Has-grow p file.name q a children a (Has-graft p file.name q children a) has) [
        | inl e ↦ apart st.nodes f.node_free s.node_lies e
        | inr k ↦ acyclic k
      ] in
    elim (Bool-cases (a == p)) [
      | inl b ↦
          let e = (==_iff a p).0 b in
          let same : node ≡ above = some-injective _ _ (sym s.node_lies ∙ ap st.nodes e ∙ at) in
          let there : st'.nodes a ≡ some (record node { children = q }) =
            rw b (ap (with_child q) (sym same)) in
          let new_there : st'.nodes q ≡ some (child fresh bytes a node) =
            linked_new fresh file bytes p above st f at
            ∙ (let e' = sym e in let same' = sym same in rw (e', same')) in
          let new : Lies st' a q (entry file.name q leaf (graft p file.name q children)) = (
            child fresh bytes a node,
            file,
            record {
              first = refl;
              real = f.node_pos;
              node_lies = new_there;
              file_lies = update_here st.fs_nodes fresh.fs_node (some file);
              named = refl;
              text = text;
              above = refl;
              device = device;
            },
            (λ k. k),
            refl,
            below,
          ) in
          (
            record node { children = q },
            nfile,
            record {
              first = s.first;
              real = s.real;
              node_lies = there;
              file_lies = kept;
              named = s.named;
              text = s.text;
              above = s.above;
              device = s.device;
            },
            acyclic',
            rw b new,
            rest,
          )
      | inr b ↦
          let there : st'.nodes a ≡ some node =
            update_other (update st.nodes q (some (child fresh bytes p above))) p
              (some (record above { children = q })) a
              (λ e. absurd (ground (arith, (==_iff a p).1 e)))
            ∙ update_other st.nodes q (some (child fresh bytes p above)) a
                (apart st.nodes f.node_free s.node_lies)
            ∙ s.node_lies in
          (
            node,
            nfile,
            record {
              first = s.first;
              real = s.real;
              node_lies = there;
              file_lies = kept;
              named = s.named;
              text = s.text;
              above = s.above;
              device = s.device;
            },
            acyclic',
            rw b below,
            rest,
          )
    ]
