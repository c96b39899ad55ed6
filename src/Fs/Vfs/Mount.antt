-- ===== src/Fs/Vfs/Mount.antt =====
-- Where a path leads after a mount: `mount` and `get_absolute_path` of src/kernel/fs/vfs.cpp.
use toystar.Prelude.{
  ◌≡◌, refl, sym, ◌∙◌, ap, true, false, ◌||◌, ◌&&◌, Option, none, some, ◌⊎◌, ◌∷◌, ◌++◌, ◌==◌,
  if◌then◌else◌, length, drop, Bool-cases, Option-cases, inl, inr,
}
use mathlib.Core.Option.{some-injective, none-ne-some}
use mathlib.Core.Path.{subst}
use toystar.Klibc.Strings.{CString, char_at, strlen, strncmp}
use toystar.Klibc.Strings.Compare.{IsText, starts, strlen-length, strncmp-starts}
use toystar.Fs.Vfs.{Filesystem, Node, null, node, slash, descend, attach, resolve}
use toystar.Fs.Vfs.Names.{
  enters, enters_path, HasNoSlash, enters_path-enters, drop-enters, drop-IsText, enters_self,
  drop_self, if-not,
}

module _ {S : Type 0} where
  -- Every node's name is a text.
  abbrev pub AreTexts : Node (Filesystem S) → Type 0
  AreTexts null = Unit {0}
  AreTexts (node name f children next) = IsText name × AreTexts children × AreTexts next

  -- The round of `get_absolute_path` at a node.
  resolve-node :
      (fs f : Filesystem S) (name path : CString) (children next : Node (Filesystem S))
      → IsText name
      → resolve fs path (node name f children next) ≡ (
          if enters_path name path
          then resolve f (drop (length name) path) children
          else resolve fs path next)
  unfolding resolve
  resolve-node fs f name path children next h =
      rw (strncmp-starts name path h, strlen-length name h)
        (if-not (starts name path) (char_at path (length name) == slash) (resolve fs path next)
          (resolve f (drop (length name) path) children))

  -- A node with the new node below it.
  abbrev made :
      Filesystem S
      → CString
      → CString
      → Filesystem S
      → Node (Filesystem S)
      → Node (Filesystem S)
      → Node (Filesystem S)
  made fs target name f children next = node name f (attach fs target children) next

  entered :
      (fs f : Filesystem S) (name target : CString) (children next : Node (Filesystem S))
      (o : Option (Node (Filesystem S)))
      → ◌≡◌ {A = Option (Node (Filesystem S))}
          (elim o [
            | none ↦ some (node name f (node target fs null children) next)
            | some m ↦ some (node name f m next)
          ])
          (some (node name f (elim o [ none ↦ node target fs null children | some m ↦ m ]) next))
  entered fs f name target children next none = refl
  entered fs f name target children next (some m) = refl

  abbrev passed :
      CString
      → Filesystem S
      → Node (Filesystem S)
      → Option (Node (Filesystem S))
      → Option (Node (Filesystem S))
  passed name f children o = elim o [ none ↦ none | some m ↦ some (node name f children m) ]

  -- The round of `mount` at a node.
  descend-node :
      (fs f : Filesystem S) (name target : CString) (children next : Node (Filesystem S))
      → IsText name
      → descend fs target (node name f children next) ≡ (
          if char_at target 0 == 0
          then none
          else if enters name target
          then some (made fs (drop (length name) target) name f children next)
          else passed name f children (descend fs target next))
  descend-node fs f name target children next h =
      let at : descend fs target (node name f children next) ≡ (
          if char_at target 0 == 0
          then none
          else if strncmp name target (strlen name)
              && ((char_at target (strlen name) == slash) || (char_at target (strlen name) == 0))
          then some (made fs (drop (strlen name) target) name f children next)
          else passed name f children (descend fs target next)) =
        (unfold descend attach in
          ap
            (λ m.
              if char_at target 0 == 0
              then none
              else if strncmp name target (strlen name)
                  && ((char_at target (strlen name) == slash)
                      || (char_at target (strlen name) == 0))
              then m
              else passed name f children (descend fs target next))
            (entered fs f name (drop (strlen name) target) children next
              (descend fs (drop (strlen name) target) children))) in
      rw (strncmp-starts name target h, strlen-length name h) at at

  -- A new node is found, as it comes first.
  resolve-new :
      (old fs : Filesystem S) (target file : CString) (next : Node (Filesystem S))
      → IsText target
      → HasNoSlash file
      → resolve old (target ++ (slash ∷ file)) (node target fs null next) ≡ (fs, slash ∷ file)
  unfolding resolve
  resolve-new old fs target file next ht hf =
      resolve-node old fs target (target ++ (slash ∷ file)) null next ht
      ∙ rw (
        enters_path-enters target target file ht hf,
        enters_self target,
        drop-enters target target file (enters_self target),
        drop_self target,
      )

  -- A round of `mount` that makes a list: it went into the node, or on to the next.
  descend-cases :
      (fs f : Filesystem S) (name target : CString) (children next made' : Node (Filesystem S))
      → IsText name
      → descend fs target (node name f children next) ≡ some made'
      → ((enters name target ≡ true)
          × (made fs (drop (length name) target) name f children next ≡ made'))
        ⊎ ((rest : Node (Filesystem S)) × (enters name target ≡ false)
            × (descend fs target next ≡ some rest)
            × (node name f children rest ≡ made'))
  descend-cases fs f name target children next made' h q =
      let at = sym (descend-node fs f name target children next h) ∙ q in
      elim (Bool-cases (char_at target 0 == 0)) [
        | inl z ↦ absurd (none-ne-some made' (rw z at at))
        | inr z ↦ elim (Bool-cases (enters name target)) [
          | inl e ↦ inl (e, some-injective _ _ (rw (z, e) at at))
          | inr e ↦ elim (Option-cases (descend fs target next)) [
            | inl n ↦ absurd (none-ne-some made' (rw (z, e, n) at at))
            | inr (rest, n) ↦ inr (rest, e, n, some-injective _ _ (rw (z, e, n) at at))
          ]
        ]
      ]

  module _ (fs : Filesystem S) (file : CString) (hf : HasNoSlash file) where
    -- Where the path to a file below the target leads.
    abbrev LeadsTo : Filesystem S → CString → Node (Filesystem S) → Type 0
    LeadsTo old target nodes = resolve old (target ++ (slash ∷ file)) nodes ≡ (fs, slash ∷ file)

    resolve-enters :
        (old f : Filesystem S) (name target : CString) (children next : Node (Filesystem S))
        → IsText name
        → IsText target
        → enters name target ≡ true
        → LeadsTo f (drop (length name) target) children
        → LeadsTo old target (node name f children next)
    resolve-enters old f name target children next hn ht e h =
        resolve-node old f name (target ++ (slash ∷ file)) children next hn
        ∙ rw (enters_path-enters name target file ht hf, e, drop-enters name target file e) h

    resolve-passes :
        (old f : Filesystem S) (name target : CString) (children next : Node (Filesystem S))
        → IsText name
        → IsText target
        → enters name target ≡ false
        → LeadsTo old target next
        → LeadsTo old target (node name f children next)
    resolve-passes old f name target children next hn ht e h =
        resolve-node old f name (target ++ (slash ∷ file)) children next hn
        ∙ rw (enters_path-enters name target file ht hf, e) h

    attach-none :
        (target : CString) (nodes : Node (Filesystem S))
        → descend fs target nodes ≡ none
        → attach fs target nodes ≡ node target fs null nodes
    unfolding attach
    attach-none target nodes n =
        ap (λ o. elim o [ none ↦ node target fs null nodes | some m ↦ m ]) n

    attach-some :
        (target : CString) (nodes m : Node (Filesystem S))
        → descend fs target nodes ≡ some m
        → attach fs target nodes ≡ m
    unfolding attach
    attach-some target nodes m n =
        ap (λ o. elim o [ none ↦ node target fs null nodes | some m ↦ m ]) n

    resolve-attach_of :
        (old : Filesystem S) (target : CString) (nodes : Node (Filesystem S))
        → IsText target
        → ((m : Node (Filesystem S)) → descend fs target nodes ≡ some m → LeadsTo old target m)
        → LeadsTo old target (attach fs target nodes)
    resolve-attach_of old target nodes ht h = elim (Option-cases (descend fs target nodes)) [
      | inl n ↦
          subst (LeadsTo old target) (sym (attach-none target nodes n))
            (resolve-new old fs target file nodes ht hf)
      | inr (m, n) ↦ subst (LeadsTo old target) (sym (attach-some target nodes m n)) (h m n)
    ]

    descend-null : (target : CString) → descend fs target null ≡ none
    unfolding descend
    descend-null target = refl

    resolve-descend :
        (old : Filesystem S) (target : CString) (nodes m : Node (Filesystem S))
        → AreTexts nodes
        → IsText target
        → descend fs target nodes ≡ some m
        → LeadsTo old target m
    resolve-descend old target null m h ht e =
        absurd (none-ne-some m (sym (descend-null target) ∙ e))
    resolve-descend old target (node name f children next) made' (hn, hc, hx) ht e =
        elim (descend-cases fs f name target children next made' hn e) [
          | inl (b, q) ↦
              let below = drop (length name) target in
              let hb = drop-IsText (length name) target ht in
              subst (LeadsTo old target) q (
                resolve-enters old f name target (attach fs below children) next hn ht b (
                  resolve-attach_of f below children hb
                    (λ m k. resolve-descend f below children m hc hb k)))
          | inr (rest, b, k, q) ↦ subst (LeadsTo old target) q (
              resolve-passes old f name target children rest hn ht b
                (resolve-descend old target next rest hx ht k))
        ]

    -- After `attach`, the path to a file directly in the target leads to the new file system.
    pub resolve-attach :
        (old : Filesystem S) (target : CString) (nodes : Node (Filesystem S))
        → AreTexts nodes
        → IsText target
        → LeadsTo old target (attach fs target nodes)
    resolve-attach old target nodes h ht =
        resolve-attach_of old target nodes ht (λ m k. resolve-descend old target nodes m h ht k)
