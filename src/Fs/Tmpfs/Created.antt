-- ===== src/Fs/Tmpfs/Created.antt =====
-- `open` with CREATE, and `mkdir`, of src/kernel/fs/tmpfs.cpp: the new node, and that its path leads to it.
use toystar.Prelude.{
  ℕ, ◌+◌, ◌<◌, ◌≡◌, ◌≢◌, sym, ap, ◌∙◌, inl, inr, Bool, true, false, ◌&&◌, not, [], ◌∷◌, ◌==◌,
  if◌then◌else◌, length, drop, arith, Bool-cases, ==_iff,
}
use mathlib.Core.Path.{subst}
use mathlib.Core.Bool.{true≢false}
use toystar.Klibc.Strings.{CString, char_at}
use toystar.Klibc.Strings.Compare.{IsText, starts, starts_self}
use toystar.Fs.Vfs.{slash}
use toystar.Fs.Vfs.Names.{char_at-end}
use toystar.Fs.Tmpfs.{Tmpfs, WalkEnd, returned, left}
use toystar.Fs.Tmpfs.Tree.{Dir, leaf, entry, Has, Lies, look}
use toystar.Fs.Tmpfs.Within.{target, look-target}
use toystar.Fs.Tmpfs.Create.{graft, grow, pos-ne}

abbrev rest_of : WalkEnd → CString
rest_of (returned node) = []
rest_of (left path node) = path

abbrev is_left : WalkEnd → Bool
is_left (returned node) = false
is_left (left path node) = true

-- No node is below itself.
abbrev pub Acyclic : Dir → Type 0
Acyclic leaf = Unit {0}
Acyclic (entry name a children next) = ¬ (Has a children) × Acyclic children × Acyclic next

pub Lies-Acyclic : (st : Tmpfs) (owner head : ℕ) (d : Dir) → Lies st owner head d → Acyclic d
Lies-Acyclic st owner head leaf h = tt
Lies-Acyclic st owner head (entry name a children next) (node, file, s, acyclic, hc, hn) =
    (acyclic, Lies-Acyclic st a node.children children hc, Lies-Acyclic st owner node.next next hn)

-- A round of two walks that take the same tests, for a relation of where they end.
round-cases :
    {A : Type 0} (b₁ b₂ b₃ b₄ : Bool) {stop further back below stop' further' back' below' : A}
    (R : A → A → Type 0)
    → R stop stop'
    → R further further'
    → R back back'
    → R below below'
    → R
        (if b₁
          then stop
          else if b₂
          then (if b₃ then further else if b₄ then back else below)
          else further)
        (if b₁
          then stop'
          else if b₂
          then (if b₃ then further' else if b₄ then back' else below')
          else further')
round-cases true b₂ b₃ b₄ R hs hf hb hd = hs
round-cases false true true b₄ R hs hf hb hd = hf
round-cases false true false true R hs hf hb hd = hb
round-cases false true false false R hs hf hb hd = hd
round-cases false false b₃ b₄ R hs hf hb hd = hf

-- A walk that ends at the node it started below has the whole path left.
look-here :
    (d : Dir) (path rest : CString) (p : ℕ)
    → ¬ (Has p d)
    → look d path p ≡ left rest p
    → rest ≡ path
look-here leaf path rest p out e = sym (ap rest_of e)
look-here (entry name a children next) path rest p out e =
    let further = look-here next path rest p (λ h. out (inr (inr h))) in
    let below : ¬ (look children (drop (length name + 1) path) a ≡ left rest p) = λ q.
      elim (look-target children (drop (length name + 1) path) a) [
        | inl u ↦ out (inl (sym (ap target q) ∙ u))
        | inr h ↦ out (inr (inl (subst (λ t. Has t children) (ap target q) h)))
      ] in
    let back : ¬ (returned a ≡ left rest p) = λ q. true≢false (sym (ap is_left q)) in
    let any = left path p in
    round-cases (char_at path 0 == 0) (starts name path)
      (not (char_at path (length name) == slash) && not (char_at path (length name) == 0))
      (char_at path (length name) == 0) {stop' = any} {further' = any} {back' = any} {below' = any}
      (λ end _. end ≡ left rest p → rest ≡ path) (λ q. sym (ap rest_of q)) further
      (λ q. absurd (back q)) (λ q. absurd (below q)) e

-- A node whose name is the path is found where the walk starts.
look-entry :
    (name : CString) (q owner : ℕ) (children next : Dir)
    → IsText name
    → 0 < length name
    → look (entry name q children next) name owner ≡ returned q
look-entry [] q owner children next text pos = absurd (omega arith)
look-entry (c ∷ name) q owner children next (cpos, text) pos =
    rw (pos-ne cpos, starts_self (c ∷ name), char_at-end name)

other : (p owner : ℕ) → (owner == p) ≡ false → owner ≢ p
other p owner b e = absurd (ground (arith, (==_iff owner p).1 e))

-- After the new node is there, the path that ended at its parent with its name left leads to it:
-- where the walk starts below the parent,
look-first :
    (p : ℕ) (name : CString) (q : ℕ)
    → IsText name
    → 0 < length name
    → (d : Dir) (path : CString) (owner : ℕ) → (owner == p) ≡ true
    → ¬ (Has owner d)
    → look d path owner ≡ left name p
    → look (entry name q leaf (graft p name q d)) path owner ≡ returned q
look-first p name q text pos d path owner b out e =
    let same = (==_iff owner p).0 b in
    let path_is =
      look-here d path name p (subst (λ o. ¬ (Has o d)) same out)
        (subst (λ o. look d path o ≡ left name p) same e) in
    rw (← path_is) (look-entry name q owner leaf (graft p name q d) text pos)

-- and where it starts below another node,
look-graft :
    (p : ℕ) (name : CString) (q : ℕ)
    → IsText name
    → 0 < length name
    → (d : Dir) (path : CString) (owner : ℕ) → (owner == p) ≡ false
    → Acyclic d
    → look d path owner ≡ left name p
    → look (graft p name q d) path owner ≡ returned q
look-graft p name q text pos leaf path owner b acyclic e = absurd (other p owner b (ap target e))
look-graft p name q text pos (entry n a children next) path owner b (out, hc, hn) e =
    let rest = drop (length n + 1) path in
    round-cases (char_at path 0 == 0) (starts n path)
      (not (char_at path (length n) == slash) && not (char_at path (length n) == 0))
      (char_at path (length n) == 0) (λ x y. x ≡ left name p → y ≡ returned q)
      (λ u. absurd (other p owner b (ap target u)))
      (look-graft p name q text pos next path owner b hn)
      (λ u. absurd (true≢false (sym (ap is_left u))))
      (λ u. elim (Bool-cases (a == p)) [
        | inl same ↦ rw same (look-first p name q text pos children rest a same out u)
        | inr differ ↦ rw differ (look-graft p name q text pos children rest a differ hc u)
      ])
      e

-- and in both cases.
pub look-grow :
    (p : ℕ) (name : CString) (q : ℕ)
    → IsText name
    → 0 < length name
    → (d : Dir) (path : CString) (owner : ℕ) → Acyclic d
    → ¬ (Has owner d)
    → look d path owner ≡ left name p
    → look (grow p name q owner d) path owner ≡ returned q
look-grow p name q text pos d path owner acyclic out e = elim (Bool-cases (owner == p)) [
  | inl b ↦ rw b (look-first p name q text pos d path owner b out e)
  | inr b ↦ rw b (look-graft p name q text pos d path owner b acyclic e)
]
