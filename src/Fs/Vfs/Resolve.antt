-- ===== src/Fs/Vfs/Resolve.antt =====
-- `mount` of src/kernel/fs/vfs.cpp: the file system that it finds, and its two ends.
use toystar.Prelude.{
  ◌≡◌, refl, sym, ◌∙◌, ap, true, false, Option, none, some, List, [], ◌∷◌, ◌++◌, if◌then◌else◌,
  length, Bool-cases, inl, inr,
}
use mathlib.Core.List.{append_assoc}
use mathlib.Core.Path.{subst}
use toystar.Prelude.Outcome.{done}
use toystar.Lock.{acquire, release}
use toystar.Klibc.Vector.{Vector}
use toystar.Klibc.Vector.Copy.{length-snoc}
use toystar.Klibc.Vector.Access.{at-middle}
use toystar.Klibc.Vector.Laws.{Holds}
use toystar.Klibc.Strings.{CString, strcmp}
use toystar.Klibc.Strings.Compare.{IsText}
use toystar.Fs.Vfs.{Vfs, Filesystem, Node, node, slash, find_fs, attach, mount, get_absolute_path}
use toystar.Fs.Vfs.Names.{HasNoSlash}
use toystar.Fs.Vfs.Mount.{AreTexts, resolve-attach}

module _ {S : Type 0} where
  -- The first file system of that name.
  abbrev pub named : CString → List (Filesystem S) → Option (Filesystem S)
  named source [] = none
  named source (fs ∷ fses) = if strcmp fs.get_name source then some fs else named source fses

  find_fs-rest :
      (source : CString) (v : Vector (Filesystem S)) (front rest : List (Filesystem S))
      → Holds v (front ++ rest)
      → find_fs (length rest) (length front) source v ≡ done (named source rest)
  unfolding find_fs
  find_fs-rest source v front [] h = refl
  find_fs-rest source v front (fs ∷ rest) h =
      let more =
        find_fs-rest source v (front ++ (fs ∷ [])) rest
          (subst (Holds v) (sym (append_assoc front (fs ∷ []) rest)) h) in
      let next = rw (length-snoc front fs) at more in
      rw (at-middle v front fs rest h, next)
        (elim (Bool-cases (strcmp fs.get_name source)) [ inl b ↦ rw b | inr b ↦ rw b ])

  -- The list of file systems is searched from its start, without a panic.
  pub find_fs-named :
      (source : CString) (v : Vector (Filesystem S)) (fses : List (Filesystem S))
      → Holds v fses
      → find_fs v.m_capacity 0 source v ≡ done (named source fses)
  find_fs-named source v fses h =
      ap (λ n. find_fs n 0 source v) h.capacity ∙ find_fs-rest source v [] fses h

  -- With the lock free, a mount of a registered file system succeeds and leaves the lock free, and
  -- afterwards the path to a file directly in the target leads to that file system, with the rest of
  -- the path, whatever was mounted before. There is a root already, `fses` holds the registered file
  -- systems, and the names of the mounts and the target are texts without the terminator.
  pub mount-resolves :
      (v : Vfs S) (fses : List (Filesystem S)) (root fs : Filesystem S)
      (root_name source target file : CString) (children next : Node (Filesystem S))
      → v.vfs_lock ≡ false
      → Holds v.fses fses
      → named source fses ≡ some fs
      → v.vfs_root_node ≡ node root_name root children next
      → AreTexts children
      → IsText target
      → HasNoSlash file
      → (v' : Vfs S) × (mount source target v ≡ done (true, v'))
        × (v'.vfs_lock ≡ false)
        × (get_absolute_path v' (target ++ (slash ∷ file)) ≡ done (fs, slash ∷ file))
  unfolding mount get_absolute_path acquire release
  mount-resolves v fses root fs root_name source target file children next lock held found at texts
        ht hf =
      let e = find_fs-named source v.fses fses held in
      (
        record v {
          vfs_root_node = node root_name root (attach fs target children) next;
          vfs_lock = false;
        },
        rw (lock, e, found, at),
        refl,
        ap done (resolve-attach fs file hf root target children texts ht),
      )

  -- With the lock free, a mount of a file system that is not registered fails, leaves the lock
  -- free and changes no mount.
  mount-unknown :
      (v : Vfs S) (fses : List (Filesystem S)) (source target : CString)
      → v.vfs_lock ≡ false
      → Holds v.fses fses
      → named source fses ≡ none
      → mount source target v ≡ done (false, record v { vfs_lock = false })
  unfolding mount acquire release
  mount-unknown v fses source target lock held found =
      rw (lock, find_fs-named source v.fses fses held, found)
