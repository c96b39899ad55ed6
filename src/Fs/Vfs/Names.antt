-- ===== src/Fs/Vfs/Names.antt =====
-- When `mount` and `get_absolute_path` of src/kernel/fs/vfs.cpp go into a node, from its name.
use toystar.Prelude.{
  ℕ, zero, suc, ◌≡◌, ◌≢◌, refl, Bool, true, false, ◌||◌, ◌&&◌, not, [], ◌∷◌, ◌++◌, ◌==◌,
  if◌then◌else◌, length, drop, arith, Bool-cases, inl, inr,
}
use toystar.Klibc.Strings.{CString, char_at}
use toystar.Klibc.Strings.Compare.{IsText, starts, starts_self}
use toystar.Fs.Vfs.{slash}

-- The test of `mount`: the node's name begins the target, up to its end or to a slash.
abbrev pub enters : CString → CString → Bool
enters name target =
    starts name target
    && ((char_at target (length name) == slash) || (char_at target (length name) == 0))

-- The test of `get_absolute_path`.
abbrev pub enters_path : CString → CString → Bool
enters_path name path = starts name path && (char_at path (length name) == slash)

abbrev pub HasNoSlash : CString → Type 0
HasNoSlash [] = Unit {0}
HasNoSlash (c ∷ s) = (c ≢ slash) × HasNoSlash s

char_at-HasNoSlash : (s : CString) (i : ℕ) → HasNoSlash s → (char_at s i == slash) ≡ false
char_at-HasNoSlash [] i h = refl
char_at-HasNoSlash (c ∷ s) zero (p, h) = ground arith
char_at-HasNoSlash (c ∷ s) (suc i) (p, h) = char_at-HasNoSlash s i h

-- A path to a file in the target goes into the same nodes as the target.
pub enters_path-enters :
    (name target file : CString)
    → IsText target
    → HasNoSlash file
    → enters_path name (target ++ (slash ∷ file)) ≡ enters name target
enters_path-enters [] [] file ht hf = refl
enters_path-enters [] (c ∷ s) file (p, ht) hf = ground arith
enters_path-enters (n ∷ ns) [] file ht hf =
    let e = char_at-HasNoSlash file (length ns) hf in ground arith
enters_path-enters (n ∷ ns) (c ∷ s) file (p, ht) hf = elim (Bool-cases (n == c)) [
  | inl b ↦ rw b (enters_path-enters ns s file ht hf)
  | inr b ↦ rw b
]

-- Below the node, the rest of the path is the rest of the target with the file.
pub drop-enters :
    (name target file : CString)
    → enters name target ≡ true
    → drop (length name) (target ++ (slash ∷ file)) ≡ drop (length name) target ++ (slash ∷ file)
drop-enters [] target file h = refl
drop-enters (n ∷ ns) [] file h = absurd (ground arith)
drop-enters (n ∷ ns) (c ∷ s) file h = elim (Bool-cases (n == c)) [
  | inl b ↦ drop-enters ns s file (rw b at h)
  | inr b ↦ absurd (ground arith)
]

pub drop-IsText : (n : ℕ) (s : CString) → IsText s → IsText (drop n s)
drop-IsText zero s h = h
drop-IsText (suc n) [] h = h
drop-IsText (suc n) (c ∷ s) (p, h) = drop-IsText n s h

pub char_at-end : (s : CString) → char_at s (length s) ≡ 0
char_at-end [] = refl
char_at-end (c ∷ s) = char_at-end s

pub enters_self : (s : CString) → enters s s ≡ true
enters_self s = rw (starts_self s, char_at-end s)

pub drop_self : (s : CString) → drop (length s) s ≡ []
drop_self [] = refl
drop_self (c ∷ s) = drop_self s

pub if-not :
    {A : Type 0} (a b : Bool) (x y : A)
    → (if a then (if not b then x else y) else x) ≡ (if a && b then y else x)
if-not true true x y = refl
if-not true false x y = refl
if-not false b x y = refl
