-- ===== src/Disk.antt =====
-- The file system under proto.rs, state.rs and ble.rs: regular files with their modes, and the
-- answers of the operating system to each call as a value chosen from outside.
use mathlib.Core.Path.{subst}
use egdod.Prelude.{
  ℕ, ◌≡◌, ◌≢◌, ◌↔◌, ◌⊎◌, refl, sym, ap, ◌∙◌, Option, none, some, Bool, true, false, ◌&&◌, Bytes,
  bytes_eq, bytes_eq_iff, if◌then◌else◌, arith, inl, inr, Bool-cases,
}

-- A path as `Path::parent` and `Path::file_name` split it.
pub record FilePath : Type 0 where
  pub dir : Bytes
  pub name : Option Bytes

abbrev pub name_eq : Option Bytes → Option Bytes → Bool
name_eq none none = true
name_eq none (some b) = false
name_eq (some a) none = false
name_eq (some a) (some b) = bytes_eq a b

abbrev pub path_eq : FilePath → FilePath → Bool
path_eq p q = bytes_eq p.dir q.dir && name_eq p.name q.name

name_eq_iff : (a b : Option Bytes) → (name_eq a b ≡ true) ↔ (a ≡ b)
name_eq_iff none none = (λ h. refl, λ h. refl)
name_eq_iff none (some b) = (λ h. cc, λ h. cc)
name_eq_iff (some a) none = (λ h. cc, λ h. cc)
name_eq_iff (some a) (some b) =
    (λ h. ground (arith, bytes_eq_iff a b), λ h. ground (arith, bytes_eq_iff a b))

pub path_eq_iff : (p q : FilePath) → (path_eq p q ≡ true) ↔ (p ≡ q)
path_eq_iff p q = (
  (λ h. ground (arith, bytes_eq_iff p.dir q.dir, name_eq_iff p.name q.name)),
  (λ h. ground (arith, bytes_eq_iff p.dir q.dir, name_eq_iff p.name q.name)),
)

-- `with_file_name`
abbrev pub with_name : FilePath → Bytes → FilePath
with_name p n = record p { name = some n }

pub record File : Type 0 where
  pub content : Bytes
  pub mode : ℕ

abbrev pub Disk : Type 0
Disk = FilePath → Option File

-- The disk with one path given anew; `none` removes it.
unfoldable pub store : Disk → FilePath → Option File → Disk
store d p f q = if path_eq p q then f else d q

-- `rename(p, q)`
unfoldable pub rename : Disk → FilePath → FilePath → Disk
rename d p q = store (store d q (d p)) p none

pub store_same : (d : Disk) (p : FilePath) (f : Option File) → store d p f p ≡ f
unfolding store
store_same d p f = rw ((path_eq_iff p p).1 refl)

pub store_other : (d : Disk) (p q : FilePath) (f : Option File) → p ≢ q → store d p f q ≡ d q
unfolding store
store_other d p q f h = elim (Bool-cases (path_eq p q)) [
  | inl same ↦ absurd (h ((path_eq_iff p q).0 same))
  | inr other ↦ rw other
]

-- A path where nothing was is written twice and then removed: the disk is as before.
pub store_undone :
    (d : Disk) (p q : FilePath) (f g : Option File)
    → d p ≡ none
    → store (store (store d p f) p g) p none q ≡ d q
unfolding store
store_undone d p q f g h = elim (Bool-cases (path_eq p q)) [
  | inl same ↦ rw same (sym h ∙ ap d ((path_eq_iff p q).0 same))
  | inr other ↦ rw other
]

-- `let _ = remove_file(p)`: a removal that fails is passed over.
abbrev pub try_remove : Bool → FilePath → Disk → Disk
try_remove works p d = if works then store d p none else d

-- A path where nothing was is written twice, and its removal is tried: the disk is as before, but for
-- that path where the removal failed.
pub try_remove-cases :
    (works : Bool) (d : Disk) (p q : FilePath) (f g : Option File)
    → d p ≡ none
    → (try_remove works p (store (store d p f) p g) q ≡ d q) ⊎ ((works ≡ false) × (q ≡ p))
unfolding store
try_remove-cases true d p q f g h = inl (store_undone d p q f g h)
try_remove-cases false d p q f g h = elim (Bool-cases (path_eq p q)) [
  | inl same ↦ inr (refl, sym ((path_eq_iff p q).0 same))
  | inr other ↦ inl (rw other)
]

-- Or it is renamed: the new path has what was written, and nothing else changed.
pub rename_there :
    (d : Disk) (p t : FilePath) (f g : Option File)
    → p ≢ t
    → rename (store (store d p f) p g) p t t ≡ g
unfolding rename
rename_there d p t f g ne =
    store_other _ p t none ne ∙ store_same _ t _ ∙ store_same (store d p f) p g

pub rename_elsewhere :
    (d : Disk) (p t q : FilePath) (f g : Option File)
    → d p ≡ none
    → q ≢ t
    → rename (store (store d p f) p g) p t q ≡ d q
unfolding rename store
rename_elsewhere d p t q f g h ne = elim (Bool-cases (path_eq p q)) [
  | inl same ↦ rw same (sym h ∙ ap d ((path_eq_iff p q).0 same))
  | inr other ↦ elim (Bool-cases (path_eq t q)) [
    | inl there ↦ absurd (ne (sym ((path_eq_iff t q).0 there)))
    | inr nowhere ↦ rw (other, nowhere)
  ]
]

-- Both in one: what is written at a path where nothing was and then renamed is at the new path, as
-- if it had been stored there at once.
pub rename-store :
    (d : Disk) (p t q : FilePath) (f g : Option File)
    → p ≢ t
    → d p ≡ none
    → rename (store (store d p f) p g) p t q ≡ store d t g q
rename-store d p t q f g ne h = elim (Bool-cases (path_eq t q)) [
  | inl same ↦
      let at = (path_eq_iff t q).0 same in
      subst (λ (r : FilePath). rename (store (store d p f) p g) p t r ≡ store d t g r) at
        (rename_there d p t f g ne ∙ sym (store_same d t g))
  | inr other ↦
      let off : t ≢ q = λ e. cc ((path_eq_iff t q).1 e, other) in
      rename_elsewhere d p t q f g h (λ e. off (sym e)) ∙ sym (store_other d t q g off)
]
