-- ===== src/Vfs.antt =====
-- fs/vfs.c: the list of file systems. A file system is the number of its place, `name_at` holds the
-- name that it points to, and the linked list is the list of these numbers.
pub mod Registry
mod Tests
use base_kernel.Base.{ℕ, Bool, true, false, List, [], ◌∷◌, Option, none, some, ◌==◌, if◌then◌else◌}
use base_kernel.Base.Int.{is_zero}
use base_kernel.Strings.{strcmp}

-- -EINVAL and -EBUSY.
pub data Errno : Type 0 where
  einval ebusy : Errno

pub record Vfs : Type 0 where
  pub file_systems : List ℕ
  pub name_at : ℕ → Option (List ℕ)

-- The name of a file system in the list, which has one.
abbrev pub name_of : Vfs → ℕ → List ℕ
name_of v fs = elim (v.name_at fs) [ none ↦ [] | some name ↦ name ]

-- The walk of `register_filesystem`: whether a file system of this name is there.
pub has_name : (ℕ → List ℕ) → List ℕ → List ℕ → Bool
has_name name [] n = false
has_name name (fs ∷ list) n =
    let rest = has_name name list n in if is_zero (strcmp (name fs) n) then true else rest

-- `none` for 0.
pub register_filesystem : ℕ → Vfs → Option Errno × Vfs
register_filesystem fs v = elim (v.name_at fs) [
  | none ↦ (some einval, v)
  | some name ↦
      if has_name (name_of v) v.file_systems name
      then (some ebusy, v)
      else (none, record v { file_systems = fs ∷ v.file_systems })
]

-- The list without the first entry `fs`, `none` if there is none.
pub remove : ℕ → List ℕ → Option (List ℕ)
remove fs [] = none
remove fs (x ∷ xs) =
    let rest = remove fs xs in
    if x == fs then some xs else elim rest [ none ↦ none | some ys ↦ some (x ∷ ys) ]

pub unregister_filesystem : ℕ → Vfs → Option Errno × Vfs
unregister_filesystem fs v = elim (remove fs v.file_systems) [
  | none ↦ (some einval, v)
  | some list ↦ (none, record v { file_systems = list })
]
