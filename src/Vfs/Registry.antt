-- ===== src/Vfs/Registry.antt =====
-- Calls of `register_filesystem` and `unregister_filesystem`, one after the other.
use base_kernel.Base.{
  ℕ, ◌≡◌, refl, sym, subst, ap, ◌∙◌, inl, inr, Bool, true, false, List, [], ◌∷◌, Option, none, some,
  ◌==◌, if◌then◌else◌, Bool-cases, Option-cases, some_value, arith,
}
use base_kernel.Base.Int.{is_zero}
use base_kernel.Strings.{strcmp}
use base_kernel.Strings.Compare.{strcmp_refl}
use base_kernel.Vfs.{Vfs, name_of, has_name, register_filesystem, remove, unregister_filesystem}

unfoldable pub is_member : ℕ → List ℕ → Bool
is_member fs [] = false
is_member fs (x ∷ xs) = let rest = is_member fs xs in if x == fs then true else rest

-- No name in the list comes a second time.
pub IsDistinct : (ℕ → List ℕ) → List ℕ → Type 0
IsDistinct name [] = Unit
IsDistinct name (fs ∷ list) = (has_name name list (name fs) ≡ false) × IsDistinct name list

same_name : (n : List ℕ) → is_zero (strcmp n n) ≡ true
same_name n = rw (strcmp_refl n) refl

member-has_name :
    (name : ℕ → List ℕ) (fs : ℕ) (list : List ℕ)
    → is_member fs list ≡ true
    → has_name name list (name fs) ≡ true
unfolding is_member has_name
member-has_name name fs [] h = absurd (ground (arith, h))
member-has_name name fs (x ∷ xs) h = elim (Bool-cases (x == fs)) [
  | inl e ↦ let s : x ≡ fs = ground arith in rw (s, same_name (name fs)) refl
  | inr n ↦
      let r = member-has_name name fs xs (rw n at h) in
      elim (Bool-cases (is_zero (strcmp (name x) (name fs)))) [ inl z ↦ rw z refl | inr z ↦ rw z r ]
]

distinct_member :
    (name : ℕ → List ℕ) (list : List ℕ) (a b : ℕ)
    → IsDistinct name list
    → is_member a list ≡ true
    → is_member b list ≡ true
    → name a ≡ name b
    → a ≡ b
unfolding IsDistinct is_member
distinct_member name [] a b d ha hb e = absurd (ground (arith, ha))
distinct_member name (x ∷ xs) a b d ha hb e = elim (Bool-cases (x == a)) [
  | inl ea ↦ elim (Bool-cases (x == b)) [
    | inl eb ↦ ground arith
    | inr nb ↦
        let s : x ≡ a = ground arith in
        let other = member-has_name name b xs (rw nb at hb) in
        let n : name b ≡ name x = sym e ∙ ap name (sym s) in
        absurd (let t = subst (λ m. has_name name xs m ≡ true) n other in ground (arith, t, d.0))
  ]
  | inr na ↦ elim (Bool-cases (x == b)) [
    | inl eb ↦
        let s : x ≡ b = ground arith in
        let other = member-has_name name a xs (rw na at ha) in
        let n : name a ≡ name x = e ∙ ap name (sym s) in
        absurd (let t = subst (λ m. has_name name xs m ≡ true) n other in ground (arith, t, d.0))
    | inr nb ↦ distinct_member name xs a b d.1 (rw na at ha) (rw nb at hb) e
  ]
]

module _ (name : ℕ → List ℕ) where
  absent_behind :
      (x : ℕ) (xs n : List ℕ)
      → has_name name (x ∷ xs) n ≡ false
      → (is_zero (strcmp (name x) n) ≡ false) × (has_name name xs n ≡ false)
  unfolding has_name
  absent_behind x xs n h = elim (Bool-cases (is_zero (strcmp (name x) n))) [
    | inl z ↦ absurd (let q = rw z at h in ground (arith, q))
    | inr z ↦ (z, rw z at h)
  ]

  absent_in_front :
      (x : ℕ) (xs n : List ℕ)
      → is_zero (strcmp (name x) n) ≡ false
      → has_name name xs n ≡ false
      → has_name name (x ∷ xs) n ≡ false
  unfolding has_name
  absent_in_front x xs n z h = rw z h

-- What is left after a removal has no new names and is still distinct.
remove-Outcome :
    (name : ℕ → List ℕ) (fs : ℕ) (xs ys : List ℕ)
    → remove fs xs ≡ some ys
    → ((n : List ℕ) → has_name name xs n ≡ false → has_name name ys n ≡ false)
      × (IsDistinct name xs → IsDistinct name ys)
unfolding remove IsDistinct
remove-Outcome name fs [] ys e = absurd (ground (arith, e))
remove-Outcome name fs (x ∷ xs) ys e = elim (Bool-cases (x == fs)) [
  | inl here ↦
      let s : xs ≡ ys = some_value (rw (remove, here) at e) in
      subst
        (λ l.
          ((n : List ℕ) → has_name name (x ∷ xs) n ≡ false → has_name name l n ≡ false)
          × (IsDistinct name (x ∷ xs) → IsDistinct name l))
        s (λ n h. (absent_behind name x xs n h).1, λ d. d.1)
  | inr later ↦ elim (Option-cases (remove fs xs)) [
    | inl lost ↦ absurd (let q = rw (remove, later, lost) at e in ground (arith, q))
    | inr (zs, r) ↦
        let s : x ∷ zs ≡ ys = some_value (rw (remove, later, r) at e) in
        let i = remove-Outcome name fs xs zs r in
        subst
          (λ l.
            ((n : List ℕ) → has_name name (x ∷ xs) n ≡ false → has_name name l n ≡ false)
            × (IsDistinct name (x ∷ xs) → IsDistinct name l))
          s
          (
            λ n h.
                let b = absent_behind name x xs n h in absent_in_front name x zs n b.0 (i.0 n b.1),
            λ d. (i.0 (name x) d.0, i.1 d.1),
          )
  ]
]

abbrev pub IsRegistry : Vfs → Type 0
IsRegistry v = IsDistinct (name_of v) v.file_systems

pub data Call : Type 0 where
  register unregister : ℕ → Call

unfoldable pub perform : Call → Vfs → Vfs
perform (register fs) v = (register_filesystem fs v).1
perform (unregister fs) v = (unregister_filesystem fs v).1

unfoldable pub perform_all : List Call → Vfs → Vfs
perform_all [] v = v
perform_all (c ∷ cs) v = perform_all cs (perform c v)

register_some :
    (fs : ℕ) (v : Vfs) (name : List ℕ)
    → v.name_at fs ≡ some name
    → has_name (name_of v) v.file_systems name ≡ false
    → register_filesystem fs v ≡ (none, record v { file_systems = fs ∷ v.file_systems })
unfolding register_filesystem
register_some fs v name e fresh = rw (register_filesystem, e, fresh) refl

perform-IsRegistry :
    (c : Call) (v : Vfs)
    → IsRegistry v
    → IsRegistry (perform c v) × ((perform c v).name_at ≡ v.name_at)
unfolding perform register_filesystem unregister_filesystem IsDistinct
perform-IsRegistry (register fs) v d = elim (Option-cases (v.name_at fs)) [
  | inl unnamed ↦ rw (perform, register_filesystem, unnamed) (d, refl)
  | inr (name, e) ↦ elim (Bool-cases (has_name (name_of v) v.file_systems name)) [
    | inl taken ↦ rw (perform, register_filesystem, e, taken) (d, refl)
    | inr fresh ↦
        let own : name_of v fs ≡ name = ap (λ o. elim o [ none ↦ [] | some name ↦ name ]) e in
        let head : has_name (name_of v) v.file_systems (name_of v fs) ≡ false =
          subst (λ n. has_name (name_of v) v.file_systems n ≡ false) (sym own) fresh in
        rw (perform, register_some fs v name e fresh) ((head, d), refl)
  ]
]
perform-IsRegistry (unregister fs) v d = elim (Option-cases (remove fs v.file_systems)) [
  | inl lost ↦ rw (perform, unregister_filesystem, lost) (d, refl)
  | inr (l, r) ↦
      rw (perform, unregister_filesystem, r)
        ((remove-Outcome (name_of v) fs v.file_systems l r).1 d, refl)
]

perform_all_keeps :
    (cs : List Call) (v : Vfs)
    → IsRegistry v
    → IsRegistry (perform_all cs v) × ((perform_all cs v).name_at ≡ v.name_at)
unfolding perform_all
perform_all_keeps [] v d = (d, refl)
perform_all_keeps (c ∷ cs) v d =
    let p = perform-IsRegistry c v d in
    let r = perform_all_keeps cs (perform c v) p.0 in (r.0, r.1 ∙ p.1)

-- The list behind some calls, from an empty one.
abbrev pub registry : (ℕ → Option (List ℕ)) → List Call → Vfs
registry name_at cs = perform_all cs (record { file_systems = []; name_at = name_at })

-- After any calls that register and unregister file systems, from an empty list, two file systems in
-- the list that have the same name are one.
pub registered_unique :
    (name_at : ℕ → Option (List ℕ)) (cs : List Call) (a b : ℕ)
    → is_member a (registry name_at cs).file_systems ≡ true
    → is_member b (registry name_at cs).file_systems ≡ true
    → name_of (registry name_at cs) a ≡ name_of (registry name_at cs) b
    → a ≡ b
unfolding IsDistinct
registered_unique name_at cs a b =
    let v = registry name_at cs in
    distinct_member (name_of v) v.file_systems a b
      (perform_all_keeps cs (record { file_systems = []; name_at = name_at }) _).0

-- Unregistering a file system that has just been registered brings the list back.
pub unregister-register :
    (fs : ℕ) (v : Vfs)
    → (register_filesystem fs v).0 ≡ none
    → unregister_filesystem fs (register_filesystem fs v).1 ≡ (none, v)
unfolding unregister_filesystem register_filesystem remove
unregister-register fs v done = elim (Option-cases (v.name_at fs)) [
  | inl unnamed ↦ absurd (let q = rw (register_filesystem, unnamed) at done in ground (arith, q))
  | inr (name, e) ↦ elim (Bool-cases (has_name (name_of v) v.file_systems name)) [
    | inl taken ↦ absurd (let q = rw (register_filesystem, e, taken) at done in ground (arith, q))
    | inr fresh ↦
        let same : (fs == fs) ≡ true = ground arith in
        rw (register_some fs v name e fresh) (rw (unregister_filesystem, remove, same) refl)
  ]
]
