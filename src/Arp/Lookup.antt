-- ===== src/Arp/Lookup.antt =====
-- What `find_entry` finds.
use base_kernel.Base.{
  ℕ, zero, suc, ◌<◌, ◌≡◌, refl, ◌∙◌, inl, inr, true, false, [], ◌∷◌, Option, none, some, get_or,
  arith, length, Bool-cases,
}
use base_kernel.Arp.{Cache, no_entry, is_for, find_entry}

-- The index is that of an entry of the address, and none before it is one; or there is no such entry.
abbrev pub IsFirstEntry : ℕ → Cache → Option ℕ → Type 0
IsFirstEntry ip c none = (j : ℕ) → is_for ip (get_or c j no_entry) ≡ false
IsFirstEntry ip c (some i) =
    (i < length c)
    × (is_for ip (get_or c i no_entry) ≡ true)
    × ((j : ℕ) → j < i → is_for ip (get_or c j no_entry) ≡ false)

pub find_entry-IsFirstEntry : (ip : ℕ) (c : Cache) → IsFirstEntry ip c (find_entry ip c)
unfolding find_entry
find_entry-IsFirstEntry ip [] = λ j. refl
find_entry-IsFirstEntry ip (e ∷ es) = elim (Bool-cases (is_for ip e)) [
  | inl hit ↦ rw hit (omega arith, hit, λ j h. absurd (omega arith))
  | inr miss ↦ rw miss (shift miss (find_entry ip es) (find_entry-IsFirstEntry ip es))
]
  where
    shift :
        is_for ip e ≡ false
        → (o : Option ℕ) → IsFirstEntry ip es o
        → IsFirstEntry ip (e ∷ es) (elim o [ none ↦ none | some i ↦ some (suc i) ])
    shift miss none f = λ j. at j
      where
        at : (j : ℕ) → is_for ip (get_or (e ∷ es) j no_entry) ≡ false
        at zero = miss
        at (suc j) = f j
    shift miss (some i) f = (omega (arith, f.0), f.1, at)
      where
        at : (j : ℕ) → j < suc i → is_for ip (get_or (e ∷ es) j no_entry) ≡ false
        at zero h = miss
        at (suc j) h = f.2 j (omega arith)

-- The first entry of the address is the only answer.
pub find_entry_unique :
    (ip : ℕ) (c : Cache) (i : ℕ) → IsFirstEntry ip c (some i) → find_entry ip c ≡ some i
unfolding find_entry
find_entry_unique ip [] i f = absurd (omega (arith, f.0))
find_entry_unique ip (e ∷ es) zero f = rw f.1 refl
find_entry_unique ip (e ∷ es) (suc i) f =
    rw
      (
        f.2 0 (omega arith),
        find_entry_unique ip es i (omega (arith, f.0), f.1, λ j h. f.2 (suc j) (omega arith)),
      )
      refl

pub find_entry-none : (ip : ℕ) (c : Cache) → IsFirstEntry ip c none → find_entry ip c ≡ none
unfolding find_entry
find_entry-none ip [] f = refl
find_entry-none ip (e ∷ es) f = rw (f 0, find_entry-none ip es (λ j. f (suc j))) refl

-- Only which entries are of the address matters.
pub find_entry-cong :
    (ip : ℕ) (c c' : Cache)
    → length c' ≡ length c
    → ((j : ℕ) → is_for ip (get_or c' j no_entry) ≡ is_for ip (get_or c j no_entry))
    → find_entry ip c' ≡ find_entry ip c
find_entry-cong ip c c' l same = go (find_entry ip c) (find_entry-IsFirstEntry ip c)
  where
    go : (o : Option ℕ) → IsFirstEntry ip c o → find_entry ip c' ≡ o
    go none f = find_entry-none ip c' (λ j. same j ∙ f j)
    go (some i) f =
        find_entry_unique ip c' i (omega (arith, f.0), same i ∙ f.1, λ j h. same j ∙ f.2 j h)
