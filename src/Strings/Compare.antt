-- ===== src/Strings/Compare.antt =====
-- What the results of `strcmp` and `strncmp` say of two strings.
use base_kernel.Base.{
  ℕ, ◌<◌, ◌≡◌, ◌↔◌, refl, sym, ap₂, inl, inr, List, [], ◌∷◌, ◌++◌, ◌==◌, arith, Bool-cases, All,
  length, ==_iff,
}
use base_kernel.Base.Int.{pos, ◌-ℤ◌}
use base_kernel.Strings.{char_value, difference, strcmp, strncmp, strncmp_loop}

-- Bytes without the terminator.
abbrev pub IsString : List ℕ → Type 0
IsString s = All (λ c. (0 < c) × (c < 256)) s

difference-zero : (a b : ℕ) → a < 256 → b < 256 → char_value a -ℤ char_value b ≡ pos 0 → a ≡ b
unfolding ◌-ℤ◌
difference-zero a b ha hb e = ground arith

pub strcmp_refl : (a : List ℕ) → strcmp a a ≡ pos 0
unfolding strcmp ◌-ℤ◌
strcmp_refl [] = refl
strcmp_refl (c ∷ cs) = ground (arith, strcmp_refl cs)

strcmp_equal : (a b : List ℕ) → IsString a → IsString b → strcmp a b ≡ pos 0 → a ≡ b
unfolding strcmp
strcmp_equal [] [] ha hb e = refl
strcmp_equal [] (d ∷ ds) ha hb e =
    absurd (let q = difference-zero 0 d (omega arith) hb.0.1 e in omega (arith, hb.0))
strcmp_equal (c ∷ cs) [] ha hb e =
    absurd (let q = difference-zero c 0 ha.0.1 (omega arith) e in omega (arith, ha.0))
strcmp_equal (c ∷ cs) (d ∷ ds) ha hb e = elim (Bool-cases (c == d)) [
  | inl same ↦
      let t : strcmp cs ds ≡ pos 0 = sym (ground arith) in
      ap₂ ◌∷◌ ((==_iff c d).0 same) (strcmp_equal cs ds ha.1 hb.1 t)
  | inr other ↦
      let t : char_value c -ℤ char_value d ≡ pos 0 = sym (ground arith) in
      absurd (let q = difference-zero c d ha.0.1 hb.0.1 t in ground arith)
]

-- For strings of bytes from 1 to 255, `strcmp` yields 0 exactly if they are equal.
pub strcmp_iff : (a b : List ℕ) → IsString a → IsString b → (strcmp a b ≡ pos 0) ↔ (a ≡ b)
strcmp_iff a b ha hb = (strcmp_equal a b ha hb, λ e. rw e (strcmp_refl b))

strncmp_loop-append :
    (xs ys zs : List ℕ) → strncmp_loop (length xs) (xs ++ ys) (xs ++ zs) ≡ difference ys zs
unfolding strncmp_loop
strncmp_loop-append [] ys zs = refl
strncmp_loop-append (x ∷ xs) ys zs = ground (arith, strncmp_loop-append xs ys zs)

-- Strings that agree in their first `n` bytes, at least one, and are compared up to `n`: the result is
-- the difference of the next bytes, which lie behind the limit.
pub strncmp_reads_past :
    (xs ys zs : List ℕ)
    → 0 < length xs
    → strncmp (xs ++ ys) (xs ++ zs) (length xs) ≡ difference ys zs
unfolding strncmp
strncmp_reads_past xs ys zs h = ground (arith, strncmp_loop-append xs ys zs)
