-- ===== src/Base/Ring.antt =====
-- Circular buffers: what is stored between a read index and the slot that is written next.
use Prim.Native.Nat.{ℕ, zero, suc, ◌+◌, ◌-◌, ◌%◌, ◌≤◌, ◌<◌}
use mathlib.Core.Path.{◌≡◌, refl, ap, ap₂, ◌∙◌}
use mathlib.Core.Logic.{◌≢◌, inl, inr}
use mathlib.Core.List.{List, [], ◌∷◌, ◌++◌}
use native.Mathlib.Nat.{mod-add-mod, mod-eq_of_lt, mod-eq-sub-mod, add-zero}
use native.Mathlib.Omega.{arith}
use base_kernel.Base.Tests.{ltb, Bool-cases}
use base_kernel.Base.Lists.{length, get_or, set, get_or-set_self, get_or-set_ne}

module _ {ℓ} {A : Type ℓ} (d : A) (cap : ℕ) where
  -- The `n` entries from index `t` on, oldest first.
  abbrev pub stored : List A → ℕ → ℕ → List A
  stored buf t zero = []
  stored buf t (suc n) = get_or buf t d ∷ stored buf ((t + 1) % cap) n

  pub length-stored : (buf : List A) (t n : ℕ) → length (stored buf t n) ≡ n
  length-stored buf t zero = refl
  length-stored buf t (suc n) = ap suc (length-stored buf ((t + 1) % cap) n)

  -- Fewer than `cap` steps do not lead back to the start.
  step_away : (t k : ℕ) → t < cap → suc k < cap → (t + suc k) % cap ≢ t
  step_away t k ht hk = elim (Bool-cases (ltb (t + suc k) cap)) [
    | inl small ↦ let e = mod-eq_of_lt {n = t + suc k} {m = cap} (ground arith) in omega (arith, e)
    | inr big ↦
        let ge : cap ≤ t + suc k = ground arith in
        let e = mod-eq-sub-mod {n = t + suc k} {m = cap} ge in
        let e' = mod-eq_of_lt {n = t + suc k - cap} {m = cap} (omega arith) in omega (arith, e, e')
  ]

  next_index : (t n : ℕ) → (t + suc n) % cap ≡ ((t + 1) % cap + n) % cap
  next_index t n = rw mod-add-mod (ap (λ k. k % cap) (omega arith))

  -- A write to the first slot behind the stored entries appends to them.
  pub stored-set :
      (buf : List A) (v : A) (n t i : ℕ)
      → cap ≤ length buf
      → t < cap
      → n < cap
      → i ≡ (t + n) % cap
      → stored (set buf i v) t (suc n) ≡ stored buf t n ++ (v ∷ [])
  stored-set buf v zero t i hb ht hn e =
      rw (e, add-zero, mod-eq_of_lt ht, get_or-set_self buf t v d (omega arith))
  stored-set buf v (suc n) t i hb ht hn e =
      ap₂ ◌∷◌ (get_or-set_ne buf i t v d (rw e (step_away t n ht hn)))
        (stored-set buf v n ((t + 1) % cap) i hb (omega arith) (omega arith) (e ∙ next_index t n))

  pub stored_of_pos :
      (buf : List A) (t n : ℕ)
      → n ≢ 0
      → stored buf t n ≡ get_or buf t d ∷ stored buf ((t + 1) % cap) (n - 1)
  stored_of_pos buf t zero h = absurd (h refl)
  stored_of_pos buf t (suc n) h = ap (λ k. stored buf t (suc k)) (omega arith)
