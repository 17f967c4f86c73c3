-- ===== src/Base/Masks.antt =====
-- The operator `|` with a mask of low bits.
use base_kernel.Base.{
  ℕ, zero, suc, ◌/◌, ◌%◌, ◌≤◌, ◌<◌, ◌≡◌, refl, sym, subst, ap, ◌∙◌, arith, bit_or,
}
use Prim.Native.Nat.{digits, bit_or-bitwise, max}

-- A number without its `k` lowest bits.
halved : ℕ → ℕ → ℕ
halved zero x = x
halved (suc k) x = halved k (x / 2)

abbrev or_digits : ℕ → ℕ → ℕ → ℕ
or_digits n a b = digits (λ b. b) max n a b

digits-zero : (n a : ℕ) → a ≤ n → or_digits n a 0 ≡ a
digits-zero zero a h = omega arith
digits-zero (suc n) zero h = refl
digits-zero (suc n) (suc a) h = omega (arith, digits-zero n (suc a / 2) (omega arith))

digits_odd : (n a : ℕ) → a ≤ n → or_digits n a 1 % 2 ≡ 1
digits_odd zero a h = omega arith
digits_odd (suc n) zero h = refl
digits_odd (suc n) (suc a) h = omega arith

halved-zero : (k : ℕ) → halved k 0 ≡ 0
unfolding halved
halved-zero zero = refl
halved-zero (suc k) = halved-zero k

digits-halved : (n k a b : ℕ) → a ≤ n → halved k b ≡ 0 → halved k (or_digits n a b) ≡ halved k a
unfolding halved
digits-halved n zero a b h e = subst (λ z. or_digits n a z ≡ a) (sym e) (digits-zero n a h)
digits-halved zero (suc k) zero b h e = e ∙ sym (halved-zero k)
digits-halved zero (suc k) (suc a) b h e = absurd (omega arith)
digits-halved (suc n) (suc k) zero b h e = e ∙ sym (halved-zero k)
digits-halved (suc n) (suc k) (suc a) b h e =
    let s : or_digits (suc n) (suc a) b / 2 ≡ or_digits n (suc a / 2) (b / 2) = omega arith in
    ap (halved k) s ∙ digits-halved n k (suc a / 2) (b / 2) (omega arith) e

halved_12 : (x : ℕ) → halved 12 x ≡ x / 4096
unfolding halved
halved_12 x = omega arith

pub or_page : (a b : ℕ) → b < 4096 → bit_or a b / 4096 ≡ a / 4096
or_page a b h =
    let none : halved 12 b ≡ 0 = halved_12 b ∙ omega arith in
    sym (halved_12 (bit_or a b))
    ∙ ap (halved 12) (bit_or-bitwise a b)
    ∙ digits-halved a 12 a b (omega arith) none
    ∙ halved_12 a

pub or_one_odd : (a : ℕ) → bit_or a 1 % 2 ≡ 1
or_one_odd a = ap (λ x. x % 2) (bit_or-bitwise a 1) ∙ digits_odd a a (omega arith)
