-- ===== src/Bitmap/Bytes.antt =====
-- The bit operations of one byte, checked over all bytes and masks.
use base_kernel.Base.{
  ℕ, zero, suc, ◌-◌, ◌^◌, ◌<◌, ◌≡◌, refl, Bool, true, false, not, arith, bit_and, bit_or, ◌==◌, ltb,
  ltb→lt, if◌then◌else◌,
}

-- `t` holds of the first `n` numbers.
holds_up_to : (ℕ → Bool) → ℕ → Bool
holds_up_to t zero = true
holds_up_to t (suc n) = if t n then holds_up_to t n else false

holds_up_to-at : (t : ℕ → Bool) (n k : ℕ) → k < n → holds_up_to t n ≡ true → t k ≡ true
unfolding holds_up_to
holds_up_to-at t zero k below all = absurd (omega arith)
holds_up_to-at t (suc n) k below all = ground (arith, holds_up_to-at t n k)

abbrev bool_eq : Bool → Bool → Bool
bool_eq true b = b
bool_eq false b = not b

bool_eq_lem : (a b : Bool) → bool_eq a b ≡ true → a ≡ b
bool_eq_lem a b h = ground arith

-- What holds of every byte and every two bit numbers.
abbrev for_bytes : (ℕ → ℕ → ℕ → Bool) → Bool
for_bytes p = holds_up_to (λ b. holds_up_to (λ k. holds_up_to (p b k) 8) 8) 256

for_bytes_sound :
    (p : ℕ → ℕ → ℕ → Bool) (b k j : ℕ)
    → for_bytes p ≡ true
    → b < 256
    → k < 8
    → j < 8
    → p b k j ≡ true
for_bytes_sound p b k j t hb hk hj = holds_up_to-at (p b k) 8 j hj (
    holds_up_to-at (λ k'. holds_up_to (p b k') 8) 8 k hk
      (holds_up_to-at (λ b'. holds_up_to (λ k'. holds_up_to (p b' k') 8) 8) 256 b hb t))

abbrev bit_at : ℕ → ℕ → Bool
bit_at b j = not (bit_and b (2 ^ j) == 0)

or_table :
    for_bytes (λ b k j. bool_eq (bit_at (bit_or b (2 ^ k)) j) (if k == j then true else bit_at b j))
    ≡ true
unfolding holds_up_to
or_table = refl

and_table :
    for_bytes
      (λ b k j. bool_eq (bit_at (bit_and b (255 - 2 ^ k)) j) (if k == j then false else bit_at b j))
    ≡ true
unfolding holds_up_to
and_table = refl

or_range_table : for_bytes (λ b k j. ltb (bit_or b (2 ^ k)) 256) ≡ true
unfolding holds_up_to
or_range_table = refl

and_range_table : for_bytes (λ b k j. ltb (bit_and b (255 - 2 ^ k)) 256) ≡ true
unfolding holds_up_to
and_range_table = refl

-- Setting bit `k` of a byte sets that bit and keeps the others.
pub bit_at-or :
    (b k j : ℕ)
    → b < 256
    → k < 8
    → j < 8
    → not (bit_and (bit_or b (2 ^ k)) (2 ^ j) == 0)
      ≡ (if k == j then true else not (bit_and b (2 ^ j) == 0))
bit_at-or b k j hb hk hj = bool_eq_lem _ _ (for_bytes_sound _ b k j or_table hb hk hj)

pub bit_at-and :
    (b k j : ℕ)
    → b < 256
    → k < 8
    → j < 8
    → not (bit_and (bit_and b (255 - 2 ^ k)) (2 ^ j) == 0)
      ≡ (if k == j then false else not (bit_and b (2 ^ j) == 0))
bit_at-and b k j hb hk hj = bool_eq_lem _ _ (for_bytes_sound _ b k j and_table hb hk hj)

pub bit_or-lt : (b k : ℕ) → b < 256 → k < 8 → bit_or b (2 ^ k) < 256
bit_or-lt b k hb hk = ltb→lt _ _ (for_bytes_sound _ b k 0 or_range_table hb hk (omega arith))

pub bit_and-lt : (b k : ℕ) → b < 256 → k < 8 → bit_and b (255 - 2 ^ k) < 256
bit_and-lt b k hb hk = ltb→lt _ _ (for_bytes_sound _ b k 0 and_range_table hb hk (omega arith))
