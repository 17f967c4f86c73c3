-- ===== src/Bitmap/Laws.antt =====
-- A bitmap of bytes behaves as a set of numbers.
use base_kernel.Base.{
  ℕ, ◌-◌, ◌/◌, ◌%◌, ◌^◌, ◌<◌, ◌≡◌, bit_or, bit_and, true, false, inl, inr, ◌==◌, if◌then◌else◌,
  Bool-cases, arith, length, get_or, All, All-set, All-get_or, length-set, get_or-set_self,
  get_or-set_ne,
}
use base_kernel.Bitmap.{Bitmap, get_bit, set_bit, clear_bit}
use base_kernel.Bitmap.Bytes.{bit_at-or, bit_at-and, bit_or-lt, bit_and-lt}

-- Every entry is a byte.
abbrev pub IsBytes : Bitmap → Type 0
IsBytes bm = All (λ b. b < 256) bm

pub set_bit-IsBytes : (bm : Bitmap) (i : ℕ) → IsBytes bm → IsBytes (set_bit bm i)
unfolding set_bit
set_bit-IsBytes bm i h =
    All-set (λ b. b < 256) bm (i / 8) _
      (bit_or-lt _ (i % 8) (All-get_or (λ b. b < 256) bm (i / 8) 0 (omega arith) h) (omega arith)) h

pub clear_bit-IsBytes : (bm : Bitmap) (i : ℕ) → IsBytes bm → IsBytes (clear_bit bm i)
unfolding clear_bit
clear_bit-IsBytes bm i h =
    All-set (λ b. b < 256) bm (i / 8) _
      (bit_and-lt _ (i % 8) (All-get_or (λ b. b < 256) bm (i / 8) 0 (omega arith) h) (omega arith))
      h

pub length-set_bit : (bm : Bitmap) (i : ℕ) → length (set_bit bm i) ≡ length bm
unfolding set_bit
length-set_bit bm i = length-set bm (i / 8) _

pub length-clear_bit : (bm : Bitmap) (i : ℕ) → length (clear_bit bm i) ≡ length bm
unfolding clear_bit
length-clear_bit bm i = length-set bm (i / 8) _

-- The byte that holds bit `i`.
byte-lt : (bm : Bitmap) (i : ℕ) → IsBytes bm → get_or bm (i / 8) 0 < 256
byte-lt bm i h = All-get_or (λ b. b < 256) bm (i / 8) 0 (omega arith) h

pub get_bit-set_bit :
    (bm : Bitmap) (i j : ℕ)
    → IsBytes bm
    → i / 8 < length bm
    → get_bit (set_bit bm i) j ≡ (if i == j then true else get_bit bm j)
unfolding get_bit set_bit
get_bit-set_bit bm i j h hi = elim (Bool-cases (i / 8 == j / 8)) [
  | inl e ↦
      let e' : j / 8 ≡ i / 8 = ground arith in
      rw
        (
          e',
          get_or-set_self bm (i / 8) (bit_or (get_or bm (i / 8) 0) (2 ^ (i % 8))) 0 hi,
          bit_at-or (get_or bm (i / 8) 0) (i % 8) (j % 8) (byte-lt bm i h) (omega arith)
              (omega arith),
        )
        (ground arith)
  | inr e ↦
      rw
        (get_or-set_ne bm (i / 8) (j / 8) (bit_or (get_or bm (i / 8) 0) (2 ^ (i % 8))) 0
          (ground arith))
        (ground arith)
]

pub get_bit-clear_bit :
    (bm : Bitmap) (i j : ℕ)
    → IsBytes bm
    → i / 8 < length bm
    → get_bit (clear_bit bm i) j ≡ (if i == j then false else get_bit bm j)
unfolding get_bit clear_bit
get_bit-clear_bit bm i j h hi = elim (Bool-cases (i / 8 == j / 8)) [
  | inl e ↦
      let e' : j / 8 ≡ i / 8 = ground arith in
      rw
        (
          e',
          get_or-set_self bm (i / 8) (bit_and (get_or bm (i / 8) 0) (255 - 2 ^ (i % 8))) 0 hi,
          bit_at-and (get_or bm (i / 8) 0) (i % 8) (j % 8) (byte-lt bm i h) (omega arith)
              (omega arith),
        )
        (ground arith)
  | inr e ↦
      rw
        (get_or-set_ne bm (i / 8) (j / 8) (bit_and (get_or bm (i / 8) 0) (255 - 2 ^ (i % 8))) 0
          (ground arith))
        (ground arith)
]
