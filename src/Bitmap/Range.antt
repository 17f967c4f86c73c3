-- ===== src/Bitmap/Range.antt =====
-- Runs of bits that are set or cleared together.
use base_kernel.Base.{
  ℕ, zero, suc, ◌+◌, ◌≤◌, ◌*◌, ◌≡◌, refl, ◌∙◌, ◌&&◌, Bool, true, false, ltb, leb, if◌then◌else◌,
  arith, length,
}
use base_kernel.Bitmap.{Bitmap, get_bit, set_bit, clear_bit, set_range, clear_range}
use base_kernel.Bitmap.Laws.{
  IsBytes, set_bit-IsBytes, clear_bit-IsBytes, length-set_bit, length-clear_bit, get_bit-set_bit,
  get_bit-clear_bit,
}

-- `j` lies in the run of `n` numbers from `s`.
abbrev pub in_range : ℕ → ℕ → ℕ → Bool
in_range s n j = leb s j && ltb j (s + n)

pub set_range-IsBytes : (s n : ℕ) (bm : Bitmap) → IsBytes bm → IsBytes (set_range s n bm)
unfolding set_range
set_range-IsBytes s zero bm h = h
set_range-IsBytes s (suc n) bm h =
    set_range-IsBytes (s + 1) n (set_bit bm s) (set_bit-IsBytes bm s h)

pub clear_range-IsBytes : (s n : ℕ) (bm : Bitmap) → IsBytes bm → IsBytes (clear_range s n bm)
unfolding clear_range
clear_range-IsBytes s zero bm h = h
clear_range-IsBytes s (suc n) bm h =
    clear_range-IsBytes (s + 1) n (clear_bit bm s) (clear_bit-IsBytes bm s h)

pub length-set_range : (s n : ℕ) (bm : Bitmap) → length (set_range s n bm) ≡ length bm
unfolding set_range
length-set_range s zero bm = refl
length-set_range s (suc n) bm = length-set_range (s + 1) n (set_bit bm s) ∙ length-set_bit bm s

pub length-clear_range : (s n : ℕ) (bm : Bitmap) → length (clear_range s n bm) ≡ length bm
unfolding clear_range
length-clear_range s zero bm = refl
length-clear_range s (suc n) bm =
    length-clear_range (s + 1) n (clear_bit bm s) ∙ length-clear_bit bm s

-- Exactly the bits of the run are set.
pub get_bit-set_range :
    (s n : ℕ) (bm : Bitmap) (j : ℕ)
    → IsBytes bm
    → s + n ≤ 8 * length bm
    → get_bit (set_range s n bm) j ≡ (if in_range s n j then true else get_bit bm j)
unfolding set_range
get_bit-set_range s zero bm j h le = ground arith
get_bit-set_range s (suc n) bm j h le =
    get_bit-set_range (s + 1) n (set_bit bm s) j (set_bit-IsBytes bm s h)
      (omega (arith, length-set_bit bm s))
    ∙ ground (arith, get_bit-set_bit bm s j h (omega arith))

-- Exactly the bits of the run are cleared.
pub get_bit-clear_range :
    (s n : ℕ) (bm : Bitmap) (j : ℕ)
    → IsBytes bm
    → s + n ≤ 8 * length bm
    → get_bit (clear_range s n bm) j ≡ (if in_range s n j then false else get_bit bm j)
unfolding clear_range
get_bit-clear_range s zero bm j h le = ground arith
get_bit-clear_range s (suc n) bm j h le =
    get_bit-clear_range (s + 1) n (clear_bit bm s) j (clear_bit-IsBytes bm s h)
      (omega (arith, length-clear_bit bm s))
    ∙ ground (arith, get_bit-clear_bit bm s j h (omega arith))
