-- ===== src/Print/Tests.antt =====
-- Numbers and formats, and the theorems at them.
use base_kernel.Base.{
  ℕ, ◌-◌, ◌^◌, ◌≤◌, ◌<◌, ◌≡◌, ◌≢◌, refl, inl, true, false, List, [], ◌∷◌, none, some, arith, length,
  All,
}
use base_kernel.Print
use base_kernel.Print.{itoa, is_negative, word, string, null, vsnprintf}
use base_kernel.Print.Numbers.{number, number-itoa}
use base_kernel.Print.Bounds.{vsnprintf_bound}

hex : itoa 255 16 4 true ≡ some (48 ∷ 48 ∷ 102 ∷ 102 ∷ [])
unfolding itoa Print.digits Print.reverse_onto
hex = refl

-- A width of 70 overruns the buffer of `itoa`.
too_wide : itoa 255 16 70 true ≡ none
unfolding itoa Print.digits
too_wide = refl

number-itoa_example :
    (t : List ℕ) × (itoa (2 ^ 64 - 5) 10 3 true ≡ some t)
    × (is_negative (2 ^ 64 - 5) 10 ≡ false → number 10 t 0 ≡ 2 ^ 64 - 5)
    × (is_negative (2 ^ 64 - 5) 10 ≡ true
        → (u : List ℕ) × (t ≡ 45 ∷ u) × (number 10 u 0 ≡ 2 ^ 64 - (2 ^ 64 - 5)))
number-itoa_example =
    number-itoa (2 ^ 64 - 5) 10 3 true (omega arith) (omega arith) (omega arith) (omega arith)
      (inl refl)

abbrev pointer_format : List ℕ
pointer_format = 97 ∷ 97 ∷ 37 ∷ 112 ∷ []

abbrev pointer_text : List ℕ
pointer_text = 97 ∷ 97 ∷ 48 ∷ 120 ∷ []

-- `aa%p` into 4 bytes: the text alone takes the 3 bytes before the terminator.
pointer : vsnprintf 4 pointer_format (word 1 ∷ []) ≡ some pointer_text
unfolding vsnprintf Print.format_from Print.next_mode Print.convert Print.convert_word
    Print.put_limited Print.number_text itoa Print.digits Print.reverse_onto
pointer = refl

vsnprintf_bound_example :
    (length pointer_text ≤ 4) × (All (λ c. c ≢ 112) pointer_format → length pointer_text < 4)
vsnprintf_bound_example =
    vsnprintf_bound 4 pointer_format (word 1 ∷ []) pointer_text (omega arith) (omega arith) pointer
