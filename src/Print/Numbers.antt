-- ===== src/Print/Numbers.antt =====
-- The text that `itoa` makes of a number, read back.
use base_kernel.Base.{
  ℕ, zero, suc, ◌+◌, ◌-◌, ◌*◌, ◌/◌, ◌%◌, ◌^◌, ◌≤◌, ◌<◌, ◌≡◌, ◌⊎◌, refl, sym, subst, ap, ◌∙◌, inl,
  inr, Bool, true, false, List, [], ◌∷◌, ◌++◌, ltb, ◌==◌, if◌then◌else◌, Bool-cases, arith, length,
  replicate, length-append, length-replicate, some,
}
use native.Mathlib.Nat.{div-add-mod', mul-le-mul_left, two-pow-succ, mod-lt}
use base_kernel.Print.{digit_char, digits, reverse_onto, is_negative, itoa}

-- The value of a digit.
abbrev pub char_digit : ℕ → ℕ
char_digit c = if ltb c 58 then c - 48 else c - 87

-- The number that a text stands for, behind a part that stands for `acc`.
pub number : ℕ → List ℕ → ℕ → ℕ
number base [] acc = acc
number base (c ∷ cs) acc = number base cs (acc * base + char_digit c)

-- The number that the digits stand for, with the lowest first.
low_first : ℕ → List ℕ → ℕ
low_first base [] = 0
low_first base (c ∷ cs) = low_first base cs * base + char_digit c

char_digit-digit_char : (d : ℕ) → d < 36 → char_digit (digit_char d) ≡ d
char_digit-digit_char d h = ground arith

half : (base u r : ℕ) → 2 ≤ base → u < 2 * r → u / base < r
half base u r b h =
    let whole = div-add-mod' u base in
    let twice : u / base * 2 ≤ u / base * base = mul-le-mul_left (u / base) b in
    omega (arith, whole, twice)

digits_value :
    (rounds base u : ℕ)
    → 2 ≤ base
    → base ≤ 36
    → u < 2 ^ rounds
    → low_first base (digits rounds base u) ≡ u
unfolding digits low_first
digits_value zero base u b c h = omega arith
digits_value (suc rounds) base u b c h =
    let d = char_digit-digit_char (u % base) (omega (arith, mod-lt u {m = base} (omega arith))) in
    let whole = div-add-mod' u base in
    elim (Bool-cases (u / base == 0)) [
      | inl last ↦
          let z : u / base ≡ 0 = ground arith in
          rw (last, d) (let w = subst (λ q. q * base + u % base ≡ u) z whole in w)
      | inr more ↦
          let r =
            digits_value rounds base (u / base) b c
              (half base u (2 ^ rounds) b (omega (arith, two-pow-succ rounds))) in
          rw (more, d, r) whole
    ]

number-reverse_onto :
    (base : ℕ) (cs done : List ℕ)
    → number base (reverse_onto cs done) 0 ≡ number base done (low_first base cs)
unfolding reverse_onto low_first number
number-reverse_onto base [] done = refl
number-reverse_onto base (c ∷ cs) done = number-reverse_onto base cs (c ∷ done)

reverse_onto_last :
    (cs done : List ℕ) (c : ℕ) → reverse_onto (cs ++ c ∷ []) done ≡ c ∷ reverse_onto cs done
unfolding reverse_onto
reverse_onto_last [] done c = refl
reverse_onto_last (d ∷ cs) done c = reverse_onto_last cs (d ∷ done) c

low_first_zeros : (base n : ℕ) → low_first base (replicate n 48) ≡ 0
unfolding low_first
low_first_zeros base zero = refl
low_first_zeros base (suc n) = rw (low_first_zeros base n) (omega arith)

low_first_padded :
    (base n : ℕ) (cs : List ℕ) → low_first base (cs ++ replicate n 48 ++ []) ≡ low_first base cs
unfolding low_first
low_first_padded base zero [] = refl
low_first_padded base (suc n) [] = rw (low_first_padded base n []) (omega arith)
low_first_padded base n (c ∷ cs) = rw (low_first_padded base n cs) refl

-- Whether the padding keeps the number: it is of zeros, or there is none.
abbrev pub IsZeroPadded : ℕ → Bool → Type 0
IsZeroPadded width pad_zero = (pad_zero ≡ true) ⊎ (width ≡ 0)

padded_value :
    (base width : ℕ) (pad_zero : Bool) (cs : List ℕ)
    → IsZeroPadded width pad_zero
    → low_first base (cs ++ replicate (width - length cs) (if pad_zero then 48 else 32) ++ [])
      ≡ low_first base cs
padded_value base width true cs h = low_first_padded base (width - length cs) cs
padded_value base width false cs (inl h) = absurd (ground arith)
padded_value base width false cs (inr h) =
    let z : width - length cs ≡ 0 = omega arith in rw z (low_first_padded base 0 cs)

append_nil : (cs : List ℕ) → cs ++ [] ≡ cs
append_nil [] = refl
append_nil (c ∷ cs) = ap (◌∷◌ c) (append_nil cs)

abbrev body : ℕ → ℕ → ℕ → Bool → List ℕ
body m base width pad_zero =
    let ds = digits 64 base m in ds ++ replicate (width - length ds) (if pad_zero then 48 else 32)

number-body :
    (m base width : ℕ) (pad_zero : Bool)
    → 2 ≤ base
    → base ≤ 36
    → m < 2 ^ 64
    → IsZeroPadded width pad_zero
    → number base (reverse_onto (body m base width pad_zero ++ []) []) 0 ≡ m
unfolding number
number-body m base width pad_zero b c v z =
    number-reverse_onto base (body m base width pad_zero ++ []) []
    ∙ padded_value base width pad_zero (digits 64 base m) z
    ∙ digits_value 64 base m b c v

length_bound : (rounds base u : ℕ) → length (digits rounds base u) ≤ rounds
unfolding digits
length_bound zero base u = omega arith
length_bound (suc rounds) base u = elim (Bool-cases (u / base == 0)) [
  | inl last ↦ rw last (omega arith)
  | inr more ↦ rw more (omega (arith, length_bound rounds base (u / base)))
]

-- A number below 2 ^ k has at most k digits, and at least one.
length-digits :
    (rounds k base u : ℕ) → 2 ≤ base → u < 2 ^ suc k → length (digits rounds base u) ≤ suc k
unfolding digits
length-digits zero k base u b h = omega arith
length-digits (suc rounds) zero base u b h =
    let z : u / base ≡ 0 = (let w = half base u 1 b (omega arith) in omega (arith, w)) in
    let last : (u / base == 0) ≡ true = rw z refl in rw last (omega arith)
length-digits (suc rounds) (suc k) base u b h = elim (Bool-cases (u / base == 0)) [
  | inl last ↦ rw last (omega arith)
  | inr more ↦ rw more (
      omega (
        arith,
        length-digits rounds k base (u / base) b
            (half base u (2 ^ suc k) b (omega (arith, two-pow-succ (suc k)))),
      ))
]

-- In base 10 the first digit takes away three bits.
length_ten : (u : ℕ) → u ≤ 2 ^ 63 → length (digits 64 10 u) ≤ 63
unfolding digits
length_ten u h = elim (Bool-cases (u / 10 == 0)) [
  | inl last ↦ rw last (omega arith)
  | inr more ↦ rw more (omega (arith, length-digits 63 59 10 (u / 10) (omega arith) (omega arith)))
]

padded_length :
    (ds tail : List ℕ) (width c : ℕ)
    → length ds + length tail ≤ 64
    → width + length tail ≤ 64
    → length (ds ++ replicate (width - length ds) c ++ tail) ≤ 64
padded_length ds tail width c h w =
    let whole = length-append (ds ++ replicate (width - length ds) c) tail in
    let front = length-append ds (replicate (width - length ds) c) in
    let pad = length-replicate (width - length ds) c in rw (whole, front, pad) (omega arith)

module _ (value base width : ℕ) (pad_zero : Bool) (v : value < 2 ^ 64) (w : width ≤ 63) where
  itoa_plus :
      is_negative value base ≡ false
      → itoa value base width pad_zero
        ≡ some (reverse_onto (body value base width pad_zero ++ []) [])
  unfolding itoa
  itoa_plus e =
      let fits =
        padded_length (digits 64 base value) [] width (if pad_zero then 48 else 32)
          (omega (arith, length_bound 64 base value)) (omega arith) in
      let room : ltb 64 (
            length (
              digits 64 base value
              ++ replicate (width - length (digits 64 base value)) (if pad_zero then 48 else 32)
              ++ []))
          ≡ false =
        ground (arith, fits) in
      rw (e, room) refl

  itoa_minus :
      is_negative value base ≡ true
      → itoa value base width pad_zero
        ≡ some (reverse_onto (body ((2 ^ 64 - value) % 2 ^ 64) base width pad_zero ++ 45 ∷ []) [])
  unfolding itoa
  itoa_minus e =
      let m : ℕ = (2 ^ 64 - value) % 2 ^ 64 in
      let ten : base ≡ 10 = ground arith in
      let big : 2 ^ 63 ≤ value = ground arith in
      let short : length (digits 64 base m) ≤ 63 =
        subst (λ b. length (digits 64 b m) ≤ 63) (sym ten) (length_ten m (omega arith)) in
      let fits =
        padded_length (digits 64 base m) (45 ∷ []) width (if pad_zero then 48 else 32)
          (omega (arith, short)) (omega arith) in
      let room : ltb 64 (
            length (
              digits 64 base m
              ++ replicate (width - length (digits 64 base m)) (if pad_zero then 48 else 32)
              ++ 45 ∷ []))
          ≡ false =
        ground (arith, fits) in
      rw (e, room) refl

-- In a base of 2 to 36, with padding by zeros or none to a width of at most 63, `itoa` stays within its
-- buffer; the text of a word that counts as not negative reads as the word; the text of a word that
-- counts as negative, which the base 10 has, is a minus sign and a text that reads as 2 ^ 64 less the
-- word.
pub number-itoa :
    (value base width : ℕ) (pad_zero : Bool)
    → 2 ≤ base
    → base ≤ 36
    → value < 2 ^ 64
    → width ≤ 63
    → IsZeroPadded width pad_zero
    → (t : List ℕ) × (itoa value base width pad_zero ≡ some t)
      × (is_negative value base ≡ false → number base t 0 ≡ value)
      × (is_negative value base ≡ true
          → (u : List ℕ) × (t ≡ 45 ∷ u) × (number base u 0 ≡ 2 ^ 64 - value))
number-itoa value base width pad_zero b c v w z = elim (Bool-cases (is_negative value base)) [
  | inr plus ↦ (
    reverse_onto (body value base width pad_zero ++ []) [],
    itoa_plus value base width pad_zero v w plus,
    (λ p. number-body value base width pad_zero b c v z),
    (λ m. absurd (let q = sym plus ∙ m in ground (arith, q))),
  )
  | inl minus ↦
      let m = (2 ^ 64 - value) % 2 ^ 64 in
      let t = body m base width pad_zero in
      let value_of : m ≡ 2 ^ 64 - value = ground arith in
      (
        reverse_onto (t ++ 45 ∷ []) [],
        itoa_minus value base width pad_zero v w minus,
        (λ p. absurd (let q = sym minus ∙ p in ground (arith, q))),
        (λ n. (
          reverse_onto t [],
          reverse_onto_last t [] 45,
          ap (λ u. number base (reverse_onto u []) 0) (sym (append_nil t))
              ∙ number-body m base width pad_zero b c (omega arith) z
              ∙ value_of,
        )),
      )
]
