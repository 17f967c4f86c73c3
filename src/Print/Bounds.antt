-- ===== src/Print/Bounds.antt =====
-- How far `vsnprintf` writes.
use base_kernel.Base.{
  ℕ, suc, ◌%◌, ◌^◌, ◌≤◌, ◌<◌, ◌≡◌, ◌≢◌, refl, subst, inl, inr, Bool, true, false, ◌||◌, List, [],
  ◌∷◌, ◌++◌, Option, none, some, ltb, ◌==◌, if◌then◌else◌, Bool-cases, Option-cases, some_value,
  arith, length, length-append, All,
}
use base_kernel.Print.{
  Arg, word, string, null, Mode, plain, flag, width, long, long_long, limit, put_limited, put_text,
  with_rest, convert_word, takes_word, convert, next_mode, convert_in, is_plain, is_digit,
  format_from, vsnprintf,
}

put_limited_bound :
    (lim m : ℕ) (out cs : List ℕ) → lim ≤ m → length out ≤ m → length (put_limited lim out cs) ≤ m
unfolding put_limited
put_limited_bound lim m out [] h o = o
put_limited_bound lim m out (c ∷ cs) h o = elim (Bool-cases (ltb (length out) lim)) [
  | inl more ↦
      let l = length-append out (c ∷ []) in
      rw more (put_limited_bound lim m (out ++ c ∷ []) cs h (ground (arith, l)))
  | inr full ↦ rw full o
]

record Within (m : ℕ) (text : List ℕ) : Type 0 where
  within : length text ≤ m

put : (lim m : ℕ) (out cs : List ℕ) → lim ≤ m → length out ≤ m → Within m (put_limited lim out cs)
put lim m out cs h o = record { within = put_limited_bound lim m out cs h o }

-- The same of a text that need not be there.
record WithinSome (m : ℕ) (o : Option (List ℕ)) : Type 0 where
  within_some : (t : List ℕ) → o ≡ some t → length t ≤ m

either_some :
    {m : ℕ} {x y : Option (List ℕ)} (b : Bool)
    → (b ≡ true → WithinSome m x)
    → WithinSome m y
    → WithinSome m (if b then x else y)
either_some true f g = f refl
either_some false f g = g

text_put :
    (lim m : ℕ) (out : List ℕ) (o : Option (List ℕ))
    → lim ≤ m
    → length out ≤ m
    → WithinSome m (put_text lim out o)
text_put lim m out none h b = record { within_some = λ t e. absurd (ground (arith, e)) }
text_put lim m out (some cs) h b = record {
  within_some =
      λ t e. subst (λ q. length q ≤ m) (some_value e) (put_limited_bound lim m out cs h b);
}

-- A conversion other than `p` stays within any bound that is at least the limit; `p` needs one more.
convert_word_bound :
    (lim m : ℕ) (is_long : Bool) (w : ℕ) (pad : Bool) (c v : ℕ) (out : List ℕ)
    → lim ≤ m
    → (c ≡ 112 → suc lim ≤ m)
    → length out < lim
    → WithinSome m (convert_word lim is_long w pad c v out)
unfolding convert_word
convert_word_bound lim m is_long w pad c v out h p o =
    let below : length out ≤ m = omega arith in
    let two = length-append out (48 ∷ 120 ∷ []) in
    let one = length-append out (v % 2 ^ 8 ∷ []) in
    either_some (c == 100 || c == 105) (λ _. text_put lim m out _ h below)
      (either_some (c == 117) (λ _. text_put lim m out _ h below)
        (either_some (c == 112)
          (λ e.
            text_put lim m (out ++ 48 ∷ 120 ∷ []) _ h
              (let k = p (ground arith) in omega (arith, two, k)))
          (either_some (c == 99)
            (λ _. record {
              within_some = λ t e. subst (λ q. length q ≤ m) (some_value e) (omega (arith, one));
            })
            (text_put lim m out _ h below))))

-- The same of what a conversion leaves, if it is defined.
record Fits (m : ℕ) (o : Option (List ℕ × List Arg)) : Type 0 where
  fits : (r : List ℕ × List Arg) → o ≡ some r → length r.0 ≤ m

undefined : {m : ℕ} → Fits m none
undefined = record { fits = λ r e. absurd (ground (arith, e)) }

defined : {m : ℕ} {text : List ℕ} {args : List Arg} → Within m text → Fits m (some (text, args))
defined {m} w = record { fits = λ r e. subst (λ q. length q.0 ≤ m) (some_value e) w.within }

rest_defined :
    {m : ℕ} (args : List Arg) (o : Option (List ℕ)) → WithinSome m o → Fits m (with_rest args o)
rest_defined args none w = undefined
rest_defined args (some t) w = defined (record { within = w.within_some t refl })

either-Fits :
    {m : ℕ} {x y : Option (List ℕ × List Arg)} (b : Bool)
    → Fits m x
    → Fits m y
    → Fits m (if b then x else y)
either-Fits true f g = f
either-Fits false f g = g

convert_bound :
    (lim m : ℕ) (is_long : Bool) (w : ℕ) (pad : Bool) (c : ℕ) (args : List Arg) (out : List ℕ)
    → lim ≤ m
    → (c ≡ 112 → suc lim ≤ m)
    → length out < lim
    → Fits m (convert lim is_long w pad c args out)
unfolding convert
convert_bound lim m is_long w pad c [] out h p o =
    let one = length-append out (37 ∷ []) in
    either-Fits (c == 115) undefined (
      either-Fits (takes_word c) undefined (
        either-Fits (c == 37) (defined (record { within = omega (arith, one) }))
          (defined (record { within = omega arith }))))
convert_bound lim m is_long w pad c (string s ∷ args) out h p o =
    let one = length-append out (37 ∷ []) in
    either-Fits (c == 115) (defined (put lim m out s h (omega arith))) (
      either-Fits (takes_word c) undefined (
        either-Fits (c == 37) (defined (record { within = omega (arith, one) }))
          (defined (record { within = omega arith }))))
convert_bound lim m is_long w pad c (null ∷ args) out h p o =
    let one = length-append out (37 ∷ []) in
    either-Fits (c == 115) (defined (put lim m out _ h (omega arith))) (
      either-Fits (takes_word c) undefined (
        either-Fits (c == 37) (defined (record { within = omega (arith, one) }))
          (defined (record { within = omega arith }))))
convert_bound lim m is_long w pad c (word v ∷ args) out h p o =
    let one = length-append out (37 ∷ []) in
    either-Fits (c == 115) undefined (
      either-Fits (takes_word c)
        (rest_defined args _ (convert_word_bound lim m is_long w pad c v out h p o))
        (either-Fits (c == 37) (defined (record { within = omega (arith, one) }))
          (defined (record { within = omega arith }))))

convert_in_bound :
    (mode : Mode) (lim m c : ℕ) (args : List Arg) (out : List ℕ)
    → lim ≤ m
    → (c ≡ 112 → suc lim ≤ m)
    → length out < lim
    → Fits m (convert_in mode lim c args out)
convert_in_bound plain lim m c args out h p o = undefined
convert_in_bound flag lim m c args out h p o = convert_bound lim m false 0 false c args out h p o
convert_in_bound (width w pad) lim m c args out h p o =
    convert_bound lim m false w pad c args out h p o
convert_in_bound (long w pad) lim m c args out h p o =
    convert_bound lim m true w pad c args out h p o
convert_in_bound (long_long w pad) lim m c args out h p o =
    convert_bound lim m true w pad c args out h p o

-- A mode that is behind a `%` is not left for the text without a conversion.
record Inside (o : Option Mode) : Type 0 where
  inside : (n : Mode) → o ≡ some n → is_plain n ≡ false

either-Inside : {x y : Option Mode} (b : Bool) → Inside x → Inside y → Inside (if b then x else y)
either-Inside true f g = f
either-Inside false f g = g

leaves : Inside none
leaves = record { inside = λ n e. absurd (ground (arith, e)) }

enters : {n : Mode} → is_plain n ≡ false → Inside (some n)
enters h = record { inside = λ m e. subst (λ q. is_plain q ≡ false) (some_value e) h }

next_mode-Inside : (mode : Mode) (c : ℕ) → Inside (next_mode mode c)
unfolding next_mode
next_mode-Inside plain c = leaves
next_mode-Inside flag c =
    either-Inside (c == 48) (enters refl)
      (either-Inside (is_digit c) (enters refl) (either-Inside (c == 108) (enters refl) leaves))
next_mode-Inside (width w pad) c =
    either-Inside (is_digit c) (enters refl) (either-Inside (c == 108) (enters refl) leaves)
next_mode-Inside (long w pad) c = either-Inside (c == 108) (enters refl) leaves
next_mode-Inside (long_long w pad) c = leaves

-- What has been written in a mode: text up to the bound, and room before a conversion.
abbrev IsRoom : ℕ → ℕ → Mode → List ℕ → Type 0
IsRoom lim m mode out =
    (is_plain mode ≡ true → length out ≤ m) × (is_plain mode ≡ false → length out < lim)

format_bound :
    (lim m : ℕ) (mode : Mode) (format : List ℕ) (args : List Arg) (out r : List ℕ)
    → lim ≤ m
    → All (λ c. c ≡ 112 → suc lim ≤ m) format
    → IsRoom lim m mode out
    → format_from lim mode format args out ≡ some r
    → length r ≤ m
unfolding format_from
format_bound lim m mode [] args out r h q o e = elim (Bool-cases (is_plain mode)) [
  | inl text ↦ subst (λ x. length x ≤ m) (some_value (rw (format_from, text) at e)) (o.0 text)
  | inr open_spec ↦ absurd (let z = rw (format_from, open_spec) at e in ground (arith, z))
]
format_bound lim m mode (c ∷ cs) args out r h q o e = elim (Bool-cases (is_plain mode)) [
  | inl text ↦ elim (Bool-cases (ltb (length out) lim)) [
    | inr full ↦
        subst (λ x. length x ≤ m) (some_value (rw (format_from, text, full) at e)) (o.0 text)
    | inl more ↦ elim (Bool-cases (c == 37)) [
      | inl percent ↦
          format_bound lim m flag cs args out r h q.1
            (λ p. absurd (ground (arith, p)), λ p. ground arith)
            (rw (format_from, text, more, percent) at e)
      | inr other ↦
          let one = length-append out (c ∷ []) in
          format_bound lim m plain cs args (out ++ c ∷ []) r h q.1
            (λ p. ground (arith, one), λ p. absurd (ground (arith, p)))
            (rw (format_from, text, more, other) at e)
    ]
  ]
  | inr spec ↦ elim (Option-cases (next_mode mode c)) [
    | inr (n, k) ↦
        let inner = (next_mode-Inside mode c).inside n k in
        format_bound lim m n cs args out r h q.1
          (λ p. absurd (ground (arith, p, inner)), λ p. o.1 spec) (rw (format_from, spec, k) at e)
    | inl k ↦ elim (Option-cases (convert_in mode lim c args out)) [
      | inl fails ↦ absurd (let z = rw (format_from, spec, k, fails) at e in ground (arith, z))
      | inr (t, d) ↦
          let w = (convert_in_bound mode lim m c args out h q.0 (o.1 spec)).fits t d in
          format_bound lim m plain cs t.1 t.0 r h q.1 (λ p. w, λ p. absurd (ground (arith, p)))
            (rw (format_from, spec, k, d) at e)
    ]
  ]
]

any_format : (lim : ℕ) (format : List ℕ) → All (λ c. c ≡ 112 → suc lim ≤ suc lim) format
any_format lim [] = _
any_format lim (c ∷ cs) = (λ e. omega arith, any_format lim cs)

no_pointer :
    (m : ℕ) (format : List ℕ) → All (λ c. c ≢ 112) format → All (λ c. c ≡ 112 → suc m ≤ m) format
no_pointer m [] h = _
no_pointer m (c ∷ cs) h = (λ e. absurd (h.0 e), no_pointer m cs h.1)

-- With a buffer of at least one byte, what `vsnprintf` writes before the terminator, where each
-- conversion has its argument and stays within the buffers on the stack, is at most as long as the
-- buffer; if no character of the format is a `p`, it is shorter, so that the terminator fits.
pub vsnprintf_bound :
    (size : ℕ) (format : List ℕ) (args : List Arg) (r : List ℕ)
    → 0 < size
    → size < 2 ^ 64
    → vsnprintf size format args ≡ some r
    → (length r ≤ size) × (All (λ c. c ≢ 112) format → length r < size)
unfolding vsnprintf
vsnprintf_bound size format args r pos small e =
    let lim = limit size in
    let l : suc lim ≡ size = omega arith in
    (
      subst (λ x. length r ≤ x) l
          (format_bound lim (suc lim) plain format args [] r (omega arith) (any_format lim format)
            (λ p. omega arith, λ p. absurd (ground (arith, p))) e),
      λ h.
          let k =
            format_bound lim lim plain format args [] r (omega arith) (no_pointer lim format h)
              (λ p. omega arith, λ p. absurd (ground (arith, p))) e in
          omega (arith, k, l),
    )
