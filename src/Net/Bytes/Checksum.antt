-- ===== src/Net/Bytes/Checksum.antt =====
-- The byte order functions and `checksum`.
use mathlib.Core.Path.{fun_ext}
use base_kernel.Base.{
  ℕ, zero, suc, ◌+◌, ◌-◌, ◌*◌, ◌/◌, ◌%◌, ◌^◌, ◌≤◌, ◌<◌, ◌≡◌, ◌≢◌, refl, subst, ap, ◌∙◌, inl, inr,
  true, false, ◌==◌, Bool-cases, ltb, arith, add32,
}
use base_kernel.Net.Bytes.Fields.{IsBuffer, store16-IsBuffer, load16-store16, load16_other}
use base_kernel.Net.Bytes.{Buffer, load16, store16, htons, htonl, sum_words, fold_sum, checksum}

pub htons-htons : (v : ℕ) → v < 2 ^ 16 → htons (htons v) ≡ v
unfolding htons
htons-htons v h = omega arith

pub htonl-htonl : (v : ℕ) → v < 2 ^ 32 → htonl (htonl v) ≡ v
unfolding htonl
htonl-htonl v h = omega arith

fold_sum_small : (rounds s : ℕ) → s < 2 ^ 16 → fold_sum rounds s ≡ s
unfolding fold_sum
fold_sum_small zero s h = refl
fold_sum_small (suc rounds) s h = let z : (s / 2 ^ 16 == 0) ≡ true = ground arith in rw z refl

fold_sum_next :
    (rounds s : ℕ)
    → 2 ^ 16 ≤ s
    → fold_sum (suc rounds) s ≡ fold_sum rounds (s % 2 ^ 16 + s / 2 ^ 16)
unfolding fold_sum
fold_sum_next rounds s h = let z : (s / 2 ^ 16 == 0) ≡ false = ground arith in rw z refl

-- One round keeps the remainder by 2 ^ 16 - 1, and a sum other than 0 stays other than 0.
abbrev IsSameSum : ℕ → ℕ → Type 0
IsSameSum s t = (t % 65535 ≡ s % 65535) × (s ≢ 0 → t ≢ 0)

fold_round : (s : ℕ) → IsSameSum s (s % 2 ^ 16 + s / 2 ^ 16)
fold_round s = (omega arith, λ n. omega arith)

-- What the second loop of `checksum` leaves of a sum of 32 bits: 16 bits, in at most two rounds.
pub fold_sum_enough :
    (rounds s : ℕ)
    → s < 2 ^ 32
    → (fold_sum 2 s < 2 ^ 16)
      × (fold_sum (suc (suc rounds)) s ≡ fold_sum 2 s)
      × (fold_sum 2 s % 65535 ≡ s % 65535)
      × (s ≢ 0 → fold_sum 2 s ≢ 0)
fold_sum_enough rounds s h = elim (Bool-cases (ltb s (2 ^ 16))) [
  | inl small ↦
      rw (fold_sum_small 2 s (ground arith), fold_sum_small (suc (suc rounds)) s (ground arith))
        (ground arith, refl, refl, λ n. n)
  | inr large ↦
      let t = s % 2 ^ 16 + s / 2 ^ 16 in
      let one = fold_round s in
      let a = fold_sum_next 1 s (ground arith) in
      let b = fold_sum_next (suc rounds) s (ground arith) in
      elim (Bool-cases (ltb t (2 ^ 16))) [
        | inl small ↦
            rw
              (
                a,
                b,
                fold_sum_small 1 t (ground arith),
                fold_sum_small (suc rounds) t (ground arith),
              )
              (ground arith, refl, one.0, one.1)
        | inr more ↦
            let u = t % 2 ^ 16 + t / 2 ^ 16 in
            let two = fold_round t in
            let c = fold_sum_next 0 t (ground arith) in
            let d = fold_sum_next rounds t (ground arith) in
            let v : u < 2 ^ 16 = omega arith in
            rw (a, b, c, d, fold_sum_small 0 u v, fold_sum_small rounds u v)
              (v, refl, two.0 ∙ one.0, λ n. two.1 (one.1 n))
      ]
]

-- The sum of the words of the `len` bytes from offset `p`, without bound.
total : Buffer → ℕ → ℕ → ℕ
total b p zero = 0
total b p (suc zero) = b p
total b p (suc (suc len)) = load16 b p + total b (p + 2) len

total_bound : (b : Buffer) (p len : ℕ) → IsBuffer b → total b p len ≤ 65535 * len
unfolding total
total_bound b p zero h = omega arith
total_bound b p (suc zero) h = omega (arith, h p)
total_bound b p (suc (suc len)) h = omega (arith, total_bound b (p + 2) len h, h p, h (p + 1))

sum_words-total :
    (b : Buffer) (p len sum : ℕ)
    → sum + total b p len < 2 ^ 32
    → sum_words b p len sum ≡ sum + total b p len
unfolding sum_words total
sum_words-total b p zero sum h = omega arith
sum_words-total b p (suc zero) sum h = omega arith
sum_words-total b p (suc (suc len)) sum h =
    let small : add32 sum (load16 b p) ≡ sum + load16 b p = omega arith in
    rw small (omega (arith, sum_words-total b (p + 2) len (sum + load16 b p) (omega arith)))

-- A word that is written counts in place of the old one.
total-store16_behind :
    (b : Buffer) (p q len v : ℕ) → q + 1 < p → total (store16 q v b) p len ≡ total b p len
unfolding total
total-store16_behind b p q zero v h = refl
total-store16_behind b p q (suc zero) v h = ground arith
total-store16_behind b p q (suc (suc len)) v h =
    let r = total-store16_behind b (p + 2) q len v (omega arith) in ground (arith, r)

total-store16 :
    (b : Buffer) (p k len v : ℕ)
    → 2 * k + 1 < len
    → v < 2 ^ 16
    → total (store16 (p + 2 * k) v b) p len + load16 b (p + 2 * k) ≡ total b p len + v
unfolding total
total-store16 b p k zero v lt h = absurd (omega arith)
total-store16 b p k (suc zero) v lt h = absurd (omega arith)
total-store16 b p zero (suc (suc len)) v lt h =
    let r = total-store16_behind b (p + 2) p len v (omega arith) in
    let own = load16-store16 b p v h in
    let z : p + 2 * 0 ≡ p = omega arith in
    let at : total (store16 (p + 2 * 0) v b) (p + 2) len ≡ total b (p + 2) len =
      ap (λ q. total (store16 q v b) (p + 2) len) z ∙ r in
    let one : load16 (store16 (p + 2 * 0) v b) p ≡ v = ap (λ q. load16 (store16 q v b) p) z ∙ own in
    let old : load16 b (p + 2 * 0) ≡ load16 b p = ap (load16 b) z in omega (arith, at, one, old)
total-store16 b p (suc k) (suc (suc len)) v lt h =
    let e : p + 2 + 2 * k ≡ p + 2 * suc k = omega arith in
    let r = total-store16 b (p + 2) k len v (omega arith) h in
    let other = load16_other b (p + 2 * suc k) p v (inr (omega arith)) in
    let behind =
      subst (λ q. total (store16 q v b) (p + 2) len + load16 b q ≡ total b (p + 2) len + v) e r in
    omega (arith, other, behind)

-- Over at most 2 ^ 16 bytes, the checksum of a buffer that carries its own checksum in one of its
-- words, computed with 0 there, is 0.
pub checksum_verifies :
    (b : Buffer) (p k len : ℕ)
    → IsBuffer b
    → 2 * k + 1 < len
    → len ≤ 2 ^ 16
    → let zeroed = store16 (p + 2 * k) 0 b in
      checksum (store16 (p + 2 * k) (checksum zeroed p len) zeroed) p len ≡ 0
unfolding checksum
checksum_verifies b p k len h lt le =
    let z = store16 (p + 2 * k) 0 b in
    let w₀ = total z p len in
    let bound = total_bound z p len (store16-IsBuffer b (p + 2 * k) 0 h) in
    let first : sum_words z p len 0 ≡ w₀ = omega (arith, sum_words-total z p len 0 (omega arith)) in
    let enough = fold_sum_enough 0 w₀ (omega arith) in
    let c = 2 ^ 16 - 1 - fold_sum 2 (sum_words z p len 0) % 2 ^ 16 in
    let c_small : c < 2 ^ 16 = omega arith in
    let w = total-store16 z p k len c lt c_small in
    let own = load16-store16 b (p + 2 * k) 0 (omega arith) in
    let filled = store16 (p + 2 * k) c z in
    let whole : total filled p len ≡ w₀ + c = omega (arith, w, own) in
    let second : sum_words filled p len 0 ≡ total filled p len =
      omega (arith, sum_words-total filled p len 0 (omega arith)) in
    let again = fold_sum_enough 0 (w₀ + c) (omega arith) in
    let c_sum : c ≡ 2 ^ 16 - 1 - fold_sum 2 w₀ % 2 ^ 16 =
      ap (λ x. 2 ^ 16 - 1 - fold_sum 2 x % 2 ^ 16) first in
    let full : fold_sum 2 (w₀ + c) ≡ 65535 =
      folded w₀ c (fold_sum 2 w₀) (fold_sum 2 (w₀ + c)) enough.0 enough.2
        (λ e. ap (fold_sum 2) e ∙ fold_sum_small 2 0 (omega arith)) c_sum again.0 again.2 again.3 in
    ap (λ x. 2 ^ 16 - 1 - fold_sum 2 x % 2 ^ 16) (second ∙ whole)
    ∙ ap (λ x. 2 ^ 16 - 1 - x % 2 ^ 16) full
  where
    folded :
        (w c f g : ℕ)
        → f < 2 ^ 16
        → f % 65535 ≡ w % 65535
        → (w ≡ 0 → f ≡ 0)
        → c ≡ 2 ^ 16 - 1 - f % 2 ^ 16
        → g < 2 ^ 16
        → g % 65535 ≡ (w + c) % 65535
        → (w + c ≢ 0 → g ≢ 0)
        → g ≡ 65535
    folded w c f g a b z e d m n = elim (Bool-cases (w + c == 0)) [
      | inl none ↦ absurd (let q = z (ground arith) in ground arith)
      | inr some ↦ let q = n (ground arith) in omega arith
    ]

-- A field that holds 0 is as if 0 had been written to it.
store16_zero : (b : Buffer) (q : ℕ) → b q ≡ 0 → b (q + 1) ≡ 0 → store16 q 0 b ≡ b
store16_zero b q z₀ z₁ = fun_ext (λ o. elim (Bool-cases (o == q + 1)) [
  | inl e ↦ let s : o ≡ q + 1 = ground arith in rw (e, s, z₁) refl
  | inr n ↦ elim (Bool-cases (o == q)) [
    | inl e ↦ let s : o ≡ q = ground arith in rw (n, e, s, z₀) refl
    | inr m ↦ rw (n, m) refl
  ]
])

-- Over at most 2 ^ 16 bytes with 0 in one of the words, writing the checksum there makes it 0.
pub checksum-checksum :
    (b : Buffer) (p k len : ℕ)
    → IsBuffer b
    → b (p + 2 * k) ≡ 0
    → b (p + 2 * k + 1) ≡ 0
    → 2 * k + 1 < len
    → len ≤ 2 ^ 16
    → checksum (store16 (p + 2 * k) (checksum b p len) b) p len ≡ 0
checksum-checksum b p k len h z₀ z₁ lt le =
    subst (λ z. checksum (store16 (p + 2 * k) (checksum z p len) z) p len ≡ 0)
      (store16_zero b (p + 2 * k) z₀ z₁) (checksum_verifies b p k len h lt le)

sum_words_same :
    (b c : Buffer) (p len sum : ℕ)
    → ((o : ℕ) → p ≤ o → o < p + len → b o ≡ c o)
    → sum_words b p len sum ≡ sum_words c p len sum
unfolding sum_words
sum_words_same b c p zero sum h = refl
sum_words_same b c p (suc zero) sum h = ap (add32 sum) (h p (omega arith) (omega arith))
sum_words_same b c p (suc (suc len)) sum h =
    let e₀ = h p (omega arith) (omega arith) in
    let e₁ = h (p + 1) (omega arith) (omega arith) in
    rw (e₀, e₁) (sum_words_same b c (p + 2) len _ (λ o x y. h o (omega arith) (omega arith)))

-- The checksum reads only the bytes that it is computed over.
pub checksum_same :
    (b c : Buffer) (p len : ℕ)
    → ((o : ℕ) → p ≤ o → o < p + len → b o ≡ c o)
    → checksum b p len ≡ checksum c p len
unfolding checksum
checksum_same b c p len h =
    ap (λ s. 2 ^ 16 - 1 - fold_sum 2 s % 2 ^ 16) (sum_words_same b c p len 0 h)
