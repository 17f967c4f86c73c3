-- ===== src/Strings/Block.antt =====
-- `memset` and `memcpy` as functions of the address.
use base_kernel.Base.{
  ℕ, zero, suc, ◌+◌, ◌-◌, ◌%◌, ◌≤◌, ◌≡◌, ◌⊎◌, refl, inl, inr, ◌&&◌, ltb, leb, ◌==◌, if◌then◌else◌,
  arith, Bool-cases, ◌∙◌,
}
use base_kernel.Strings.{Memory, store, memset, memcpy}

-- Exactly the bytes of the range are set, to the low byte of the value.
pub memset_lem :
    (dest val n : ℕ) (mem : Memory) (p : ℕ)
    → memset dest val n mem p ≡ (if leb dest p && ltb p (dest + n) then val % 256 else mem p)
unfolding memset
memset_lem dest val zero mem p = ground arith
memset_lem dest val (suc n) mem p =
    memset_lem (dest + 1) val n (store mem dest (val % 256)) p ∙ ground arith

-- A copy to a range that starts at or before the source, or behind its end, writes the old bytes of
-- the source to the range, and no other byte.
pub memcpy_lem :
    (dest src n : ℕ) (mem : Memory) (p : ℕ)
    → (dest ≤ src) ⊎ (src + n ≤ dest)
    → memcpy dest src n mem p
      ≡ (if leb dest p && ltb p (dest + n) then mem (src + (p - dest)) else mem p)
unfolding memcpy
memcpy_lem dest src zero mem p h = ground arith
memcpy_lem dest src (suc n) mem p h =
    memcpy_lem (dest + 1) (src + 1) n (store mem dest (mem src)) p (ground arith)
    ∙ shift (src + (p - dest)) (src + 1 + (p - (dest + 1))) refl refl
  where
    shift :
        (a b : ℕ)
        → src + (p - dest) ≡ a
        → src + 1 + (p - (dest + 1)) ≡ b
        → (if leb (dest + 1) p && ltb p (dest + 1 + n)
            then store mem dest (mem src) b
            else store mem dest (mem src) p)
          ≡ (if leb dest p && ltb p (dest + suc n) then mem a else mem p)
    shift a b ea eb = elim (Bool-cases (dest == p)) [
      | inl e ↦ let q : a ≡ src = ground arith in rw q (ground arith)
      | inr e ↦ elim (Bool-cases (ltb dest p)) [
        | inl lt ↦ let q : b ≡ a = ground arith in rw q (ground arith)
        | inr ge ↦ ground arith
      ]
    ]
