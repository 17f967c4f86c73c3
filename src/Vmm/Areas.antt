-- ===== src/Vmm/Areas.antt =====
-- The sorted list of areas and the search of `vmm_mmap` for free space.
use base_kernel.Base.{
  ℕ, ◌+◌, ◌%◌, ◌^◌, ◌≤◌, ◌<◌, ◌≡◌, true, false, List, [], ◌∷◌, Bool-cases, inl, inr, ltb, leb,
  arith, add64,
}
use base_kernel.Vmm.{Vma, align_page, insert_behind, free_space}

-- Areas that are not empty, start on a page, lie in order from `low` on, do not overlap, and end at
-- `top` at the latest.
abbrev pub IsSpaced : ℕ → ℕ → List Vma → Type 0
IsSpaced top low [] = low ≤ top
IsSpaced top low (v ∷ vs) =
    (low ≤ v.start) × (v.start < v.end) × (v.start % 4096 ≡ 0) × IsSpaced top v.end vs

pub IsSpaced-widen :
    (top top' low : ℕ) (vs : List Vma) → top ≤ top' → IsSpaced top low vs → IsSpaced top' low vs
IsSpaced-widen top top' low [] h s = omega arith
IsSpaced-widen top top' low (v ∷ vs) h s = (s.0, s.1, s.2, IsSpaced-widen top top' v.end vs h s.3)

pub IsSpaced-lower :
    (top low low' : ℕ) (vs : List Vma) → low' ≤ low → IsSpaced top low vs → IsSpaced top low' vs
IsSpaced-lower top low low' [] h s = omega arith
IsSpaced-lower top low low' (v ∷ vs) h s = (omega (arith, s.0), s.1, s.2, s.3)

pub IsSpaced-low : (top low : ℕ) (vs : List Vma) → IsSpaced top low vs → low ≤ top
IsSpaced-low top low [] s = s
IsSpaced-low top low (v ∷ vs) s = omega (arith, IsSpaced-low top v.end vs s.3, s.0, s.1)

pub align_page-bounds :
    (x : ℕ)
    → x + 4095 < 2 ^ 64
    → (x ≤ align_page x) × (align_page x ≤ x + 4095) × (align_page x % 4096 ≡ 0)
align_page-bounds x h = omega arith

-- The new area, from the space found behind an area that ends at `low`.
pub free_space_behind :
    (top low length : ℕ) (new : Vma) (vs : List Vma)
    → IsSpaced top low vs
    → 0 < length
    → top + 4095 + length < 2 ^ 64
    → new.start ≡ free_space length (align_page low) vs
    → new.end ≡ new.start + length
    → (low ≤ new.start) × IsSpaced (top + 4095 + length) low (insert_behind new vs)
unfolding free_space insert_behind
free_space_behind top low length new [] s nz fits a e =
    let b = align_page-bounds low (omega arith) in
    (omega (arith, b.0), (omega (arith, b.0), omega arith, omega (arith, b.2), omega (arith, b.1)))
free_space_behind top low length new (v ∷ vs) s nz fits a e =
    let l = IsSpaced-low top v.end vs s.3 in
    let s0 = s.0 in
    let s1 = s.1 in
    let s2 = s.2 in
    let b = align_page-bounds low (omega arith) in
    let b0 = b.0 in
    let b1 = b.1 in
    let b2 = b.2 in
    elim (Bool-cases (leb (add64 (align_page low) length) v.start)) [
      | inl room ↦
          let p : new.start ≡ align_page low = ground arith in
          let q : ltb v.start new.start ≡ false = ground arith in
          rw q (
            omega arith,
            (
              omega arith,
              omega arith,
              omega arith,
              (ground arith, s1, s2, IsSpaced-widen top _ v.end vs (omega arith) s.3),
            ),
          )
      | inr tight ↦
          let p : new.start ≡ free_space length (align_page v.end) vs = ground arith in
          let r = free_space_behind top v.end length new vs s.3 nz fits p e in
          let r0 = r.0 in
          let q : ltb v.start new.start ≡ true = ground arith in
          rw q (omega arith, (s0, s1, s2, r.1))
    ]

pub free_space-le :
    (top low length vaddr : ℕ) (vs : List Vma)
    → IsSpaced top low vs
    → vaddr ≤ top + 4095
    → top + 4095 < 2 ^ 64
    → free_space length vaddr vs ≤ top + 4095
unfolding free_space
free_space-le top low length vaddr [] s h fits = h
free_space-le top low length vaddr (v ∷ vs) s h fits =
    let l = IsSpaced-low top v.end vs s.3 in
    elim (Bool-cases (leb (add64 vaddr length) v.start)) [
      | inl room ↦ rw room h
      | inr tight ↦
          let b = align_page-bounds v.end (omega arith) in
          rw tight
            (free_space-le top v.end length (align_page v.end) vs s.3 (omega (arith, b.1)) fits)
    ]
