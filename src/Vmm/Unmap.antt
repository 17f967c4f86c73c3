-- ===== src/Vmm/Unmap.antt =====
-- `vmm_munmap` and `vmm_brk` on the list of areas.
use base_kernel.Base.{
  ℕ, ◌≤◌, ◌<◌, ◌≡◌, refl, Bool, false, List, [], ◌∷◌, Bool-cases, inl, inr, leb, arith, add64,
  if◌then◌else◌, Option, none, some,
}
use base_kernel.Vmm.{
  Vma, VmContext, Machine, align_page, contains, overlaps, vmm_find_vma, munmap_from, unmap_range,
  vmm_munmap, vmm_brk,
}
use base_kernel.Vmm.Areas.{IsSpaced, IsSpaced-lower}

-- The areas that do not meet the range.
pub clear_of : ℕ → ℕ → List Vma → List Vma
clear_of start end [] = []
clear_of start end (v ∷ vs) =
    if overlaps start end v then clear_of start end vs else v ∷ clear_of start end vs

clear_of-behind :
    (start end top low : ℕ) (vs : List Vma)
    → IsSpaced top low vs
    → end ≤ low
    → clear_of start end vs ≡ vs
unfolding clear_of
clear_of-behind start end top low [] s h = refl
clear_of-behind start end top low (v ∷ vs) s h =
    let s0 = s.0 in
    let s1 = s.1 in
    let o : overlaps start end v ≡ false = ground arith in
    rw (o, clear_of-behind start end top v.end vs s.3 (omega arith)) refl

munmap_from-areas :
    (page_dir start end top low : ℕ) (vs : List Vma) (m : Machine)
    → IsSpaced top low vs
    → (munmap_from page_dir start end vs m).0 ≡ clear_of start end vs
unfolding munmap_from clear_of
munmap_from-areas page_dir start end top low [] m s = refl
munmap_from-areas page_dir start end top low (v ∷ vs) m s =
    let s0 = s.0 in
    let s1 = s.1 in
    elim (Bool-cases (leb end v.start)) [
      | inl past ↦
          let o : overlaps start end v ≡ false = ground arith in
          rw (past, o, clear_of-behind start end top v.end vs s.3 (ground arith)) refl
      | inr before ↦ elim (Bool-cases (overlaps start end v)) [
        | inl hit ↦
            rw (before, hit)
              (munmap_from-areas page_dir start end top v.end vs
                (unmap_range page_dir v.start v.end m) s.3)
        | inr miss ↦ rw (before, miss, munmap_from-areas page_dir start end top v.end vs m s.3) refl
      ]
    ]

clear_of-IsSpaced :
    (start end top low : ℕ) (vs : List Vma)
    → IsSpaced top low vs
    → IsSpaced top low (clear_of start end vs)
unfolding clear_of
clear_of-IsSpaced start end top low [] s = s
clear_of-IsSpaced start end top low (v ∷ vs) s =
    let r = clear_of-IsSpaced start end top v.end vs s.3 in
    let s0 = s.0 in
    let s1 = s.1 in
    elim (Bool-cases (overlaps start end v)) [
      | inl hit ↦ rw hit (IsSpaced-lower top v.end low _ (omega arith) r)
      | inr miss ↦ rw miss (s0, s1, s.2, r)
    ]

-- Addresses are found as before, except those of an area that meets the range.
abbrev pub found_clear : ℕ → ℕ → Option Vma → Option Vma
found_clear start end none = none
found_clear start end (some v) = if overlaps start end v then none else some v

find_vma-none :
    (top low : ℕ) (vs : List Vma) (p : ℕ) → IsSpaced top low vs → p < low → vmm_find_vma vs p ≡ none
unfolding vmm_find_vma
find_vma-none top low [] p s h = refl
find_vma-none top low (v ∷ vs) p s h =
    let s0 = s.0 in
    let s1 = s.1 in let r = find_vma-none top v.end vs p s.3 (omega arith) in rw r (ground arith)

find_vma-clear_of :
    (start end top low : ℕ) (vs : List Vma) (p : ℕ)
    → IsSpaced top low vs
    → vmm_find_vma (clear_of start end vs) p ≡ found_clear start end (vmm_find_vma vs p)
unfolding clear_of vmm_find_vma
find_vma-clear_of start end top low [] p s = refl
find_vma-clear_of start end top low (v ∷ vs) p s =
    let r = find_vma-clear_of start end top v.end vs p s.3 in
    elim (Bool-cases (overlaps start end v)) [
      | inl hit ↦ elim (Bool-cases (contains v p)) [
        | inl c ↦
            let n = find_vma-none top v.end vs p s.3 (ground arith) in rw (hit, c, r, n, hit) refl
        | inr c ↦ rw (hit, c) r
      ]
      | inr miss ↦ elim (Bool-cases (contains v p)) [
        | inl c ↦ rw (miss, vmm_find_vma, c, miss) refl
        | inr c ↦ rw (miss, vmm_find_vma, c) r
      ]
    ]

-- On areas that are sorted, do not overlap, are not empty, start on a page and end at `top` at the
-- latest (which `vmm_brk` and mappings at a fixed address need not keep): they stay so, and an address
-- belongs to the area it belonged to, unless that area meets the range that is unmapped, in which
-- case it belongs to none, even if the address lies outside the range.
pub vmm_munmap_lem :
    (addr length : ℕ) (c : VmContext) (m : Machine) (top : ℕ)
    → IsSpaced top 0 c.vma_list
    → let c' = (vmm_munmap addr length c m).0 in
      IsSpaced top 0 c'.vma_list
      × ((p : ℕ)
          → vmm_find_vma c'.vma_list p
            ≡ found_clear addr (add64 addr (align_page length)) (vmm_find_vma c.vma_list p))
unfolding vmm_munmap
vmm_munmap_lem addr length c m top s =
    let end : ℕ = add64 addr (align_page length) in
    let e = munmap_from-areas c.page_dir addr end top 0 c.vma_list m s in
    rw e (
      clear_of-IsSpaced addr end top 0 c.vma_list s,
      λ p. find_vma-clear_of addr end top 0 c.vma_list p s,
    )

-- After the break is lowered every address belongs to the area it belonged to, also above the new
-- break.
pub brk_shrink_keeps_areas :
    (room : Bool) (addr p : ℕ) (c : VmContext) (m : Machine)
    → addr < c.brk
    → vmm_find_vma (vmm_brk room addr c m).1.vma_list p ≡ vmm_find_vma c.vma_list p
unfolding vmm_brk
brk_shrink_keeps_areas room addr p c m h = ground arith
