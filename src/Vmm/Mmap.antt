-- ===== src/Vmm/Mmap.antt =====
-- `vmm_mmap` on the sorted list of areas.
use base_kernel.Base.{
  ℕ, ◌+◌, ◌%◌, ◌^◌, ◌≤◌, ◌<◌, ◌≡◌, refl, true, false, List, [], ◌∷◌, Bool-cases, inl, inr, ltb, leb,
  arith, add64, if◌then◌else◌, ◌==◌, some,
}
use base_kernel.Vmm.{
  Vma, VmContext, align_page, has, map_fixed, contains, vmm_find_vma, vmm_insert_vma, free_space,
  vmm_create_vma, vmm_mmap,
}
use base_kernel.Vmm.Areas.{
  IsSpaced, IsSpaced-widen, IsSpaced-low, align_page-bounds, free_space_behind, free_space-le,
}
use base_kernel.Vmm.Find.{find_vma-insert_vma}

free_space-IsSpaced :
    (top base length : ℕ) (new : Vma) (vs : List Vma)
    → IsSpaced top 0 vs
    → base ≤ top
    → base % 4096 ≡ 0
    → 0 < length
    → top + 4095 + length < 2 ^ 64
    → new.start ≡ free_space length base vs
    → new.end ≡ new.start + length
    → IsSpaced (top + 4095 + length) 0 (vmm_insert_vma new vs)
unfolding free_space vmm_insert_vma
free_space-IsSpaced top base length new [] s b al nz fits a e =
    (omega arith, omega arith, omega arith, omega arith)
free_space-IsSpaced top base length new (v ∷ vs) s b al nz fits a e =
    let l = IsSpaced-low top v.end vs s.3 in
    let s1 = s.1 in
    let s2 = s.2 in
    elim (Bool-cases (leb (add64 base length) v.start)) [
      | inl room ↦
          let p : new.start ≡ base = ground arith in
          let q : ltb new.start v.start ≡ true = ground arith in
          rw q (
            omega arith,
            omega arith,
            omega arith,
            (ground arith, s1, s2, IsSpaced-widen top _ v.end vs (omega arith) s.3),
          )
      | inr tight ↦
          let p : new.start ≡ free_space length (align_page v.end) vs = ground arith in
          let r = free_space_behind top v.end length new vs s.3 nz fits p e in
          let r0 = r.0 in
          let q : ltb new.start v.start ≡ false = ground arith in rw q (omega arith, s1, s2, r.1)
    ]

-- The area that a mapping adds.
abbrev pub mapped_area : ℕ → ℕ → ℕ → ℕ → ℕ → ℕ → Vma
mapped_area start length prot flags file offset = record {
  start = start;
  end = start + length;
  prot = prot;
  flags = flags;
  file = file;
  offset = offset;
  ref_count = 1;
}

-- A mapping of at least one byte without a fixed address, with room for its record, on areas that
-- are sorted, do not overlap, are not empty, start on a page and end at `top` at the latest (which
-- `vmm_brk` and mappings at a fixed address need not keep), with the base for mappings on a page up
-- to `top`, and far from the end of the address space: the areas stay so, with an end that is later
-- by at most the whole pages of the mapping and 4095, and an address belongs to the new area if it
-- lies in the whole pages from the result on, and otherwise to the area it belonged to.
pub vmm_mmap_lem :
    (addr length prot flags file offset : ℕ) (c : VmContext) (top : ℕ)
    → IsSpaced top 0 c.vma_list
    → c.mmap_base ≤ top
    → c.mmap_base % 4096 ≡ 0
    → 0 < length
    → has flags map_fixed ≡ false
    → top + length + 8192 < 2 ^ 64
    → let (a, c') = vmm_mmap true addr length prot flags file offset c in
      let new = mapped_area a (align_page length) prot flags file offset in
      IsSpaced (top + 4095 + align_page length) 0 c'.vma_list
      × ((p : ℕ)
          → vmm_find_vma c'.vma_list p
            ≡ (if contains new p then some new else vmm_find_vma c.vma_list p))
unfolding vmm_mmap vmm_create_vma
vmm_mmap_lem addr length prot flags file offset c top s b al nz free fits =
    let a : ℕ = free_space (align_page length) c.mmap_base c.vma_list in
    let new : Vma = mapped_area a (align_page length) prot flags file offset in
    let l = align_page-bounds length (omega arith) in
    let l0 = l.0 in
    let l1 = l.1 in
    let sp =
      free_space-IsSpaced top c.mmap_base (align_page length) new c.vma_list s b al (omega arith)
        (omega arith) refl refl in
    let z : (length == 0) ≡ false = ground arith in
    let le : a ≤ top + 4095 =
      free_space-le top 0 _ c.mmap_base c.vma_list s (omega arith) (omega arith) in
    let w : add64 a (align_page length) ≡ a + align_page length = omega arith in
    rw (z, free, w) (sp, λ p. find_vma-insert_vma _ 0 new c.vma_list p sp)
