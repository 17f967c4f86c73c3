-- ===== src/Vmm/Tests.antt =====
-- Tests of kernel/memory/vmm.c, and its theorems at concrete states.
use base_kernel.Base.{
  ℕ, ◌+◌, ◌%◌, ◌/◌, ◌^◌, ◌≡◌, ◌≢◌, refl, true, false, [], ◌∷◌, some, arith, ◌==◌, if◌then◌else◌,
  add64,
}
use base_kernel.Pmm.{Pmm, free_pages}
use base_kernel.Vmm.{
  Vma, VmContext, Machine, Memory, align_page, contains, vmm_find_vma, vmm_mmap, vmm_munmap,
  vmm_map_page_ctx, vmm_unmap_page_ctx, vmm_get_pte, is_present, field, has, prot_write, prot_exec,
  free_space, vmm_create_vma, vmm_insert_vma, insert_behind, unmap_from, unmap_range,
}
use base_kernel.Vmm.Areas.{IsSpaced}
use base_kernel.Vmm.Mmap.{mapped_area, vmm_mmap_lem}
use base_kernel.Vmm.Unmap.{found_clear, vmm_munmap_lem}
use base_kernel.Vmm.Walk.{IsWalk, map_page_translates, unmap_page-map_page}
use base_kernel.Vmm.Rounds.{unmap_range_enough}

abbrev area : ℕ → ℕ → Vma
area start end = record {
  start = start;
  end = end;
  prot = 3;
  flags = 0x22;
  file = 0;
  offset = 0;
  ref_count = 1;
}

-- A heap of two pages below the base for mappings, and one mapping of a page at that base.
abbrev context : VmContext
context = record {
  vma_list = area 0x40000000 0x40002000 ∷ area 0x60000000 0x60001000 ∷ [];
  brk = 0x40002000;
  mmap_base = 0x60000000;
  page_dir = 0x1000;
}

context-IsSpaced : IsSpaced 0x60001000 0 context.vma_list
context-IsSpaced = (omega arith, omega arith, refl, (omega arith, omega arith, refl, omega arith))

-- The next mapping goes right behind the heap, below the base.
mmap_below_base : (vmm_mmap true 0 5000 3 0x22 0 0 context).0 ≡ 0x40002000
unfolding vmm_mmap free_space vmm_create_vma vmm_insert_vma insert_behind
mmap_below_base = refl

vmm_mmap_lem_example :
    let (a, c') = vmm_mmap true 0 5000 3 0x22 0 0 context in
    let new = mapped_area a (align_page 5000) 3 0x22 0 0 in
    IsSpaced (0x60001000 + 4095 + align_page 5000) 0 c'.vma_list
    × ((p : ℕ)
        → vmm_find_vma c'.vma_list p
          ≡ (if contains new p then some new else vmm_find_vma context.vma_list p))
vmm_mmap_lem_example =
    vmm_mmap_lem 0 5000 3 0x22 0 0 context 0x60001000 context-IsSpaced (omega arith) refl
      (omega arith) refl (omega arith)

abbrev no_memory : Pmm
no_memory = record {
  bitmap = [];
  total_pages = 0;
  used_pages = 0;
  hot = [];
  alloc_requests = 0;
  alloc_failures = 0;
  pages_allocated = 0;
  pages_freed = 0;
}

-- One table of each level; the first word of each names the next one.
abbrev tables : Memory
tables a =
    if a == 0x1000
    then 0x2003
    else if a == 0x2000
    then 0x3003
    else if a == 0x3000
    then 0x4003
    else 0

abbrev machine : Machine
machine = record { mem = tables; pmm = no_memory }

vmm_munmap_lem_example :
    let c' = (vmm_munmap 0x40001000 4096 context machine).0 in
    IsSpaced 0x60001000 0 c'.vma_list
    × ((p : ℕ)
        → vmm_find_vma c'.vma_list p
          ≡ found_clear 0x40001000
              (add64 0x40001000 (align_page 4096))
              (vmm_find_vma context.vma_list p))
vmm_munmap_lem_example = vmm_munmap_lem 0x40001000 4096 context machine 0x60001000 context-IsSpaced

machine-IsWalk : IsWalk tables 0x1000 0 0x2000 0x3000 0x4000 0x4000
machine-IsWalk = record {
  present_1 = refl;
  table_1 = refl;
  present_2 = refl;
  table_2 = refl;
  present_3 = refl;
  table_3 = refl;
  entry = refl;
  apart_1 = omega arith;
  apart_2 = omega arith;
  apart_3 = omega arith;
}

map_page_translates_example :
    let (ok, m') = vmm_map_page_ctx 0x1000 0 0x9000 2 machine in
    (ok ≡ true)
    × (vmm_get_pte false 0x1000 0 m' ≡ (some 0x4000, m'))
    × (is_present (m'.mem 0x4000) ≡ true)
    × (field 12 40 (m'.mem 0x4000) ≡ 0x9000 / 4096 % 2 ^ 40)
    × (field 1 1 (m'.mem 0x4000) ≡ (if has 2 prot_write then 1 else 0))
    × (field 63 1 (m'.mem 0x4000) ≡ (if has 2 prot_exec then 0 else 1))
    × ((a : ℕ) → 0x4000 ≢ a → m'.mem a ≡ machine.mem a)
map_page_translates_example =
    map_page_translates 0x1000 0 0x9000 2 0x2000 0x3000 0x4000 0x4000 machine machine-IsWalk

unmap_page-map_page_example :
    let m' = vmm_unmap_page_ctx 0x1000 0 (vmm_map_page_ctx 0x1000 0 0x9000 2 machine).1 in
    (m'.mem 0x4000 ≡ 0)
    × (m'.pmm ≡ free_pages no_memory 0x9000 1)
    × ((a : ℕ) → 0x4000 ≢ a → m'.mem a ≡ machine.mem a)
unmap_page-map_page_example =
    unmap_page-map_page 0x1000 0 0x9000 2 0x2000 0x3000 0x4000 0x4000 machine machine-IsWalk refl
      (omega arith)

unmap_range_enough_example : unmap_from 7 0x1000 0 8192 machine ≡ unmap_range 0x1000 0 8192 machine
unmap_range_enough_example = unmap_range_enough 7 0x1000 0 8192 machine (omega arith) (omega arith)
