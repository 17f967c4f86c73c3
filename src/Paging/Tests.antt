-- ===== src/Paging/Tests.antt =====
-- Tables for the first page, and the theorem at an address on it.
use base_kernel.Base.{◌≡◌, refl, true, [], ◌==◌, if◌then◌else◌, arith}
use base_kernel.Pmm.{Pmm}
use base_kernel.Vmm.{Memory, Machine}
use base_kernel.Vmm.Walk.{IsWalk}
use base_kernel.Paging.{vmm_map_page, vmm_unmap_page, paging_get_physical_address}
use base_kernel.Paging.Translate.{IsSmall, physical_address-map_page}

abbrev no_memory : Pmm
no_memory = record {
  bitmap = [];
  total_pages = 0;
  used_pages = 0;
  hot = [];
  alloc_requests = 0;
  alloc_failures = 0;
  pages_allocated = 0;
  pages_freed = 0;
}

abbrev three_tables : Memory
three_tables a =
    if a == 0x1000
    then 0x2003
    else if a == 0x2000
    then 0x3003
    else if a == 0x3000
    then 0x4003
    else 0

abbrev first_page : Machine
first_page = record { mem = three_tables; pmm = no_memory }

first_page-IsWalk : IsWalk three_tables 0x1000 0x123 0x2000 0x3000 0x4000 0x4000
first_page-IsWalk = record {
  present_1 = refl;
  table_1 = refl;
  present_2 = refl;
  table_2 = refl;
  present_3 = refl;
  table_3 = refl;
  entry = refl;
  apart_1 = omega arith;
  apart_2 = omega arith;
  apart_3 = omega arith;
}

first_page-IsSmall : IsSmall three_tables 0x123 0x2000 0x3000
unfolding IsSmall
first_page-IsSmall = (refl, refl)

physical_address-map_page_example :
    let (ok, m₁) = vmm_map_page 0x1000 0x123 0x9000 7 first_page in
    let (ok', m₂) = vmm_unmap_page 0x1000 0x123 m₁ in
    (ok ≡ true)
    × (paging_get_physical_address 0x1000 m₁.mem 0x123 ≡ 0x9123)
    × (ok' ≡ true)
    × (paging_get_physical_address 0x1000 m₂.mem 0x123 ≡ 0)
physical_address-map_page_example =
    physical_address-map_page 0x1000 0x123 0x9000 7 0x2000 0x3000 0x4000 0x4000 first_page
      first_page-IsWalk first_page-IsSmall (omega arith)
