-- ===== src/Paging.antt =====
-- arch/x86_64/paging/paging.c: mapping, unmapping and translating pages in the tables of the kernel.
-- `pml4` is an argument; the TLB is left out. A table is made and found as in kernel/memory/vmm.c.
pub mod Translate
mod Tests
use base_kernel.Base.{
  ℕ, ◌+◌, ◌*◌, ◌/◌, ◌%◌, ◌^◌, Bool, true, false, Option, none, some, ◌==◌, if◌then◌else◌, bit_or,
  not,
}
use base_kernel.Vmm.{
  Memory, Machine, is_present, table_of, entry_of, field, write, next_table, descend,
}

-- What `vmm_map_page` does with the entry of the page: `true` for 0, `false` for -1.
abbrev pub set_entry : ℕ → Option ℕ × Machine → Bool × Machine
set_entry w (none, m) = (false, m)
set_entry w (some e, m) = (true, record m { mem = write m.mem e w })

abbrev pub align_down : ℕ → ℕ
align_down a = a / 4096 * 4096

-- The entry of the page, through tables that are made where `create` says so.
abbrev pub walk : Bool → ℕ → ℕ → Machine → Option ℕ × Machine
walk create pml4 virtual_addr m =
    descend (next_table create (entry_of pml4 39 virtual_addr) m) λ pdpt m₁.
      descend (next_table create (entry_of pdpt 30 virtual_addr) m₁) λ pd m₂.
        descend (next_table create (entry_of pd 21 virtual_addr) m₂)
          λ pt m₃. (some (entry_of pt 12 virtual_addr), m₃)

pub vmm_map_page : ℕ → ℕ → ℕ → ℕ → Machine → Bool × Machine
vmm_map_page pml4 virtual_addr physical_addr flags m =
    set_entry (bit_or (bit_or (align_down physical_addr) flags) 1)
      (walk true pml4 (align_down virtual_addr) m)

-- What `vmm_unmap_page` does with it.
abbrev pub clear_entry : Option ℕ × Machine → Bool × Machine
clear_entry (none, m) = (false, m)
clear_entry (some e, m) =
    if not (is_present (m.mem e)) then (false, m) else (true, record m { mem = write m.mem e 0 })

pub vmm_unmap_page : ℕ → ℕ → Machine → Bool × Machine
vmm_unmap_page pml4 virtual_addr m = clear_entry (walk false pml4 (align_down virtual_addr) m)

-- PTE_PAGE_SIZE_BIT
abbrev pub is_large : ℕ → Bool
is_large e = field 7 1 e == 1

pub paging_get_physical_address : ℕ → Memory → ℕ → ℕ
paging_get_physical_address pml4 mem v =
    let e₁ = mem (entry_of pml4 39 v) in
    let e₂ = mem (entry_of (table_of e₁) 30 v) in
    let e₃ = mem (entry_of (table_of e₂) 21 v) in
    let e₄ = mem (entry_of (table_of e₃) 12 v) in
    if not (is_present e₁)
    then 0
    else if not (is_present e₂)
    then 0
    else if is_large e₂
    then e₂ / 2 ^ 30 * 2 ^ 30 + v % 2 ^ 30
    else if not (is_present e₃)
    then 0
    else if is_large e₃
    then e₃ / 2 ^ 21 * 2 ^ 21 + v % 2 ^ 21
    else if not (is_present e₄)
    then 0
    else table_of e₄ + v % 4096
