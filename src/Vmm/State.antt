-- ===== src/Vmm/State.antt =====
-- The data of kernel/memory/vmm.c, and the parts of a page table entry.
use base_kernel.Base.{
  ℕ, ◌+◌, ◌-◌, ◌*◌, ◌/◌, ◌%◌, ◌^◌, Bool, not, ◌&&◌, List, ltb, leb, ◌==◌, if◌then◌else◌, add64,
  bit_and,
}
use base_kernel.Pmm.{Pmm, page_size}

pub record Vma : Type 0 where
  pub start : ℕ
  pub end : ℕ
  pub prot : ℕ
  pub flags : ℕ
  pub file : ℕ
  pub offset : ℕ
  pub ref_count : ℕ

pub record VmContext : Type 0 where
  pub vma_list : List Vma
  pub brk : ℕ
  pub mmap_base : ℕ
  pub page_dir : ℕ

abbrev pub Memory : Type 0
Memory = ℕ → ℕ

-- What a page walk may change.
pub record Machine : Type 0 where
  pub mem : Memory
  pub pmm : Pmm

pub record Vm : Type 0 where
  pub machine : Machine
  pub context : VmContext
  pub page_faults_total : ℕ
  pub page_faults_minor : ℕ
  pub cow_faults : ℕ

abbrev pub prot_write : ℕ
prot_write = 2

abbrev pub prot_exec : ℕ
prot_exec = 4

abbrev pub map_private : ℕ
map_private = 2

abbrev pub map_fixed : ℕ
map_fixed = 0x10

abbrev pub map_anonymous : ℕ
map_anonymous = 0x20

abbrev pub pf_write : ℕ
pf_write = 2

-- `flags & mask`, as a test.
abbrev pub has : ℕ → ℕ → Bool
has flags mask = not (bit_and flags mask == 0)

-- `ALIGN_UP(x, PAGE_SIZE)` on 64 bits.
abbrev pub align_page : ℕ → ℕ
align_page x = add64 x 4095 / 4096 * 4096

-- The field of `width` bits at `low` of a page table entry, and its update.
abbrev pub field : ℕ → ℕ → ℕ → ℕ
field low width e = e / 2 ^ low % 2 ^ width

abbrev pub set_field : ℕ → ℕ → ℕ → ℕ → ℕ
set_field low width v e =
    e / 2 ^ (low + width) * 2 ^ (low + width) + v % 2 ^ width * 2 ^ low + e % 2 ^ low

abbrev pub is_present : ℕ → Bool
is_present e = field 0 1 e == 1

-- `entry & ~0xFFF`
abbrev pub table_of : ℕ → ℕ
table_of e = e / 4096 * 4096

abbrev pub write : Memory → ℕ → ℕ → Memory
write mem a w b = if a == b then w else mem b

-- `memset(page, 0, PAGE_SIZE)`
abbrev pub zero_page : Memory → ℕ → Memory
zero_page mem page b = if leb page b && ltb b (page + page_size) then 0 else mem b

-- `memcpy(dest, src, PAGE_SIZE)` of one page to another.
abbrev pub copy_page : Memory → ℕ → ℕ → Memory
copy_page mem dest src b =
    if leb dest b && ltb b (dest + page_size) then mem (src + (b - dest)) else mem b
