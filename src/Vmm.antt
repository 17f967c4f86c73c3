-- ===== src/Vmm.antt =====
-- kernel/memory/vmm.c: virtual memory areas, demand paging and the walk through four levels of
-- page tables. `mem` holds the 64-bit words of physical memory at their addresses; pages come from
-- the allocator of kernel/memory/pmm.c. The list of areas is the linked list from `vma_list`.
-- Whether `kmalloc_tracked` finds room for an area is an argument. The contents of files, the TLB,
-- the state of the CLOCK algorithm and the log lines are left out.
mod State
pub mod Areas
pub mod Find
pub mod Mmap
pub mod Unmap
pub mod Walk
pub mod Rounds
mod Tests
pub use State.*
use base_kernel.Base.{
  ℕ, zero, suc, ◌+◌, ◌-◌, ◌*◌, ◌/◌, ◌%◌, ◌^◌, Bool, true, false, not, ◌&&◌, ◌||◌, List, [], ◌∷◌,
  Option, none, some, ltb, leb, ◌==◌, if◌then◌else◌, add64, bit_and, bit_or,
}
use base_kernel.Pmm.{Pmm, page_size, alloc_pages, free_pages}

-- One level of `vmm_get_pte`: the table behind the entry at `e`, which is made if `create` says so.
pub next_table : Bool → ℕ → Machine → Option ℕ × Machine
next_table create e m =
    if is_present (m.mem e)
    then (some (table_of (m.mem e)), m)
    else if not create
    then (none, m)
    else (let (page, pmm) = alloc_pages m.pmm 1 in
        if page == 0
        then (none, record m { pmm = pmm })
        else (let mem = write (zero_page m.mem page) e (bit_or page 3) in
            (some (table_of (mem e)), record { mem = mem; pmm = pmm })))

-- `((vaddr >> shift) & 0x1FF)`-th word of a table
abbrev pub entry_of : ℕ → ℕ → ℕ → ℕ
entry_of table shift vaddr = table + vaddr / 2 ^ shift % 512 * 8

-- The walk goes on with the table that a level found.
abbrev pub descend : Option ℕ × Machine → (ℕ → Machine → Option ℕ × Machine) → Option ℕ × Machine
descend (none, m) f = (none, m)
descend (some table, m) f = f table m

-- The address of the page table entry.
pub vmm_get_pte : Bool → ℕ → ℕ → Machine → Option ℕ × Machine
vmm_get_pte create page_dir vaddr m =
    descend (next_table create (entry_of page_dir 39 vaddr) m) λ pdp m₁.
      descend (next_table create (entry_of pdp 30 vaddr) m₁) λ pd m₂.
        descend (next_table create (entry_of pd 21 vaddr) m₂)
          λ pt m₃. (some (entry_of pt 12 vaddr), m₃)

-- The entry that maps `paddr`, from what stood there.
pub mapped_entry : ℕ → ℕ → ℕ → ℕ
mapped_entry paddr prot e = set_field 12 40 (paddr / 4096) (
    set_field 63 1 (if has prot prot_exec then 0 else 1)
      (set_field 2 1 1 (set_field 1 1 (if has prot prot_write then 1 else 0) (set_field 0 1 1 e))))

-- What `vmm_map_page_ctx` does with the entry: `true` for the result 0, `false` for -1.
abbrev pub map_entry : ℕ → ℕ → Option ℕ × Machine → Bool × Machine
map_entry paddr prot (none, m) = (false, m)
map_entry paddr prot (some e, m) =
    (true, record m { mem = write m.mem e (mapped_entry paddr prot (m.mem e)) })

pub vmm_map_page_ctx : ℕ → ℕ → ℕ → ℕ → Machine → Bool × Machine
vmm_map_page_ctx page_dir vaddr paddr prot m =
    map_entry paddr prot (vmm_get_pte true page_dir vaddr m)

-- What `vmm_unmap_page_ctx` does with the entry.
abbrev pub unmap_entry : Option ℕ × Machine → Machine
unmap_entry (none, m) = m
unmap_entry (some e, m) =
    if is_present (m.mem e)
    then record { mem = write m.mem e 0; pmm = free_pages m.pmm (field 12 40 (m.mem e) * 4096) 1 }
    else m

pub vmm_unmap_page_ctx : ℕ → ℕ → Machine → Machine
vmm_unmap_page_ctx page_dir vaddr m = unmap_entry (vmm_get_pte false page_dir vaddr m)

-- `for (page = start; page < end; page += PAGE_SIZE)`, at most `n` rounds.
pub unmap_from : ℕ → ℕ → ℕ → ℕ → Machine → Machine
unmap_from zero page_dir page end m = m
unmap_from (suc n) page_dir page end m =
    if ltb page end
    then unmap_from n page_dir (add64 page page_size) end (vmm_unmap_page_ctx page_dir page m)
    else m

pub unmap_range : ℕ → ℕ → ℕ → Machine → Machine
unmap_range page_dir start end m = unmap_from ((end - start) / 4096 + 1) page_dir start end m

pub vmm_create_vma : Bool → ℕ → ℕ → ℕ → ℕ → Option Vma
vmm_create_vma room start end prot flags =
    if room
    then some (record {
      start = start;
      end = end;
      prot = prot;
      flags = flags;
      file = 0;
      offset = 0;
      ref_count = 1;
    })
    else none

abbrev pub contains : Vma → ℕ → Bool
contains v addr = leb v.start addr && ltb addr v.end

pub vmm_find_vma : List Vma → ℕ → Option Vma
vmm_find_vma [] addr = none
vmm_find_vma (v ∷ vs) addr = if contains v addr then some v else vmm_find_vma vs addr

-- The loop of `vmm_insert_vma`, behind the areas passed so far.
pub insert_behind : Vma → List Vma → List Vma
insert_behind new [] = new ∷ []
insert_behind new (v ∷ vs) =
    if ltb v.start new.start then v ∷ insert_behind new vs else new ∷ v ∷ vs

pub vmm_insert_vma : Vma → List Vma → List Vma
vmm_insert_vma new [] = new ∷ []
vmm_insert_vma new (v ∷ vs) =
    if ltb new.start v.start then new ∷ v ∷ vs else v ∷ insert_behind new vs

-- The search of `vmm_mmap` for free space.
pub free_space : ℕ → ℕ → List Vma → ℕ
free_space length vaddr [] = vaddr
free_space length vaddr (v ∷ vs) =
    if leb (add64 vaddr length) v.start then vaddr else free_space length (align_page v.end) vs

-- 0 for NULL.
pub vmm_mmap : Bool → ℕ → ℕ → ℕ → ℕ → ℕ → ℕ → VmContext → ℕ × VmContext
vmm_mmap room addr length₀ prot flags file offset c =
    let length = align_page length₀ in
    let vaddr = if has flags map_fixed then addr else free_space length c.mmap_base c.vma_list in
    if length₀ == 0
    then (0, c)
    else elim (vmm_create_vma room vaddr (add64 vaddr length) prot flags) [
      | none ↦ (0, c)
      | some vma ↦ (
        vaddr,
        record c {
          vma_list = vmm_insert_vma (record vma { file = file; offset = offset }) c.vma_list;
        },
      )
    ]

abbrev pub overlaps : ℕ → ℕ → Vma → Bool
overlaps start end v = ltb start v.end && ltb v.start end

-- The loop of `vmm_munmap`: the areas that stay.
pub munmap_from : ℕ → ℕ → ℕ → List Vma → Machine → List Vma × Machine
munmap_from page_dir start end [] m = ([], m)
munmap_from page_dir start end (v ∷ vs) m =
    if leb end v.start
    then (v ∷ vs, m)
    else if overlaps start end v
    then munmap_from page_dir start end vs (unmap_range page_dir v.start v.end m)
    else (let (rest, m') = munmap_from page_dir start end vs m in (v ∷ rest, m'))

pub vmm_munmap : ℕ → ℕ → VmContext → Machine → VmContext × Machine
vmm_munmap addr length c m =
    let (rest, m') = munmap_from c.page_dir addr (add64 addr (align_page length)) c.vma_list m in
    (record c { vma_list = rest }, m')

-- The copy of a page at a write to a private mapping; `e` is its entry.
pub copy_on_write : ℕ → Vm → Vm
copy_on_write e vm =
    let m = vm.machine in
    let old_page = field 12 40 (m.mem e) * 4096 in
    let (new_page, pmm) = alloc_pages m.pmm 1 in
    let counted = record vm { cow_faults = add64 vm.cow_faults 1 } in
    if new_page == 0
    then record counted { machine = record m { pmm = pmm } }
    else (let mem = copy_page m.mem new_page old_page in
        record counted {
          machine = record {
            mem = write mem e (set_field 1 1 1 (set_field 12 40 (new_page / 4096) (mem e)));
            pmm = pmm;
          };
        })

pub demand_page : ℕ → Vma → Vm → Vm
demand_page fault_addr vma vm =
    let m = vm.machine in
    let (page, pmm) = alloc_pages m.pmm 1 in
    let counted = record vm { page_faults_minor = add64 vm.page_faults_minor 1 } in
    if page == 0 then record counted { machine = record m { pmm = pmm } } else record counted {
      machine =
          (vmm_map_page_ctx vm.context.page_dir (table_of fault_addr) page vma.prot
            (record { mem = zero_page m.mem page; pmm = pmm })).1;
    }

abbrev is_cow : Machine → Vma → ℕ → ℕ → Bool
is_cow m vma error_code e =
    is_present (m.mem e) && has error_code pf_write && has vma.flags map_private

pub vmm_page_fault_handler : ℕ → ℕ → Vm → Vm
vmm_page_fault_handler fault_addr error_code vm₀ =
    let vm = record vm₀ { page_faults_total = add64 vm₀.page_faults_total 1 } in
    elim (vmm_find_vma vm.context.vma_list fault_addr) [
      | none ↦ vm
      | some vma ↦
          if has error_code pf_write && not (has vma.prot prot_write)
          then vm
          else elim (vmm_get_pte false vm.context.page_dir fault_addr vm.machine).0 [
            | none ↦ demand_page fault_addr vma vm
            | some e ↦
                if is_cow vm.machine vma error_code e
                then copy_on_write e vm
                else demand_page fault_addr vma vm
          ]
    ]

-- The new areas of `vmm_brk` may be read and written, are private and anonymous.
pub vmm_brk : Bool → ℕ → VmContext → Machine → ℕ × VmContext × Machine
vmm_brk room addr c m =
    if addr == 0
    then (c.brk, c, m)
    else if ltb addr c.brk
    then (addr, record c { brk = addr }, unmap_range c.page_dir addr c.brk m)
    else elim (vmm_create_vma room c.brk addr 3 (map_private + map_anonymous)) [
      | none ↦ (addr, record c { brk = addr }, m)
      | some vma ↦ (addr, record c { brk = addr; vma_list = vmm_insert_vma vma c.vma_list }, m)
    ]

-- `none` for the panic when there is no page for the directory.
pub vmm_init : Vm → Option Vm
vmm_init vm =
    let (page, pmm) = alloc_pages vm.machine.pmm 1 in
    if page == 0
    then none
    else some (record vm {
      machine = record { mem = zero_page vm.machine.mem page; pmm = pmm };
      context = record { vma_list = []; brk = 0x40000000; mmap_base = 0x60000000; page_dir = page };
    })
