-- ===== src/Elf.antt =====
-- kernel/elf_loader.c: the checks of a header, and the loading of segments and stack. A file is the byte
-- at each offset and memory the byte at each virtual address, of 64 bits; addresses wrap, and an access
-- to a page that is not mapped is a fault. A page that is handed out is mapped nowhere else. The page
-- allocator and `vmm_map_page` are an interface over a state of their own.
pub mod Place
pub mod Pages
pub mod Load
mod Tests
use base_kernel.Base.{
  ℕ, zero, suc, ◌+◌, ◌-◌, ◌*◌, ◌/◌, ◌%◌, ◌^◌, Bool, true, false, not, ◌&&◌, ◌||◌, Option, none,
  some, bit_and, ltb, leb, ◌==◌, if◌then◌else◌,
}
use base_kernel.Net.Bytes.{Buffer, load16, load32}

-- `pmm_alloc_page`, which yields 0 on failure, and `vmm_map_page`, which yields `true` for 0.
pub record PageOps (M : Type 0) : Type 0 where
  pub alloc_page : M → ℕ × M
  pub map_page : ℕ → ℕ → ℕ → M → Bool × M
  -- The byte of a page that has just been handed out.
  pub residue : M → ℕ → ℕ → ℕ

-- Memory, which pages of it are mapped, and the state of the allocator.
pub record Space (M : Type 0) : Type 0 where
  pub mem : ℕ → ℕ
  pub mapped : ℕ → Bool
  pub pages : M

-- How a part of the loading ends: it goes on, it returns -1, or it faults.
pub data Status : Type 0 where
  ok rejected faulted : Status

-- What `elf_load` returns: 0 with the address of the entry, or -1; or it faults.
pub data LoadResult : Type 0 where
  entered : ℕ → LoadResult
  refused crashed : LoadResult

abbrev pub load64 : Buffer → ℕ → ℕ
load64 b p = load32 b p + 2 ^ 32 * load32 b (p + 4)

abbrev pub user_stack_top : ℕ
user_stack_top = 0x7FFFFFFFE000

abbrev pub user_stack_size : ℕ
user_stack_size = 2097152

abbrev pub stack_bottom : ℕ
stack_bottom = user_stack_top - user_stack_size

pub elf_validate : Buffer → ℕ → Bool
elf_validate file size =
    if ltb size 64
    then false
    else if not (file 0 == 0x7F)
        || (not (file 1 == 69) || (not (file 2 == 76) || not (file 3 == 70)))
    then false
    else if not (file 4 == 2)
    then false
    else if not (file 5 == 1)
    then false
    else if not (file 6 == 1)
    then false
    else if not (load16 file 18 == 62)
    then false
    else not (not (load16 file 16 == 2) && not (load16 file 16 == 3))

pub elf_get_entry : Buffer → ℕ
elf_get_entry file = load64 file 24

-- A program header.
pub record Segment : Type 0 where
  pub p_type : ℕ
  pub p_flags : ℕ
  pub p_offset : ℕ
  pub p_vaddr : ℕ
  pub p_filesz : ℕ
  pub p_memsz : ℕ

-- `phdr[i]`
abbrev pub phdr : Buffer → ℕ → Segment
phdr file i =
    let p = load64 file 32 + 56 * i in
    record {
      p_type = load32 file p;
      p_flags = load32 file (p + 4);
      p_offset = load64 file (p + 8);
      p_vaddr = load64 file (p + 16);
      p_filesz = load64 file (p + 32);
      p_memsz = load64 file (p + 40);
    }

abbrev pub e_phnum : Buffer → ℕ
e_phnum file = load16 file 56

-- The flags of a page: present and for the user, writable where the segment is.
abbrev pub page_flags : ℕ → ℕ
page_flags flags = if bit_and flags 2 == 0 then 5 else 7

abbrev pub start_page : Segment → ℕ
start_page p = p.p_vaddr / 4096 * 4096

abbrev pub num_pages : Segment → ℕ
num_pages p =
    let end_page = (p.p_vaddr + p.p_memsz + 0xFFF) % 2 ^ 64 / 4096 * 4096 in
    (end_page + 2 ^ 64 - start_page p) % 2 ^ 64 / 4096

-- Whether `x` is one of the `len` bytes from the address `a` on, which may wrap.
abbrev pub reaches : ℕ → ℕ → ℕ → Bool
reaches a len x = ltb ((x + 2 ^ 64 - a) % 2 ^ 64) len

-- The address behind the bytes of the file.
abbrev pub bss : Segment → ℕ
bss p = (p.p_vaddr + p.p_filesz) % 2 ^ 64

-- `memcpy` from the file, and `memset` to 0 behind it if `p_memsz` is larger.
abbrev pub place : Buffer → Segment → (ℕ → ℕ) → ℕ → ℕ
place file p mem x =
    if reaches (bss p) (p.p_memsz - p.p_filesz) x
    then 0
    else if reaches p.p_vaddr p.p_filesz x
    then file (p.p_offset + (x + 2 ^ 64 - p.p_vaddr) % 2 ^ 64)
    else mem x

-- The `n` pages from number `k` on are mapped.
pub all_mapped : (ℕ → Bool) → ℕ → ℕ → Bool
all_mapped mapped k zero = true
all_mapped mapped k (suc n) =
    let rest = all_mapped mapped (k + 1) n in if mapped (k % 2 ^ 52) then rest else false

-- An access to the `len` bytes from `a` on does not fault.
abbrev pub can_access : (ℕ → Bool) → ℕ → ℕ → Bool
can_access mapped a len =
    all_mapped mapped (a / 4096) (if len == 0 then 0 else (a % 4096 + len + 4095) / 4096)

module _ {M : Type 0} (ops : PageOps M) where
  -- `n` pages from the address `v`: there, memory is from now on what the new pages hold.
  pub load_pages : ℕ → ℕ → ℕ → Space M → Bool × Space M
  load_pages flags v zero s = (true, s)
  load_pages flags v (suc n) s =
      let (phys, m₁) = ops.alloc_page s.pages in
      let (mapped, m₂) = ops.map_page v phys flags m₁ in
      let behind : ℕ → ℕ =
        λ x. if leb v x && ltb x (v + 4096) then ops.residue m₁ phys (x - v) else s.mem x in
      let now : ℕ → Bool = λ k. if k == v / 4096 then true else s.mapped k in
      let rest =
        load_pages flags ((v + 4096) % 2 ^ 64) n
          (record { mem = behind; mapped = now; pages = m₂ }) in
      if phys == 0
      then (false, record s { pages = m₁ })
      else if mapped
      then rest
      else (false, record s { pages = m₂ })

  pub load_segment : Buffer → Segment → Space M → Status × Space M
  load_segment file p s =
      let (done, t) = load_pages (page_flags p.p_flags) (start_page p) (num_pages p) s in
      let copies = can_access t.mapped p.p_vaddr p.p_filesz in
      let clears = can_access t.mapped (bss p) (p.p_memsz - p.p_filesz) in
      if not (p.p_type == 1)
      then (ok, s)
      else if not done
      then (rejected, t)
      else if copies && clears
      then (ok, record t { mem = place file p t.mem })
      else (faulted, t)

  -- The `n` segments from number `i` on.
  pub load_segments : Buffer → ℕ → ℕ → Space M → Status × Space M
  load_segments file i zero s = (ok, s)
  load_segments file i (suc n) s =
      let (status, t) = load_segment file (phdr file i) s in
      let rest = load_segments file (i + 1) n t in
      elim status [ ok ↦ rest | rejected ↦ (rejected, t) | faulted ↦ (faulted, t) ]

  -- The stack, and the entry.
  pub load_stack : Buffer → Space M → LoadResult × Space M
  load_stack file t =
      let (done, u) = load_pages 7 stack_bottom 512 t in
      let cleared : ℕ → ℕ =
        λ x. if leb stack_bottom x && ltb x user_stack_top then 0 else u.mem x in
      if not done
      then (refused, u)
      else if can_access u.mapped stack_bottom user_stack_size
      then (entered (elf_get_entry file), record u { mem = cleared })
      else (crashed, u)

  pub elf_load : Buffer → ℕ → Space M → LoadResult × Space M
  elf_load file size s =
      let (status, t) = load_segments file 0 (e_phnum file) s in
      let rest = load_stack file t in
      if not (elf_validate file size)
      then (refused, s)
      else elim status [ ok ↦ rest | rejected ↦ (refused, t) | faulted ↦ (crashed, t) ]
