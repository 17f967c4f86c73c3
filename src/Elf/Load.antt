-- ===== src/Elf/Load.antt =====
-- What a program finds in memory after it has been loaded.
use base_kernel.Base.{
  ◌^◌, ◌⊎◌, not, ℕ, zero, suc, ◌+◌, ◌≡◌, Bool, true, false, ◌&&◌, ◌||◌, Option, ltb, leb, ◌==◌,
  if◌then◌else◌,
}
use base_kernel.Net.Bytes.{Buffer}
use base_kernel.Elf.Place.{Agrees}
use base_kernel.Elf.Pages.{IsReliable}
use base_kernel.Elf.{
  ok, rejected, entered, refused, Status, LoadResult, elf_get_entry, PageOps, Space, phdr,
  elf_get_entry, stack_bottom, user_stack_top,
}

-- The segments of the file from number `i` on lie within the address space, and their bytes in the file
-- fit into their pages.
unfoldable pub are_fitting : Buffer → ℕ → ℕ → Bool
are_fitting file i zero = true
are_fitting file i (suc n) =
    let p = phdr file i in
    let rest = are_fitting file (i + 1) n in
    if not (p.p_type == 1)
      || (leb p.p_filesz p.p_memsz && ltb (p.p_vaddr + p.p_memsz + 4095) (2 ^ 64))
    then rest
    else false

-- A part of the loading goes on, and what is known of the byte at `x` holds; or it returns -1, for want
-- of pages.
abbrev SegmentOutcome : {M : Type 0} → PageOps M → ℕ → Option ℕ → Status × Space M → Type 0
SegmentOutcome ops x o r =
    ((r.0 ≡ ok) × Agrees o (r.1.mem x)) ⊎ ((r.0 ≡ rejected) × (IsReliable ops → ⊥))

abbrev pub in_stack : ℕ → Bool
in_stack x = leb stack_bottom x && ltb x user_stack_top

-- The loading ends with -1 for want of pages, or it yields the entry and the byte at `x` is 0 in the
-- stack, and outside what is known of it.
abbrev pub LoadOutcome :
    {M : Type 0} → PageOps M → Buffer → ℕ → Option ℕ → LoadResult × Space M → Type 0
LoadOutcome ops file x o r =
    ((r.0 ≡ refused) × (IsReliable ops → ⊥))
    ⊎ ((r.0 ≡ entered (elf_get_entry file))
        × (in_stack x ≡ true → r.1.mem x ≡ 0)
        × (in_stack x ≡ false → Agrees o (r.1.mem x)))
