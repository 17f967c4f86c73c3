-- ===== src/Vmm/Walk.antt =====
-- The page table walk, and the entries that mapping and unmapping write.
use base_kernel.Base.{
  ℕ, ◌*◌, ◌/◌, ◌%◌, ◌^◌, ◌<◌, ◌≡◌, ◌≢◌, refl, Bool, true, false, some, arith, if◌then◌else◌, ◌∙◌,
  ==_iff,
}
use base_kernel.Pmm.{free_pages}
use base_kernel.Vmm.{
  Memory, Machine, is_present, table_of, entry_of, field, set_field, write, next_table, vmm_get_pte,
  mapped_entry, vmm_map_page_ctx, vmm_unmap_page_ctx, has, prot_write, prot_exec,
}

-- The tables that lead to the entry `e` of an address are there, and `e` is not an entry of theirs.
pub record IsWalk (mem : Memory) (page_dir vaddr t₁ t₂ t₃ e : ℕ) : Type 0 where
  pub present_1 : is_present (mem (entry_of page_dir 39 vaddr)) ≡ true
  pub table_1 : table_of (mem (entry_of page_dir 39 vaddr)) ≡ t₁
  pub present_2 : is_present (mem (entry_of t₁ 30 vaddr)) ≡ true
  pub table_2 : table_of (mem (entry_of t₁ 30 vaddr)) ≡ t₂
  pub present_3 : is_present (mem (entry_of t₂ 21 vaddr)) ≡ true
  pub table_3 : table_of (mem (entry_of t₂ 21 vaddr)) ≡ t₃
  pub entry : entry_of t₃ 12 vaddr ≡ e
  pub apart_1 : e ≢ entry_of page_dir 39 vaddr
  pub apart_2 : e ≢ entry_of t₁ 30 vaddr
  pub apart_3 : e ≢ entry_of t₂ 21 vaddr

pub write-ne : (mem : Memory) (a w b : ℕ) → a ≢ b → write mem a w b ≡ mem b
write-ne mem a w b ne = ground arith

pub IsWalk-write :
    (mem : Memory) (page_dir vaddr t₁ t₂ t₃ e w : ℕ)
    → IsWalk mem page_dir vaddr t₁ t₂ t₃ e
    → IsWalk (write mem e w) page_dir vaddr t₁ t₂ t₃ e
IsWalk-write mem page_dir vaddr t₁ t₂ t₃ e w k =
    let a = write-ne mem e w (entry_of page_dir 39 vaddr) k.apart_1 in
    let b = write-ne mem e w (entry_of t₁ 30 vaddr) k.apart_2 in
    let c = write-ne mem e w (entry_of t₂ 21 vaddr) k.apart_3 in
    record {
      present_1 = rw a k.present_1;
      table_1 = rw a k.table_1;
      present_2 = rw b k.present_2;
      table_2 = rw b k.table_2;
      present_3 = rw c k.present_3;
      table_3 = rw c k.table_3;
      entry = k.entry;
      apart_1 = k.apart_1;
      apart_2 = k.apart_2;
      apart_3 = k.apart_3;
    }

pub next_table-present :
    (create : Bool) (e : ℕ) (m : Machine)
    → is_present (m.mem e) ≡ true
    → next_table create e m ≡ (some (table_of (m.mem e)), m)
unfolding next_table
next_table-present create e m h = rw h refl

-- Where the tables are there, the walk finds the entry and changes nothing, with or without `create`.
pub get_pte_walk :
    (create : Bool) (page_dir vaddr t₁ t₂ t₃ e : ℕ) (m : Machine)
    → IsWalk m.mem page_dir vaddr t₁ t₂ t₃ e
    → vmm_get_pte create page_dir vaddr m ≡ (some e, m)
unfolding vmm_get_pte
get_pte_walk create page_dir vaddr t₁ t₂ t₃ e m k =
    rw
      (
        vmm_get_pte,
        next_table-present create (entry_of page_dir 39 vaddr) m k.present_1,
        k.table_1,
        next_table-present create (entry_of t₁ 30 vaddr) m k.present_2,
        k.table_2,
        next_table-present create (entry_of t₂ 21 vaddr) m k.present_3,
        k.table_3,
        k.entry,
      )
      refl

flag_lt : (b : Bool) → (if b then 1 else 0) < 2
flag_lt true = omega arith
flag_lt false = omega arith

flag_not_lt : (b : Bool) → (if b then 0 else 1) < 2
flag_not_lt true = omega arith
flag_not_lt false = omega arith

-- A field that is set reads back, and the others that matter here stay.
address_set :
    (v e : ℕ)
    → (field 0 1 (set_field 12 40 v e) ≡ field 0 1 e)
      × (field 1 1 (set_field 12 40 v e) ≡ field 1 1 e)
      × (field 12 40 (set_field 12 40 v e) ≡ v % 2 ^ 40)
      × (field 63 1 (set_field 12 40 v e) ≡ field 63 1 e)
address_set v e = (omega arith, omega arith, omega arith, omega arith)

no_execute_set :
    (v e : ℕ)
    → v < 2
    → (field 0 1 (set_field 63 1 v e) ≡ field 0 1 e)
      × (field 1 1 (set_field 63 1 v e) ≡ field 1 1 e)
      × (field 63 1 (set_field 63 1 v e) ≡ v)
no_execute_set v e h = (omega arith, omega arith, omega arith)

user_set :
    (v e : ℕ)
    → (field 0 1 (set_field 2 1 v e) ≡ field 0 1 e) × (field 1 1 (set_field 2 1 v e) ≡ field 1 1 e)
user_set v e = (omega arith, omega arith)

writable_set :
    (v e : ℕ)
    → v < 2
    → (field 0 1 (set_field 1 1 v e) ≡ field 0 1 e) × (field 1 1 (set_field 1 1 v e) ≡ v)
writable_set v e h = (omega arith, omega arith)

present_set : (e : ℕ) → field 0 1 (set_field 0 1 1 e) ≡ 1
present_set e = omega arith

pub mapped_entry-fields :
    (paddr prot e : ℕ)
    → let w = mapped_entry paddr prot e in
      (is_present w ≡ true)
      × (field 12 40 w ≡ paddr / 4096 % 2 ^ 40)
      × (field 1 1 w ≡ (if has prot prot_write then 1 else 0))
      × (field 63 1 w ≡ (if has prot prot_exec then 0 else 1))
unfolding mapped_entry
mapped_entry-fields paddr prot e =
    let w : ℕ = if has prot prot_write then 1 else 0 in
    let x : ℕ = if has prot prot_exec then 0 else 1 in
    let e₁ : ℕ = set_field 0 1 1 e in
    let e₂ : ℕ = set_field 1 1 w e₁ in
    let e₃ : ℕ = set_field 2 1 1 e₂ in
    let e₄ : ℕ = set_field 63 1 x e₃ in
    let b = writable_set w e₁ (flag_lt (has prot prot_write)) in
    let c = user_set 1 e₂ in
    let d = no_execute_set x e₃ (flag_not_lt (has prot prot_exec)) in
    let f = address_set (paddr / 4096) e₄ in
    let p = f.0 ∙ d.0 ∙ c.0 ∙ b.0 ∙ present_set e in
    ((==_iff _ 1).1 p, f.2, f.1 ∙ d.1 ∙ c.1 ∙ b.1, f.3 ∙ d.2)

-- Where the tables for an address are there: after a page is mapped, the same walk finds its entry,
-- which is present, names that page and carries the protection; no other word of memory changes.
pub map_page_translates :
    (page_dir vaddr paddr prot t₁ t₂ t₃ e : ℕ) (m : Machine)
    → IsWalk m.mem page_dir vaddr t₁ t₂ t₃ e
    → let (ok, m') = vmm_map_page_ctx page_dir vaddr paddr prot m in
      (ok ≡ true)
      × (vmm_get_pte false page_dir vaddr m' ≡ (some e, m'))
      × (is_present (m'.mem e) ≡ true)
      × (field 12 40 (m'.mem e) ≡ paddr / 4096 % 2 ^ 40)
      × (field 1 1 (m'.mem e) ≡ (if has prot prot_write then 1 else 0))
      × (field 63 1 (m'.mem e) ≡ (if has prot prot_exec then 0 else 1))
      × ((a : ℕ) → e ≢ a → m'.mem a ≡ m.mem a)
unfolding vmm_map_page_ctx
map_page_translates page_dir vaddr paddr prot t₁ t₂ t₃ e m k =
    let w : ℕ = mapped_entry paddr prot (m.mem e) in
    let m' : Machine = record m { mem = write m.mem e w } in
    let f = mapped_entry-fields paddr prot (m.mem e) in
    let g =
      get_pte_walk false page_dir vaddr t₁ t₂ t₃ e m'
        (IsWalk-write m.mem page_dir vaddr t₁ t₂ t₃ e w k) in
    let s : write m.mem e w e ≡ w = ground arith in
    rw (vmm_map_page_ctx, get_pte_walk true page_dir vaddr t₁ t₂ t₃ e m k)
      (refl, g, rw s f.0, rw s f.1, rw s f.2, rw s f.3, λ a ne. write-ne m.mem e w a ne)

-- Where the tables for an address are there: after a page at an aligned address below 2 ^ 52 is
-- mapped and unmapped, the entry is zero, the page is given to `pmm_free_pages`, and no other
-- word of memory changes.
pub unmap_page-map_page :
    (page_dir vaddr paddr prot t₁ t₂ t₃ e : ℕ) (m : Machine)
    → IsWalk m.mem page_dir vaddr t₁ t₂ t₃ e
    → paddr % 4096 ≡ 0
    → paddr < 2 ^ 52
    → let m' = vmm_unmap_page_ctx page_dir vaddr (vmm_map_page_ctx page_dir vaddr paddr prot m).1 in
      (m'.mem e ≡ 0) × (m'.pmm ≡ free_pages m.pmm paddr 1) × ((a : ℕ) → e ≢ a → m'.mem a ≡ m.mem a)
unfolding vmm_map_page_ctx vmm_unmap_page_ctx
unmap_page-map_page page_dir vaddr paddr prot t₁ t₂ t₃ e m k al h =
    let w : ℕ = mapped_entry paddr prot (m.mem e) in
    let m' : Machine = record m { mem = write m.mem e w } in
    let f = mapped_entry-fields paddr prot (m.mem e) in
    let g =
      get_pte_walk false page_dir vaddr t₁ t₂ t₃ e m'
        (IsWalk-write m.mem page_dir vaddr t₁ t₂ t₃ e w k) in
    let s : write m.mem e w e ≡ w = ground arith in
    let p : is_present (write m.mem e w e) ≡ true = rw s f.0 in
    let q : field 12 40 (write m.mem e w e) * 4096 ≡ paddr = rw (s, f.1) (omega arith) in
    rw
      (
        vmm_map_page_ctx,
        get_pte_walk true page_dir vaddr t₁ t₂ t₃ e m k,
        vmm_unmap_page_ctx,
        g,
        p,
        q,
      )
      (ground arith, refl, λ a ne. ground arith)
