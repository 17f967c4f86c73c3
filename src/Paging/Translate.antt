-- ===== src/Paging/Translate.antt =====
-- What a page translates to after it has been mapped or unmapped.
use base_kernel.Base.{
  ℕ, ◌+◌, ◌/◌, ◌%◌, ◌<◌, ◌≡◌, refl, ap, ◌∙◌, Bool, true, false, some, if◌then◌else◌, bit_or, arith,
  ==_iff, Bool-cases, inl, inr,
}
use base_kernel.Base.Masks.{or_page, or_one_odd}
use base_kernel.Vmm.{Memory, Machine, is_present, table_of, entry_of, field, write}
use base_kernel.Vmm.Walk.{IsWalk, IsWalk-write, write-ne, next_table-present}
use base_kernel.Paging.{
  walk, align_down, vmm_map_page, vmm_unmap_page, is_large, paging_get_physical_address,
}

entry_aligned :
    (t v : ℕ)
    → (entry_of t 39 (align_down v) ≡ entry_of t 39 v)
      × (entry_of t 30 (align_down v) ≡ entry_of t 30 v)
      × (entry_of t 21 (align_down v) ≡ entry_of t 21 v)
      × (entry_of t 12 (align_down v) ≡ entry_of t 12 v)
entry_aligned t v = (omega arith, omega arith, omega arith, omega arith)

mapped_fields :
    (p flags : ℕ)
    → flags < 4096
    → let w = bit_or (bit_or (align_down p) flags) 1 in
      (is_present w ≡ true) × (table_of w ≡ align_down p)
mapped_fields p flags h =
    let w : ℕ = bit_or (bit_or (align_down p) flags) 1 in
    let odd : w % 2 ≡ 1 = or_one_odd _ in
    let high : w / 4096 ≡ align_down p / 4096 = or_page _ 1 (omega arith) ∙ or_page _ flags h in
    let low : field 0 1 w ≡ 1 = omega arith in ((==_iff _ 1).1 low, omega arith)

walk_found :
    (create : Bool) (pml4 v t₁ t₂ t₃ e : ℕ) (m : Machine)
    → IsWalk m.mem pml4 v t₁ t₂ t₃ e
    → walk create pml4 (align_down v) m ≡ (some e, m)
walk_found create pml4 v t₁ t₂ t₃ e m k =
    rw
      (
        (entry_aligned pml4 v).0,
        next_table-present create (entry_of pml4 39 v) m k.present_1,
        k.table_1,
        (entry_aligned t₁ v).1,
        next_table-present create (entry_of t₁ 30 v) m k.present_2,
        k.table_2,
        (entry_aligned t₂ v).2,
        next_table-present create (entry_of t₂ 21 v) m k.present_3,
        k.table_3,
        (entry_aligned t₃ v).3,
        k.entry,
      )
      refl

-- No table on the way to `v` is a large page.
unfoldable pub IsSmall : Memory → ℕ → ℕ → ℕ → Type 0
IsSmall mem v t₁ t₂ =
    (is_large (mem (entry_of t₁ 30 v)) ≡ false) × (is_large (mem (entry_of t₂ 21 v)) ≡ false)

translate_walk :
    (pml4 v t₁ t₂ t₃ e : ℕ) (mem : Memory)
    → IsWalk mem pml4 v t₁ t₂ t₃ e
    → IsSmall mem v t₁ t₂
    → paging_get_physical_address pml4 mem v
      ≡ (if is_present (mem e) then table_of (mem e) + v % 4096 else 0)
unfolding paging_get_physical_address IsSmall
translate_walk pml4 v t₁ t₂ t₃ e mem k s =
    rw
      (
        paging_get_physical_address, k.table_1, k.table_2, k.table_3, k.entry, k.present_1,
        k.present_2, k.present_3, s.0, s.1,
      )
      (elim (Bool-cases (is_present (mem e))) [ inl p ↦ rw p refl | inr p ↦ rw p refl ])

IsSmall-write :
    (mem : Memory) (pml4 v t₁ t₂ t₃ e w : ℕ)
    → IsWalk mem pml4 v t₁ t₂ t₃ e
    → IsSmall mem v t₁ t₂
    → IsSmall (write mem e w) v t₁ t₂
unfolding IsSmall
IsSmall-write mem pml4 v t₁ t₂ t₃ e w k s =
    let b = write-ne mem e w (entry_of t₁ 30 v) k.apart_2 in
    let c = write-ne mem e w (entry_of t₂ 21 v) k.apart_3 in (rw b s.0, rw c s.1)

-- Where the tables for an address are there and none of them is a large page: after its page is
-- mapped with flags below 4096, it translates to the address
-- with the same offset in the physical page; and after it is unmapped again, to 0.
pub physical_address-map_page :
    (pml4 v physical flags t₁ t₂ t₃ e : ℕ) (m : Machine)
    → IsWalk m.mem pml4 v t₁ t₂ t₃ e
    → IsSmall m.mem v t₁ t₂
    → flags < 4096
    → let (ok, m₁) = vmm_map_page pml4 v physical flags m in
      let (ok', m₂) = vmm_unmap_page pml4 v m₁ in
      (ok ≡ true)
      × (paging_get_physical_address pml4 m₁.mem v ≡ align_down physical + v % 4096)
      × (ok' ≡ true)
      × (paging_get_physical_address pml4 m₂.mem v ≡ 0)
unfolding vmm_map_page vmm_unmap_page
physical_address-map_page pml4 v physical flags t₁ t₂ t₃ e m k s h =
    let w : ℕ = bit_or (bit_or (align_down physical) flags) 1 in
    let f = mapped_fields physical flags h in
    let m₁ : Machine = record m { mem = write m.mem e w } in
    let k₁ = IsWalk-write m.mem pml4 v t₁ t₂ t₃ e w k in
    let s₁ = IsSmall-write m.mem pml4 v t₁ t₂ t₃ e w k s in
    let k₂ = IsWalk-write m₁.mem pml4 v t₁ t₂ t₃ e 0 k₁ in
    let s₂ = IsSmall-write m₁.mem pml4 v t₁ t₂ t₃ e 0 k₁ s₁ in
    let here : write m.mem e w e ≡ w = ground arith in
    let gone : write m₁.mem e 0 e ≡ 0 = ground arith in
    let p : is_present (write m.mem e w e) ≡ true = rw here f.0 in
    let a = translate_walk pml4 v t₁ t₂ t₃ e m₁.mem k₁ s₁ in
    let b = translate_walk pml4 v t₁ t₂ t₃ e (write m₁.mem e 0) k₂ s₂ in
    rw
      (
        vmm_map_page,
        walk_found true pml4 v t₁ t₂ t₃ e m k,
        vmm_unmap_page,
        walk_found false pml4 v t₁ t₂ t₃ e m₁ k₁,
      )
      (rw p (refl, a ∙ rw (p, here) (ap (λ x. x + v % 4096) f.1), refl, b ∙ rw gone refl))
