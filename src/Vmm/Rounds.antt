-- ===== src/Vmm/Rounds.antt =====
-- The number of rounds of the loop that unmaps a range.
use base_kernel.Base.{
  ℕ, zero, suc, ◌+◌, ◌-◌, ◌/◌, ◌^◌, ◌≤◌, ◌≡◌, refl, Bool-cases, inl, inr, ltb, arith, add64, false,
}
use base_kernel.Pmm.{page_size}
use base_kernel.Vmm.{Machine, unmap_from, unmap_range, vmm_unmap_page_ctx}

rounds_agree :
    (n k page_dir page end : ℕ) (m : Machine)
    → end + 4096 ≤ 2 ^ 64
    → (end - page) / 4096 + 1 ≤ n
    → (end - page) / 4096 + 1 ≤ k
    → unmap_from n page_dir page end m ≡ unmap_from k page_dir page end m
unfolding unmap_from
rounds_agree zero k page_dir page end m h a b = absurd (omega arith)
rounds_agree (suc n) zero page_dir page end m h a b = absurd (omega arith)
rounds_agree (suc n) (suc k) page_dir page end m h a b = elim (Bool-cases (ltb page end)) [
  | inl more ↦ elim (Bool-cases (ltb (page + 4096) end)) [
    | inl again ↦ rw more (
        rounds_agree n k page_dir (add64 page page_size) end (vmm_unmap_page_ctx page_dir page m) h
          (ground arith) (ground arith))
    | inr last ↦ rw more (ends n k (ground arith))
  ]
  | inr done ↦ rw done refl
]
  where
    ends :
        (n k : ℕ)
        → ltb (add64 page page_size) end ≡ false
        → unmap_from n page_dir (add64 page page_size) end (vmm_unmap_page_ctx page_dir page m)
          ≡ unmap_from k page_dir (add64 page page_size) end (vmm_unmap_page_ctx page_dir page m)
    ends zero zero e = refl
    ends zero (suc k) e = rw e refl
    ends (suc n) zero e = rw e refl
    ends (suc n) (suc k) e = rw e refl

-- More rounds than the model takes change nothing, for a range that ends at least a page before
-- the end of the address space.
pub unmap_range_enough :
    (n page_dir start end : ℕ) (m : Machine)
    → end + 4096 ≤ 2 ^ 64
    → (end - start) / 4096 + 1 ≤ n
    → unmap_from n page_dir start end m ≡ unmap_range page_dir start end m
unfolding unmap_range
unmap_range_enough n page_dir start end m h a =
    rounds_agree n ((end - start) / 4096 + 1) page_dir start end m h a (omega arith)
