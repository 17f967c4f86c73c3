-- ===== src/Pmm/Tests.antt =====
-- Tests of kernel/memory/pmm.c, and its theorems at concrete states.
use base_kernel.Base.{
  ℕ, ◌*◌, ◌≤◌, ◌<◌, ◌≡◌, ◌≢◌, refl, inl, inr, true, false, [], ◌∷◌, if◌then◌else◌, arith, sub64,
  Bool-cases, ◌==◌,
}
use base_kernel.Bitmap.{get_bit, set_bit, set_range}
use base_kernel.Bitmap.Range.{in_range}
use base_kernel.Pmm.{
  Pmm, page_size, search, search_from, search_step, alloc_bitmap, alloc_failed, mark_block,
  alloc_pages, free_pages, pmm_free_pages, longest_free, longest_from,
}
use base_kernel.Pmm.Scan.{HasUsed}
use base_kernel.Pmm.Alloc.{IsValid, Outcome, alloc_pages-Outcome}
use base_kernel.Pmm.Valid.{alloc_pages-IsValid, FreeOutcome, pmm_free_pages-FreeOutcome}
use base_kernel.Pmm.Free.{free_pages_clears}
use base_kernel.Pmm.Cache.{double_free_shares, alloc_pages_complete}
use base_kernel.Pmm.RoundTrip.{free-alloc_pages}

-- 16 pages, of which 0, 1, 2 and 6 are in use.
abbrev small : Pmm
small = record {
  bitmap = 0x47 ∷ 0 ∷ [];
  total_pages = 16;
  used_pages = 4;
  hot = [];
  alloc_requests = 0;
  alloc_failures = 0;
  pages_allocated = 0;
  pages_freed = 0;
}

-- The same, full up to page 15.
abbrev full : Pmm
full = record small { bitmap = 0xff ∷ 0x7f ∷ []; used_pages = 15 }

-- Plenty of memory; page 1 is in use.
abbrev large : Pmm
large = record small { bitmap = 2 ∷ []; total_pages = 100000; used_pages = 1 }

small-IsValid : IsValid small
small-IsValid = omega arith

full-IsValid : IsValid full
full-IsValid = omega arith

alloc_three : (alloc_pages small 3).0 ≡ 3 * page_size
unfolding alloc_pages alloc_bitmap search search_from search_step get_bit mark_block set_range
    set_bit
alloc_three = refl

alloc_none : (alloc_pages full 2).0 ≡ 0
unfolding alloc_pages alloc_bitmap search search_from search_step get_bit alloc_failed
alloc_none = refl

longest_small : longest_free small ≡ 9
unfolding longest_free longest_from get_bit
longest_small = refl

alloc_pages-Outcome_example : Outcome small 3 (alloc_pages small 3)
alloc_pages-Outcome_example = alloc_pages-Outcome small 3 small-IsValid

alloc_pages-IsValid_example : IsValid (alloc_pages small 3).1
alloc_pages-IsValid_example = alloc_pages-IsValid small 3 small-IsValid

pmm_free_pages-FreeOutcome_example : FreeOutcome small 4096 2 (pmm_free_pages small 4096 2)
pmm_free_pages-FreeOutcome_example = pmm_free_pages-FreeOutcome small 4096 2 small-IsValid

first_used : (j : ℕ) → 1 ≤ j → j < 3 → get_bit small.bitmap j ≡ true
unfolding get_bit
first_used j a b = elim (Bool-cases (j == 1)) [
  | inl e ↦ let q : j ≡ 1 = ground arith in rw q refl
  | inr e ↦ let q : j ≡ 2 = ground arith in rw q refl
]

free_pages_clears_example :
    ((j : ℕ)
      → get_bit (free_pages small 4096 2).bitmap j
        ≡ (if in_range 1 2 j then false else get_bit small.bitmap j))
    × ((free_pages small 4096 2).used_pages ≡ sub64 4 2)
free_pages_clears_example =
    free_pages_clears small 4096 2 small-IsValid (omega arith) (omega arith) (omega arith)
      (λ e. absurd (omega arith)) first_used

double_free_shares_example :
    let q = free_pages (free_pages large 4096 1) 4096 1 in
    let (a, r) = alloc_pages q 1 in (a ≡ 4096) × ((alloc_pages r 1).0 ≡ 4096)
unfolding get_bit
double_free_shares_example =
    double_free_shares large 4096 (omega arith) (omega arith) (omega arith) (omega arith) refl

alloc_pages_complete_example : HasUsed full.bitmap 14 2
alloc_pages_complete_example =
    alloc_pages_complete full 2 full-IsValid (omega arith) (omega arith) alloc_none 14 (omega arith)
      (omega arith)

alloc_three_ne : (alloc_pages small 3).0 ≢ 0
alloc_three_ne e = let q = alloc_three in omega arith

free-alloc_pages_example :
    let (a, q) = alloc_pages small 3 in
    ((j : ℕ) → get_bit (free_pages q a 3).bitmap j ≡ get_bit small.bitmap j)
    × ((free_pages q a 3).used_pages ≡ 4)
free-alloc_pages_example =
    free-alloc_pages small 3 small-IsValid (omega arith) (omega arith) alloc_three_ne
