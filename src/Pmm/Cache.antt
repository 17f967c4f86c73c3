-- ===== src/Pmm/Cache.antt =====
-- The page cache of pmm.c, and when an allocation fails.
use base_kernel.Base.{
  ℕ, ◌+◌, ◌-◌, ◌*◌, ◌/◌, ◌≤◌, ◌<◌, ◌^◌, ◌≡◌, refl, ap, inl, inr, Bool, true, false, ltb, ◌==◌,
  Bool-cases, arith, List, [], ◌∷◌, length, add64,
}
use base_kernel.Bitmap.{get_bit}
use base_kernel.Pmm.{
  Pmm, page_size, page_cache_size, get_free_pages, low_memory_threshold, search, all_allocated,
  should_cache, free_pages, alloc_pages, alloc_single, take_cached, alloc_bitmap, alloc_failed,
}
use base_kernel.Pmm.Scan.{HasUsed, search_sound, search_complete}
use base_kernel.Pmm.Alloc.{IsValid, counted, counted-IsValid}

-- Memory is so plentiful that a freed page is cached.
abbrev pub IsPlentiful : Pmm → Type 0
IsPlentiful p =
    (p.used_pages ≤ p.total_pages)
    × (p.total_pages < 2 ^ 32)
    × (low_memory_threshold * 2 < p.total_pages - p.used_pages)

free_cached :
    (p : Pmm) (addr : ℕ)
    → IsPlentiful p
    → length p.hot < page_cache_size
    → 0 < addr
    → addr / page_size < p.total_pages
    → get_bit p.bitmap (addr / page_size) ≡ true
    → free_pages p addr 1 ≡ record p { hot = addr ∷ p.hot; pages_freed = add64 p.pages_freed 1 }
unfolding free_pages should_cache get_free_pages all_allocated
free_cached p addr m room ha hr b = ground arith

alloc_cached :
    (p : Pmm) (addr : ℕ) (rest : List ℕ)
    → (p.used_pages ≤ p.total_pages) × (p.total_pages < 2 ^ 32)
    → low_memory_threshold ≤ p.total_pages - p.used_pages
    → p.hot ≡ addr ∷ rest
    → alloc_pages p 1 ≡ (addr, take_cached (counted p) addr rest)
unfolding alloc_pages get_free_pages alloc_single
alloc_cached p addr rest m low e = rw (e, alloc_single) (ground arith)

-- With plenty of memory and two places left in the page cache, a page that is freed twice is
-- accepted twice, and the next two allocations of one page return the same address.
pub double_free_shares :
    (p : Pmm) (addr : ℕ)
    → IsPlentiful p
    → length p.hot + 1 < page_cache_size
    → 0 < addr
    → addr / page_size < p.total_pages
    → get_bit p.bitmap (addr / page_size) ≡ true
    → let q = free_pages (free_pages p addr 1) addr 1 in
      let (a, r) = alloc_pages q 1 in (a ≡ addr) × ((alloc_pages r 1).0 ≡ addr)
unfolding take_cached
double_free_shares p addr m room ha hr b =
    let p' : Pmm = record p { hot = addr ∷ p.hot; pages_freed = add64 p.pages_freed 1 } in
    let q : Pmm = record p' { hot = addr ∷ p'.hot; pages_freed = add64 p'.pages_freed 1 } in
    let r : Pmm = take_cached (counted q) addr (addr ∷ p.hot) in
    let e : free_pages (free_pages p addr 1) addr 1 ≡ q =
      rw (free_cached p addr m (omega arith) ha hr b)
        (free_cached p' addr m (omega arith) ha hr b) in
    let again : alloc_pages r 1 ≡ (addr, take_cached (counted r) addr p.hot) =
      alloc_cached r addr p.hot (omega arith) (omega arith) refl in
    rw (e, alloc_cached q addr (addr ∷ p.hot) (m.0, m.1) (omega arith) refl)
      (refl, ap (λ (x : ℕ × Pmm). x.0) again)

bitmap_none :
    (p : Pmm) (num : ℕ) (low : Bool)
    → IsValid p
    → 0 < num
    → (alloc_bitmap p num low).0 ≡ 0
    → search p.bitmap num p.total_pages ≡ 0
unfolding alloc_bitmap alloc_failed
bitmap_none p num low v h e = elim (Bool-cases (search p.bitmap num p.total_pages == 0)) [
  | inl z ↦ ground arith
  | inr nz ↦
      let found = search_sound p.bitmap num p.total_pages h (ground arith) in
      let zero_addr = rw nz at e in absurd (ground (arith, found.0, v.small))
]

single_none :
    (p : Pmm) (low : Bool) (hot : List ℕ)
    → IsValid p
    → p.hot ≡ hot
    → (alloc_single p low hot).0 ≡ 0
    → search p.bitmap 1 p.total_pages ≡ 0
unfolding alloc_single
single_none p low [] v eq e = bitmap_none p 1 low v (omega arith) e
single_none p true (a ∷ rest) v eq e = bitmap_none p 1 true v (omega arith) e
single_none p false (a ∷ rest) v eq e = let c = rw eq at v.cached in absurd (omega (arith, c.0))

none_found :
    (p : Pmm) (num : ℕ)
    → IsValid p
    → 0 < num
    → num ≤ 1024
    → (alloc_pages p num).0 ≡ 0
    → search p.bitmap num p.total_pages ≡ 0
unfolding alloc_pages
none_found p num v h big e =
    let low : Bool = ltb (get_free_pages (counted p)) low_memory_threshold in
    elim (Bool-cases (num == 1)) [
      | inl one ↦
          let o : num ≡ 1 = ground arith in
          rw o (single_none (counted p) low p.hot (counted-IsValid p v) refl (ground arith))
      | inr many ↦ bitmap_none (counted p) num low (counted-IsValid p v) h (ground arith)
    ]

-- In a valid state, an allocation of 1 to 1024 pages that returns 0 has found a page in use in
-- each block of that size behind the first `num` pages.
pub alloc_pages_complete :
    (p : Pmm) (num : ℕ)
    → IsValid p
    → 0 < num
    → num ≤ 1024
    → (alloc_pages p num).0 ≡ 0
    → (w : ℕ) → num ≤ w
    → w + num ≤ p.total_pages
    → HasUsed p.bitmap w num
alloc_pages_complete p num v h big e =
    search_complete p.bitmap num p.total_pages h (none_found p num v h big e)
