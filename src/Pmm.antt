-- ===== src/Pmm.antt =====
-- kernel/memory/pmm.c: the allocator of physical pages over a bitmap, with a cache of single pages.
-- The counters are `size_t`. `hot` holds the entries of `pf_cache_hot[0]` in use, the last one
-- first, so that `pf_cache_hot_count[0]` is its length.
pub mod Scan
pub mod Alloc
pub mod Valid
pub mod Cache
pub mod Free
pub mod RoundTrip
pub mod Stats
mod Tests
use base_kernel.Base.{
  ℕ, zero, suc, ◌+◌, ◌-◌, ◌*◌, ◌/◌, ◌≤◌, ◌^◌, Bool, true, false, not, ◌&&◌, ◌||◌, List, [], ◌∷◌,
  Option, none, some, ltb, leb, ◌==◌, if◌then◌else◌, length, add64, sub64, mul64,
}
use base_kernel.Bitmap.{Bitmap, get_bit, set_bit, set_range, clear_range}

abbrev pub page_size : ℕ
page_size = 4096

-- 128 MB in pages
abbrev pub low_memory_threshold : ℕ
low_memory_threshold = 32768

abbrev pub page_cache_size : ℕ
page_cache_size = 8

pub record Pmm : Type 0 where
  pub bitmap : Bitmap
  pub total_pages : ℕ
  pub used_pages : ℕ
  pub hot : List ℕ
  pub alloc_requests : ℕ
  pub alloc_failures : ℕ
  pub pages_allocated : ℕ
  pub pages_freed : ℕ

pub get_free_pages : Pmm → ℕ
get_free_pages p = sub64 p.total_pages p.used_pages

abbrev pub page_addr : ℕ → ℕ
page_addr i = mul64 i page_size

-- The variables of the search loop of `pmm_alloc_pages`.
pub record Search : Type 0 where
  pub consecutive : ℕ
  pub start_page : ℕ
  pub best_start : ℕ
  pub best_size : ℕ

-- One round of the search loop, at page `i`.
pub search_step : Bitmap → ℕ → ℕ → Search → Search
search_step bm num i s =
    if get_bit bm i
    then record s { consecutive = 0 }
    else (let c = s.consecutive + 1 in
        let start = if c == 1 then i else s.start_page in
        if c == num
        then (if ltb c s.best_size || s.best_start == 0
            then record { consecutive = 0; start_page = start; best_start = start; best_size = c }
            else record s { consecutive = 0; start_page = start })
        else record s { consecutive = c; start_page = start })

-- The rounds `i`, `i + 1`, … of which `n` are left.
pub search_from : Bitmap → ℕ → ℕ → ℕ → Search → Search
search_from bm num zero i s = s
search_from bm num (suc n) i s = search_from bm num n (i + 1) (search_step bm num i s)

abbrev pub search_start : Search
search_start = record { consecutive = 0; start_page = 0; best_start = 0; best_size = 2 ^ 64 - 1 }

-- The first page of the block that the search settles on, 0 if there is none.
pub search : Bitmap → ℕ → ℕ → ℕ
search bm num total = (search_from bm num total 0 search_start).best_start

-- `for (i = …; i > lo; i--)`: the highest free page above `lo`.
pub highest_free : Bitmap → ℕ → ℕ → Option ℕ
highest_free bm lo zero = none
highest_free bm lo (suc i) =
    let rest = highest_free bm lo i in
    if ltb lo (suc i) then (if get_bit bm (suc i) then rest else some (suc i)) else none

-- Adds the highest free page behind the allocation to the hot cache, if there is room.
pub cache_neighbor : Pmm → ℕ → Pmm
cache_neighbor p lo = elim (highest_free p.bitmap lo (p.total_pages - 1)) [
  | none ↦ p
  | some i ↦
      if ltb (length p.hot) page_cache_size then record p { hot = page_addr i ∷ p.hot } else p
]

-- The cached page is popped, marked and counted.
pub take_cached : Pmm → ℕ → List ℕ → Pmm
take_cached p addr rest = record p {
  hot = rest;
  bitmap = set_bit p.bitmap (addr / page_size);
  used_pages = add64 p.used_pages 1;
  pages_allocated = add64 p.pages_allocated 1;
}

pub alloc_failed : Pmm → ℕ × Pmm
alloc_failed p = (0, record p { alloc_failures = add64 p.alloc_failures 1 })

pub mark_block : Pmm → ℕ → ℕ → Pmm
mark_block p best num = record p {
  bitmap = set_range best num p.bitmap;
  used_pages = add64 p.used_pages num;
  pages_allocated = add64 p.pages_allocated num;
}

-- The part of `pmm_alloc_pages` behind the page cache.
pub alloc_bitmap : Pmm → ℕ → Bool → ℕ × Pmm
alloc_bitmap p num low_memory =
    let best = search p.bitmap num p.total_pages in
    if best == 0
    then alloc_failed p
    else (let q = mark_block p best num in
        (page_addr best, if not low_memory && num == 1 then cache_neighbor q (best + num) else q))

pub alloc_single : Pmm → Bool → List ℕ → ℕ × Pmm
alloc_single p low_memory [] = alloc_bitmap p 1 low_memory
alloc_single p low_memory (addr ∷ rest) =
    if low_memory then alloc_bitmap p 1 low_memory else (addr, take_cached p addr rest)

pub alloc_pages : Pmm → ℕ → ℕ × Pmm
alloc_pages p₀ num =
    let p = record p₀ { alloc_requests = add64 p₀.alloc_requests 1 } in
    let low_memory = ltb (get_free_pages p) low_memory_threshold in
    if num == 0
    then (0, p)
    else if ltb 1024 num
    then alloc_failed p
    else if num == 1
    then alloc_single p low_memory p.hot
    else alloc_bitmap p num low_memory

-- `for (i = 0; i < num && all_allocated; i++)`
pub all_allocated : Bitmap → ℕ → ℕ → Bool
all_allocated bm s zero = true
all_allocated bm s (suc n) = get_bit bm s && all_allocated bm (s + 1) n

pub should_cache : Pmm → Bool
should_cache p = ltb (low_memory_threshold * 2) (get_free_pages p)

pub free_bitmap : Pmm → ℕ → ℕ → Pmm
free_bitmap p start num = record p {
  bitmap = clear_range start num p.bitmap;
  used_pages = sub64 p.used_pages num;
  pages_freed = add64 p.pages_freed num;
}

-- What `pmm_free_pages` does where it accesses no byte behind the bitmap, as for every single page.
pub free_pages : Pmm → ℕ → ℕ → Pmm
free_pages p addr num =
    let start = addr / page_size in
    if num == 0 || addr == 0
    then p
    else if leb p.total_pages start
    then p
    else if not (all_allocated p.bitmap start num)
    then p
    else if num == 1 && should_cache p && ltb (length p.hot) page_cache_size
    then record p { hot = addr ∷ p.hot; pages_freed = add64 p.pages_freed 1 }
    else free_bitmap p start num

-- Whether that loop reads behind the bitmap.
pub reads_past : Bitmap → ℕ → ℕ → Bool
reads_past bm s zero = false
reads_past bm s (suc n) =
    let rest = reads_past bm (s + 1) n in
    if leb (8 * length bm) s then true else get_bit bm s && rest

-- `pmm_free_pages` for any arguments, `none` where it accesses memory behind the bitmap.
pub pmm_free_pages : Pmm → ℕ → ℕ → Option Pmm
pmm_free_pages p addr num =
    let start = addr / page_size in
    if not (num == 0 || addr == 0) && (ltb start p.total_pages && reads_past p.bitmap start num)
    then none
    else some (free_pages p addr num)

-- The longest run of free pages, as the loop of `pmm_get_stats` counts it.
pub longest_from : Bitmap → ℕ → ℕ → ℕ → ℕ → ℕ
longest_from bm zero i current longest = longest
longest_from bm (suc n) i current longest =
    let c = if get_bit bm i then 0 else current + 1 in
    longest_from bm n (i + 1) c (if ltb longest c then c else longest)

pub longest_free : Pmm → ℕ
longest_free p = longest_from p.bitmap p.total_pages 0 0 0

pub record PmmStats : Type 0 where
  pub requests : ℕ
  pub failures : ℕ
  pub cache_hit_rate : ℕ
  pub fragmentation_ratio : ℕ

-- `total_single_allocs` is the constant 0, so the hit rate is 0.
pub get_stats : Pmm → PmmStats
get_stats p =
    let total_free = get_free_pages p in
    record {
      requests = p.alloc_requests;
      failures = p.alloc_failures;
      cache_hit_rate = 0;
      fragmentation_ratio =
          if ltb 0 total_free
          then mul64 (sub64 total_free (longest_free p)) 100 / total_free
          else 0;
    }

pub alloc_page : Pmm → ℕ × Pmm
alloc_page p = alloc_pages p 1
