-- ===== src/Pmm/Alloc.antt =====
-- `pmm_alloc_pages`: what each branch returns and leaves behind.
use base_kernel.Base.{
  ℕ, ◌+◌, ◌*◌, ◌/◌, ◌≤◌, ◌<◌, ◌^◌, ◌≡◌, ◌≢◌, refl, inl, inr, Bool, true, false, not, ltb, ◌==◌,
  ◌&&◌, if◌then◌else◌, Bool-cases, arith, List, [], ◌∷◌, length, All, add64,
}
use base_kernel.Bitmap.{get_bit}
use base_kernel.Bitmap.Laws.{IsBytes, get_bit-set_bit}
use base_kernel.Bitmap.Range.{in_range, get_bit-set_range}
use base_kernel.Pmm.{
  Pmm, page_size, page_addr, page_cache_size, get_free_pages, low_memory_threshold, search,
  cache_neighbor, take_cached, alloc_failed, mark_block, alloc_bitmap, alloc_single, alloc_pages,
}
use base_kernel.Pmm.Scan.{IsFreeRun, search_sound}

-- The bitmap covers all pages, and what waits in the cache are addresses of such pages.
pub record IsValid (p : Pmm) : Type 0 where
  pub bytes : IsBytes p.bitmap
  pub room : p.total_pages ≤ 8 * length p.bitmap
  pub small : p.total_pages < 2 ^ 32
  pub cached : All (λ a. (0 < a) × (a / page_size < p.total_pages)) p.hot
  pub hot_room : length p.hot ≤ page_cache_size

-- The cache is in play: one page is asked for, memory is not low and an address is cached.
abbrev pub UsesCache : Pmm → ℕ → Type 0
UsesCache p num = (num ≡ 1) × (ltb (get_free_pages p) low_memory_threshold ≡ false) × (p.hot ≢ [])

-- What a call for `num` pages returns (`r.0`) and leaves behind (`r.1`).
pub data Outcome (p : Pmm) (num : ℕ) (r : ℕ × Pmm) : Type 0 where
  refused :
      r.0 ≡ 0
      → r.1.bitmap ≡ p.bitmap
      → r.1.used_pages ≡ p.used_pages
      → r.1.hot ≡ p.hot
      → Outcome p num r
  reused :
      (rest : List ℕ)
      → num ≡ 1
      → p.hot ≡ r.0 ∷ rest
      → r.1.hot ≡ rest
      → ((j : ℕ)
          → get_bit r.1.bitmap j ≡ (if r.0 / page_size == j then true else get_bit p.bitmap j))
      → r.1.used_pages ≡ add64 p.used_pages 1
      → Outcome p num r
  fresh :
      (start : ℕ)
      → r.0 ≡ start * page_size
      → 0 < start
      → start + num ≤ p.total_pages
      → IsFreeRun p.bitmap start num
      → ((j : ℕ)
          → get_bit r.1.bitmap j ≡ (if in_range start num j then true else get_bit p.bitmap j))
      → r.1.used_pages ≡ add64 p.used_pages num
      → Outcome p num r

bitmap-cache_neighbor : (p : Pmm) (lo : ℕ) → (cache_neighbor p lo).bitmap ≡ p.bitmap
unfolding cache_neighbor
bitmap-cache_neighbor p lo = ground arith

used-cache_neighbor : (p : Pmm) (lo : ℕ) → (cache_neighbor p lo).used_pages ≡ p.used_pages
unfolding cache_neighbor
used-cache_neighbor p lo = ground arith

pub total-cache_neighbor : (p : Pmm) (lo : ℕ) → (cache_neighbor p lo).total_pages ≡ p.total_pages
unfolding cache_neighbor
total-cache_neighbor p lo = ground arith

pub page_addr-small : (i : ℕ) → i < 2 ^ 32 → page_addr i ≡ i * page_size
page_addr-small i h = omega arith

alloc_bitmap-Outcome :
    (p : Pmm) (num : ℕ) (low : Bool) → IsValid p → 0 < num → Outcome p num (alloc_bitmap p num low)
unfolding alloc_bitmap alloc_failed mark_block
alloc_bitmap-Outcome p num low v h = elim (Bool-cases (search p.bitmap num p.total_pages == 0)) [
  | inl z ↦ rw z (refused refl refl refl refl)
  | inr nz ↦
      let best : ℕ = search p.bitmap num p.total_pages in
      let found = search_sound p.bitmap num p.total_pages h (ground arith) in
      rw nz (
        fresh best (page_addr-small best (omega (arith, v.small, found.0))) (ground arith) found.0
          found.1
          (λ j. elim (Bool-cases (not low && num == 1)) [
            | inl c ↦
                rw (c, bitmap-cache_neighbor)
                  (get_bit-set_range best num p.bitmap j v.bytes (omega (arith, v.room, found.0)))
            | inr c ↦
                rw c
                  (get_bit-set_range best num p.bitmap j v.bytes (omega (arith, v.room, found.0)))
          ])
          (elim (Bool-cases (not low && num == 1)) [
            | inl c ↦ rw (c, used-cache_neighbor) refl
            | inr c ↦ rw c refl
          ]))
]

alloc_single-Outcome :
    (p : Pmm) (low : Bool) (hot : List ℕ)
    → IsValid p
    → p.hot ≡ hot
    → Outcome p 1 (alloc_single p low hot)
unfolding alloc_single take_cached
alloc_single-Outcome p low [] v e = alloc_bitmap-Outcome p 1 low v (omega arith)
alloc_single-Outcome p true (a ∷ rest) v e = alloc_bitmap-Outcome p 1 true v (omega arith)
alloc_single-Outcome p false (a ∷ rest) v e =
    let c = rw e at v.cached in
    reused rest refl e refl
      (λ j. get_bit-set_bit p.bitmap (a / page_size) j v.bytes (omega (arith, v.room, c.0))) refl

-- Counting the request changes nothing that an outcome speaks of.
abbrev pub counted : Pmm → Pmm
counted p = record p { alloc_requests = add64 p.alloc_requests 1 }

pub counted-IsValid : (p : Pmm) → IsValid p → IsValid (counted p)
counted-IsValid p v = record {
  bytes = v.bytes;
  room = v.room;
  small = v.small;
  cached = v.cached;
  hot_room = v.hot_room;
}

Outcome-counted : (p : Pmm) (num : ℕ) (r : ℕ × Pmm) → Outcome (counted p) num r → Outcome p num r
Outcome-counted p num r (refused a b c d) = refused a b c d
Outcome-counted p num r (reused rest a b c d e) = reused rest a b c d e
Outcome-counted p num r (fresh s a b c d e f) = fresh s a b c d e f

-- In a valid state, each call refuses and changes no page, hands out the newest cached page and
-- marks it, or hands out and marks a block of free pages inside the managed range that is not
-- page 0.
pub alloc_pages-Outcome : (p : Pmm) (num : ℕ) → IsValid p → Outcome p num (alloc_pages p num)
unfolding alloc_pages alloc_failed
alloc_pages-Outcome p num v = Outcome-counted p num _ (elim (Bool-cases (num == 0)) [
  | inl z ↦ rw z (refused refl refl refl refl)
  | inr z ↦ elim (Bool-cases (ltb 1024 num)) [
    | inl big ↦ rw (z, big) (refused refl refl refl refl)
    | inr ok ↦ elim (Bool-cases (num == 1)) [
      | inl one ↦
          let e : num ≡ 1 = ground arith in
          rw (z, ok, one, e) (alloc_single-Outcome (counted p) _ p.hot (counted-IsValid p v) refl)
      | inr many ↦
          rw (z, ok, many)
            (alloc_bitmap-Outcome (counted p) num _ (counted-IsValid p v) (ground arith))
    ]
  ]
])
