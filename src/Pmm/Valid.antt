-- ===== src/Pmm/Valid.antt =====
-- The bitmap and the page cache behind `pmm_alloc_pages` and `pmm_free_pages`.
use base_kernel.Base.{
  ℕ, zero, suc, ◌-◌, ◌/◌, ◌≤◌, ◌<◌, ◌≡◌, refl, inl, inr, Bool, true, false, not, ltb, leb, ◌==◌,
  ◌&&◌, ◌||◌, Bool-cases, Option-cases, arith, List, [], ◌∷◌, Option, none, some, ◌+◌, ◌*◌, subst,
  length,
}
use base_kernel.Bitmap.{Bitmap, get_bit}
use base_kernel.Bitmap.Laws.{set_bit-IsBytes, length-set_bit}
use base_kernel.Bitmap.Range.{
  set_range-IsBytes, length-set_range, clear_range-IsBytes, length-clear_range,
}
use base_kernel.Pmm.{
  Pmm, page_size, page_cache_size, search, highest_free, cache_neighbor, take_cached, alloc_failed,
  mark_block, alloc_bitmap, alloc_single, alloc_pages, all_allocated, should_cache, free_bitmap,
  free_pages, reads_past, pmm_free_pages,
}
use base_kernel.Pmm.Alloc.{IsValid, counted, counted-IsValid}

highest_free-bounds :
    (bm : Bitmap) (lo n : ℕ) {i : ℕ} → highest_free bm lo n ≡ some i → (lo < i) × (i ≤ n)
unfolding highest_free
highest_free-bounds bm lo zero e = ground arith
highest_free-bounds bm lo (suc n) {i} e = ground (arith, highest_free-bounds bm lo n {i = i})

cache_neighbor-IsValid : (p : Pmm) (lo : ℕ) → IsValid p → IsValid (cache_neighbor p lo)
unfolding cache_neighbor
cache_neighbor-IsValid p lo v = elim (Option-cases (highest_free p.bitmap lo (p.total_pages - 1))) [
  | inl e ↦ rw (e, cache_neighbor) v
  | inr (i, e) ↦ elim (Bool-cases (ltb (length p.hot) page_cache_size)) [
    | inr full ↦ rw (e, cache_neighbor, full) v
    | inl has ↦
        let b = highest_free-bounds p.bitmap lo (p.total_pages - 1) {i = i} e in
        rw (e, cache_neighbor, has)
          (record {
            bytes = v.bytes;
            room = v.room;
            small = v.small;
            cached =
                ((omega (arith, b.0, b.1, v.small), omega (arith, b.0, b.1, v.small)), v.cached);
            hot_room = ground arith;
          })
  ]
]

mark_block-IsValid : (p : Pmm) (best num : ℕ) → IsValid p → IsValid (mark_block p best num)
unfolding mark_block
mark_block-IsValid p best num v = record {
  bytes = set_range-IsBytes best num p.bitmap v.bytes;
  room = omega (arith, length-set_range best num p.bitmap, v.room);
  small = v.small;
  cached = v.cached;
  hot_room = v.hot_room;
}

failed-IsValid : (p : Pmm) → IsValid p → IsValid (alloc_failed p).1
unfolding alloc_failed
failed-IsValid p v = record {
  bytes = v.bytes;
  room = v.room;
  small = v.small;
  cached = v.cached;
  hot_room = v.hot_room;
}

alloc_bitmap-IsValid :
    (p : Pmm) (num : ℕ) (low : Bool) → IsValid p → IsValid (alloc_bitmap p num low).1
unfolding alloc_bitmap
alloc_bitmap-IsValid p num low v = elim (Bool-cases (search p.bitmap num p.total_pages == 0)) [
  | inl z ↦ rw z (failed-IsValid p v)
  | inr nz ↦
      let w = mark_block-IsValid p (search p.bitmap num p.total_pages) num v in
      elim (Bool-cases (not low && num == 1)) [
        | inl c ↦ rw (nz, c) (cache_neighbor-IsValid _ _ w)
        | inr c ↦ rw (nz, c) w
      ]
]

alloc_single-IsValid :
    (p : Pmm) (low : Bool) (hot : List ℕ)
    → IsValid p
    → p.hot ≡ hot
    → IsValid (alloc_single p low hot).1
unfolding alloc_single take_cached
alloc_single-IsValid p low [] v e = alloc_bitmap-IsValid p 1 low v
alloc_single-IsValid p true (a ∷ rest) v e = alloc_bitmap-IsValid p 1 true v
alloc_single-IsValid p false (a ∷ rest) v e =
    let c = rw e at v.cached in
    let n = rw e at v.hot_room in
    record {
      bytes = set_bit-IsBytes p.bitmap (a / page_size) v.bytes;
      room = omega (arith, length-set_bit p.bitmap (a / page_size), v.room);
      small = v.small;
      cached = c.1;
      hot_room = omega arith;
    }

-- Every allocation from a valid state keeps the bitmap an array of bytes that covers all pages,
-- and the cache a list of at most eight addresses of managed pages.
pub alloc_pages-IsValid : (p : Pmm) (num : ℕ) → IsValid p → IsValid (alloc_pages p num).1
unfolding alloc_pages
alloc_pages-IsValid p num v =
    let w = counted-IsValid p v in
    elim (Bool-cases (num == 0)) [
      | inl z ↦ rw z w
      | inr z ↦ elim (Bool-cases (ltb 1024 num)) [
        | inl big ↦ rw (z, big) (failed-IsValid (counted p) w)
        | inr ok ↦ elim (Bool-cases (num == 1)) [
          | inl one ↦ rw (z, ok, one) (alloc_single-IsValid (counted p) _ p.hot w refl)
          | inr many ↦ rw (z, ok, many) (alloc_bitmap-IsValid (counted p) num _ w)
        ]
      ]
    ]

free_pages-IsValid : (p : Pmm) (addr num : ℕ) → IsValid p → IsValid (free_pages p addr num)
unfolding free_pages free_bitmap
free_pages-IsValid p addr num v = elim (Bool-cases (num == 0 || addr == 0)) [
  | inl a ↦ rw a v
  | inr a ↦ elim (Bool-cases (leb p.total_pages (addr / page_size))) [
    | inl b ↦ rw (a, b) v
    | inr b ↦ elim (Bool-cases (not (all_allocated p.bitmap (addr / page_size) num))) [
      | inl c ↦ rw (a, b, c) v
      | inr c ↦
          elim (Bool-cases (num == 1 && should_cache p && ltb (length p.hot) page_cache_size)) [
            | inl d ↦
                rw (a, b, c, d)
                  (record {
                    bytes = v.bytes;
                    room = v.room;
                    small = v.small;
                    cached = ((ground arith, ground arith), v.cached);
                    hot_room = ground arith;
                  })
            | inr d ↦
                rw (a, b, c, d)
                  (record {
                    bytes = clear_range-IsBytes (addr / page_size) num p.bitmap v.bytes;
                    room =
                        omega (arith, length-clear_range (addr / page_size) num p.bitmap, v.room);
                    small = v.small;
                    cached = v.cached;
                    hot_room = v.hot_room;
                  })
          ]
    ]
  ]
]

-- All bits from `s` to the end of the bitmap are set, and the range ends behind it.
abbrev pub IsOverrun : Bitmap → ℕ → ℕ → Type 0
IsOverrun bm s n =
    (8 * length bm < s + n) × ((j : ℕ) → s ≤ j → j < 8 * length bm → get_bit bm j ≡ true)

reads_past-IsOverrun : (bm : Bitmap) (s n : ℕ) → reads_past bm s n ≡ true → IsOverrun bm s n
unfolding reads_past
reads_past-IsOverrun bm s zero h = absurd (ground (arith, h))
reads_past-IsOverrun bm s (suc n) h = elim (Bool-cases (leb (8 * length bm) s)) [
  | inl out ↦ (ground arith, λ j a b. absurd (ground arith))
  | inr within ↦ elim (Bool-cases (get_bit bm s)) [
    | inr clear ↦ absurd (let q = rw (reads_past, within, clear) at h in ground (arith, q))
    | inl used ↦
        let r = reads_past-IsOverrun bm (s + 1) n (rw (reads_past, within, used) at h) in
        let r0 = r.0 in
        (
          omega arith,
          λ j a b. elim (Bool-cases (s == j)) [
            | inl e ↦ let q : s ≡ j = ground arith in subst (λ k. get_bit bm k ≡ true) q used
            | inr e ↦ r.1 j (ground arith) b
          ],
        )
  ]
]

-- What a call leaves: the memory behind the bitmap is accessed, or the state is valid.
abbrev pub FreeOutcome : Pmm → ℕ → ℕ → Option Pmm → Type 0
FreeOutcome p addr num none =
    (addr / page_size < p.total_pages) × IsOverrun p.bitmap (addr / page_size) num
FreeOutcome p addr num (some q) = (q ≡ free_pages p addr num) × IsValid q

-- Every call that frees pages in a valid state, whatever its arguments: it keeps the bitmap an array
-- of bytes that covers all pages, and the cache a list of at most eight addresses of managed pages;
-- or it accesses memory behind the bitmap, which it does only where the pages from the address on
-- end behind the bitmap and all of them that are in it are allocated.
pub pmm_free_pages-FreeOutcome :
    (p : Pmm) (addr num : ℕ) → IsValid p → FreeOutcome p addr num (pmm_free_pages p addr num)
unfolding pmm_free_pages
pmm_free_pages-FreeOutcome p addr num v = elim (Bool-cases (not (num == 0 || addr == 0))) [
  | inr idle ↦ rw idle (refl, free_pages-IsValid p addr num v)
  | inl asks ↦ elim (Bool-cases (ltb (addr / page_size) p.total_pages)) [
    | inr far ↦ rw (asks, far) (refl, free_pages-IsValid p addr num v)
    | inl near ↦ elim (Bool-cases (reads_past p.bitmap (addr / page_size) num)) [
      | inr ends ↦ rw (asks, near, ends) (refl, free_pages-IsValid p addr num v)
      | inl past ↦
          rw (asks, near, past)
            (ground arith, reads_past-IsOverrun p.bitmap (addr / page_size) num past)
    ]
  ]
]
