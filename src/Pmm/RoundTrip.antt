-- ===== src/Pmm/RoundTrip.antt =====
-- `pmm_alloc_pages` followed by `pmm_free_pages`, and the way round through the page cache.
use base_kernel.Base.{
  ℕ, ◌+◌, ◌*◌, ◌/◌, ◌≤◌, ◌<◌, ◌^◌, ◌≡◌, ◌≢◌, refl, ◌∙◌, inl, inr, Bool, true, false, ltb,
  if◌then◌else◌, Bool-cases, arith, List, [], ◌∷◌,
}
use base_kernel.Bitmap.{get_bit}
use base_kernel.Bitmap.Range.{in_range}
use base_kernel.Pmm.{
  Pmm, page_size, get_free_pages, low_memory_threshold, search, free_pages, alloc_pages,
  alloc_single, take_cached, alloc_bitmap, alloc_failed, mark_block,
}
use base_kernel.Pmm.Alloc.{
  IsValid, Outcome, refused, reused, fresh, alloc_pages-Outcome, counted, total-cache_neighbor,
}
use base_kernel.Pmm.Valid.{alloc_pages-IsValid}
use base_kernel.Pmm.Free.{free_pages_clears}

total-alloc_bitmap :
    (p : Pmm) (num : ℕ) (low : Bool) → (alloc_bitmap p num low).1.total_pages ≡ p.total_pages
unfolding alloc_bitmap alloc_failed mark_block
total-alloc_bitmap p num low = ground (
  arith,
  total-cache_neighbor (mark_block p (search p.bitmap num p.total_pages) num)
      (search p.bitmap num p.total_pages + num),
)

total-alloc_single :
    (p : Pmm) (low : Bool) (hot : List ℕ) → (alloc_single p low hot).1.total_pages ≡ p.total_pages
unfolding alloc_single take_cached
total-alloc_single p low [] = total-alloc_bitmap p 1 low
total-alloc_single p low (a ∷ rest) = ground (arith, total-alloc_bitmap p 1 low)

pub total-alloc_pages : (p : Pmm) (num : ℕ) → (alloc_pages p num).1.total_pages ≡ p.total_pages
unfolding alloc_pages alloc_failed
total-alloc_pages p num =
    let low : Bool = ltb (get_free_pages (counted p)) low_memory_threshold in
    ground (arith, total-alloc_bitmap (counted p) num low, total-alloc_single (counted p) low p.hot)

div-page : (s : ℕ) → s * page_size / page_size ≡ s
div-page s = omega arith

in_range-true : (s n j : ℕ) → s ≤ j → j < s + n → in_range s n j ≡ true
in_range-true s n j a b = ground arith

-- The bits of a run that is set and then cleared.
set_clear :
    (s n j : ℕ) (b : Bool)
    → (in_range s n j ≡ true → b ≡ false)
    → (if in_range s n j then false else (if in_range s n j then true else b)) ≡ b
set_clear s n j b h = elim (Bool-cases (in_range s n j)) [
  | inl e ↦ rw (e, h e) refl
  | inr e ↦ rw e refl
]

in_range_bounds : (s n j : ℕ) → in_range s n j ≡ true → (s ≤ j) × (j < s + n)
in_range_bounds s n j h = ground arith

-- In a valid state, a block of two or more pages that is allocated and freed leaves every bit and
-- the count of used pages as they were.
pub free-alloc_pages :
    (p : Pmm) (num : ℕ)
    → IsValid p
    → 1 < num
    → p.used_pages < 2 ^ 64
    → (alloc_pages p num).0 ≢ 0
    → let (a, q) = alloc_pages p num in
      ((j : ℕ) → get_bit (free_pages q a num).bitmap j ≡ get_bit p.bitmap j)
      × ((free_pages q a num).used_pages ≡ p.used_pages)
free-alloc_pages p num v h hu nz = go (alloc_pages-Outcome p num v)
  where
    q : Pmm
    q = (alloc_pages p num).1

    a : ℕ
    a = (alloc_pages p num).0

    go :
        Outcome p num (alloc_pages p num)
        → ((j : ℕ) → get_bit (free_pages q a num).bitmap j ≡ get_bit p.bitmap j)
          × ((free_pages q a num).used_pages ≡ p.used_pages)
    go (refused e b c d) = absurd (nz e)
    go (reused rest e b c d f) = absurd (omega arith)
    go (fresh s e pos fits run bits used) =
        let ds : a / page_size ≡ s = omega (arith, e) in
        let cleared =
          free_pages_clears q a num (alloc_pages-IsValid p num v) (omega arith) (omega (arith, e))
            (omega (arith, e, total-alloc_pages p num)) (λ one. absurd (omega arith))
            (λ j lo hi.
              bits j ∙ rw (in_range-true s num j (omega (arith, ds)) (omega (arith, ds))) refl) in
        (
          λ j.
              cleared.0 j
              ∙ rw (ds, bits j)
                  (set_clear s num j (get_bit p.bitmap j)
                    (λ r. run j (in_range_bounds s num j r).0 (in_range_bounds s num j r).1)),
          cleared.1 ∙ rw used (omega (arith, v.small)),
        )
