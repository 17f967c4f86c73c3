-- ===== src/Pmm/Free.antt =====
-- `pmm_free_pages`, and how it undoes an allocation.
use base_kernel.Base.{
  ℕ, zero, suc, ◌+◌, ◌/◌, ◌≤◌, ◌<◌, ◌≡◌, refl, inl, inr, true, false, ltb, leb, ◌==◌, ◌&&◌, ◌||◌,
  ◌⊎◌, if◌then◌else◌, Bool-cases, arith, length, sub64,
}
use base_kernel.Bitmap.{Bitmap, get_bit}
use base_kernel.Bitmap.Range.{in_range, get_bit-clear_range}
use base_kernel.Pmm.{
  Pmm, page_size, page_cache_size, all_allocated, should_cache, free_bitmap, free_pages,
}
use base_kernel.Pmm.Alloc.{IsValid}

-- The check for a double free passes exactly on runs of pages in use.
all_allocated_sound :
    (bm : Bitmap) (s n : ℕ)
    → all_allocated bm s n ≡ true
    → (j : ℕ) → s ≤ j
    → j < s + n
    → get_bit bm j ≡ true
unfolding all_allocated
all_allocated_sound bm s zero h j a b = absurd (omega arith)
all_allocated_sound bm s (suc n) h j a b = elim (Bool-cases (s == j)) [
  | inl e ↦ ground arith
  | inr e ↦ all_allocated_sound bm (s + 1) n (ground arith) j (ground arith) (omega arith)
]

pub all_allocated_complete :
    (bm : Bitmap) (s n : ℕ)
    → ((j : ℕ) → s ≤ j → j < s + n → get_bit bm j ≡ true)
    → all_allocated bm s n ≡ true
unfolding all_allocated
all_allocated_complete bm s zero h = refl
all_allocated_complete bm s (suc n) h =
    rw
      (
        h s (omega arith) (omega arith),
        all_allocated_complete bm (s + 1) n (λ j a b. h j (omega arith) (omega arith)),
      )
      refl

all_allocated_fails :
    (bm : Bitmap) (s n j : ℕ)
    → s ≤ j
    → j < s + n
    → get_bit bm j ≡ false
    → all_allocated bm s n ≡ false
all_allocated_fails bm s n j a b f = elim (Bool-cases (all_allocated bm s n)) [
  | inl e ↦ absurd (ground (arith, all_allocated_sound bm s n e j a b))
  | inr e ↦ e
]

-- A free of a run in which some page is not allocated, and one of an address behind the managed
-- pages, changes nothing.
pub free_pages_rejects :
    (p : Pmm) (addr num j : ℕ)
    → (p.total_pages ≤ addr / page_size)
      ⊎ ((addr / page_size ≤ j) × (j < addr / page_size + num) × (get_bit p.bitmap j ≡ false))
    → free_pages p addr num ≡ p
unfolding free_pages
free_pages_rejects p addr num j (inl h) = ground arith
free_pages_rejects p addr num j (inr h) =
    ground (arith, all_allocated_fails p.bitmap (addr / page_size) num j h.0 h.1 h.2)

-- The free goes to the bitmap, not to the page cache.
abbrev pub FreesBits : Pmm → ℕ → Type 0
FreesBits p num = (num ≡ 1) → (should_cache p ≡ false) ⊎ (page_cache_size ≤ length p.hot)

bits_branch :
    (p : Pmm) (num : ℕ)
    → FreesBits p num
    → (num == 1 && should_cache p && ltb (length p.hot) page_cache_size) ≡ false
bits_branch p num h = elim (Bool-cases (num == 1)) [
  | inl e ↦ elim (h (ground arith)) [ inl a ↦ ground arith | inr b ↦ ground arith ]
  | inr e ↦ ground arith
]

-- In a valid state, a free of a run in use inside the managed range, not at address 0, that does
-- not go to the page cache clears exactly the bits of the run and takes the run off the count of
-- used pages.
pub free_pages_clears :
    (p : Pmm) (addr num : ℕ)
    → IsValid p
    → 0 < num
    → 0 < addr
    → addr / page_size + num ≤ p.total_pages
    → FreesBits p num
    → ((j : ℕ) → addr / page_size ≤ j → j < addr / page_size + num → get_bit p.bitmap j ≡ true)
    → ((j : ℕ)
        → get_bit (free_pages p addr num).bitmap j
          ≡ (if in_range (addr / page_size) num j then false else get_bit p.bitmap j))
      × ((free_pages p addr num).used_pages ≡ sub64 p.used_pages num)
unfolding free_pages free_bitmap
free_pages_clears p addr num v hn ha hr hb h =
    let t : (leb p.total_pages (addr / page_size)) ≡ false = ground arith in
    let z : (num == 0 || addr == 0) ≡ false = ground arith in
    rw (z, t, all_allocated_complete p.bitmap (addr / page_size) num h, bits_branch p num hb)
      (
        λ j.
            get_bit-clear_range (addr / page_size) num p.bitmap j v.bytes
              (omega (arith, v.room, hr)),
        refl,
      )
