-- ===== src/Kheap/Tracked.antt =====
-- The records of tracked allocations, and sizes near the end of `size_t`.
use base_kernel.Base.{
  ℕ, ◌+◌, ◌-◌, ◌^◌, ◌≤◌, ◌<◌, ◌≡◌, ◌≢◌, refl, inl, inr, true, false, Option, none, some, ltb, not,
  ◌||◌, Bool-cases, arith, if◌then◌else◌, ◌==◌, add64,
}
use base_kernel.Kheap.{
  Heap, heap_end, expand_size_class, allocate_slab, grow_class, pop_free, alloc_from, alloc_large,
  kmalloc, krealloc, recorded_size, without, track_allocation, untrack_allocation, krealloc_tracked,
  rounded, get_size_class_index, index_from, large_alloc_threshold, num_size_classes,
}

expand-records : (i : ℕ) (h : Heap) → (expand_size_class i h).1.alloc_records ≡ h.alloc_records
unfolding expand_size_class allocate_slab grow_class
expand-records i h = ground arith

pop_free-records : (i : ℕ) (h : Heap) → (pop_free i h).1.alloc_records ≡ h.alloc_records
unfolding pop_free
pop_free-records i h = ground arith

alloc_from-records : (i : ℕ) (h : Heap) → (alloc_from i h).1.alloc_records ≡ h.alloc_records
unfolding alloc_from
alloc_from-records i h =
    ground (
      arith,
      pop_free-records i h,
      pop_free-records i (expand_size_class i h).1,
      expand-records i h,
    )

alloc_large-records : (n : ℕ) (h : Heap) → (alloc_large n h).1.alloc_records ≡ h.alloc_records
unfolding alloc_large
alloc_large-records n h = ground arith

-- An allocation leaves the records alone.
pub kmalloc-records : (size : ℕ) (h : Heap) → (kmalloc size h).1.alloc_records ≡ h.alloc_records
unfolding kmalloc
kmalloc-records size h = elim (Bool-cases (size == 0 || not h.heap_initialized)) [
  | inl e ↦ rw e refl
  | inr e ↦ rw e (by_class (get_size_class_index (rounded size)))
]
  where
    h₁ : Heap
    h₁ = record h { allocation_count = add64 h.allocation_count 1 }

    by_class :
        (o : Option ℕ)
        → (elim o as (λ x. ℕ × Heap) [
          | none ↦
              if ltb large_alloc_threshold (rounded size)
              then alloc_large (rounded size) h₁
              else alloc_from (num_size_classes - 1) h₁
          | some i ↦ alloc_from i h₁
        ]).1.alloc_records
          ≡ h.alloc_records
    by_class none = ground (arith, alloc_large-records (rounded size) h₁, alloc_from-records 8 h₁)
    by_class (some i) = alloc_from-records i h₁

-- On an initialised heap, a request of a size within 15 of 2 ^ 64 is served from the class of 16
-- bytes.
pub kmalloc_wraps :
    (size : ℕ) (h : Heap)
    → 2 ^ 64 ≤ size + 15
    → size < 2 ^ 64
    → h.heap_initialized ≡ true
    → kmalloc size h ≡ alloc_from 0 (record h { allocation_count = add64 h.allocation_count 1 })
unfolding kmalloc get_size_class_index index_from
kmalloc_wraps size h lo hi init =
    let e : (size == 0 || not h.heap_initialized) ≡ false = ground arith in
    let r : rounded size ≡ 0 = ground arith in rw (e, r) refl

-- An allocation that is recorded and taken off the records again, while the total does not
-- overflow and there is room for the record: the records and the total are what they were.
pub untrack-track_allocation :
    (ptr size tag : ℕ) (h : Heap)
    → ptr ≢ 0
    → h.heap_next_free + 40 ≤ heap_end
    → h.total_allocated + size < 2 ^ 64
    → let h' = untrack_allocation ptr (track_allocation ptr size tag h) in
      (h'.alloc_records ≡ h.alloc_records) × (h'.total_allocated ≡ h.total_allocated)
unfolding untrack_allocation track_allocation recorded_size without
untrack-track_allocation ptr size tag h nz room fits = (ground arith, ground arith)

copied :
    (ptr size : ℕ) (u : Heap)
    → recorded_size ptr (kmalloc size u).1.alloc_records ≡ 0
    → (krealloc ptr size u).1 ≡ 0
unfolding krealloc
copied ptr size u r = ground arith

-- A resize through the tracked interface copies nothing of a block that is recorded once: its record
-- is gone before its size is looked up.
pub krealloc_tracked_copies_nothing :
    (ptr size tag : ℕ) (h : Heap)
    → recorded_size ptr (without ptr h.alloc_records) ≡ 0
    → (krealloc_tracked ptr size tag h).1 ≡ 0
unfolding krealloc_tracked krealloc untrack_allocation
krealloc_tracked_copies_nothing ptr size tag h once = elim (Bool-cases (ptr == 0)) [
  | inl e ↦ rw e refl
  | inr e ↦
      let u : Heap = untrack_allocation ptr h in
      let k : u.alloc_records ≡ without ptr h.alloc_records = rw e refl in
      let r : recorded_size ptr (kmalloc size u).1.alloc_records ≡ 0 =
        rw (kmalloc-records size u, k) once in
      copied ptr size u r
]
