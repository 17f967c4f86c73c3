-- ===== src/Kheap/Malloc.antt =====
-- `kmalloc` of up to 4096 bytes.
use base_kernel.Base.{
  ℕ, ◌+◌, ◌-◌, ◌^◌, ◌≤◌, ◌<◌, ◌≡◌, ◌≢◌, ◌⊎◌, refl, sym, subst, All, ◌∙◌, inl, inr, Bool, true,
  false, List, [], ◌∷◌, Option, none, some, ltb, not, ◌||◌, arith, if◌then◌else◌, ◌==◌, length,
  add64,
}
use base_kernel.Kheap.{
  Heap, class_at, class_size, heap_start, heap_end, expand_size_class, pop_free, alloc_from,
  kmalloc, rounded, alloc_large, large_alloc_threshold, num_size_classes, get_size_class_index,
}
use base_kernel.Kheap.Growth.{Grown, growth, ExpandOutcome, expand-ExpandOutcome}
use base_kernel.Kheap.Classes.{IsClassOf, get_size_class_index_lem}
use base_kernel.Kheap.Slab.{All-imp}
use base_kernel.Kheap.Blocks.{
  IsHeap, IsClass, Taken, IsBeside, Taken-IsClass, class_size-bounds, pop_free-Taken,
}

-- What an allocation from class `i` with the free blocks `xs` yields: the first of them, and the others
-- stay free; or if there is none, a block behind what was in use, of a new slab, or NULL and the heap
-- as it was, where that slab does not fit.
abbrev pub BlockOutcome : Heap → ℕ → List ℕ → ℕ × Heap → Type 0
BlockOutcome h i (x ∷ xs) (p, h') = (p ≡ x) × Taken h h' i p xs
BlockOutcome h i [] (p, h') =
    ((p ≡ 0) × (h' ≡ h) × (heap_end < h.heap_next_free + growth h i))
    ⊎ ((ys : List ℕ) × (h.heap_next_free ≤ p) × Taken h h' i p ys)

take-Grown :
    (i : ℕ) (ys : List ℕ) (h h' : Heap)
    → i < 9
    → Grown h h' i ys
    → (zs : List ℕ) × (h.heap_next_free ≤ (pop_free i h').0)
      × Taken h (pop_free i h').1 i (pop_free i h').0 zs
take-Grown i [] h h' b w = absurd (omega (arith, w.some_free))
take-Grown i (y ∷ zs) h h' b w =
    let r = pop_free-Taken i y zs h' w.heap b (omega (arith, w.small)) w.class in
    let t = r.1 in
    (
      zs,
      rw r.0 w.fresh.0,
      rw r.0 (record {
        heap = r.1.heap;
        rest = r.1.rest;
        inside = r.1.inside;
        apart = r.1.apart;
        others = λ j ne. r.1.others j ne ∙ w.others j ne;
        used = omega (arith, w.used, t.used);
        frame = λ q b out. t.frame q (omega (arith, w.used)) out ∙ w.frame q b;
      }),
    )

pub alloc_from-BlockOutcome :
    (i : ℕ) (xs : List ℕ) (h : Heap)
    → IsHeap h
    → i < 9
    → length xs < 2 ^ 63
    → IsClass h i xs
    → (class_at h.classes i).total_objects < 2 ^ 32
    → BlockOutcome h i xs (alloc_from i h)
unfolding alloc_from
alloc_from-BlockOutcome i (x ∷ xs) h g b small c t =
    let e : ((class_at h.classes i).free_objects == 0) ≡ false = ground (arith, c.count) in
    let r = pop_free-Taken i x xs h g b (omega arith) c in rw e (r.0, rw r.0 r.1)
alloc_from-BlockOutcome i [] h g b small c t =
    let e : ((class_at h.classes i).free_objects == 0) ≡ true = ground (arith, c.count) in
    rw e (finish (expand_size_class i h) (expand-ExpandOutcome i h g b c t))
  where
    finish :
        (r : Bool × Heap)
        → ExpandOutcome h i r
        → BlockOutcome h i [] (if r.0 then pop_free i r.1 else (0, r.1))
    finish (false, h') o = inl (refl, o.0, o.1)
    finish (true, h') o = inr (take-Grown i o.0 h h' b o.1)

rounded-bounds : (size : ℕ) → 0 < size → size ≤ 4096 → (size ≤ rounded size) × (rounded size ≤ 4096)
rounded-bounds size nz h = (ground arith, ground arith)

abbrev pub counted : Heap → Heap
counted h = record h { allocation_count = add64 h.allocation_count 1 }

-- No block of one class overlaps a block of another.
abbrev pub AreBeside : (ℕ → List ℕ) → Type 0
AreBeside lists = (i j : ℕ) → i ≢ j → j < 9 → All (λ p. IsBeside i p j (lists j)) (lists i)

-- What lies in the used part is beside a block behind it, and beside NULL.
behind_IsBeside :
    (h : Heap) (i j p : ℕ) (zs : List ℕ) → IsClass h j zs → h.heap_next_free ≤ p → IsBeside i p j zs
behind_IsBeside h i j p zs c b =
    All-imp (λ q. (heap_start ≤ q) × (q + class_size j ≤ h.heap_next_free))
      (λ q. (q + class_size j ≤ p) ⊎ (p + class_size i ≤ q)) zs
      (λ q a. let a1 = a.1 in inl (omega arith)) c.free.inside

null_IsBeside : (h : Heap) (i j : ℕ) (zs : List ℕ) → i < 9 → IsClass h j zs → IsBeside i 0 j zs
null_IsBeside h i j zs b c =
    let s = (class_size-bounds i b).1 in
    All-imp (λ q. (heap_start ≤ q) × (q + class_size j ≤ h.heap_next_free))
      (λ q. (q + class_size j ≤ 0) ⊎ (0 + class_size i ≤ q)) zs
      (λ q a. let a0 = a.0 in inr (omega arith)) c.free.inside

-- The other classes behind an allocation from class `i`.
others_kept :
    (h : Heap) (i j : ℕ) (xs zs : List ℕ) (r : ℕ × Heap)
    → i < 9
    → i ≢ j
    → j < 9
    → IsClass h j zs
    → All (λ p. IsBeside i p j zs) xs
    → BlockOutcome h i xs r
    → IsClass r.1 j zs × IsBeside i r.0 j zs
others_kept h i j (x ∷ xs) zs (p, h') b ne c k all o =
    let beside = subst (λ q. IsBeside i q j zs) (sym o.0) all.0 in
    (Taken-IsClass h h' i p j xs zs o.1 ne c k beside, beside)
others_kept h i j [] zs (p, h') b ne c k all (inl full) = (
  subst (λ g. IsClass g j zs) (sym full.1) k,
  subst (λ q. IsBeside i q j zs) (sym full.0) (null_IsBeside h i j zs b k),
)
others_kept h i j [] zs (p, h') b ne c k all (inr new) =
    let beside = behind_IsBeside h i j p zs k new.1 in
    (Taken-IsClass h h' i p j new.0 zs new.2 ne c k beside, beside)

-- What `kmalloc` yields from a heap whose classes have these free blocks.
abbrev pub MallocOutcome : Heap → ℕ → (ℕ → List ℕ) → ℕ × Heap → Type 0
MallocOutcome h size lists r =
    (i : ℕ) × (size ≤ class_size i)
    × ((j : ℕ) → j < i → class_size j < size + 15)
    × BlockOutcome (counted h) i (lists i) r
    × ((j : ℕ) → i ≢ j → j < 9 → IsClass r.1 j (lists j) × IsBeside i r.0 j (lists j))

-- On an initialised heap whose classes have the free blocks `lists`, where no block of one class
-- overlaps one of another, with counters far from overflow, `kmalloc` of 1 to 4096 bytes goes to a
-- class that holds them and is not larger than the rounding to 16 bytes asks for. It yields the first
-- free block of the class, and the others stay free; if the class has none, it yields a block of a new
-- slab behind what was in use, or NULL where that slab does not fit into the heap, and then only the
-- counter of allocations changes. The block overlaps no free block of any class, and the other
-- classes keep their free blocks.
pub kmalloc_lem :
    (size : ℕ) (lists : ℕ → List ℕ) (h : Heap)
    → 0 < size
    → size ≤ 4096
    → h.heap_initialized ≡ true
    → IsHeap h
    → ((i : ℕ) → IsClass h i (lists i))
    → AreBeside lists
    → ((i : ℕ) → length (lists i) < 2 ^ 63)
    → ((i : ℕ) → (class_at h.classes i).total_objects < 2 ^ 32)
    → MallocOutcome h size lists (kmalloc size h)
unfolding kmalloc
kmalloc_lem size lists h nz le init g c apart small t =
    let e : (size == 0 || not h.heap_initialized) ≡ false = ground arith in
    let r = rounded-bounds size nz le in
    rw e (
      finish (get_size_class_index (rounded size)) (get_size_class_index_lem (rounded size)) r.0
        r.1)
  where
    finish :
        (o : Option ℕ)
        → IsClassOf (rounded size) o
        → size ≤ rounded size
        → rounded size ≤ 4096
        → MallocOutcome h size lists (elim o [
          | none ↦
              if ltb large_alloc_threshold (rounded size)
              then alloc_large
                  (rounded size)
                  (record h { allocation_count = add64 h.allocation_count 1 })
              else alloc_from
                  (num_size_classes - 1)
                  (record h { allocation_count = add64 h.allocation_count 1 })
          | some i ↦ alloc_from i (record h { allocation_count = add64 h.allocation_count 1 })
        ])
    finish none o a b = absurd (omega arith)
    finish (some i) o a b =
        let class : (j : ℕ) → IsClass (counted h) j (lists j) =
          λ j. record { free = (c j).free; count = (c j).count } in
        let block =
          alloc_from-BlockOutcome i (lists i) (counted h)
            (record { low = g.low; high = g.high; classes_9 = g.classes_9 }) o.0 (small i) (class i)
            (t i) in
        (
          i,
          omega (arith, o.1),
          λ j lt. ground (arith, o.2 j lt),
          block,
          λ j ne lt.
              others_kept (counted h) i j (lists i) (lists j) (alloc_from i (counted h)) o.0 ne lt
                (class j) (apart i j ne lt) block,
        )
