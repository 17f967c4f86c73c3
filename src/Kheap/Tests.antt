-- ===== src/Kheap/Tests.antt =====
-- Tests of kernel/memory/kheap.c, and its theorems at concrete heaps.
use base_kernel.Base.{ℕ, ◌+◌, ◌*◌, ◌≡◌, ◌≢◌, refl, true, false, [], ◌∷◌, arith, replicate}
use base_kernel.Pmm.{Pmm}
use base_kernel.Kheap.{
  Heap, no_objects, class_at, heap_start, kheap_init, init_classes, init_size_class, fill_class,
  link_objects, allocate_slab, kmalloc, kfree, alloc_from, get_size_class_index, index_from,
  pop_free, track_allocation, untrack_allocation,
}
use base_kernel.Kheap.Blocks.{IsHeap, IsClass, kfree_lem}
use base_kernel.Kheap.Malloc.{MallocOutcome, kmalloc_lem}
use base_kernel.Kheap.Tracked.{untrack-track_allocation}

abbrev no_memory : Pmm
no_memory = record {
  bitmap = [];
  total_pages = 0;
  used_pages = 0;
  hot = [];
  alloc_requests = 0;
  alloc_failures = 0;
  pages_allocated = 0;
  pages_freed = 0;
}

-- Before `kheap_init`.
abbrev untouched : Heap
untouched = record {
  next = λ p. 0;
  classes = replicate 9 no_objects;
  heap_next_free = heap_start;
  heap_initialized = false;
  alloc_records = [];
  total_allocated = 0;
  peak_usage = 0;
  allocation_count = 0;
  frees = 0;
  pmm = no_memory;
}

-- The last object of the first slab is the first one handed out.
first_block : (kmalloc 10 (kheap_init untouched)).0 ≡ 0x300000 + 31 * 16
unfolding kmalloc kheap_init init_classes init_size_class fill_class link_objects allocate_slab
    get_size_class_index index_from alloc_from pop_free
first_block = refl

-- An initialised heap with 64 KB in use and no free blocks.
abbrev used_up : Heap
used_up = record untouched { heap_initialized = true; heap_next_free = 0x310000 }

used_up-IsHeap : IsHeap used_up
used_up-IsHeap = record { low = omega arith; high = omega arith; classes_9 = refl }

no_class : (i : ℕ) → class_at used_up.classes i ≡ no_objects
no_class i = ground arith

used_up-IsClass : (i : ℕ) → IsClass used_up i []
used_up-IsClass i = record {
  free = record { chain = rw (no_class i) refl; inside = tt; apart = tt };
  count = rw (no_class i) refl;
}

kmalloc_lem_example : MallocOutcome used_up 100 (λ i. []) (kmalloc 100 used_up)
kmalloc_lem_example =
    kmalloc_lem 100 (λ i. []) used_up (omega arith) (omega arith) refl used_up-IsHeap
      used_up-IsClass (λ i j ne b. tt) (λ i. omega arith) (λ i. rw (no_class i) (omega arith))

kfree_lem_example :
    IsHeap (kfree 0x301000 used_up)
    × IsClass (kfree 0x301000 used_up) 0 (0x301000 ∷ [])
    × ((j : ℕ) → 0 ≢ j → class_at (kfree 0x301000 used_up).classes j ≡ class_at used_up.classes j)
kfree_lem_example =
    kfree_lem 0x301000 [] used_up refl used_up-IsHeap (used_up-IsClass 0) (omega arith)
      (omega arith) (omega arith) tt

untrack-track_allocation_example :
    let h' = untrack_allocation 0x301000 (track_allocation 0x301000 100 0 used_up) in
    (h'.alloc_records ≡ []) × (h'.total_allocated ≡ 0)
untrack-track_allocation_example =
    untrack-track_allocation 0x301000 100 0 used_up (omega arith) (omega arith) (omega arith)

-- One block of 500 bytes is recorded.
abbrev recorded : Heap
recorded = record used_up { alloc_records = record { ptr = 0x301000; size = 500; tag = 0 } ∷ [] }
