-- ===== src/Kheap.antt =====
-- kernel/memory/kheap.c: the kernel heap, size classes with free lists over slabs that a bump pointer
-- hands out, and records of the tracked allocations. `next` is the field of that name of the free
-- node at an address, and 0 is NULL. The bytes of blocks, the `size` fields of nodes, which nothing
-- reads, and the log lines are left out; a copy is modelled by the number of its bytes.
mod State
pub mod Classes
pub mod Slab
pub mod Blocks
pub mod Growth
pub mod Malloc
pub mod Tracked
mod Tests
pub use State.*
use base_kernel.Base.{
  ℕ, zero, suc, ◌+◌, ◌-◌, ◌*◌, ◌/◌, ◌%◌, ◌^◌, Bool, true, false, not, ◌||◌, List, [], ◌∷◌, Option,
  none, some, ltb, leb, ◌==◌, if◌then◌else◌, ◌&&◌, add64, sub64, mul64, get_or, set, replicate,
}
use base_kernel.Pmm.{Pmm, page_size, alloc_pages}

-- The first class that holds `size` bytes, `none` for -1.
pub index_from : List ℕ → ℕ → ℕ → Option ℕ
index_from [] i size = none
index_from (c ∷ cs) i size = if leb size c then some i else index_from cs (i + 1) size

pub get_size_class_index : ℕ → Option ℕ
get_size_class_index size = index_from size_classes 0 size

pub allocate_slab : ℕ → ℕ → Heap → Option ℕ × Heap
allocate_slab obj_size count h =
    let slab_size = align_16 (mul64 obj_size count) in
    if ltb heap_end (add64 h.heap_next_free slab_size)
    then (none, h)
    else (some h.heap_next_free, record h { heap_next_free = add64 h.heap_next_free slab_size })

-- The free list and the fields of its nodes.
pub record Links : Type 0 where
  pub head : ℕ
  pub nexts : ℕ → ℕ

-- A node at `node` becomes the head.
abbrev pub push : ℕ → Links → Links
push node l = record { head = node; nexts = λ p. if node == p then l.head else l.nexts p }

-- The loop that links the objects of a slab, from `node` on.
pub link_objects : ℕ → ℕ → ℕ → Links → Links
link_objects obj_size node zero l = l
link_objects obj_size node (suc n) l = link_objects obj_size (node + obj_size) n (push node l)

abbrev pub class_size : ℕ → ℕ
class_size i = get_or size_classes i 0

-- A size class after its 32 first objects are linked at `slab`.
pub fill_class : ℕ → ℕ → Heap → Heap
fill_class i slab h =
    let l = link_objects (class_size i) slab 32 (record { head = 0; nexts = h.next }) in
    record h {
      next = l.nexts;
      classes = set h.classes i (record {
        free_list = l.head;
        total_objects = 32;
        free_objects = 32;
        alloc_count = 0;
        free_count = 0;
      });
    }

pub init_size_class : ℕ → Heap → Bool × Heap
init_size_class i h =
    let (slab, h₁) = allocate_slab (class_size i) 32 h in
    elim slab [ none ↦ (false, h₁) | some s ↦ (true, fill_class i s h₁) ]

pub grow_class : ℕ → ℕ → ℕ → Heap → Heap
grow_class i new_objects slab h =
    let sc = class_at h.classes i in
    let l =
      link_objects (class_size i) slab new_objects
        (record { head = sc.free_list; nexts = h.next }) in
    record h {
      next = l.nexts;
      classes = set h.classes i (record sc {
        free_list = l.head;
        total_objects = add64 sc.total_objects new_objects;
        free_objects = add64 sc.free_objects new_objects;
      });
    }

pub expand_size_class : ℕ → Heap → Bool × Heap
expand_size_class i h =
    let total = (class_at h.classes i).total_objects in
    let new_objects = if ltb total 16 then 16 else total in
    let (slab, h₁) = allocate_slab (class_size i) new_objects h in
    elim slab [ none ↦ (false, h₁) | some s ↦ (true, grow_class i new_objects s h₁) ]

-- The classes `i`, `i + 1`, … are initialised, until one fails.
pub init_classes : ℕ → ℕ → Heap → Bool × Heap
init_classes zero i h = (true, h)
init_classes (suc n) i h =
    let (ok, h₁) = init_size_class i h in
    elim ok [ false ↦ (false, h₁) | true ↦ init_classes n (i + 1) h₁ ]

-- The first page of the heap is cleared before.
pub kheap_init : Heap → Heap
kheap_init h =
    let (ok, h₁) =
      init_classes num_size_classes 0 (record h { next = clear_block heap_start 4096 h.next }) in
    if ok then record h₁ { heap_initialized = true } else h₁

abbrev pub count_allocated : ℕ → Heap → Heap
count_allocated n h =
    let total = add64 h.total_allocated n in
    record h {
      total_allocated = total;
      peak_usage = if ltb h.peak_usage total then total else h.peak_usage;
    }

-- More than the largest class: whole pages.
pub alloc_large : ℕ → Heap → ℕ × Heap
alloc_large size h =
    let pages = add64 size 4095 / page_size in
    let (ptr, pmm) = alloc_pages h.pmm pages in
    let h₁ = record h { pmm = pmm } in
    if ptr == 0 then (0, h₁) else (ptr, count_allocated (mul64 pages page_size) h₁)

-- The head of the free list is taken and its block cleared.
pub pop_free : ℕ → Heap → ℕ × Heap
pop_free i h =
    let sc = class_at h.classes i in
    let node = sc.free_list in
    if node == 0 then (0, h) else (
      node,
      record h {
        next = clear_block node (class_size i) h.next;
        classes = set h.classes i (record sc {
          free_list = h.next node;
          free_objects = sub64 sc.free_objects 1;
          alloc_count = add64 sc.alloc_count 1;
        });
      },
    )

pub alloc_from : ℕ → Heap → ℕ × Heap
alloc_from i h =
    if (class_at h.classes i).free_objects == 0
    then (let (ok, h₁) = expand_size_class i h in if ok then pop_free i h₁ else (0, h₁))
    else pop_free i h

-- The size that `kmalloc` looks for.
abbrev pub rounded : ℕ → ℕ
rounded size = align_16 (if ltb size 16 then 16 else size)

pub kmalloc : ℕ → Heap → ℕ × Heap
kmalloc size h =
    let h₁ = record h { allocation_count = add64 h.allocation_count 1 } in
    if size == 0 || not h.heap_initialized
    then (0, h)
    else elim (get_size_class_index (rounded size)) [
      | none ↦
          if ltb large_alloc_threshold (rounded size)
          then alloc_large (rounded size) h₁
          else alloc_from (num_size_classes - 1) h₁
      | some i ↦ alloc_from i h₁
    ]

-- Every block goes to the class of 16 bytes.
pub kfree : ℕ → Heap → Heap
kfree ptr h =
    let sc = class_at h.classes 0 in
    let l = push ptr (record { head = sc.free_list; nexts = h.next }) in
    let h₁ = record h { frees = add64 h.frees 1 } in
    if ptr == 0 || not h.heap_initialized
    then h
    else if ltb ptr heap_start || leb heap_end ptr
    then h₁
    else record h₁ {
      next = l.nexts;
      classes = set h.classes 0 (record sc {
        free_list = l.head;
        free_objects = add64 sc.free_objects 1;
        free_count = add64 sc.free_count 1;
      });
    }

-- The size in the first record of `ptr`, 0 if there is none.
pub recorded_size : ℕ → List AllocRecord → ℕ
recorded_size ptr [] = 0
recorded_size ptr (r ∷ rs) = if r.ptr == ptr then r.size else recorded_size ptr rs

-- The new block, the number of bytes copied into it, and the heap.
pub krealloc : ℕ → ℕ → Heap → ℕ × ℕ × Heap
krealloc ptr size h =
    let (new_ptr, h₁) = kmalloc size h in
    let old_size = recorded_size ptr h₁.alloc_records in
    if ptr == 0
    then (new_ptr, 0, h₁)
    else if size == 0
    then (0, 0, kfree ptr h)
    else if new_ptr == 0
    then (0, 0, h₁)
    else (new_ptr, (if ltb old_size size then old_size else size), kfree ptr h₁)

-- A record takes 48 bytes of the heap, 40 rounded up; with less left nothing is recorded.
pub track_allocation : ℕ → ℕ → ℕ → Heap → Heap
track_allocation ptr size tag h =
    if ptr == 0
    then h
    else if ltb heap_end (add64 h.heap_next_free 40)
    then h
    else count_allocated size (record h {
      heap_next_free = add64 h.heap_next_free 48;
      alloc_records = record { ptr = ptr; size = size; tag = tag } ∷ h.alloc_records;
    })

-- The records without the first one of `ptr`.
pub without : ℕ → List AllocRecord → List AllocRecord
without ptr [] = []
without ptr (r ∷ rs) = if r.ptr == ptr then rs else r ∷ without ptr rs

pub untrack_allocation : ℕ → Heap → Heap
untrack_allocation ptr h = if ptr == 0 then h else record h {
  total_allocated = sub64 h.total_allocated (recorded_size ptr h.alloc_records);
  alloc_records = without ptr h.alloc_records;
}

pub kmalloc_tracked : ℕ → ℕ → Heap → ℕ × Heap
kmalloc_tracked size tag h =
    let (ptr, h₁) = kmalloc size h in (ptr, track_allocation ptr size tag h₁)

pub krealloc_tracked : ℕ → ℕ → ℕ → Heap → ℕ × ℕ × Heap
krealloc_tracked ptr size tag h =
    let (new_ptr, copied, h₁) = krealloc ptr size (untrack_allocation ptr h) in
    (new_ptr, copied, track_allocation new_ptr size tag h₁)

pub kfree_tracked : ℕ → Heap → Heap
kfree_tracked ptr h = if ptr == 0 then h else kfree ptr (untrack_allocation ptr h)

pub record MemoryStats : Type 0 where
  pub total_allocated : ℕ
  pub peak_usage : ℕ
  pub allocations : ℕ
  pub deallocations : ℕ

pub memory_get_stats : Heap → MemoryStats
memory_get_stats h = record {
  total_allocated = h.total_allocated;
  peak_usage = h.peak_usage;
  allocations = h.allocation_count;
  deallocations = h.frees;
}
