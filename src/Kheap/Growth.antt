-- ===== src/Kheap/Growth.antt =====
-- How a size class grows by a slab.
use base_kernel.Base.{
  ℕ, zero, suc, ◌+◌, ◌*◌, ◌^◌, ◌≤◌, ◌<◌, ◌≡◌, ◌≢◌, refl, All, ap, ◌∙◌, Bool, true, false, List, [],
  Option, none, some, ltb, arith, if◌then◌else◌, length, get_or-set_self, get_or-set_ne, length-set,
}
use base_kernel.Kheap.{
  Heap, no_objects, class_at, class_size, heap_start, heap_end, allocate_slab, grow_class,
  expand_size_class, align_16,
}
use base_kernel.Kheap.Slab.{
  All-linked, link_objects-frame, IsFreeList, link_objects-IsFreeList, linked, length-linked,
  SlabOutcome, allocate_slab-SlabOutcome,
}
use base_kernel.Kheap.Blocks.{IsHeap, IsClass, class_size-bounds}

mul_le : (a b c : ℕ) → a ≤ b → a * c ≤ b * c
mul_le a b zero h = omega arith
mul_le a b (suc c) h = omega (arith, mul_le a b c h)

-- Class `i` has grown: only it and the used part of the heap have changed.
pub record Grown (h h' : Heap) (i : ℕ) (ys : List ℕ) : Type 0 where
  pub heap : IsHeap h'
  pub class : IsClass h' i ys
  pub some_free : 0 < length ys
  pub small : length ys < 2 ^ 63
  pub others : (j : ℕ) → i ≢ j → class_at h'.classes j ≡ class_at h.classes j
  pub used : h.heap_next_free ≤ h'.heap_next_free
  pub fresh : All (λ q. h.heap_next_free ≤ q) ys
  pub frame : (q : ℕ) → q < h.heap_next_free → h'.next q ≡ h.next q

grow_class-Grown :
    (i n bytes : ℕ) (h h₁ : Heap)
    → IsHeap h
    → i < 9
    → IsClass h i []
    → 0 < n
    → n < 2 ^ 32
    → h₁ ≡ record h { heap_next_free = h.heap_next_free + bytes }
    → class_size i * n ≤ bytes
    → h.heap_next_free + bytes ≤ heap_end
    → Grown h (grow_class i n h.heap_next_free h₁) i (linked (class_size i) h.heap_next_free n [])
unfolding grow_class
grow_class-Grown i n bytes h h₁ g b c nz small e fits room =
    let z = class_size-bounds i b in
    let len = length-linked (class_size i) h.heap_next_free n [] in
    let start : IsFreeList (class_size i) heap_start h.heap_next_free
        (record { head = (class_at h.classes i).free_list; nexts = h.next }) [] =
      c.free in
    let free =
      link_objects-IsFreeList (class_size i) heap_start h.heap_next_free n
        (h.heap_next_free + bytes) _ [] start (omega (arith, z.0)) (omega arith) g.low
        (omega arith) in
    rw e (record {
      heap = record {
        low = omega (arith, g.low);
        high = room;
        classes_9 = length-set h.classes i _ ∙ g.classes_9;
      };
      class = record {
        free = rw (get_or-set_self h.classes i _ no_objects (omega (arith, g.classes_9))) free;
        count =
            rw (get_or-set_self h.classes i _ no_objects (omega (arith, g.classes_9)))
              (omega (arith, c.count, len));
      };
      some_free = omega (arith, len);
      small = omega (arith, len);
      others = λ j ne. get_or-set_ne h.classes i j _ no_objects ne;
      used = omega arith;
      fresh = All-linked h.heap_next_free (class_size i) h.heap_next_free n [] (omega arith) tt;
      frame = λ q b.
          link_objects-frame (class_size i) h.heap_next_free n q
            (record { head = (class_at h.classes i).free_list; nexts = h.next }) b;
    })

-- The bytes of the slab that a class grows by: as many objects as it has, at least 16.
abbrev pub growth : Heap → ℕ → ℕ
growth h i =
    let total = (class_at h.classes i).total_objects in
    align_16 (class_size i * (if ltb total 16 then 16 else total))

-- Either there is no room and nothing changes, or the class has free blocks.
abbrev pub ExpandOutcome : Heap → ℕ → Bool × Heap → Type 0
ExpandOutcome h i (false, h') = (h' ≡ h) × (heap_end < h.heap_next_free + growth h i)
ExpandOutcome h i (true, h') = (ys : List ℕ) × Grown h h' i ys

pub expand-ExpandOutcome :
    (i : ℕ) (h : Heap)
    → IsHeap h
    → i < 9
    → IsClass h i []
    → (class_at h.classes i).total_objects < 2 ^ 32
    → ExpandOutcome h i (expand_size_class i h)
unfolding expand_size_class
expand-ExpandOutcome i h g b c t =
    let total : ℕ = (class_at h.classes i).total_objects in
    let n : ℕ = if ltb total 16 then 16 else total in
    let nz : 0 < n = ground arith in
    let small : n < 2 ^ 32 = ground arith in
    let z = class_size-bounds i b in
    let fits : class_size i * n < 2 ^ 63 = omega (arith, mul_le (class_size i) 4096 n z.1) in
    finish n (allocate_slab (class_size i) n h) nz small
      (allocate_slab-SlabOutcome (class_size i) n h g.high fits) refl
  where
    finish :
        (n : ℕ) (r : Option ℕ × Heap)
        → 0 < n
        → n < 2 ^ 32
        → SlabOutcome (class_size i * n) h r
        → align_16 (class_size i * n) ≡ growth h i
        → ExpandOutcome h i
            (elim r.0 [ none ↦ (false, r.1) | some s ↦ (true, grow_class i n s r.1) ])
    finish n (none, h₁) nz small o gr = (o.0, omega (arith, o.1, gr))
    finish n (some s, h₁) nz small o gr =
        let e : s ≡ h.heap_next_free = o.0 in
        let k : h₁.heap_next_free ≡ h.heap_next_free + align_16 (class_size i * n) =
          ap (λ q. q.heap_next_free) o.1 in
        let a = o.2 in
        let d = o.3 in
        rw e (
          linked (class_size i) h.heap_next_free n [],
          grow_class-Grown i n (align_16 (class_size i * n)) h h₁ g b c nz small o.1 (omega arith)
              (omega arith),
        )
