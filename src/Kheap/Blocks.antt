-- ===== src/Kheap/Blocks.antt =====
-- Blocks that leave the free list of a size class and come back.
use base_kernel.Base.{
  ℕ, ◌+◌, ◌^◌, ◌≤◌, ◌<◌, ◌≡◌, ◌≢◌, ◌⊎◌, inl, inr, ◌∙◌, true, false, List, ◌∷◌, ltb, leb, not, ◌||◌,
  arith, ◌==◌, length, set, get_or-set_self, get_or-set_ne, length-set, add64, sub64, All,
}
use base_kernel.Kheap.{
  Heap, SizeClass, no_objects, class_at, class_size, heap_start, heap_end, pop_free, kfree,
}
use base_kernel.Base.Chain.{Chain-cong}
use base_kernel.Kheap.Slab.{All-imp, All-and, IsFreeList, Apart, push-IsFreeList, pop-IsFreeList}

-- The used part of the heap lies within it, and there are nine classes.
pub record IsHeap (h : Heap) : Type 0 where
  pub low : heap_start ≤ h.heap_next_free
  pub high : h.heap_next_free ≤ heap_end
  pub classes_9 : length h.classes ≡ 9

-- The free blocks of class `i` are those of the list.
pub record IsClass (h : Heap) (i : ℕ) (xs : List ℕ) : Type 0 where
  pub free :
      IsFreeList
        (class_size i)
        heap_start
        h.heap_next_free
        (record { head = (class_at h.classes i).free_list; nexts = h.next })
        xs
  pub count : (class_at h.classes i).free_objects ≡ length xs

pub class_size-bounds : (i : ℕ) → i < 9 → (16 ≤ class_size i) × (class_size i ≤ 4096)
class_size-bounds i h = ground arith

-- A block that was taken: it lies in the used part of the heap, does not overlap the blocks that
-- stay free, the other classes are as before, and of the words that were in the used part only those
-- of the block may have changed.
pub record Taken (h h' : Heap) (i p : ℕ) (ys : List ℕ) : Type 0 where
  pub heap : IsHeap h'
  pub rest : IsClass h' i ys
  pub inside : (heap_start ≤ p) × (p + class_size i ≤ h'.heap_next_free)
  pub apart : Apart (class_size i) (p ∷ ys)
  pub others : (j : ℕ) → i ≢ j → class_at h'.classes j ≡ class_at h.classes j
  pub used : h.heap_next_free ≤ h'.heap_next_free
  pub frame :
      (q : ℕ) → q < h.heap_next_free → (q < p) ⊎ (p + class_size i ≤ q) → h'.next q ≡ h.next q

-- The block `p` of class `i` overlaps none of these blocks of class `j`.
abbrev pub IsBeside : ℕ → ℕ → ℕ → List ℕ → Type 0
IsBeside i p j = All (λ q. (q + class_size j ≤ p) ⊎ (p + class_size i ≤ q))

-- The blocks of another class are still its free blocks, if the one that was taken is beside them.
pub Taken-IsClass :
    (h h' : Heap) (i p j : ℕ) (ys zs : List ℕ)
    → Taken h h' i p ys
    → i ≢ j
    → j < 9
    → IsClass h j zs
    → IsBeside i p j zs
    → IsClass h' j zs
Taken-IsClass h h' i p j ys zs t ne b c beside =
    let big = (class_size-bounds j b).0 in
    let same = t.others j ne in
    let both =
      All-and (λ q. (heap_start ≤ q) × (q + class_size j ≤ h.heap_next_free))
        (λ q. (q + class_size j ≤ p) ⊎ (p + class_size i ≤ q)) zs c.free.inside beside in
    record {
      free = record {
        chain = rw same (
            Chain-cong h.next h'.next (class_at h.classes j).free_list zs
              (All-imp
                (λ q.
                  ((heap_start ≤ q) × (q + class_size j ≤ h.heap_next_free))
                  × ((q + class_size j ≤ p) ⊎ (p + class_size i ≤ q)))
                (λ q. h'.next q ≡ h.next q) zs
                (λ q a.
                  let in_heap = a.0.1 in
                  t.frame q (omega arith) (elim a.1 [ inl l ↦ inl (omega arith) | inr r ↦ inr r ]))
                both)
              c.free.chain);
        inside =
            All-imp (λ q. (heap_start ≤ q) × (q + class_size j ≤ h.heap_next_free))
              (λ q. (heap_start ≤ q) × (q + class_size j ≤ h'.heap_next_free)) zs
              (λ q a. let a1 = a.1 in (a.0, omega (arith, t.used))) c.free.inside;
        apart = c.free.apart;
      };
      count = rw same c.count;
    }

pub pop_free-Taken :
    (i x : ℕ) (xs : List ℕ) (h : Heap)
    → IsHeap h
    → i < 9
    → length xs < 2 ^ 63
    → IsClass h i (x ∷ xs)
    → let (p, h') = pop_free i h in (p ≡ x) × Taken h h' i x xs
unfolding pop_free
pop_free-Taken i x xs h g b small c =
    let hd : (class_at h.classes i).free_list ≡ x = c.free.chain.0 in
    let nz : ((class_at h.classes i).free_list == 0) ≡ false = ground (arith, c.free.chain.1) in
    let sc : SizeClass = record (class_at h.classes i) {
      free_list = h.next (class_at h.classes i).free_list;
      free_objects = sub64 (class_at h.classes i).free_objects 1;
      alloc_count = add64 (class_at h.classes i).alloc_count 1;
    } in
    let self : class_at (set h.classes i sc) i ≡ sc =
      get_or-set_self h.classes i sc no_objects (omega (arith, g.classes_9)) in
    rw nz (
      hd,
      record {
        heap = record {
          low = g.low;
          high = g.high;
          classes_9 = length-set h.classes i sc ∙ g.classes_9;
        };
        rest = record {
          free = rw self rw hd (
              pop-IsFreeList (class_size i) heap_start h.heap_next_free x _ xs c.free
                (omega (arith, (class_size-bounds i b).0)));
          count = rw self omega (arith, c.count);
        };
        inside = c.free.inside.0;
        apart = c.free.apart;
        others = λ j ne. get_or-set_ne h.classes i j sc no_objects ne;
        used = omega arith;
        frame = λ q b out. rw hd (elim out [ inl l ↦ ground arith | inr r ↦ ground arith ]);
      },
    )

-- On an initialised heap: a block in the used part of the heap that is freed, of whatever class
-- it came from, and that overlaps no free block of the class of 16 bytes, becomes the first free
-- block of that class; the other classes, and with them the one it may have come from, are as
-- before.
pub kfree_lem :
    (p : ℕ) (xs : List ℕ) (h : Heap)
    → h.heap_initialized ≡ true
    → IsHeap h
    → IsClass h 0 xs
    → length xs < 2 ^ 63
    → heap_start ≤ p
    → p + 16 ≤ h.heap_next_free
    → All (λ q. (q + 16 ≤ p) ⊎ (p + 16 ≤ q)) xs
    → IsHeap (kfree p h)
      × IsClass (kfree p h) 0 (p ∷ xs)
      × ((j : ℕ) → 0 ≢ j → class_at (kfree p h).classes j ≡ class_at h.classes j)
unfolding kfree
kfree_lem p xs h init g c small lo hi a =
    let h0 = g.high in
    let e : (p == 0 || not h.heap_initialized) ≡ false = ground arith in
    let k : (ltb p heap_start || leb heap_end p) ≡ false = ground arith in
    let at_9 : 0 < length h.classes = omega (arith, g.classes_9) in
    rw (e, k)
      (
        record { low = g.low; high = g.high; classes_9 = length-set h.classes 0 _ ∙ g.classes_9 },
        record {
          free = rw (get_or-set_self h.classes 0 _ no_objects at_9) (
              push-IsFreeList 16 heap_start h.heap_next_free p _ xs c.free (omega arith)
                (omega arith) lo hi a);
          count = rw (get_or-set_self h.classes 0 _ no_objects at_9) (omega (arith, c.count));
        },
        λ j ne. get_or-set_ne h.classes 0 j _ no_objects ne,
      )
