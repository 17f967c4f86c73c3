-- ===== src/Kheap/Slab.antt =====
-- Slabs and the free lists that are linked over them.
use base_kernel.Base.{
  ℕ, zero, suc, ◌+◌, ◌*◌, ◌^◌, ◌≤◌, ◌<◌, ◌≡◌, ◌≢◌, ◌⊎◌, refl, ◌∙◌, false, inl, inr, List, [], ◌∷◌,
  Option, none, some, ltb, Bool-cases, arith, if◌then◌else◌, ◌==◌, length, add64, mul64, All,
}
use base_kernel.Base.Chain.{Chain, Chain-cong}
use base_kernel.Kheap.{
  Heap, Links, push, clear_block, link_objects, align_16, allocate_slab, heap_end,
}

-- A slab lies at the old end of the used part of the heap and ends within the heap; without room for
-- it nothing changes.
abbrev pub SlabOutcome : ℕ → Heap → Option ℕ × Heap → Type 0
SlabOutcome bytes h (none, h') = (h' ≡ h) × (heap_end < h.heap_next_free + align_16 bytes)
SlabOutcome bytes h (some slab, h') =
    (slab ≡ h.heap_next_free)
    × (h' ≡ record h { heap_next_free = h.heap_next_free + align_16 bytes })
    × (slab + bytes ≤ h'.heap_next_free)
    × (h'.heap_next_free ≤ heap_end)

pub allocate_slab-SlabOutcome :
    (obj_size count : ℕ) (h : Heap)
    → h.heap_next_free ≤ heap_end
    → obj_size * count < 2 ^ 63
    → SlabOutcome (obj_size * count) h (allocate_slab obj_size count h)
unfolding allocate_slab
allocate_slab-SlabOutcome obj_size count h b fits = go (obj_size * count) refl fits
  where
    go :
        (n : ℕ)
        → obj_size * count ≡ n
        → n < 2 ^ 63
        → SlabOutcome n h (allocate_slab obj_size count h)
    go n e small =
        let m : mul64 obj_size count ≡ n = rw e (omega arith) in
        elim (Bool-cases (ltb heap_end (add64 h.heap_next_free (align_16 n)))) [
          | inl full ↦ rw (m, full) (refl, ground arith)
          | inr room ↦
              let q : add64 h.heap_next_free (align_16 n) ≡ h.heap_next_free + align_16 n =
                omega arith in
              rw (m, room, q) (refl, refl, omega arith, ground arith)
        ]

-- The blocks of `size` bytes at these addresses do not overlap.
abbrev pub Apart : ℕ → List ℕ → Type 0
Apart size [] = Unit {0}
Apart size (x ∷ xs) = All (λ p. (p + size ≤ x) ⊎ (x + size ≤ p)) xs × Apart size xs

pub All-imp {ℓ} : (P Q : ℕ → Type ℓ) (xs : List ℕ) → ((p : ℕ) → P p → Q p) → All P xs → All Q xs
All-imp P Q [] f a = tt
All-imp P Q (x ∷ xs) f a = (f x a.0, All-imp P Q xs f a.1)

pub All-and {ℓ} : (P Q : ℕ → Type ℓ) (xs : List ℕ) → All P xs → All Q xs → All (λ p. P p × Q p) xs
All-and P Q [] a b = tt
All-and P Q (x ∷ xs) a b = ((a.0, b.0), All-and P Q xs a.1 b.1)

-- A free list of blocks of `size` bytes, all of them in the used part of the heap.
pub record IsFreeList (size low high : ℕ) (l : Links) (xs : List ℕ) : Type 0 where
  pub chain : Chain l.nexts l.head xs
  pub inside : All (λ p. (low ≤ p) × (p + size ≤ high)) xs
  pub apart : Apart size xs

pub push-IsFreeList :
    (size low high node : ℕ) (l : Links) (xs : List ℕ)
    → IsFreeList size low high l xs
    → 0 < size
    → node ≢ 0
    → low ≤ node
    → node + size ≤ high
    → All (λ p. (p + size ≤ node) ⊎ (node + size ≤ p)) xs
    → IsFreeList size low high (push node l) (node ∷ xs)
push-IsFreeList size low high node l xs f nz h lo hi a = record {
  chain = (
    refl,
    h,
    rw (self l.head l.nexts) (
        Chain-cong l.nexts (push node l).nexts l.head xs
          (All-imp (λ p. (p + size ≤ node) ⊎ (node + size ≤ p))
            (λ p. (push node l).nexts p ≡ l.nexts p) xs (λ p o. ground arith) a)
          f.chain),
  );
  inside = ((lo, hi), f.inside);
  apart = (a, f.apart);
}
  where
    self : (hd : ℕ) (nx : ℕ → ℕ) → (if node == node then hd else nx node) ≡ hd
    self hd nx = ground arith

-- Without its head, whose block is cleared.
pub pop-IsFreeList :
    (size low high x : ℕ) (l : Links) (xs : List ℕ)
    → IsFreeList size low high l (x ∷ xs)
    → 0 < size
    → IsFreeList size low high (record { head = l.nexts x; nexts = clear_block x size l.nexts }) xs
pop-IsFreeList size low high x l xs f nz = record {
  chain =
      Chain-cong l.nexts (clear_block x size l.nexts) (l.nexts x) xs
        (All-imp (λ p. (p + size ≤ x) ⊎ (x + size ≤ p))
          (λ p. clear_block x size l.nexts p ≡ l.nexts p) xs (λ p o. ground arith) f.apart.0)
        f.chain.2;
  inside = f.inside.1;
  apart = f.apart.1;
}

-- The objects of a slab from `node` on, linked before `xs`, the last one first.
abbrev pub linked : ℕ → ℕ → ℕ → List ℕ → List ℕ
linked size node zero xs = xs
linked size node (suc n) xs = linked size (node + size) n (node ∷ xs)

pub link_objects-IsFreeList :
    (size low node n high : ℕ) (l : Links) (xs : List ℕ)
    → IsFreeList size low node l xs
    → 0 < size
    → 0 < low
    → low ≤ node
    → node + size * n ≤ high
    → IsFreeList size low high (link_objects size node n l) (linked size node n xs)
unfolding link_objects
link_objects-IsFreeList size low node zero high l xs f nz lo le e = record {
  chain = f.chain;
  inside =
      All-imp (λ p. (low ≤ p) × (p + size ≤ node)) (λ p. (low ≤ p) × (p + size ≤ high)) xs
        (λ p a. (a.0, omega (arith, a.1))) f.inside;
  apart = f.apart;
}
link_objects-IsFreeList size low node (suc n) high l xs f nz lo le e =
    let wide : IsFreeList size low (node + size) l xs = record {
      chain = f.chain;
      inside =
          All-imp (λ p. (low ≤ p) × (p + size ≤ node)) (λ p. (low ≤ p) × (p + size ≤ node + size))
            xs (λ p a. (a.0, omega (arith, a.1))) f.inside;
      apart = f.apart;
    } in
    let pushed =
      push-IsFreeList size low (node + size) node l xs wide nz (omega arith) le (omega arith) (
        All-imp (λ p. (low ≤ p) × (p + size ≤ node)) (λ p. (p + size ≤ node) ⊎ (node + size ≤ p)) xs
          (λ p a. inl a.1) f.inside) in
    link_objects-IsFreeList size low (node + size) n high (push node l) (node ∷ xs) pushed nz lo
      (omega arith) (omega arith)

pub length-linked : (size node n : ℕ) (xs : List ℕ) → length (linked size node n xs) ≡ n + length xs
length-linked size node zero xs = omega arith
length-linked size node (suc n) xs = omega (arith, length-linked size (node + size) n (node ∷ xs))

-- The blocks of a slab lie behind what was in use, and linking them changes no word there.
pub All-linked :
    (low size node n : ℕ) (xs : List ℕ)
    → low ≤ node
    → All (λ q. low ≤ q) xs
    → All (λ q. low ≤ q) (linked size node n xs)
All-linked low size node zero xs h a = a
All-linked low size node (suc n) xs h a =
    All-linked low size (node + size) n (node ∷ xs) (omega arith) (h, a)

pub link_objects-frame :
    (size node n q : ℕ) (l : Links) → q < node → (link_objects size node n l).nexts q ≡ l.nexts q
unfolding link_objects
link_objects-frame size node zero q l h = refl
link_objects-frame size node (suc n) q l h =
    let e : (node == q) ≡ false = ground arith in
    link_objects-frame size (node + size) n q (push node l) (omega arith) ∙ rw e refl
