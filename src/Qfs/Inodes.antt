-- ===== src/Qfs/Inodes.antt =====
-- `qfs_alloc_inode` and `qfs_free_inode`.
use base_kernel.Base.{
  ℕ, zero, suc, ◌+◌, ◌-◌, ◌*◌, ◌^◌, ◌≤◌, ◌<◌, ◌≡◌, ◌≢◌, ◌⊎◌, refl, subst, ap, ◌∙◌, inl, inr, Bool,
  true, false, ◌||◌, Option, none, some, leb, ◌==◌, if◌then◌else◌, Bool-cases, Option-cases, arith,
  length, add32, sub32,
}
use base_kernel.Bitmap.{Bitmap, get_bit, set_bit}
use base_kernel.Bitmap.Laws.{
  IsBytes, get_bit-set_bit, get_bit-clear_bit, set_bit-IsBytes, length-set_bit,
}
use base_kernel.Qfs.{Qfs, first_clear, qfs_alloc_inode, qfs_free_inode}

-- The map of inodes is an array of bytes with a bit for each inode.
pub record IsInodeTable (q : Qfs) : Type 0 where
  pub bytes : IsBytes q.inode_bitmap
  pub room : q.superblock.total_inodes ≤ 8 * length q.inode_bitmap
  pub some_inode : 0 < q.superblock.total_inodes
  pub free_32 : q.superblock.free_inodes < 2 ^ 32

-- The first clear bit of the `n` from `i`, or none of them is clear.
abbrev pub IsFirstClear : Bitmap → ℕ → ℕ → Option ℕ → Type 0
IsFirstClear bm n i none = (j : ℕ) → i ≤ j → j < i + n → get_bit bm j ≡ true
IsFirstClear bm n i (some k) =
    (i ≤ k) × (k < i + n) × (get_bit bm k ≡ false) × ((j : ℕ) → i ≤ j → j < k → get_bit bm j ≡ true)

first_clear-IsFirstClear : (bm : Bitmap) (n i : ℕ) → IsFirstClear bm n i (first_clear bm n i)
unfolding first_clear
first_clear-IsFirstClear bm zero i = λ j a b. absurd (omega arith)
first_clear-IsFirstClear bm (suc n) i = elim (Bool-cases (get_bit bm i)) [
  | inr clear ↦
      rw (first_clear, clear) (omega arith, omega arith, clear, λ j a b. absurd (omega arith))
  | inl used ↦
      rw (first_clear, used)
        (rest used (first_clear bm n (i + 1)) (first_clear-IsFirstClear bm n (i + 1)))
]
  where
    here :
        get_bit bm i ≡ true
        → (j : ℕ) → i ≤ j
        → (i + 1 ≤ j → get_bit bm j ≡ true)
        → get_bit bm j ≡ true
    here used j a f = elim (Bool-cases (i == j)) [
      | inl e ↦ let q : j ≡ i = ground arith in rw q used
      | inr e ↦ f (ground arith)
    ]

    rest :
        get_bit bm i ≡ true
        → (o : Option ℕ) → IsFirstClear bm n (i + 1) o
        → IsFirstClear bm (suc n) i o
    rest used none f = λ j a b. here used j a (λ c. f j c (omega arith))
    rest used (some k) f =
        (omega (arith, f.0), omega (arith, f.1), f.2, λ j a b. here used j a (λ c. f.3 j c b))

-- What `qfs_alloc_inode` returns and leaves.
abbrev pub InodeOutcome : Qfs → ℕ × Qfs → Type 0
InodeOutcome q (ino, q') =
    ((ino ≡ 0)
      × (q' ≡ q)
      × ((q.superblock.free_inodes ≡ 0)
          ⊎ ((j : ℕ) → 1 ≤ j → j < q.superblock.total_inodes → get_bit q.inode_bitmap j ≡ true)))
    ⊎ ((1 ≤ ino)
        × (ino < q.superblock.total_inodes)
        × (get_bit q.inode_bitmap ino ≡ false)
        × ((j : ℕ) → 1 ≤ j → j < ino → get_bit q.inode_bitmap j ≡ true)
        × ((j : ℕ)
            → get_bit q'.inode_bitmap j ≡ (if ino == j then true else get_bit q.inode_bitmap j))
        × (q'.superblock ≡ record q.superblock { free_inodes = sub32 q.superblock.free_inodes 1 }))

abbrev pub taken : ℕ → Qfs → Qfs
taken k q = record q {
  inode_bitmap = set_bit q.inode_bitmap k;
  superblock = record q.superblock { free_inodes = sub32 q.superblock.free_inodes 1 };
}

pub alloc_inode_none :
    (q : Qfs)
    → (q.superblock.free_inodes == 0) ≡ false
    → first_clear q.inode_bitmap (q.superblock.total_inodes - 1) 1 ≡ none
    → qfs_alloc_inode q ≡ (0, q)
unfolding qfs_alloc_inode
alloc_inode_none q z n = rw (z, n) refl

pub alloc_inode_empty :
    (q : Qfs) → (q.superblock.free_inodes == 0) ≡ true → qfs_alloc_inode q ≡ (0, q)
unfolding qfs_alloc_inode
alloc_inode_empty q z = rw z refl

pub alloc_inode_some :
    (q : Qfs) (k : ℕ)
    → (q.superblock.free_inodes == 0) ≡ false
    → first_clear q.inode_bitmap (q.superblock.total_inodes - 1) 1 ≡ some k
    → qfs_alloc_inode q ≡ (k, taken k q)
unfolding qfs_alloc_inode
alloc_inode_some q k z n = rw (z, n) refl

pub search-IsFirst :
    (q : Qfs) (o : Option ℕ)
    → first_clear q.inode_bitmap (q.superblock.total_inodes - 1) 1 ≡ o
    → IsFirstClear q.inode_bitmap (q.superblock.total_inodes - 1) 1 o
search-IsFirst q o e =
    subst (IsFirstClear q.inode_bitmap (q.superblock.total_inodes - 1) 1) e
      (first_clear-IsFirstClear q.inode_bitmap (q.superblock.total_inodes - 1) 1)

-- On a table of inodes, an allocation takes the lowest inode from 1 on whose bit is clear, sets this
-- bit only and counts it off the free ones; or it returns 0 and changes nothing, and then the count of
-- free inodes is 0 or every inode from 1 on is in use.
pub alloc_inode_lowest : (q : Qfs) → IsInodeTable q → InodeOutcome q (qfs_alloc_inode q)
alloc_inode_lowest q t = elim (Bool-cases (q.superblock.free_inodes == 0)) [
  | inl z ↦ rw (alloc_inode_empty q z) (inl (refl, refl, inl (ground arith)))
  | inr z ↦ elim (Option-cases (first_clear q.inode_bitmap (q.superblock.total_inodes - 1) 1)) [
    | inl n ↦
        let f = search-IsFirst q none n in
        rw (alloc_inode_none q z n) (inl (refl, refl, inr (λ j a b. f j a (omega arith))))
    | inr (k, n) ↦
        let f = search-IsFirst q (some k) n in
        let w = t.room in
        let v = t.some_inode in
        rw (alloc_inode_some q k z n) (
          inr (
            f.0,
            omega (arith, f.1),
            f.2,
            f.3,
            λ j. get_bit-set_bit q.inode_bitmap k j t.bytes (omega (arith, f.1)),
            refl,
          ))
  ]
]

-- An inode that is allocated on a table of inodes and freed again leaves the map of inodes and the
-- superblock as they were.
pub free_inode-alloc_inode :
    (q : Qfs)
    → IsInodeTable q
    → (qfs_alloc_inode q).0 ≢ 0
    → let (ino, q') = qfs_alloc_inode q in
      let q'' = qfs_free_inode ino q' in
      ((j : ℕ) → get_bit q''.inode_bitmap j ≡ get_bit q.inode_bitmap j)
      × (q''.superblock ≡ q.superblock)
unfolding qfs_free_inode
free_inode-alloc_inode q t got = elim (Bool-cases (q.superblock.free_inodes == 0)) [
  | inl z ↦ absurd (got (ap (λ r. r.0) (alloc_inode_empty q z)))
  | inr z ↦ elim (Option-cases (first_clear q.inode_bitmap (q.superblock.total_inodes - 1) 1)) [
    | inl n ↦ absurd (got (ap (λ r. r.0) (alloc_inode_none q z n)))
    | inr (k, n) ↦
        let f = search-IsFirst q (some k) n in
        let w = t.room in
        let v = t.some_inode in
        let ok : (k == 0 || leb q.superblock.total_inodes k) ≡ false = ground (arith, f.0, f.1) in
        let len : length (set_bit q.inode_bitmap k) ≡ length q.inode_bitmap =
          length-set_bit q.inode_bitmap k in
        let back : add32 (sub32 q.superblock.free_inodes 1) 1 ≡ q.superblock.free_inodes =
          let x = t.free_32 in ground arith in
        rw (alloc_inode_some q k z n, ok)
          (
            λ j.
                get_bit-clear_bit (set_bit q.inode_bitmap k) k j
                  (set_bit-IsBytes q.inode_bitmap k t.bytes) (omega (arith, f.1))
                ∙ cleared k j (get_bit (set_bit q.inode_bitmap k) j)
                    (get_bit-set_bit q.inode_bitmap k j t.bytes (omega (arith, f.1))) f.2,
            ap (λ x. record q.superblock { free_inodes = x }) back,
          )
  ]
]
  where
    cleared :
        (k j : ℕ) (b : Bool)
        → b ≡ (if k == j then true else get_bit q.inode_bitmap j)
        → get_bit q.inode_bitmap k ≡ false
        → (if k == j then false else b) ≡ get_bit q.inode_bitmap j
    cleared k j b e free = elim (Bool-cases (k == j)) [
      | inl i ↦ let same : j ≡ k = ground arith in rw (i, same, free) refl
      | inr o ↦ rw o (e ∙ rw o refl)
    ]
