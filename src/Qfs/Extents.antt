-- ===== src/Qfs/Extents.antt =====
-- `qfs_alloc_extent` and `qfs_free_extent`.
use base_kernel.Base.{
  ℕ, ◌+◌, ◌-◌, ◌*◌, ◌%◌, ◌^◌, ◌≤◌, ◌<◌, ◌≡◌, ◌≢◌, refl, sym, subst, ap, ◌∙◌, inl, inr, Bool, true,
  false, Option, none, some, ◌==◌, if◌then◌else◌, Bool-cases, Option-cases, arith, length, add32,
  sub32,
}
use base_kernel.Bitmap.{get_bit, set_range}
use base_kernel.Bitmap.Laws.{IsBytes}
use base_kernel.Bitmap.Range.{
  in_range, get_bit-set_range, get_bit-clear_range, set_range-IsBytes, length-set_range,
}
use base_kernel.Pmm.Scan.{IsFreeRun}
use base_kernel.Qfs.{Qfs, Extent, no_extent, qfs_alloc_extent, qfs_free_extent}
use base_kernel.Qfs.FirstFit.{first_fit, IsFirstFit, first_fit-IsFirstFit, scan-first_fit}

-- The map of blocks is an array of bytes with a bit for each block.
pub record IsVolume (q : Qfs) : Type 0 where
  pub bytes : IsBytes q.block_bitmap
  pub room : q.superblock.total_blocks ≤ 8 * length q.block_bitmap
  pub data_inside : q.superblock.data_blocks_start ≤ q.superblock.total_blocks
  pub free_32 : q.superblock.free_blocks < 2 ^ 32

-- What `qfs_alloc_extent` returns and leaves, for a search that ended with `o`.
abbrev pub ExtentOutcome : ℕ → Qfs → Option ℕ → ℕ × Extent × Qfs → Type 0
ExtentOutcome count q none (start, e, q') = (start ≡ 0) × (q' ≡ q)
ExtentOutcome count q (some s) (start, e, q') =
    (start ≡ s)
    × (e ≡ record { start_block = s; length = count % 2 ^ 16 })
    × ((j : ℕ)
        → get_bit q'.block_bitmap j
          ≡ (if in_range s count j then true else get_bit q.block_bitmap j))
    × (q'.superblock ≡ record q.superblock { free_blocks = sub32 q.superblock.free_blocks count })

-- The blocks that hold data.
abbrev pub data_fit : ℕ → Qfs → Option ℕ
data_fit count q =
    first_fit q.block_bitmap count (q.superblock.total_blocks - q.superblock.data_blocks_start)
      q.superblock.data_blocks_start

data_fit-IsFirst :
    (count s : ℕ) (q : Qfs)
    → 0 < count
    → data_fit count q ≡ some s
    → IsFirstFit q.block_bitmap count
        (q.superblock.total_blocks - q.superblock.data_blocks_start)
        q.superblock.data_blocks_start
        (some s)
data_fit-IsFirst count s q nz e =
    subst
      (IsFirstFit q.block_bitmap count (q.superblock.total_blocks - q.superblock.data_blocks_start)
        q.superblock.data_blocks_start)
      e (first_fit-IsFirstFit q.block_bitmap count _ _ nz)

pub data_fit-inside :
    (count s : ℕ) (q : Qfs)
    → IsVolume q
    → 0 < count
    → data_fit count q ≡ some s
    → s + count ≤ 8 * length q.block_bitmap
data_fit-inside count s q v nz e =
    let f = data_fit-IsFirst count s q nz e in omega (arith, f.1, v.room, v.data_inside)

pub alloc_extent_none :
    (count : ℕ) (q : Qfs)
    → 0 < count
    → data_fit count q ≡ none
    → qfs_alloc_extent count q ≡ (0, no_extent, q)
unfolding qfs_alloc_extent
alloc_extent_none count q nz n =
    let z : (count == 0) ≡ false = ground arith in
    rw
      (
        z,
        scan-first_fit q.block_bitmap count
            (q.superblock.total_blocks - q.superblock.data_blocks_start)
            q.superblock.data_blocks_start 0 nz,
        n,
      )
      refl

abbrev pub extended : ℕ → ℕ → Qfs → Qfs
extended s count q = record q {
  block_bitmap = set_range s count q.block_bitmap;
  superblock = record q.superblock { free_blocks = sub32 q.superblock.free_blocks count };
}

pub alloc_extent_some :
    (count s : ℕ) (q : Qfs)
    → 0 < count
    → data_fit count q ≡ some s
    → qfs_alloc_extent count q
      ≡ (s, record { start_block = s; length = count % 2 ^ 16 }, extended s count q)
unfolding qfs_alloc_extent
alloc_extent_some count s q nz f =
    let z : (count == 0) ≡ false = ground arith in
    rw
      (
        z,
        scan-first_fit q.block_bitmap count
            (q.superblock.total_blocks - q.superblock.data_blocks_start)
            q.superblock.data_blocks_start 0 nz,
        f,
      )
      refl

-- On a volume, an allocation of at least one block takes the blocks that the plain first-fit search
-- over the data blocks names, marks exactly these, records them and counts them off the free ones;
-- it returns 0 and changes nothing if that search finds none.
pub alloc_extent_first_fit :
    (count : ℕ) (q : Qfs)
    → IsVolume q
    → 0 < count
    → ExtentOutcome count q (data_fit count q) (qfs_alloc_extent count q)
alloc_extent_first_fit count q v nz = elim (Option-cases (data_fit count q)) [
  | inl n ↦ rw (alloc_extent_none count q nz n, n) (refl, refl)
  | inr (k, f) ↦
      rw (alloc_extent_some count k q nz f, f)
        (
          refl,
          refl,
          λ j.
              get_bit-set_range k count q.block_bitmap j v.bytes (data_fit-inside count k q v nz f),
          refl,
        )
]

-- An extent of fewer than 2 ^ 16 blocks that is allocated on a volume and freed again leaves the map
-- of blocks and the superblock as they were.
pub free_extent-alloc_extent :
    (count : ℕ) (q : Qfs)
    → IsVolume q
    → 0 < count
    → count < 2 ^ 16
    → (qfs_alloc_extent count q).0 ≢ 0
    → let (start, e, q') = qfs_alloc_extent count q in
      let q'' = qfs_free_extent e q' in
      ((j : ℕ) → get_bit q''.block_bitmap j ≡ get_bit q.block_bitmap j)
      × (q''.superblock ≡ q.superblock)
unfolding qfs_free_extent
free_extent-alloc_extent count q v nz small got = elim (Option-cases (data_fit count q)) [
  | inl n ↦ absurd (got (ap (λ r. r.0) (alloc_extent_none count q nz n)))
  | inr (k, f) ↦
      let l : count % 2 ^ 16 ≡ count = omega arith in
      let inside = data_fit-inside count k q v nz f in
      let free : IsFreeRun q.block_bitmap k count = (data_fit-IsFirst count k q nz f).2 in
      let marked = set_range k count q.block_bitmap in
      let len : length marked ≡ length q.block_bitmap = length-set_range k count q.block_bitmap in
      let back : add32 (sub32 q.superblock.free_blocks count) count ≡ q.superblock.free_blocks =
        let w = v.free_32 in omega arith in
      rw (alloc_extent_some count k q nz f, l)
        (
          λ j.
              get_bit-clear_range k count marked j
                (set_range-IsBytes k count q.block_bitmap v.bytes) (omega arith)
              ∙ cleared j (get_bit marked j)
                  (get_bit-set_range k count q.block_bitmap j v.bytes inside) (free j),
          ap (λ x. record q.superblock { free_blocks = x }) back,
        )
]
  where
    cleared :
        {k : ℕ} (j : ℕ) (b : Bool)
        → b ≡ (if in_range k count j then true else get_bit q.block_bitmap j)
        → (k ≤ j → j < k + count → get_bit q.block_bitmap j ≡ false)
        → (if in_range k count j then false else b) ≡ get_bit q.block_bitmap j
    cleared {k} j b e free = elim (Bool-cases (in_range k count j)) [
      | inl i ↦ rw i (sym (free (ground arith) (ground arith)))
      | inr o ↦ rw o (e ∙ rw o refl)
    ]
