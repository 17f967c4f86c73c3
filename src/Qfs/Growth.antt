-- ===== src/Qfs/Growth.antt =====
-- `grow`, the part of `qfs_write` that allocates an extent.
use base_kernel.Base.{
  some_value, ℕ, suc, ◌+◌, ◌-◌, ◌/◌, ◌%◌, ◌^◌, ◌≡◌, refl, sym, ap, ◌∙◌, inl, inr, List, [], ◌∷◌,
  Option, none, some, ltb, ◌==◌, if◌then◌else◌, Bool-cases, Option-cases, arith, length, add64,
  mul64,
}
use base_kernel.Bitmap.Range.{set_range-IsBytes, length-set_range}
use base_kernel.Qfs.{Qfs, Inode, Extent, no_extent, put_extent, add_extent, qfs_alloc_extent, grow}
use base_kernel.Qfs.Extents.{data_fit, alloc_extent_none, alloc_extent_some}
use base_kernel.Qfs.Cache.{IsEntry, IsMounted}

put_extent_length :
    (e : Extent) (xs ys : List Extent) → put_extent e xs ≡ some ys → length ys ≡ length xs
unfolding put_extent
put_extent_length e [] ys h = absurd (ground (arith, h))
put_extent_length e (x ∷ xs) ys h = elim (Bool-cases (x.length == 0)) [
  | inl free ↦ sym (ap length (some_value (rw (put_extent, free) at h)))
  | inr full ↦ rest (put_extent e xs) (put_extent_length e xs) (rw (put_extent, full) at h)
]
  where
    rest :
        (o : Option (List Extent))
        → ((zs : List Extent) → o ≡ some zs → length zs ≡ length xs)
        → elim o [ none ↦ none | some ys ↦ some (x ∷ ys) ] ≡ some ys
        → length ys ≡ suc (length xs)
    rest none p k = absurd (ground (arith, k))
    rest (some zs) p k = sym (ap length (some_value k)) ∙ ap suc (p zs refl)

add_extent-IsEntry :
    (total : ℕ) (e : Extent) (i : Inode) → IsEntry total i → IsEntry total (add_extent e i)
unfolding put_extent
add_extent-IsEntry total e i n = elim (Option-cases (put_extent e i.extents)) [
  | inl full ↦ rw (add_extent, full) n
  | inr (xs, p) ↦ rw (add_extent, p) (n.0, n.1, put_extent_length e i.extents xs p ∙ n.2)
]

alloc_extent_zero : (q : Qfs) → qfs_alloc_extent 0 q ≡ (0, no_extent, q)
unfolding qfs_alloc_extent
alloc_extent_zero q = refl

alloc_extent-IsMounted :
    (count : ℕ) (q : Qfs)
    → IsMounted q
    → IsMounted (qfs_alloc_extent count q).2
      × ((qfs_alloc_extent count q).2.superblock.total_inodes ≡ q.superblock.total_inodes)
alloc_extent-IsMounted count q m = elim (Bool-cases (count == 0)) [
  | inl z ↦ let e : count ≡ 0 = ground arith in rw (e, alloc_extent_zero q) (m, refl)
  | inr nz ↦ elim (Option-cases (data_fit count q)) [
    | inl n ↦ rw (alloc_extent_none count q (ground arith) n) (m, refl)
    | inr (s, f) ↦ rw (alloc_extent_some count s q (ground arith) f) (
      record {
        volume = record {
          bytes = set_range-IsBytes s count q.block_bitmap m.volume.bytes;
          room = rw (length-set_range s count q.block_bitmap) m.volume.room;
          data_inside = m.volume.data_inside;
          free_32 = omega arith;
        };
        table = record {
          bytes = m.table.bytes;
          room = m.table.room;
          some_inode = m.table.some_inode;
          free_32 = m.table.free_32;
        };
        cache_length = m.cache_length;
        entries = m.entries;
      },
      refl,
    )
  ]
]

-- What `grow` leaves of an inode of a mounted volume.
abbrev pub GrowOutcome : Inode → Qfs → Inode × Qfs → Type 0
GrowOutcome i q (i', q') =
    IsMounted q'
    × IsEntry q'.superblock.total_inodes i'
    × (i'.ino ≡ i.ino)
    × (i'.size ≡ i.size)
    × (i'.mtime ≡ i.mtime)

add_extent_same :
    (e : Extent) (i : Inode)
    → ((add_extent e i).ino ≡ i.ino)
      × ((add_extent e i).size ≡ i.size)
      × ((add_extent e i).mtime ≡ i.mtime)
unfolding put_extent
add_extent_same e i = elim (Option-cases (put_extent e i.extents)) [
  | inl full ↦ rw (add_extent, full) (refl, refl, refl)
  | inr (xs, p) ↦ rw (add_extent, p) (refl, refl, refl)
]

added :
    (total start : ℕ) (e : Extent) (i : Inode)
    → IsEntry total i
    → let i' = if start == 0 then i else add_extent e i in
      IsEntry total i' × (i'.ino ≡ i.ino) × (i'.size ≡ i.size) × (i'.mtime ≡ i.mtime)
added total start e i n = elim (Bool-cases (start == 0)) [
  | inl z ↦ rw z (n, refl, refl, refl)
  | inr z ↦
      let same = add_extent_same e i in
      rw z (add_extent-IsEntry total e i n, same.0, same.1, same.2)
]

pub grow-Outcome :
    (count block_size : ℕ) (i : Inode) (q : Qfs)
    → IsMounted q
    → IsEntry q.superblock.total_inodes i
    → GrowOutcome i q (grow count block_size i q)
unfolding grow
grow-Outcome count block_size i q m e =
    elim (Bool-cases (ltb (mul64 i.blocks block_size) (add64 i.size count))) [
      | inr enough ↦ rw enough (m, e, refl, refl, refl)
      | inl short ↦
          let needed = (add64 count block_size + 2 ^ 64 - 1) % 2 ^ 64 / block_size % 2 ^ 32 in
          let r = qfs_alloc_extent needed q in
          let k = alloc_extent-IsMounted needed q m in
          let a = added r.2.superblock.total_inodes r.0 r.1 i (rw (k.1) e) in
          rw short (k.0, a.0, a.1, a.2, a.3)
    ]
