-- ===== src/Qfs.antt =====
-- fs/qfs.c: blocks and inodes over two bitmaps, and inodes in a cache of 256 entries. `Qfs` is the
-- state after `qfs_init`. What `kmalloc_tracked` finds and what `time_monotonic_ms` tells are
-- arguments. A pointer to an inode points into the cache. A division by 0 yields 0.
mod State
pub mod FirstFit
pub mod Extents
pub mod Inodes
pub mod Cache
pub mod Growth
pub mod Files
pub mod Writes
mod Tests
pub use State.*
use base_kernel.Base.{
  ℕ, zero, suc, ◌+◌, ◌-◌, ◌*◌, ◌/◌, ◌%◌, ◌^◌, Bool, true, false, not, ◌&&◌, ◌||◌, List, [], ◌∷◌,
  Option, none, some, ltb, leb, ◌==◌, if◌then◌else◌, add32, sub32, add64, sub64, mul64, get_or, set,
  replicate,
}
use base_kernel.Base.Int.{ℤ, pos, negsuc, int64}
use base_kernel.Bitmap.{Bitmap, get_bit, set_bit, clear_bit, set_range, clear_range}

-- The share of sequential accesses in percent, in 32 bits.
pub seq_percent : AccessPattern → ℕ
seq_percent p =
    let total =
      add32 (add32 (add32 p.sequential_reads p.random_reads) p.sequential_writes) p.random_writes in
    let sequential = add32 p.sequential_reads p.sequential_writes in
    (sequential * 100) % 2 ^ 32 / total

-- The block size, and whether `block_adaptations` goes up.
pub qfs_calculate_optimal_block_size : AccessPattern → ℕ × Bool
qfs_calculate_optimal_block_size p =
    if p.access_count == 0
    then (default_block_size, false)
    else if ltb sequential_threshold (seq_percent p)
    then (max_block_size, true)
    else if ltb (seq_percent p) random_threshold
    then (min_block_size, true)
    else (default_block_size, false)

-- The search of `qfs_alloc_extent` at block `i`, with `n` blocks left.
pub scan : Bitmap → ℕ → ℕ → ℕ → ℕ → ℕ → Option ℕ
scan bm count zero i consecutive start = none
scan bm count (suc n) i consecutive start =
    let s = if consecutive == 0 then i else start in
    elim (get_bit bm i) [
      | true ↦ scan bm count n (i + 1) 0 start
      | false ↦ elim (consecutive + 1 == count) [
        | true ↦ some s
        | false ↦ scan bm count n (i + 1) (consecutive + 1) s
      ]
    ]

-- The result, what is written to `*extent` where the search succeeds, and the new state.
pub qfs_alloc_extent : ℕ → Qfs → ℕ × Extent × Qfs
qfs_alloc_extent count q =
    let sb = q.superblock in
    if count == 0
    then (0, no_extent, q)
    else elim (scan q.block_bitmap count (sb.total_blocks - sb.data_blocks_start)
        sb.data_blocks_start 0 0) [
          | none ↦ (0, no_extent, q)
          | some s ↦ (
            s,
            record { start_block = s; length = count % 2 ^ 16 },
            record q {
              block_bitmap = set_range s count q.block_bitmap;
              superblock = record sb { free_blocks = sub32 sb.free_blocks count };
            },
          )
        ]

pub qfs_free_extent : Extent → Qfs → Qfs
qfs_free_extent e q = record q {
  block_bitmap = clear_range e.start_block e.length q.block_bitmap;
  superblock = record q.superblock { free_blocks = add32 q.superblock.free_blocks e.length };
}

-- The first clear bit from `i` on, among `n`.
pub first_clear : Bitmap → ℕ → ℕ → Option ℕ
first_clear bm zero i = none
first_clear bm (suc n) i = elim (get_bit bm i) [ false ↦ some i | true ↦ first_clear bm n (i + 1) ]

-- 0 if there is none.
pub qfs_alloc_inode : Qfs → ℕ × Qfs
qfs_alloc_inode q =
    let sb = q.superblock in
    if sb.free_inodes == 0
    then (0, q)
    else elim (first_clear q.inode_bitmap (sb.total_inodes - 1) 1) [
      | none ↦ (0, q)
      | some i ↦ (
        i,
        record q {
          inode_bitmap = set_bit q.inode_bitmap i;
          superblock = record sb { free_inodes = sub32 sb.free_inodes 1 };
        },
      )
    ]

pub qfs_free_inode : ℕ → Qfs → Qfs
qfs_free_inode ino q =
    let sb = q.superblock in
    if ino == 0 || leb sb.total_inodes ino then q else record q {
      inode_bitmap = clear_bit q.inode_bitmap ino;
      superblock = record sb { free_inodes = add32 sb.free_inodes 1 };
    }

abbrev pub cached : ℕ → List (Option Inode) → Option Inode
cached ino cache = elim (get_or cache (ino % 256) none) [
  | none ↦ none
  | some i ↦ if i.ino == ino then some i else none
]

-- `room` is whether `kmalloc_tracked` finds some.
pub qfs_load_inode : Bool → ℕ → Qfs → Option Inode × Qfs
qfs_load_inode room ino q =
    if ino == 0 || leb q.superblock.total_inodes ino
    then (none, q)
    else elim (cached ino q.inode_cache) [
      | some i ↦ (some i, record q { cache_hits = add64 q.cache_hits 1 })
      | none ↦
          if room
          then (
            some (fresh_inode ino),
            record q { inode_cache = set q.inode_cache (ino % 256) (some (fresh_inode ino)) },
          )
          else (none, q)
    ]

-- The fields of the inode that a pointer names are written.
abbrev pub write_back : Inode → Qfs → Qfs
write_back i q = record q { inode_cache = set q.inode_cache (i.ino % 256) (some i) }

abbrev pub created : ℕ → ℕ → Inode → Inode
created mode now i = record i {
  mode = mode;
  uid = 0;
  gid = 0;
  size = 0;
  blocks = 0;
  link_count = 1;
  atime = now;
  mtime = now;
  ctime = now;
  pattern = record i.pattern { preferred_block_size = default_block_size };
  coherence_window = 100;
}

pub qfs_create_file : Bool → ℕ → ℕ → Qfs → ℕ × Qfs
qfs_create_file room mode now q =
    let (ino, q₁) = qfs_alloc_inode q in
    let (inode, q₂) = qfs_load_inode room ino q₁ in
    if ino == 0 then (0, q₁) else elim inode [
      | none ↦ (0, qfs_free_inode ino q₂)
      | some i ↦ (ino, write_back (created mode now i) q₂)
    ]

abbrev pub adapt : Bool → Qfs → Qfs
adapt adapted q = record q {
  block_adaptations = if adapted then add64 q.block_adaptations 1 else q.block_adaptations;
}

-- `true` for 0, since no byte is read, `false` for -1.
pub qfs_read : Bool → ℕ → ℕ → Qfs → Bool × Qfs
qfs_read room ino now q₀ =
    let q = record q₀ { total_reads = add64 q₀.total_reads 1 } in
    let (inode, q₁) = qfs_load_inode room ino q in
    elim inode [
      | none ↦ (false, q₁)
      | some i ↦
          let p = record i.pattern {
            access_count = add32 i.pattern.access_count 1;
            sequential_reads = add32 i.pattern.sequential_reads 1;
            last_access = now;
          } in
          let (size, adapted) = qfs_calculate_optimal_block_size p in
          let i₁ = record i { atime = now; pattern = record p { preferred_block_size = size } } in
          (true, adapt adapted (write_back i₁ q₁))
    ]

-- The first entry of length 0 takes the extent; without one the list stays as it is.
pub put_extent : Extent → List Extent → Option (List Extent)
put_extent e [] = none
put_extent e (x ∷ xs) = elim (x.length == 0) [
  | true ↦ some (e ∷ xs)
  | false ↦ elim (put_extent e xs) [ none ↦ none | some ys ↦ some (x ∷ ys) ]
]

abbrev pub add_extent : Extent → Inode → Inode
add_extent e i = elim (put_extent e i.extents) [
  | none ↦ i
  | some xs ↦ record i { extents = xs; blocks = add64 i.blocks e.length }
]

-- The inode gets blocks if it needs some and the search finds them.
pub grow : ℕ → ℕ → Inode → Qfs → Inode × Qfs
grow count block_size i q =
    let needed = (add64 count block_size + 2 ^ 64 - 1) % 2 ^ 64 / block_size % 2 ^ 32 in
    if ltb (mul64 i.blocks block_size) (add64 i.size count)
    then (let (start, extent, q₁) = qfs_alloc_extent needed q in
        (if start == 0 then i else add_extent extent i, q₁))
    else (i, q)

abbrev pub noted_write : ℕ → Inode → Inode
noted_write now i = record i {
  mtime = now;
  ctime = now;
  pattern = record i.pattern {
    access_count = add32 i.pattern.access_count 1;
    sequential_writes = add32 i.pattern.sequential_writes 1;
    last_access = now;
  };
}

-- `none` for -1.
-- The count goes back as `int64_t`, and so does -1 where there is no inode.
pub qfs_write : Bool → ℕ → ℕ → ℕ → Qfs → ℤ × Qfs
qfs_write room ino count now q₀ =
    let q = record q₀ { total_writes = add64 q₀.total_writes 1 } in
    let (inode, q₁) = qfs_load_inode room ino q in
    elim inode [
      | none ↦ (negsuc 0, q₁)
      | some i ↦
          let i₁ = noted_write now i in
          let (block_size, adapted) = qfs_calculate_optimal_block_size i₁.pattern in
          let (i₂, q₂) = grow count block_size i₁ (adapt adapted q₁) in
          (int64 count, write_back (record i₂ { size = add64 i₂.size count }) q₂)
    ]

pub qfs_journal_begin_transaction : Qfs → Qfs
qfs_journal_begin_transaction q = record q {
  journal_transaction_id = add32 q.journal_transaction_id 1;
}

-- The state after `qfs_init`, where its three allocations work.
pub qfs_init : Qfs
qfs_init = record {
  superblock = record {
    magic = 0x51465321;
    version = 1;
    block_size = default_block_size;
    total_blocks = 65536;
    free_blocks = 64000;
    total_inodes = 16384;
    free_inodes = 16383;
    inode_table_start = 10;
    data_blocks_start = 1024;
    journal_start = 64512;
    root_inode = 1;
  };
  block_bitmap = replicate 8192 0;
  inode_bitmap = set_bit (replicate 2048 0) 1;
  inode_cache = replicate 256 none;
  journal_transaction_id = 0;
  total_reads = 0;
  total_writes = 0;
  cache_hits = 0;
  block_adaptations = 0;
}
