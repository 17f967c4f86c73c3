-- ===== src/Qfs/State.antt =====
-- The data of fs/qfs.c. The volume's name and the fields that nothing writes are left out.
use base_kernel.Base.{ℕ, List, Option, replicate}
use base_kernel.Bitmap.{Bitmap}

abbrev pub min_block_size : ℕ
min_block_size = 1024

abbrev pub max_block_size : ℕ
max_block_size = 65536

abbrev pub default_block_size : ℕ
default_block_size = 4096

abbrev pub max_extent_count : ℕ
max_extent_count = 4

abbrev pub sequential_threshold : ℕ
sequential_threshold = 80

abbrev pub random_threshold : ℕ
random_threshold = 20

pub record Superblock : Type 0 where
  pub magic : ℕ
  pub version : ℕ
  pub block_size : ℕ
  pub total_blocks : ℕ
  pub free_blocks : ℕ
  pub total_inodes : ℕ
  pub free_inodes : ℕ
  pub inode_table_start : ℕ
  pub data_blocks_start : ℕ
  pub journal_start : ℕ
  pub root_inode : ℕ

-- `length` has 16 bits.
pub record Extent : Type 0 where
  pub start_block : ℕ
  pub length : ℕ

abbrev pub no_extent : Extent
no_extent = record { start_block = 0; length = 0 }

pub record AccessPattern : Type 0 where
  pub sequential_reads : ℕ
  pub random_reads : ℕ
  pub sequential_writes : ℕ
  pub random_writes : ℕ
  pub last_access : ℕ
  pub access_count : ℕ
  pub preferred_block_size : ℕ

pub record Inode : Type 0 where
  pub ino : ℕ
  pub mode : ℕ
  pub uid : ℕ
  pub gid : ℕ
  pub size : ℕ
  pub blocks : ℕ
  pub atime : ℕ
  pub mtime : ℕ
  pub ctime : ℕ
  pub extents : List Extent
  pub pattern : AccessPattern
  pub coherence_window : ℕ
  pub link_count : ℕ

abbrev pub no_accesses : AccessPattern
no_accesses = record {
  sequential_reads = 0;
  random_reads = 0;
  sequential_writes = 0;
  random_writes = 0;
  last_access = 0;
  access_count = 0;
  preferred_block_size = 0;
}

-- An inode of all zero bytes but for its number.
abbrev pub fresh_inode : ℕ → Inode
fresh_inode ino = record {
  ino = ino;
  mode = 0;
  uid = 0;
  gid = 0;
  size = 0;
  blocks = 0;
  atime = 0;
  mtime = 0;
  ctime = 0;
  extents = replicate max_extent_count no_extent;
  pattern = no_accesses;
  coherence_window = 0;
  link_count = 0;
}

pub record Qfs : Type 0 where
  pub superblock : Superblock
  pub block_bitmap : Bitmap
  pub inode_bitmap : Bitmap
  pub inode_cache : List (Option Inode)
  pub journal_transaction_id : ℕ
  pub total_reads : ℕ
  pub total_writes : ℕ
  pub cache_hits : ℕ
  pub block_adaptations : ℕ
