-- ===== src/Qfs/Tests.antt =====
-- A volume of 16 blocks and 16 inodes, and the theorems at it.
use base_kernel.Base.{ℕ, ◌≡◌, refl, true, false, [], ◌∷◌, some, arith, add64}
use base_kernel.Base.Int.{pos}
use base_kernel.Bitmap.{get_bit}
use base_kernel.Qfs
use base_kernel.Qfs.{
  Qfs, Inode, qfs_init, qfs_alloc_extent, qfs_free_extent, qfs_alloc_inode, qfs_free_inode,
  qfs_load_inode, qfs_write, qfs_create_file, fresh_inode,
}
use base_kernel.Qfs.Extents.{
  IsVolume, ExtentOutcome, data_fit, alloc_extent_first_fit, free_extent-alloc_extent,
}
use base_kernel.Qfs.Inodes.{IsInodeTable, InodeOutcome, alloc_inode_lowest}
use base_kernel.Qfs.Cache.{IsMounted}
use base_kernel.Qfs.Files.{
  create, read, write, begin, perform_all, perform_all-IsMounted, init-IsMounted,
}
use base_kernel.Qfs.Writes.{load_inode-write}

abbrev small : Qfs
small = record qfs_init {
  superblock = record {
    magic = 0x51465321;
    version = 1;
    block_size = 4096;
    total_blocks = 16;
    free_blocks = 14;
    total_inodes = 16;
    free_inodes = 14;
    inode_table_start = 1;
    data_blocks_start = 2;
    journal_start = 15;
    root_inode = 1;
  };
  block_bitmap = 4 ∷ 0 ∷ [];
  inode_bitmap = 2 ∷ 0 ∷ [];
}

small-IsVolume : IsVolume small
small-IsVolume = record {
  bytes = (omega arith, (omega arith, _));
  room = omega arith;
  data_inside = omega arith;
  free_32 = omega arith;
}

small-IsInodeTable : IsInodeTable small
small-IsInodeTable = record {
  bytes = (omega arith, (omega arith, _));
  room = omega arith;
  some_inode = omega arith;
  free_32 = omega arith;
}

alloc_extent_first_fit_example : ExtentOutcome 4 small (data_fit 4 small) (qfs_alloc_extent 4 small)
alloc_extent_first_fit_example = alloc_extent_first_fit 4 small small-IsVolume (omega arith)

extent_start : (qfs_alloc_extent 4 small).0 ≡ 3
unfolding qfs_alloc_extent Qfs.scan get_bit qfs_init
extent_start = refl

free_extent-alloc_extent_example :
    let (start, e, q') = qfs_alloc_extent 4 small in
    let q'' = qfs_free_extent e q' in
    ((j : ℕ) → get_bit q''.block_bitmap j ≡ get_bit small.block_bitmap j)
    × (q''.superblock ≡ small.superblock)
free_extent-alloc_extent_example =
    free_extent-alloc_extent 4 small small-IsVolume (omega arith) (omega arith)
      (omega (arith, extent_start))

alloc_inode_lowest_example : InodeOutcome small (qfs_alloc_inode small)
alloc_inode_lowest_example = alloc_inode_lowest small small-IsInodeTable

inode_number : (qfs_alloc_inode small).0 ≡ 2
unfolding qfs_alloc_inode Qfs.first_clear get_bit qfs_init
inode_number = refl

perform_all-IsMounted_example :
    IsMounted (
      perform_all (create true 420 5 ∷ write true 2 9000 6 ∷ read true 258 7 ∷ begin ∷ []) qfs_init)
perform_all-IsMounted_example =
    perform_all-IsMounted (create true 420 5 ∷ write true 2 9000 6 ∷ read true 258 7 ∷ begin ∷ [])

load_root : (qfs_load_inode true 1 qfs_init).0 ≡ some (fresh_inode 1)
unfolding qfs_load_inode qfs_init
load_root = refl

load_inode-write_example :
    let (result, q') = qfs_write true 1 9000 6 qfs_init in
    (result ≡ pos 9000)
    × (j : Inode) × ((qfs_load_inode false 1 q').0 ≡ some j)
    × (j.ino ≡ 1)
    × (j.size ≡ add64 0 9000)
    × (j.mtime ≡ 6)
load_inode-write_example =
    load_inode-write true false 1 9000 6 (fresh_inode 1) qfs_init init-IsMounted load_root
