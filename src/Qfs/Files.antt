-- ===== src/Qfs/Files.antt =====
-- Calls of the file operations, one after the other.
use base_kernel.Base.{
  ℕ, zero, suc, ◌-◌, ◌*◌, ◌≤◌, ◌≡◌, refl, sym, ◌∙◌, inl, inr, Bool, ◌||◌, List, [], ◌∷◌, Option,
  none, leb, ◌==◌, Bool-cases, Option-cases, arith, length, get_or, add64, replicate,
  length-replicate,
}
use base_kernel.Bitmap.Laws.{
  IsBytes, set_bit-IsBytes, length-set_bit, clear_bit-IsBytes, length-clear_bit,
}
use base_kernel.Qfs.{
  Qfs, Inode, qfs_load_inode, qfs_alloc_inode, qfs_free_inode, grow, first_clear, noted_write,
  qfs_calculate_optimal_block_size,
}
use base_kernel.Qfs.Inodes.{alloc_inode_none, alloc_inode_some, alloc_inode_empty}
use base_kernel.Qfs.Cache.{IsEntry, IsMounted, same_maps, write_back-IsMounted, load_inode-Outcome}
use base_kernel.Qfs.Growth.{GrowOutcome, grow-Outcome}
use base_kernel.Qfs.{
  qfs_create_file, qfs_read, qfs_write, qfs_journal_begin_transaction, qfs_init, adapt, created,
}

alloc_inode-IsMounted :
    (q : Qfs)
    → IsMounted q
    → IsMounted (qfs_alloc_inode q).1
      × ((qfs_alloc_inode q).1.superblock.total_inodes ≡ q.superblock.total_inodes)
alloc_inode-IsMounted q m = elim (Bool-cases (q.superblock.free_inodes == 0)) [
  | inl z ↦ rw (alloc_inode_empty q z) (m, refl)
  | inr nz ↦ elim (Option-cases (first_clear q.inode_bitmap (q.superblock.total_inodes - 1) 1)) [
    | inl n ↦ rw (alloc_inode_none q nz n) (m, refl)
    | inr (k, f) ↦ rw (alloc_inode_some q k nz f) (
      record {
        volume = record {
          bytes = m.volume.bytes;
          room = m.volume.room;
          data_inside = m.volume.data_inside;
          free_32 = m.volume.free_32;
        };
        table = record {
          bytes = set_bit-IsBytes q.inode_bitmap k m.table.bytes;
          room = rw (length-set_bit q.inode_bitmap k) m.table.room;
          some_inode = m.table.some_inode;
          free_32 = omega arith;
        };
        cache_length = m.cache_length;
        entries = m.entries;
      },
      refl,
    )
  ]
]

free_inode-IsMounted : (ino : ℕ) (q : Qfs) → IsMounted q → IsMounted (qfs_free_inode ino q)
unfolding qfs_free_inode
free_inode-IsMounted ino q m = elim (Bool-cases (ino == 0 || leb q.superblock.total_inodes ino)) [
  | inl bad ↦ rw bad m
  | inr good ↦ rw good (record {
    volume = record {
      bytes = m.volume.bytes;
      room = m.volume.room;
      data_inside = m.volume.data_inside;
      free_32 = m.volume.free_32;
    };
    table = record {
      bytes = clear_bit-IsBytes q.inode_bitmap ino m.table.bytes;
      room = rw (length-clear_bit q.inode_bitmap ino) m.table.room;
      some_inode = m.table.some_inode;
      free_32 = omega arith;
    };
    cache_length = m.cache_length;
    entries = m.entries;
  })
]

create_file-IsMounted :
    (room : Bool) (mode now : ℕ) (q : Qfs)
    → IsMounted q
    → IsMounted (qfs_create_file room mode now q).1
unfolding qfs_create_file
create_file-IsMounted room mode now q m =
    let (ino, q₁) = qfs_alloc_inode q in
    let m₁ = (alloc_inode-IsMounted q m).0 in
    let loaded = load_inode-Outcome room ino q₁ m₁ in
    elim (Bool-cases (ino == 0)) [
      | inl z ↦ rw z m₁
      | inr nz ↦ elim (Option-cases (qfs_load_inode room ino q₁).0) [
        | inl n ↦ rw (nz, n) (free_inode-IsMounted ino (qfs_load_inode room ino q₁).1 loaded.0)
        | inr (i, e) ↦
            rw (nz, e)
              (write_back-IsMounted (created mode now i) (qfs_load_inode room ino q₁).1 loaded.0
                (rw (loaded.1) ((loaded.2 i e).1)))
      ]
    ]

pub adapt-IsMounted : (b : Bool) (q : Qfs) → IsMounted q → IsMounted (adapt b q)
adapt-IsMounted b q m = same_maps q (adapt b q) refl refl refl m m.cache_length m.entries

read-IsMounted :
    (room : Bool) (ino now : ℕ) (q : Qfs) → IsMounted q → IsMounted (qfs_read room ino now q).1
unfolding qfs_read
read-IsMounted room ino now q m =
    let counted = record q { total_reads = add64 q.total_reads 1 } in
    let m₀ = same_maps q counted refl refl refl m m.cache_length m.entries in
    let loaded = load_inode-Outcome room ino counted m₀ in
    elim (Option-cases (qfs_load_inode room ino counted).0) [
      | inl n ↦ rw (qfs_read, n) loaded.0
      | inr (i, e) ↦
          rw (qfs_read, e)
            (adapt-IsMounted _ _ (
              write_back-IsMounted _ (qfs_load_inode room ino counted).1 loaded.0
                (rw (loaded.1) ((loaded.2 i e).1))))
    ]

-- What `qfs_write` leaves where the inode `i` is found in `q₁`.
abbrev pub written : ℕ → ℕ → Inode → Qfs → Inode × Qfs
written count now i q₁ =
    let (block_size, adapted) = qfs_calculate_optimal_block_size (noted_write now i).pattern in
    grow count block_size (noted_write now i) (adapt adapted q₁)

pub written-Outcome :
    (count now : ℕ) (i : Inode) (q : Qfs)
    → IsMounted q
    → IsEntry q.superblock.total_inodes i
    → GrowOutcome (noted_write now i) q (written count now i q)
written-Outcome count now i q m e =
    let (block_size, adapted) = qfs_calculate_optimal_block_size (noted_write now i).pattern in
    grow-Outcome count block_size (noted_write now i) (adapt adapted q)
      (adapt-IsMounted adapted q m) e

write-IsMounted :
    (room : Bool) (ino count now : ℕ) (q : Qfs)
    → IsMounted q
    → IsMounted (qfs_write room ino count now q).1
unfolding qfs_write
write-IsMounted room ino count now q m =
    let counted = record q { total_writes = add64 q.total_writes 1 } in
    let m₀ = same_maps q counted refl refl refl m m.cache_length m.entries in
    let loaded = load_inode-Outcome room ino counted m₀ in
    elim (Option-cases (qfs_load_inode room ino counted).0) [
      | inl n ↦ rw (qfs_write, n) loaded.0
      | inr (i, e) ↦
          let q₁ = (qfs_load_inode room ino counted).1 in
          let w = written-Outcome count now i q₁ loaded.0 (rw (loaded.1) ((loaded.2 i e).1)) in
          let (i₂, q₂) = written count now i q₁ in
          rw (qfs_write, e)
            (write_back-IsMounted (record i₂ { size = add64 i₂.size count }) q₂ w.0 w.1)
    ]

-- A call from outside, with what the heap and the clock tell.
pub data Call : Type 0 where
  create : (room : Bool) (mode now : ℕ) → Call
  read : (room : Bool) (ino now : ℕ) → Call
  write : (room : Bool) (ino count now : ℕ) → Call
  begin : Call

pub perform : Call → Qfs → Qfs
perform (create room mode now) q = (qfs_create_file room mode now q).1
perform (read room ino now) q = (qfs_read room ino now q).1
perform (write room ino count now) q = (qfs_write room ino count now q).1
perform begin q = qfs_journal_begin_transaction q

pub perform_all : List Call → Qfs → Qfs
perform_all [] q = q
perform_all (c ∷ cs) q = perform_all cs (perform c q)

perform-IsMounted : (c : Call) (q : Qfs) → IsMounted q → IsMounted (perform c q)
unfolding perform qfs_journal_begin_transaction
perform-IsMounted (create room mode now) q m = create_file-IsMounted room mode now q m
perform-IsMounted (read room ino now) q m = read-IsMounted room ino now q m
perform-IsMounted (write room ino count now) q m = write-IsMounted room ino count now q m
perform-IsMounted begin q m =
    same_maps q (qfs_journal_begin_transaction q) refl refl refl m m.cache_length m.entries

perform_all_keeps : (cs : List Call) (q : Qfs) → IsMounted q → IsMounted (perform_all cs q)
unfolding perform_all
perform_all_keeps [] q m = m
perform_all_keeps (c ∷ cs) q m = perform_all_keeps cs (perform c q) (perform-IsMounted c q m)

replicate-IsBytes : (n : ℕ) → IsBytes (replicate n 0)
replicate-IsBytes zero = _
replicate-IsBytes (suc n) = (omega arith, replicate-IsBytes n)

covers : (n : ℕ) → 8 * n ≤ 8 * length (replicate {A = ℕ} n 0)
covers n = rw (length-replicate {A = ℕ} n 0) (omega arith)

get_or-none : (n k : ℕ) → get_or {A = Option Inode} (replicate n none) k none ≡ none
get_or-none zero k = refl
get_or-none (suc n) zero = refl
get_or-none (suc n) (suc k) = get_or-none n k

pub init-IsMounted : IsMounted qfs_init
unfolding qfs_init
init-IsMounted = record {
  volume = record {
    bytes = replicate-IsBytes 8192;
    room = covers 8192;
    data_inside = omega arith;
    free_32 = omega arith;
  };
  table = record {
    bytes = set_bit-IsBytes (replicate 2048 0) 1 (replicate-IsBytes 2048);
    room = omega (arith, covers 2048, length-set_bit (replicate 2048 0) 1);
    some_inode = omega arith;
    free_32 = omega arith;
  };
  cache_length = length-replicate {A = Option Inode} 256 none;
  entries = λ k i h. absurd (let n = get_or-none 256 k in ground (arith, sym n ∙ h));
}

-- After `qfs_init` and any calls of the file operations, both maps are arrays of bytes that cover
-- the blocks and the inodes, the counts of free ones fit their 32 bits, and every cached inode stands
-- in the slot of its number, with a number of the table and four extents.
pub perform_all-IsMounted : (cs : List Call) → IsMounted (perform_all cs qfs_init)
perform_all-IsMounted cs = perform_all_keeps cs qfs_init init-IsMounted
