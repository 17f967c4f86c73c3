-- ===== src/Qfs/Cache.antt =====
-- The cache of inodes: `qfs_load_inode` and the writes through the pointer it returns.
use base_kernel.Base.{
  some_value, ℕ, ◌%◌, ◌≤◌, ◌<◌, ◌≡◌, refl, sym, subst, ◌∙◌, inl, inr, Bool, true, false, ◌||◌, List,
  Option, none, some, leb, ◌==◌, if◌then◌else◌, Bool-cases, Option-cases, arith, length, get_or,
  set, add64, length-set, get_or-set_self, get_or-set_ne,
}
use base_kernel.Bitmap.Laws.{IsBytes}
use base_kernel.Qfs.{Qfs, Inode, fresh_inode, cached, write_back, qfs_load_inode}
use base_kernel.Qfs.Extents.{IsVolume}
use base_kernel.Qfs.Inodes.{IsInodeTable}

-- An inode of the table with its four extents.
abbrev pub IsEntry : ℕ → Inode → Type 0
IsEntry total i = (1 ≤ i.ino) × (i.ino < total) × (length i.extents ≡ 4)

-- Both maps cover what they count, and an inode is cached in the slot of its number.
pub record IsMounted (q : Qfs) : Type 0 where
  pub volume : IsVolume q
  pub table : IsInodeTable q
  pub cache_length : length q.inode_cache ≡ 256
  pub entries :
      (k : ℕ) (i : Inode)
      → get_or q.inode_cache k none ≡ some i
      → (i.ino % 256 ≡ k) × IsEntry q.superblock.total_inodes i

pub same_maps :
    (q q' : Qfs)
    → q.block_bitmap ≡ q'.block_bitmap
    → q.inode_bitmap ≡ q'.inode_bitmap
    → q.superblock ≡ q'.superblock
    → IsMounted q
    → length q'.inode_cache ≡ 256
    → ((k : ℕ) (i : Inode)
        → get_or q'.inode_cache k none ≡ some i
        → (i.ino % 256 ≡ k) × IsEntry q.superblock.total_inodes i)
    → IsMounted q'
same_maps q q' a b c m l e = record {
  volume = record {
    bytes = subst IsBytes a m.volume.bytes;
    room = rw (sym a, sym c) m.volume.room;
    data_inside = rw (sym c) m.volume.data_inside;
    free_32 = rw (sym c) m.volume.free_32;
  };
  table = record {
    bytes = subst IsBytes b m.table.bytes;
    room = rw (sym b, sym c) m.table.room;
    some_inode = rw (sym c) m.table.some_inode;
    free_32 = rw (sym c) m.table.free_32;
  };
  cache_length = l;
  entries = λ k i h. rw (sym c) (e k i h);
}

set-IsEntry :
    (i : Inode) (q : Qfs)
    → IsMounted q
    → IsEntry q.superblock.total_inodes i
    → (k : ℕ) (j : Inode) → get_or (set q.inode_cache (i.ino % 256) (some i)) k none ≡ some j
    → (j.ino % 256 ≡ k) × IsEntry q.superblock.total_inodes j
set-IsEntry i q m e k j h = elim (Bool-cases (i.ino % 256 == k)) [
  | inl same ↦
      let at : i.ino % 256 ≡ k = ground arith in
      let l = m.cache_length in
      let stored = get_or-set_self q.inode_cache (i.ino % 256) (some i) none (omega arith) in
      let moved =
        subst (λ x. get_or (set q.inode_cache (i.ino % 256) (some i)) x none ≡ some i) at stored in
      let v : i ≡ j = some_value (sym moved ∙ h) in
      subst (λ x. (x.ino % 256 ≡ k) × IsEntry q.superblock.total_inodes x) v (at, e)
  | inr other ↦
      m.entries k j
        (sym (get_or-set_ne q.inode_cache (i.ino % 256) k (some i) none (ground arith)) ∙ h)
]

pub write_back-IsMounted :
    (i : Inode) (q : Qfs)
    → IsMounted q
    → IsEntry q.superblock.total_inodes i
    → IsMounted (write_back i q)
write_back-IsMounted i q m e =
    same_maps q (write_back i q) refl refl refl m
      (length-set q.inode_cache (i.ino % 256) (some i) ∙ m.cache_length) (set-IsEntry i q m e)

-- What `qfs_load_inode` finds is the inode of the number in its slot, and the maps stay.
abbrev pub LoadOutcome : ℕ → Qfs → Option Inode × Qfs → Type 0
LoadOutcome ino q (o, q') =
    IsMounted q'
    × (q'.superblock ≡ q.superblock)
    × ((i : Inode)
        → o ≡ some i
        → (i.ino ≡ ino)
          × IsEntry q.superblock.total_inodes i
          × (get_or q'.inode_cache (ino % 256) none ≡ some i))

none_value : {i : Inode} {P : Type 0} → none ≡ some i → P
none_value e = absurd (ground (arith, e))

cached_some :
    (ino : ℕ) (cache : List (Option Inode)) (i : Inode)
    → cached ino cache ≡ some i
    → (get_or cache (ino % 256) none ≡ some i) × (i.ino ≡ ino)
cached_some ino cache i h = slot (get_or cache (ino % 256) none) h
  where
    slot :
        (o : Option Inode)
        → elim o [ none ↦ none | some i ↦ if i.ino == ino then some i else none ] ≡ some i
        → (o ≡ some i) × (i.ino ≡ ino)
    slot none e = none_value e
    slot (some j) e = elim (Bool-cases (j.ino == ino)) [
      | inl same ↦
          let v : j ≡ i = some_value (rw same at e) in
          subst (λ x. (some j ≡ some x) × (x.ino ≡ ino)) v (refl, ground arith)
      | inr other ↦ none_value (rw other at e)
    ]

pub load_inode-Outcome :
    (room : Bool) (ino : ℕ) (q : Qfs) → IsMounted q → LoadOutcome ino q (qfs_load_inode room ino q)
unfolding qfs_load_inode
load_inode-Outcome room ino q m =
    elim (Bool-cases (ino == 0 || leb q.superblock.total_inodes ino)) [
      | inl bad ↦ rw bad (m, refl, λ i h. none_value h)
      | inr good ↦ elim (Option-cases (cached ino q.inode_cache)) [
        | inl miss ↦ absent room good miss
        | inr (j, hit) ↦
            let c = cached_some ino q.inode_cache j hit in
            rw (good, hit)
              (
                same_maps q (record q { cache_hits = add64 q.cache_hits 1 }) refl refl refl m
                    m.cache_length m.entries,
                refl,
                λ i h.
                    subst
                      (λ x.
                        (x.ino ≡ ino)
                        × IsEntry q.superblock.total_inodes x
                        × (get_or q.inode_cache (ino % 256) none ≡ some x))
                      (some_value h) (c.1, (m.entries (ino % 256) j c.0).1, c.0),
              )
      ]
    ]
  where
    absent :
        (room : Bool)
        → (ino == 0 || leb q.superblock.total_inodes ino) ≡ false
        → cached ino q.inode_cache ≡ none
        → LoadOutcome ino q (qfs_load_inode room ino q)
    absent false good miss = rw (good, miss) (m, refl, λ i h. none_value h)
    absent true good miss =
        let e : IsEntry q.superblock.total_inodes (fresh_inode ino) =
          (ground arith, ground arith, refl) in
        let l = m.cache_length in
        rw (good, miss)
          (
            write_back-IsMounted (fresh_inode ino) q m e,
            refl,
            λ i h.
                subst
                  (λ x.
                    (x.ino ≡ ino)
                    × IsEntry q.superblock.total_inodes x
                    × (get_or (set q.inode_cache (ino % 256) (some (fresh_inode ino))) (ino % 256)
                          none
                        ≡ some x))
                  (some_value h)
                  (
                    refl,
                    e,
                    get_or-set_self q.inode_cache (ino % 256) (some (fresh_inode ino)) none
                        (omega arith),
                  ),
          )
