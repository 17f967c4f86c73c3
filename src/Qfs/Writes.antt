-- ===== src/Qfs/Writes.antt =====
-- What a write leaves for the next access to the same inode.
use base_kernel.Base.{
  ℕ, ◌%◌, ◌≤◌, ◌<◌, ◌≡◌, refl, subst, ap, ◌∙◌, inl, inr, Bool, true, false, ◌||◌, none, some, leb,
  ◌==◌, Bool-cases, Option-cases, arith, get_or, set, add64, get_or-set_self,
}
use base_kernel.Base.Int.{int64}
use base_kernel.Qfs.{Qfs, Inode, cached, write_back, qfs_load_inode}
use base_kernel.Qfs.Cache.{IsMounted, same_maps, load_inode-Outcome}
use base_kernel.Qfs.{qfs_write}
use base_kernel.Qfs.Files.{written, written-Outcome}

load_inode-count :
    (room : Bool) (ino n : ℕ) (q : Qfs)
    → (qfs_load_inode room ino (record q { total_writes = n })).0 ≡ (qfs_load_inode room ino q).0
unfolding qfs_load_inode
load_inode-count room ino n q = elim (Bool-cases (ino == 0 || leb q.superblock.total_inodes ino)) [
  | inl bad ↦ rw bad refl
  | inr good ↦ elim (Option-cases (cached ino q.inode_cache)) [
    | inl miss ↦ elim (Bool-cases room) [
      | inl r ↦ rw (good, miss, r) refl
      | inr r ↦ rw (good, miss, r) refl
    ]
    | inr (j, hit) ↦ rw (good, hit) refl
  ]
]

load_inode-hit :
    (room : Bool) (ino : ℕ) (i : Inode) (q : Qfs)
    → get_or q.inode_cache (ino % 256) none ≡ some i
    → i.ino ≡ ino
    → 1 ≤ ino
    → ino < q.superblock.total_inodes
    → (qfs_load_inode room ino q).0 ≡ some i
unfolding qfs_load_inode
load_inode-hit room ino i q slot same a b =
    let good : (ino == 0 || leb q.superblock.total_inodes ino) ≡ false = ground arith in
    let here : (i.ino == ino) ≡ true = ground arith in rw (good, slot, here) refl

-- On a mounted volume, a write to an inode that can be loaded returns the count of bytes, read as a
-- signed number of 64 bits, and the inode can be loaded afterwards, whatever room the heap has; its
-- size has grown by the count, in 64 bits, its time of modification is that of the write, and its
-- number is the same.
pub load_inode-write :
    (room room' : Bool) (ino count now : ℕ) (i : Inode) (q : Qfs)
    → IsMounted q
    → (qfs_load_inode room ino q).0 ≡ some i
    → let (result, q') = qfs_write room ino count now q in
      (result ≡ int64 count)
      × (j : Inode) × ((qfs_load_inode room' ino q').0 ≡ some j)
      × (j.ino ≡ ino)
      × (j.size ≡ add64 i.size count)
      × (j.mtime ≡ now)
unfolding qfs_write
load_inode-write room room' ino count now i q m found =
    let counted = record q { total_writes = add64 q.total_writes 1 } in
    let m₀ = same_maps q counted refl refl refl m m.cache_length m.entries in
    let loaded = load_inode-Outcome room ino counted m₀ in
    let e = load_inode-count room ino (add64 q.total_writes 1) q ∙ found in
    let q₁ = (qfs_load_inode room ino counted).1 in
    let w = written-Outcome count now i q₁ loaded.0 (rw (loaded.1) ((loaded.2 i e).1)) in
    let (i₂, q₂) = written count now i q₁ in
    let j = record i₂ { size = add64 i₂.size count } in
    let number : i₂.ino ≡ ino = w.2 ∙ (loaded.2 i e).0 in
    let l = w.0.cache_length in
    let stored = get_or-set_self q₂.inode_cache (i₂.ino % 256) (some j) none (omega arith) in
    let slot =
      subst (λ x. get_or (set q₂.inode_cache (i₂.ino % 256) (some j)) (x % 256) none ≡ some j)
        number stored in
    rw (qfs_write, e)
      (
        refl,
        j,
        load_inode-hit room' ino j (write_back j q₂) slot number (omega (arith, (w.1).0))
            (omega (arith, (w.1).1)),
        number,
        ap (λ x. add64 x count) w.3,
        w.4,
      )
