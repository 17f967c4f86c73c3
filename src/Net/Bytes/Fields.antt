-- ===== src/Net/Bytes/Fields.antt =====
-- Reads behind writes in a packet buffer.
use base_kernel.Base.{
  ℕ, zero, suc, ◌+◌, ◌-◌, ◌^◌, ◌≤◌, ◌<◌, ◌≡◌, ◌⊎◌, refl, inl, inr, false, ◌==◌, ltb, leb, ◌&&◌,
  Bool-cases, arith, List, [], ◌∷◌, length, get_or, All,
}
use base_kernel.Net.Bytes.{Buffer, load16, store16, copy, write_bytes}

-- The `n` bytes from `q` and the `m` bytes from `p` do not meet.
abbrev pub IsApart : ℕ → ℕ → ℕ → ℕ → Type 0
IsApart q n p m = (q + n ≤ p) ⊎ (p + m ≤ q)

pub store16_other : (b : Buffer) (q p v : ℕ) → IsApart q 2 p 1 → store16 q v b p ≡ b p
store16_other b q p v h = ground arith

pub load16-store16 : (b : Buffer) (p v : ℕ) → v < 2 ^ 16 → load16 (store16 p v b) p ≡ v
load16-store16 b p v h = ground arith

pub load16_other :
    (b : Buffer) (q p v : ℕ) → IsApart q 2 p 2 → load16 (store16 q v b) p ≡ load16 b p
load16_other b q p v h = ground arith

pub write_bytes_outside :
    (p o : ℕ) (vs : List ℕ) (b : Buffer) → IsApart p (length vs) o 1 → write_bytes p vs b o ≡ b o
unfolding write_bytes
write_bytes_outside p o [] b h = refl
write_bytes_outside p o (v ∷ vs) b h =
    let other : (o == p) ≡ false = ground arith in
    rw other (write_bytes_outside (p + 1) o vs b (ground arith))

pub write_bytes_at :
    (p k : ℕ) (vs : List ℕ) (b : Buffer)
    → All (λ v. v < 2 ^ 8) vs
    → k < length vs
    → write_bytes p vs b (p + k) ≡ get_or vs k 0
unfolding write_bytes
write_bytes_at p k [] b h lt = absurd (omega arith)
write_bytes_at p zero (v ∷ vs) b h lt = let w = h.0 in ground arith
write_bytes_at p (suc k) (v ∷ vs) b h lt =
    let other : (p + suc k == p) ≡ false = ground arith in
    let e : p + 1 + k ≡ p + suc k = omega arith in
    rw (other, ← e) (write_bytes_at (p + 1) k vs b h.1 (omega arith))

-- Every byte is one.
abbrev pub IsBuffer : Buffer → Type 0
IsBuffer b = (o : ℕ) → b o < 2 ^ 8

pub store16-IsBuffer : (b : Buffer) (q v : ℕ) → IsBuffer b → IsBuffer (store16 q v b)
store16-IsBuffer b q v h o = let k = h o in ground arith

pub write_bytes-IsBuffer :
    (p : ℕ) (vs : List ℕ) (b : Buffer) → IsBuffer b → IsBuffer (write_bytes p vs b)
unfolding write_bytes
write_bytes-IsBuffer p [] b h o = h o
write_bytes-IsBuffer p (v ∷ vs) b h o =
    let r = write_bytes-IsBuffer (p + 1) vs b h o in ground arith

pub copy-IsBuffer :
    (p : ℕ) (src : Buffer) (q n : ℕ) (b : Buffer)
    → IsBuffer src
    → IsBuffer b
    → IsBuffer (copy p src q n b)
copy-IsBuffer p src q n b s h o = elim (Bool-cases (leb p o && ltb o (p + n))) [
  | inl e ↦ rw e (s (q + (o - p)))
  | inr e ↦ rw e (h o)
]
