-- ===== src/Elf/Pages.antt =====
-- Pages that are loaded, and which accesses they allow.
use base_kernel.Base.{
  ◌≤◌, ◌<◌, ◌/◌, ◌%◌, ◌^◌, ℕ, zero, suc, ◌+◌, ◌-◌, ◌*◌, ◌≡◌, refl, ap, ◌∙◌, inl, inr, Bool, true,
  false, ◌&&◌, ltb, leb, ◌==◌, if◌then◌else◌, Bool-cases, arith,
}
use base_kernel.Elf.{PageOps, Space, all_mapped, can_access, load_pages}

behind_first :
    (v n x : ℕ)
    → (leb v x && ltb x (v + suc n * 4096)) ≡ false
    → ((leb v x && ltb x (v + 4096)) ≡ false)
      × ((leb (v + 4096) x && ltb x (v + 4096 + n * 4096)) ≡ false)
behind_first v n x out = (ground arith, ground arith)

module _ {M : Type 0} (ops : PageOps M) where
  pub load_pages-mem :
      (x flags v n : ℕ) (s : Space M)
      → v + n * 4096 < 2 ^ 64
      → (leb v x && ltb x (v + n * 4096)) ≡ false
      → (load_pages ops flags v n s).0 ≡ true
      → (load_pages ops flags v n s).1.mem x ≡ s.mem x
  unfolding load_pages
  load_pages-mem x flags v zero s fit out done = refl
  load_pages-mem x flags v (suc n) s fit out done =
      let (phys, m₁) = ops.alloc_page s.pages in
      let next : (v + 4096) % 2 ^ 64 ≡ v + 4096 = omega arith in
      elim (Bool-cases (phys == 0)) [
        | inl z ↦ absurd (let q = rw (load_pages, z) at done in ground (arith, q))
        | inr z ↦ elim (Bool-cases (ops.map_page v phys flags m₁).0) [
          | inl d ↦
              let b = behind_first v n x out in
              rw (load_pages, z, d, next)
                (load_pages-mem x flags (v + 4096) n _ (omega arith) b.1
                    (rw (load_pages, z, d, next) at done)
                  ∙ ap (λ i. if i then ops.residue m₁ phys (x - v) else s.mem x) b.0)
          | inr d ↦ absurd (let q = rw (load_pages, z, d) at done in ground (arith, q))
        ]
      ]

  pub load_pages-keeps :
      (k flags v n : ℕ) (s : Space M)
      → s.mapped k ≡ true
      → (load_pages ops flags v n s).0 ≡ true
      → (load_pages ops flags v n s).1.mapped k ≡ true
  unfolding load_pages
  load_pages-keeps k flags v zero s m done = m
  load_pages-keeps k flags v (suc n) s m done =
      let (phys, m₁) = ops.alloc_page s.pages in
      elim (Bool-cases (phys == 0)) [
        | inl z ↦ absurd (let q = rw (load_pages, z) at done in ground (arith, q))
        | inr z ↦ elim (Bool-cases (ops.map_page v phys flags m₁).0) [
          | inl d ↦
              let here : (if k == v / 4096 then true else s.mapped k) ≡ true = ground (arith, m) in
              rw (load_pages, z, d)
                (load_pages-keeps k flags ((v + 4096) % 2 ^ 64) n _ here
                  (rw (load_pages, z, d) at done))
          | inr d ↦ absurd (let q = rw (load_pages, z, d) at done in ground (arith, q))
        ]
      ]

  pub load_pages-mapped :
      (k flags v n : ℕ) (s : Space M)
      → v + n * 4096 < 2 ^ 64
      → v / 4096 ≤ k
      → k < v / 4096 + n
      → (load_pages ops flags v n s).0 ≡ true
      → (load_pages ops flags v n s).1.mapped k ≡ true
  unfolding load_pages
  load_pages-mapped k flags v zero s fit lo hi done = absurd (omega arith)
  load_pages-mapped k flags v (suc n) s fit lo hi done =
      let (phys, m₁) = ops.alloc_page s.pages in
      let next : (v + 4096) % 2 ^ 64 ≡ v + 4096 = omega arith in
      elim (Bool-cases (phys == 0)) [
        | inl z ↦ absurd (let q = rw (load_pages, z) at done in ground (arith, q))
        | inr z ↦ elim (Bool-cases (ops.map_page v phys flags m₁).0) [
          | inr d ↦ absurd (let q = rw (load_pages, z, d) at done in ground (arith, q))
          | inl d ↦ elim (Bool-cases (k == v / 4096)) [
            | inl here ↦
                rw (load_pages, z, d)
                  (load_pages-keeps k flags ((v + 4096) % 2 ^ 64) n _
                    (ap (λ b. if b then true else s.mapped k) here) (rw (load_pages, z, d) at done))
            | inr later ↦
                let a : (v + 4096) / 4096 ≤ k = ground arith in
                let b : k < (v + 4096) / 4096 + n = omega arith in
                rw (load_pages, z, d, next)
                  (load_pages-mapped k flags (v + 4096) n _ (omega arith) a b
                    (rw (load_pages, z, d, next) at done))
          ]
        ]
      ]

  -- Every page is handed out and can be mapped.
  pub IsReliable : Type 0
  IsReliable =
      ((m : M) → ((ops.alloc_page m).0 == 0) ≡ false)
      × ((v phys flags : ℕ) (m : M) → (ops.map_page v phys flags m).0 ≡ true)

  pub load_pages-true :
      (flags v n : ℕ) (s : Space M) → IsReliable → (load_pages ops flags v n s).0 ≡ true
  unfolding load_pages IsReliable
  load_pages-true flags v zero s r = refl
  load_pages-true flags v (suc n) s r =
      let (phys, m₁) = ops.alloc_page s.pages in
      rw (load_pages, r.0 s.pages, r.1 v phys flags m₁)
        (load_pages-true flags ((v + 4096) % 2 ^ 64) n _ r)

all_mapped-true :
    (mapped : ℕ → Bool) (k n : ℕ)
    → k + n ≤ 2 ^ 52
    → ((j : ℕ) → k ≤ j → j < k + n → mapped j ≡ true)
    → all_mapped mapped k n ≡ true
unfolding all_mapped
all_mapped-true mapped k zero fit m = refl
all_mapped-true mapped k (suc n) fit m =
    let e : k % 2 ^ 52 ≡ k = omega arith in
    rw (all_mapped, e, m k (omega arith) (omega arith))
      (all_mapped-true mapped (k + 1) n (omega arith) (λ j a b. m j (omega arith) (omega arith)))

-- An access within `n` pages that are mapped from number `k` on.
pub can_access_within :
    (mapped : ℕ → Bool) (a len k n : ℕ)
    → ((j : ℕ) → k ≤ j → j < k + n → mapped j ≡ true)
    → k * 4096 ≤ a
    → a + len ≤ (k + n) * 4096
    → (k + n) * 4096 ≤ 2 ^ 64
    → can_access mapped a len ≡ true
can_access_within mapped a len k n m lo hi fit = elim (Bool-cases (len == 0)) [
  | inl z ↦ rw z (all_mapped-true mapped (a / 4096) 0 (omega arith) (λ j a b. absurd (omega arith)))
  | inr z ↦
      let nz : 0 < len = ground arith in
      rw z (
        all_mapped-true mapped (a / 4096) ((a % 4096 + len + 4095) / 4096) (omega arith)
          (λ j u w. m j (omega arith) (omega arith)))
]
