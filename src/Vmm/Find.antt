-- ===== src/Vmm/Find.antt =====
-- What `vmm_find_vma` finds behind an insertion.
use base_kernel.Base.{
  subst, ℕ, ◌≤◌, ◌<◌, ◌≡◌, refl, List, [], ◌∷◌, Bool-cases, inl, inr, ltb, arith, if◌then◌else◌,
  some,
}
use base_kernel.Vmm.{Vma, contains, vmm_find_vma, insert_behind, vmm_insert_vma}
use base_kernel.Vmm.Areas.{IsSpaced}

insert_behind-low :
    (top low : ℕ) (new : Vma) (vs : List Vma)
    → IsSpaced top low (insert_behind new vs)
    → (low ≤ new.start) × (new.start < new.end)
unfolding insert_behind
insert_behind-low top low new [] s = (s.0, s.1)
insert_behind-low top low new (v ∷ vs) s = elim (Bool-cases (ltb v.start new.start)) [
  | inl e ↦
      let t : IsSpaced top low (v ∷ insert_behind new vs) =
        subst (λ b. IsSpaced top low (if b then v ∷ insert_behind new vs else new ∷ v ∷ vs)) e s in
      let r = insert_behind-low top v.end new vs t.3 in (omega (arith, r.0, t.0, t.1), r.1)
  | inr e ↦
      let t : IsSpaced top low (new ∷ v ∷ vs) =
        subst (λ b. IsSpaced top low (if b then v ∷ insert_behind new vs else new ∷ v ∷ vs)) e s in
      (t.0, t.1)
]

find_vma-insert_behind :
    (top low : ℕ) (new : Vma) (vs : List Vma) (p : ℕ)
    → IsSpaced top low (insert_behind new vs)
    → vmm_find_vma (insert_behind new vs) p
      ≡ (if contains new p then some new else vmm_find_vma vs p)
unfolding insert_behind vmm_find_vma
find_vma-insert_behind top low new [] p s = refl
find_vma-insert_behind top low new (v ∷ vs) p s = elim (Bool-cases (ltb v.start new.start)) [
  | inl e ↦
      let t : IsSpaced top low (v ∷ insert_behind new vs) =
        subst (λ b. IsSpaced top low (if b then v ∷ insert_behind new vs else new ∷ v ∷ vs)) e s in
      let r = find_vma-insert_behind top v.end new vs p t.3 in
      let l = (insert_behind-low top v.end new vs t.3).0 in rw (e, vmm_find_vma, r) (ground arith)
  | inr e ↦ rw (e, vmm_find_vma) refl
]

pub find_vma-insert_vma :
    (top low : ℕ) (new : Vma) (vs : List Vma) (p : ℕ)
    → IsSpaced top low (vmm_insert_vma new vs)
    → vmm_find_vma (vmm_insert_vma new vs) p
      ≡ (if contains new p then some new else vmm_find_vma vs p)
unfolding vmm_insert_vma vmm_find_vma
find_vma-insert_vma top low new [] p s = refl
find_vma-insert_vma top low new (v ∷ vs) p s = elim (Bool-cases (ltb new.start v.start)) [
  | inl e ↦ rw (e, vmm_find_vma) refl
  | inr e ↦
      let t : IsSpaced top low (v ∷ insert_behind new vs) =
        subst (λ b. IsSpaced top low (if b then new ∷ v ∷ vs else v ∷ insert_behind new vs)) e s in
      let r = find_vma-insert_behind top v.end new vs p t.3 in
      let l = (insert_behind-low top v.end new vs t.3).0 in rw (e, vmm_find_vma, r) (ground arith)
]
