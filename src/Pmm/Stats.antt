-- ===== src/Pmm/Stats.antt =====
-- `pmm_get_stats`: the longest run of free pages.
use base_kernel.Base.{
  ℕ, zero, suc, ◌+◌, ◌-◌, ◌≤◌, ◌≡◌, inl, inr, true, false, ltb, ◌==◌, if◌then◌else◌, Bool-cases,
  arith,
}
use base_kernel.Bitmap.{Bitmap, get_bit}
use base_kernel.Pmm.{Pmm, longest_from, longest_free}
use base_kernel.Pmm.Scan.{IsFreeRun}

-- Before round `i`: the current run ends at `i`, the longest one lies below `i`, and no run below
-- `i` is longer; one that ends at `i` is no longer than the current run.
record Longest (bm : Bitmap) (i c m : ℕ) : Type 0 where
  fits : c ≤ i
  current : IsFreeRun bm (i - c) c
  where_at : ℕ
  within : where_at + m ≤ i
  achieved : IsFreeRun bm where_at m
  bound : (s n : ℕ) → s + n ≤ i → IsFreeRun bm s n → n ≤ m
  suffix : (s n : ℕ) → s + n ≡ i → IsFreeRun bm s n → n ≤ c
  above : c ≤ m

module _ (bm : Bitmap) (i c m : ℕ) (l : Longest bm i c m) where
  Longest-used : get_bit bm i ≡ true → Longest bm (i + 1) 0 m
  Longest-used u = record {
    fits = omega arith;
    current = λ j a b. absurd (omega arith);
    where_at = l.where_at;
    within = omega (arith, l.within);
    achieved = l.achieved;
    bound = λ s n le r. elim (Bool-cases (s + n == i + 1)) [
      | inr below ↦ l.bound s n (ground arith) r
      | inl ends ↦ elim (Bool-cases (n == 0)) [
        | inl z ↦ ground arith
        | inr nz ↦ absurd (ground (arith, r i (ground arith) (ground arith)))
      ]
    ];
    suffix = λ s n e r. elim (Bool-cases (n == 0)) [
      | inl z ↦ ground arith
      | inr nz ↦ absurd (ground (arith, r i (ground arith) (ground arith)))
    ];
    above = omega arith;
  }

  run_extended : get_bit bm i ≡ false → IsFreeRun bm (i + 1 - (c + 1)) (c + 1)
  run_extended u j a b = elim (Bool-cases (j == i)) [
    | inl e ↦ let q : j ≡ i = ground arith in ground arith
    | inr ne ↦ l.current j (omega arith) (ground (arith, l.fits))
  ]

  suffix_extended : (s n : ℕ) → s + n ≡ i + 1 → IsFreeRun bm s n → n ≤ c + 1
  suffix_extended s zero e r = omega arith
  suffix_extended s (suc n) e r =
      omega (arith, l.suffix s n (omega arith) (λ j a b. r j a (omega arith)))

  Longest-free_step :
      get_bit bm i ≡ false → Longest bm (i + 1) (c + 1) (if ltb m (c + 1) then c + 1 else m)
  Longest-free_step u = elim (Bool-cases (ltb m (c + 1))) [
    | inl grows ↦ rw grows (record {
      fits = omega (arith, l.fits);
      current = run_extended u;
      where_at = i + 1 - (c + 1);
      within = omega (arith, l.fits);
      achieved = run_extended u;
      bound = λ s n le r. elim (Bool-cases (s + n == i + 1)) [
        | inr below ↦ ground (arith, l.bound s n (ground arith) r)
        | inl ends ↦ suffix_extended s n (ground arith) r
      ];
      suffix = suffix_extended;
      above = omega arith;
    })
    | inr stays ↦ rw stays (record {
      fits = omega (arith, l.fits);
      current = run_extended u;
      where_at = l.where_at;
      within = omega (arith, l.within);
      achieved = l.achieved;
      bound = λ s n le r. elim (Bool-cases (s + n == i + 1)) [
        | inr below ↦ l.bound s n (ground arith) r
        | inl ends ↦ ground (arith, suffix_extended s n (ground arith) r)
      ];
      suffix = suffix_extended;
      above = ground arith;
    })
  ]

none_longer : (m : ℕ) → (if ltb m 0 then 0 else m) ≡ m
none_longer m = ground arith

Longest-step :
    (bm : Bitmap) (i c m : ℕ)
    → Longest bm i c m
    → let c' = if get_bit bm i then 0 else c + 1 in
      Longest bm (i + 1) c' (if ltb m c' then c' else m)
Longest-step bm i c m l = elim (Bool-cases (get_bit bm i)) [
  | inl u ↦ rw (u, none_longer m) (Longest-used bm i c m l u)
  | inr u ↦ rw u (Longest-free_step bm i c m l u)
]

longest_from-Longest :
    (bm : Bitmap) (n i j c m : ℕ)
    → i + n ≡ j
    → Longest bm i c m
    → (c' : ℕ) × Longest bm j c' (longest_from bm n i c m)
unfolding longest_from
longest_from-Longest bm zero i j c m e l = (c, let q : i ≡ j = omega arith in rw (← q) l)
longest_from-Longest bm (suc n) i j c m e l =
    longest_from-Longest bm n (i + 1) j _ _ (omega arith) (Longest-step bm i c m l)

Longest-at_start : (bm : Bitmap) → Longest bm 0 0 0
Longest-at_start bm = record {
  fits = omega arith;
  current = λ j a b. absurd (omega arith);
  where_at = 0;
  within = omega arith;
  achieved = λ j a b. absurd (omega arith);
  bound = λ s n le r. omega arith;
  suffix = λ s n e r. omega arith;
  above = omega arith;
}

-- The number that the statistics call the largest free block is the length of a run of free pages
-- inside the managed range, and no run of free pages inside it is longer.
pub longest_free_lem :
    (p : Pmm)
    → ((s : ℕ) × (s + longest_free p ≤ p.total_pages) × IsFreeRun p.bitmap s (longest_free p))
      × ((s n : ℕ) → s + n ≤ p.total_pages → IsFreeRun p.bitmap s n → n ≤ longest_free p)
unfolding longest_free
longest_free_lem p =
    let (c, l) =
      longest_from-Longest p.bitmap p.total_pages 0 p.total_pages 0 0 (omega arith)
        (Longest-at_start p.bitmap) in
    ((l.where_at, l.within, l.achieved), l.bound)
