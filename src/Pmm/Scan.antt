-- ===== src/Pmm/Scan.antt =====
-- The search loop of `pmm_alloc_pages`: what it has found after each round.
use base_kernel.Base.{
  ℕ, zero, suc, ◌+◌, ◌-◌, ◌≤◌, ◌<◌, ◌≡◌, ◌≢◌, refl, ◌⊎◌, inl, inr, true, false, ltb, ◌==◌,
  if◌then◌else◌, ◌||◌, Bool-cases, arith,
}
use base_kernel.Bitmap.{Bitmap, get_bit}
use base_kernel.Pmm.{Search, search_step, search_from, search_start, search}

-- The `n` pages from `s` are free.
abbrev pub IsFreeRun : Bitmap → ℕ → ℕ → Type 0
IsFreeRun bm s n = (j : ℕ) → s ≤ j → j < s + n → get_bit bm j ≡ false

-- One of the `n` pages from `s` is in use.
abbrev pub HasUsed : Bitmap → ℕ → ℕ → Type 0
HasUsed bm s n = (j : ℕ) × (s ≤ j) × (j < s + n) × (get_bit bm j ≡ true)

-- What holds before round `i`. `missed` and `before` say why no block behind the first `num`
-- pages can have been overlooked.
record Found (bm : Bitmap) (num i : ℕ) (s : Search) : Type 0 where
  short : s.consecutive < num
  fits : s.consecutive ≤ i
  start : s.consecutive ≢ 0 → s.start_page + s.consecutive ≡ i
  free : (j : ℕ) → i ≤ j + s.consecutive → j < i → get_bit bm j ≡ false
  best : (s.best_start ≡ 0) ⊎ ((s.best_start + num ≤ i) × IsFreeRun bm s.best_start num)
  missed : s.best_start ≡ 0 → (w : ℕ) → num ≤ w → w + num ≤ i → HasUsed bm w num
  before :
      s.best_start ≡ 0
      → s.consecutive < i
      → (get_bit bm (i - s.consecutive - 1) ≡ true) ⊎ (i ≡ num + s.consecutive)

module _ (bm : Bitmap) (num i : ℕ) (s : Search) (f : Found bm num i s) where
  -- At a page in use the run ends.
  step_used : get_bit bm i ≡ true → Found bm num (i + 1) (record s { consecutive = 0 })
  step_used u = record {
    short = omega (arith, f.short);
    fits = omega arith;
    start = λ h. absurd (h refl);
    free = λ j a b. absurd (omega arith);
    best = elim f.best [ inl e ↦ inl e | inr (le, r) ↦ inr (omega arith, r) ];
    missed = λ e w a b. elim (Bool-cases (w + num == i + 1)) [
      | inl t ↦ (i, omega (arith, f.short), ground arith, u)
      | inr t ↦ f.missed e w a (ground arith)
    ];
    before = λ e h. inl (let q : i + 1 - 0 - 1 ≡ i = omega arith in ground (arith, q));
  }

  free_next :
      get_bit bm i ≡ false
      → (j : ℕ) → i + 1 ≤ j + (s.consecutive + 1)
      → j < i + 1
      → get_bit bm j ≡ false
  free_next u j a b = elim (Bool-cases (j == i)) [
    | inl t ↦ let e : j ≡ i = ground arith in ground arith
    | inr t ↦ f.free j (omega arith) (ground arith)
  ]

  -- At a free page that does not complete a block the run grows.
  step_grow :
      (start' : ℕ)
      → get_bit bm i ≡ false
      → s.consecutive + 1 ≢ num
      → start' + (s.consecutive + 1) ≡ i + 1
      → Found bm num (i + 1) (record s { consecutive = s.consecutive + 1; start_page = start' })
  step_grow start' u ne es = record {
    short = omega (arith, f.short);
    fits = omega (arith, f.fits);
    start = λ _. es;
    free = free_next u;
    best = elim f.best [ inl e ↦ inl e | inr (le, r) ↦ inr (omega arith, r) ];
    missed = λ e w a b. elim (Bool-cases (w + num == i + 1)) [
      | inl t ↦
          let below : s.consecutive < i = ground (arith, f.short) in
          elim (f.before e below) [
            | inl q ↦ (i - s.consecutive - 1, ground (arith, f.short), ground (arith, f.short), q)
            | inr q ↦ absurd (ground (arith, f.short))
          ]
      | inr t ↦ f.missed e w a (ground arith)
    ];
    before = λ e h.
        let q : i + 1 - (s.consecutive + 1) - 1 ≡ i - s.consecutive - 1 = omega (arith, f.fits) in
        elim (f.before e (omega arith)) [
          | inl b ↦ inl (ground (arith, q))
          | inr b ↦ inr (omega arith)
        ];
  }

  -- At a free page that completes a block the run restarts, and the block may become the best.
  step_block :
      (start' best' size' : ℕ)
      → get_bit bm i ≡ false
      → s.consecutive + 1 ≡ num
      → start' + (s.consecutive + 1) ≡ i + 1
      → (best' ≡ start') ⊎ ((best' ≡ s.best_start) × (s.best_start ≢ 0))
      → Found bm num
          (i + 1)
          (record { consecutive = 0; start_page = start'; best_start = best'; best_size = size' })
  step_block start' best' size' u e es which = record {
    short = omega arith;
    fits = omega arith;
    start = λ h. absurd (h refl);
    free = λ j a b. absurd (omega arith);
    best = elim which [
      | inl b ↦ inr (omega arith, λ j a c. free_next u j (ground arith) (ground arith))
      | inr (b, nz) ↦ elim f.best [
        | inl z ↦ absurd (nz z)
        | inr (le, r) ↦ inr (omega arith, λ j a c. r j (ground arith) (ground arith))
      ]
    ];
    missed =
        λ z w a b. elim which [ inl q ↦ absurd (omega arith) | inr (q, nz) ↦ absurd (omega arith) ];
    before = λ z h. elim which [ inl q ↦ inr (omega arith) | inr (q, nz) ↦ absurd (omega arith) ];
  }

start_of :
    (bm : Bitmap) (num i : ℕ) (s : Search)
    → Found bm num i s
    → (if s.consecutive + 1 == 1 then i else s.start_page) + (s.consecutive + 1) ≡ i + 1
start_of bm num i s f = ground (arith, f.start)

-- One round keeps what is known.
step-Found :
    (bm : Bitmap) (num i : ℕ) (s : Search)
    → Found bm num i s
    → Found bm num (i + 1) (search_step bm num i s)
unfolding search_step
step-Found bm num i s f = elim (Bool-cases (get_bit bm i)) [
  | inl u ↦ rw u (step_used bm num i s f u)
  | inr u ↦ elim (Bool-cases (s.consecutive + 1 == num)) [
    | inr ne ↦ rw (u, ne) (step_grow bm num i s f _ u (ground arith) (start_of bm num i s f))
    | inl e ↦ elim (Bool-cases (ltb (s.consecutive + 1) s.best_size || s.best_start == 0)) [
      | inl b ↦
          rw (u, e, b)
            (step_block bm num i s f _ _ _ u (ground arith) (start_of bm num i s f) (inl refl))
      | inr b ↦
          rw (u, e, b)
            (step_block bm num i s f _ _ _ u (ground arith) (start_of bm num i s f)
              (inr (refl, ground arith)))
    ]
  ]
]

from-Found :
    (bm : Bitmap) (num n i j : ℕ) (s : Search)
    → i + n ≡ j
    → Found bm num i s
    → Found bm num j (search_from bm num n i s)
unfolding search_from
from-Found bm num zero i j s e f = let e' : i ≡ j = omega arith in rw (← e') f
from-Found bm num (suc n) i j s e f =
    from-Found bm num n (i + 1) j (search_step bm num i s) (omega arith) (step-Found bm num i s f)

Found-start : (bm : Bitmap) (num : ℕ) → 0 < num → Found bm num 0 search_start
Found-start bm num h = record {
  short = h;
  fits = omega arith;
  start = λ q. absurd (q refl);
  free = λ j a b. absurd (omega arith);
  best = inl refl;
  missed = λ e w a b. absurd (omega arith);
  before = λ e q. absurd (omega arith);
}

-- A block that the search returns is free and lies inside the managed pages.
pub search_sound :
    (bm : Bitmap) (num total : ℕ)
    → 0 < num
    → search bm num total ≢ 0
    → (search bm num total + num ≤ total) × IsFreeRun bm (search bm num total) num
unfolding search
search_sound bm num total h ne =
    elim ((from-Found bm num total 0 total search_start (omega arith)
      (Found-start bm num h)).best) [ inl e ↦ absurd (ne e) | inr r ↦ r ]

-- If the search returns nothing, every block of that size behind the first `num` pages is in use.
pub search_complete :
    (bm : Bitmap) (num total : ℕ)
    → 0 < num
    → search bm num total ≡ 0
    → (w : ℕ) → num ≤ w
    → w + num ≤ total
    → HasUsed bm w num
unfolding search
search_complete bm num total h e =
    (from-Found bm num total 0 total search_start (omega arith) (Found-start bm num h)).missed e
