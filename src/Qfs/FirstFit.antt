-- ===== src/Qfs/FirstFit.antt =====
-- The search of `qfs_alloc_extent` beside the plain first-fit search.
use base_kernel.Base.{
  ℕ, zero, suc, ◌+◌, ◌≤◌, ◌<◌, ◌≡◌, ◌≢◌, refl, sym, ap, ◌∙◌, inl, inr, Bool, true, false, not, ◌&&◌,
  Option, none, some, leb, ◌==◌, if◌then◌else◌, Bool-cases, arith,
}
use base_kernel.Bitmap.{Bitmap, get_bit}
use base_kernel.Pmm.Scan.{IsFreeRun, HasUsed}
use base_kernel.Qfs.{scan}

-- The `n` blocks from `s` are free.
pub run_free : Bitmap → ℕ → ℕ → Bool
run_free bm s zero = true
run_free bm s (suc n) = not (get_bit bm s) && run_free bm (s + 1) n

-- The first of the `n` blocks from `i` at which a run of `count` free ones starts and fits.
pub first_fit : Bitmap → ℕ → ℕ → ℕ → Option ℕ
first_fit bm count zero i = none
first_fit bm count (suc n) i =
    if leb count (suc n) && run_free bm i count then some i else first_fit bm count n (i + 1)

pub run_free_sound : (bm : Bitmap) (s n : ℕ) → run_free bm s n ≡ true → IsFreeRun bm s n
unfolding run_free
run_free_sound bm s zero h j a b = absurd (omega arith)
run_free_sound bm s (suc n) h j a b = elim (Bool-cases (s == j)) [
  | inl e ↦ let q : j ≡ s = ground arith in rw q (ground arith)
  | inr e ↦ run_free_sound bm (s + 1) n (ground arith) j (ground arith) (omega arith)
]

pub run_free_complete : (bm : Bitmap) (s n : ℕ) → IsFreeRun bm s n → run_free bm s n ≡ true
unfolding run_free
run_free_complete bm s zero f = refl
run_free_complete bm s (suc n) f = ground (
  arith,
  f s (omega arith) (omega arith),
  run_free_complete bm (s + 1) n (λ j a b. f j (omega arith) (omega arith)),
)

run_free_used :
    (bm : Bitmap) (s n i : ℕ) → get_bit bm i ≡ true → s ≤ i → i < s + n → run_free bm s n ≡ false
run_free_used bm s n i u a b = elim (Bool-cases (run_free bm s n)) [
  | inl e ↦ absurd (let q = run_free_sound bm s n e i a b in ground arith)
  | inr e ↦ e
]

first_fit_short : (bm : Bitmap) (count n i : ℕ) → n < count → first_fit bm count n i ≡ none
unfolding first_fit
first_fit_short bm count zero i h = refl
first_fit_short bm count (suc n) i h =
    let r = first_fit_short bm count n (i + 1) (omega arith) in ground arith

first_fit_next :
    (bm : Bitmap) (count m n s t : ℕ)
    → m ≡ suc n
    → t ≡ s + 1
    → run_free bm s count ≡ false
    → first_fit bm count m s ≡ first_fit bm count n t
unfolding first_fit
first_fit_next bm count m n s t e k h = rw (e, k) (ground arith)

-- No run starts in the blocks up to the used one.
first_fit_skip :
    (bm : Bitmap) (count n d s : ℕ)
    → get_bit bm (s + d) ≡ true
    → d < count
    → first_fit bm count (n + suc d) s ≡ first_fit bm count n (s + d + 1)
first_fit_skip bm count n zero s u h =
    first_fit_next bm count (n + 1) n s (s + 0 + 1) (omega arith) (omega arith)
      (run_free_used bm s count (s + 0) u (omega arith) (omega arith))
first_fit_skip bm count n (suc d) s u h =
    let e : s + 1 + d ≡ s + suc d = omega arith in
    let k : s + 1 + d + 1 ≡ s + suc d + 1 = omega arith in
    first_fit_next bm count (n + suc (suc d)) (n + suc d) s (s + 1) (omega arith) refl
      (run_free_used bm s count (s + suc d) u (omega arith) (omega arith))
    ∙ first_fit_skip bm count n d (s + 1) (rw e u) (omega arith)
    ∙ ap (first_fit bm count n) k

first_fit_here :
    (bm : Bitmap) (count m s : ℕ)
    → count ≤ m
    → 0 < m
    → IsFreeRun bm s count
    → first_fit bm count m s ≡ some s
unfolding first_fit
first_fit_here bm count zero s h p f = absurd (omega arith)
first_fit_here bm count (suc m) s h p f = let r = run_free_complete bm s count f in ground arith

start_of : (c i s t : ℕ) → t + c ≡ i → (c ≢ 0 → s ≡ t) → (if c == 0 then i else s) ≡ t
start_of zero i s t at same = omega arith
start_of (suc c) i s t at same = ground (arith, same (omega arith))

-- The search with `c` free blocks behind it, which start at `t`.
scan_run :
    (bm : Bitmap) (count n i c s t : ℕ)
    → c < count
    → t + c ≡ i
    → (c ≢ 0 → s ≡ t)
    → IsFreeRun bm t c
    → scan bm count n i c s ≡ first_fit bm count (n + c) t
unfolding scan
scan_run bm count zero i c s t lt at same free =
    sym (first_fit_short bm count (0 + c) t (omega arith))
scan_run bm count (suc n) i c s t lt at same free =
    let start = start_of c i s t at same in
    elim (Bool-cases (get_bit bm i)) [
      | inl used ↦
          let k : suc n + c ≡ n + suc c = omega arith in
          let l : t + c + 1 ≡ i + 1 = omega arith in
          let m : n + 0 ≡ n = omega arith in
          rw (scan, used)
            (scan_run bm count n (i + 1) 0 s (i + 1) (omega arith) (omega arith)
                (λ ne. absurd (ne refl)) (λ j a b. absurd (omega arith))
              ∙ rw (m, k, first_fit_skip bm count n c t (rw at used) lt, l) refl)
      | inr clear ↦
          let longer : IsFreeRun bm t (c + 1) = λ j a b. elim (Bool-cases (j == i)) [
            | inl e ↦ let q : j ≡ i = ground arith in rw q clear
            | inr e ↦ free j a (ground arith)
          ] in
          elim (Bool-cases (c + 1 == count)) [
            | inl full ↦
                rw (scan, clear, full, start)
                  (sym (
                    first_fit_here bm count (suc n + c) t (ground arith) (omega arith)
                      (λ j a b. longer j a (ground arith))))
            | inr more ↦
                let k : suc n + c ≡ n + (c + 1) = omega arith in
                rw (scan, clear, more, start, k)
                  (scan_run bm count n (i + 1) (c + 1) t t (ground arith) (omega arith) (λ ne. refl)
                    longer)
          ]
    ]

-- The search from block `i` over `n` blocks for at least one block is the first-fit search.
pub scan-first_fit :
    (bm : Bitmap) (count n i s : ℕ) → 0 < count → scan bm count n i 0 s ≡ first_fit bm count n i
scan-first_fit bm count n i s nz =
    let m : n + 0 ≡ n = omega arith in
    scan_run bm count n i 0 s i nz (omega arith) (λ ne. absurd (ne refl))
      (λ j a b. absurd (omega arith))
    ∙ rw m refl

run_free_at : (bm : Bitmap) (s n : ℕ) → run_free bm s n ≡ false → HasUsed bm s n
unfolding run_free
run_free_at bm s zero h = absurd (ground (arith, h))
run_free_at bm s (suc n) h = elim (Bool-cases (get_bit bm s)) [
  | inl u ↦ (s, omega arith, omega arith, u)
  | inr u ↦
      let (j, a, b, v) = run_free_at bm (s + 1) n (ground arith) in (j, omega arith, omega arith, v)
]

-- The first run of `count` free blocks among the `n` blocks from `i`, or none.
abbrev pub IsFirstFit : Bitmap → ℕ → ℕ → ℕ → Option ℕ → Type 0
IsFirstFit bm count n i none = (w : ℕ) → i ≤ w → w + count ≤ i + n → HasUsed bm w count
IsFirstFit bm count n i (some s) =
    (i ≤ s)
    × (s + count ≤ i + n)
    × IsFreeRun bm s count
    × ((w : ℕ) → i ≤ w → w < s → HasUsed bm w count)

pub first_fit-IsFirstFit :
    (bm : Bitmap) (count n i : ℕ) → 0 < count → IsFirstFit bm count n i (first_fit bm count n i)
unfolding first_fit
first_fit-IsFirstFit bm count zero i nz = λ w a b. absurd (omega arith)
first_fit-IsFirstFit bm count (suc n) i nz = elim (Bool-cases (run_free bm i count)) [
  | inl r ↦ elim (Bool-cases (leb count (suc n))) [
    | inl fits ↦
        rw (r, fits)
          (omega arith, ground arith, run_free_sound bm i count r, λ w a b. absurd (omega arith))
    | inr long ↦
        let z = first_fit_short bm count n (i + 1) (ground arith) in
        rw (long, z) (λ w a b. absurd (ground arith))
  ]
  | inr u ↦ rest u (first_fit bm count n (i + 1)) refl (first_fit-IsFirstFit bm count n (i + 1) nz)
]
  where
    first :
        run_free bm i count ≡ false
        → (w : ℕ) → i ≤ w
        → (i + 1 ≤ w → HasUsed bm w count)
        → HasUsed bm w count
    first u w a f = elim (Bool-cases (i == w)) [
      | inl e ↦ let q : w ≡ i = ground arith in rw q (run_free_at bm i count u)
      | inr e ↦ f (ground arith)
    ]

    rest :
        run_free bm i count ≡ false
        → (o : Option ℕ) → first_fit bm count n (i + 1) ≡ o
        → IsFirstFit bm count n (i + 1) o
        → IsFirstFit bm count (suc n) i (
            if leb count (suc n) && run_free bm i count
            then some i
            else first_fit bm count n (i + 1))
    rest u none e f =
        let k : (leb count (suc n) && run_free bm i count) ≡ false = ground arith in
        rw (k, e) (λ w a b. first u w a (λ c. f w c (omega arith)))
    rest u (some s) e f =
        let k : (leb count (suc n) && run_free bm i count) ≡ false = ground arith in
        rw (k, e)
          (omega (arith, f.0), omega (arith, f.1), f.2, λ w a b. first u w a (λ c. f.3 w c b))
