-- ===== src/Scheduler/Detect.antt =====
-- Workload detection and time quanta.
use native.Mathlib.Nat.{div-add-mod, le_trans}
use base_kernel.Base.{
  ℕ, ◌+◌, ◌*◌, ◌/◌, ◌%◌, ◌^◌, ◌≤◌, ◌<◌, ◌≡◌, ◌↔◌, refl, subst, Bool, true, false, ltb, ◌==◌,
  if◌then◌else◌, arith, add64,
}
use base_kernel.Base.Int.{leb_ℤ}
use base_kernel.Scheduler.{
  Task, Workload, interactive, compute, io, realtime, detect_workload, get_time_quantum,
  quantum_realtime, quantum_compute, priority_rt_max,
}

-- Every quantum lies between that of real-time tasks and that of computing ones.
pub get_time_quantum_bounds :
    (w : Workload)
    → (quantum_realtime ≤ get_time_quantum w) × (get_time_quantum w ≤ quantum_compute)
unfolding get_time_quantum
get_time_quantum_bounds interactive = omega arith
get_time_quantum_bounds compute = omega arith
get_time_quantum_bounds io = omega arith
get_time_quantum_bounds realtime = omega arith

-- The two times and their hundredfold fit into 64 bits.
abbrev pub TimesFit : Task → Type 0
TimesFit t = (t.cpu_time + t.io_wait_time) * 100 < 2 ^ 64

div-mul-le : (a b : ℕ) → b * (a / b) ≤ a
div-mul-le a b = omega (arith, div-add-mod a b)

-- No task both waited more than half of its time and computed more than 80 percent of it.
exclusive : (c w : ℕ) → 50 < w * 100 / (c + w) → 80 < c * 100 / (c + w) → ⊥
exclusive c w p q =
    let total : ℕ = c + w in
    let a : total * 51 ≤ w * 100 =
      le_trans (mul-le total 51 (w * 100 / total) p) (div-mul-le (w * 100) total) in
    let b : total * 81 ≤ c * 100 =
      le_trans (mul-le total 81 (c * 100 / total) q) (div-mul-le (c * 100) total) in
    let z : total ≡ 0 = omega arith in absurd (zero_div w total z p)
  where
    mul-le : (t k n : ℕ) → k ≤ n → t * k ≤ t * n
    mul-le t k n h = grind arith

    zero_div : (w total : ℕ) → total ≡ 0 → 50 < w * 100 / total → ⊥
    zero_div w total e h =
        let h' : 50 < w * 100 / 0 = subst (λ t. 50 < w * 100 / t) e h in omega arith

-- The ladder of tests of `detect_workload`, over the percentages.
ladder : Bool → ℕ → ℕ → ℕ → Workload
ladder rt total io_percent cpu_percent =
    if rt
    then realtime
    else if total == 0
    then interactive
    else if ltb 50 io_percent
    then io
    else if ltb 80 cpu_percent
    then compute
    else interactive

detect_workload-ladder :
    (t : Task)
    → TimesFit t
    → let total = t.cpu_time + t.io_wait_time in
      detect_workload t
      ≡ ladder
          (leb_ℤ t.priority priority_rt_max)
          total
          (t.io_wait_time * 100 / total)
          (t.cpu_time * 100 / total)
unfolding detect_workload ladder
detect_workload-ladder t h =
    let a : add64 t.cpu_time t.io_wait_time ≡ t.cpu_time + t.io_wait_time = omega arith in
    let b : (t.io_wait_time * 100) % 2 ^ 64 ≡ t.io_wait_time * 100 = omega arith in
    let c : (t.cpu_time * 100) % 2 ^ 64 ≡ t.cpu_time * 100 = omega arith in rw (a, b, c) refl

ladder_lem :
    (rt : Bool) (total p q : ℕ)
    → (50 < p → 80 < q → ⊥)
    → (total ≡ 0 → (p ≡ 0) × (q ≡ 0))
    → ((ladder rt total p q ≡ realtime) ↔ (rt ≡ true))
      × ((ladder rt total p q ≡ io) ↔ ((rt ≡ false) × (50 < p)))
      × ((ladder rt total p q ≡ compute) ↔ ((rt ≡ false) × (80 < q)))
unfolding ladder
ladder_lem rt total p q x z = (
  (λ e. ground arith, λ e. ground arith),
  (λ e. ground arith, λ e. ground arith),
  (λ e. ground arith, λ e. ground arith),
)

-- What the detected workload means, where the counters have not overflowed: real time is decided by
-- the priority alone; another task is bound to I/O if it waited more than half of its time (counted
-- in whole percent), computes if it used more than 80 percent, and is interactive otherwise.
pub detect_workload_lem :
    (t : Task)
    → TimesFit t
    → let total = t.cpu_time + t.io_wait_time in
      let rt = leb_ℤ t.priority priority_rt_max in
      ((detect_workload t ≡ realtime) ↔ (rt ≡ true))
      × ((detect_workload t ≡ io) ↔ ((rt ≡ false) × (50 < t.io_wait_time * 100 / total)))
      × ((detect_workload t ≡ compute) ↔ ((rt ≡ false) × (80 < t.cpu_time * 100 / total)))
detect_workload_lem t h = rw (detect_workload-ladder t h) (
    ladder_lem _ _ _ _ (exclusive t.cpu_time t.io_wait_time) (λ z.
      let c : t.cpu_time ≡ 0 = omega arith in
      let w : t.io_wait_time ≡ 0 = omega arith in rw (c, w) (refl, refl)))
