-- ===== src/Scheduler/Yield.antt =====
-- `scheduler_yield` and `scheduler_terminate` on CPU 0.
use base_kernel.Base.{
  ℕ, ◌≤◌, ◌<◌, ◌≡◌, ◌≢◌, refl, subst, ◌∙◌, inl, inr, true, false, List, [], ◌∷◌, ◌++◌, ◌==◌,
  if◌then◌else◌, arith, Bool-cases, add64,
}
use base_kernel.Scheduler.{
  terminated, Sched, update, scheduler_schedule, scheduler_tick, scheduler_yield,
  scheduler_terminate,
}
use base_kernel.Scheduler.Inv.{IsValid, current_of, IsQueue-frame}
use base_kernel.Scheduler.Schedule.{keeps_current, schedule_switch, schedule_idle}
use base_kernel.Scheduler.Tick.{num_cpus-schedule, tick_preempts, tick_continues}

-- The state in which a yield hands over.
abbrev yielding : Sched → Sched
yielding s = record s {
  store = update s.store (current_of s) (record (s.store (current_of s)) {
    voluntary_yields = add64 (s.store (current_of s)).voluntary_yields 1;
    ticks_remaining = 0;
  });
}

-- A yield with a ready task hands over to it; the task that yielded is last in the list, with
-- nothing left of its slice.
pub yield_switches :
    (s : Sched) (x : ℕ) (xs : List ℕ)
    → IsValid s (x ∷ xs)
    → keeps_current s ≡ true
    → let s' = scheduler_yield s in
      (current_of s' ≡ x)
      × IsValid s' (xs ++ current_of s ∷ [])
      × ((p : ℕ)
          → (s'.store p).ticks_remaining
            ≡ (if current_of s == p then 0 else (s.store p).ticks_remaining))
      × (keeps_current s' ≡ true)
unfolding scheduler_yield
yield_switches s x xs v b =
    let e : (current_of s == 0) ≡ false = ground arith in
    let w : IsValid (yielding s) (x ∷ xs) = record {
      queue =
          IsQueue-frame s.store (yielding s).store (s.rqs 0) (s.rqs 0) (x ∷ xs) (λ p. ground arith)
            refl refl refl v.queue;
      current_out = v.current_out;
    } in
    let k : keeps_current (yielding s) ≡ true = ground arith in
    let r = schedule_switch (yielding s) x xs w in
    rw e (
      r.0,
      subst
          (λ q.
            IsValid (scheduler_schedule (yielding s)) (if q then xs ++ current_of s ∷ [] else xs))
          k r.1,
      λ p. r.4 p ∙ ground arith,
      rw r.0 (ground (arith, r.2 x, v.queue.chain)),
    )

num_cpus-yield : (s : Sched) → (scheduler_yield s).num_cpus ≡ s.num_cpus
unfolding scheduler_yield
num_cpus-yield s = elim (Bool-cases (current_of s == 0)) [
  | inl z ↦ rw z (num_cpus-schedule s)
  | inr nz ↦ rw nz (num_cpus-schedule (yielding s))
]

-- The state in which a terminating task hands over.
abbrev dying : Sched → Sched
dying s = record s {
  store = update s.store (current_of s) (record (s.store (current_of s)) { state = terminated });
}

dying-IsValid : (s : Sched) (xs : List ℕ) → IsValid s xs → IsValid (dying s) xs
dying-IsValid s xs v = record {
  queue =
      IsQueue-frame s.store (dying s).store (s.rqs 0) (s.rqs 0) xs (λ p. ground arith) refl refl
        refl v.queue;
  current_out = v.current_out;
}

-- On one CPU, in a valid state with a running task and one ready one that yield to one another:
-- the first one has its turn again, and the next tick takes the CPU from it.
pub yield_loses_slice :
    (s : Sched) (x : ℕ)
    → IsValid s (x ∷ [])
    → s.num_cpus ≡ 1
    → keeps_current s ≡ true
    → let s' = scheduler_yield (scheduler_yield s) in
      (current_of s' ≡ current_of s) × (current_of (scheduler_tick s') ≡ x)
yield_loses_slice s x v one b =
    let c : ℕ = current_of s in
    let s₁ : Sched = scheduler_yield s in
    let s₂ : Sched = scheduler_yield s₁ in
    let r₁ = yield_switches s x [] v b in
    let r₂ = yield_switches s₁ c [] r₁.1 r₁.3 in
    let v₂ : IsValid s₂ (x ∷ []) = subst (λ q. IsValid s₂ (q ∷ [])) r₁.0 r₂.1 in
    let left : (s₂.store (current_of s₂)).ticks_remaining ≤ 1 =
      rw r₂.0 (ground (arith, r₂.2 c, r₁.2 c, v.current_out)) in
    let t = tick_preempts s₂ x [] v₂ (num_cpus-yield s₁ ∙ num_cpus-yield s ∙ one) r₂.3 left in
    (r₂.0, t.0)

-- In a valid state with a ready task: a current task that terminates is in no ready list any
-- more, and the first ready task runs.
pub terminate_switches :
    (s : Sched) (x : ℕ) (xs : List ℕ)
    → IsValid s (x ∷ xs)
    → current_of s ≢ 0
    → let s' = scheduler_terminate s in
      (current_of s' ≡ x) × IsValid s' xs × ((s'.store (current_of s)).state ≡ terminated)
unfolding scheduler_terminate
terminate_switches s x xs v nz =
    let e : (current_of s == 0) ≡ false = ground arith in
    let w = dying-IsValid s (x ∷ xs) v in
    let k : keeps_current (dying s) ≡ false = ground arith in
    let r = schedule_switch (dying s) x xs w in
    rw e (
      r.0,
      subst
          (λ q. IsValid (scheduler_schedule (dying s)) (if q then xs ++ current_of s ∷ [] else xs))
          k r.1,
      r.2 (current_of s) ∙ ground (arith, v.current_out),
    )

-- On one CPU, in a valid state without a ready task: a current task with more than one tick left
-- that terminates stays the current one, and the next tick charges it.
pub terminate_alone :
    (s : Sched)
    → IsValid s []
    → s.num_cpus ≡ 1
    → current_of s ≢ 0
    → 1 < (s.store (current_of s)).ticks_remaining
    → let s' = scheduler_terminate s in
      (current_of s' ≡ current_of s)
      × ((s'.store (current_of s)).state ≡ terminated)
      × (((scheduler_tick s').store (current_of s)).cpu_time
          ≡ add64 (s.store (current_of s)).cpu_time 1)
unfolding scheduler_terminate
terminate_alone s v one nz h =
    let e : (current_of s == 0) ≡ false = ground arith in
    let w = dying-IsValid s [] v in
    let left : 1 < ((dying s).store (current_of s)).ticks_remaining = ground arith in
    let t = tick_continues (dying s) [] w one nz left in
    rw (e, schedule_idle (dying s) w) (refl, ground arith, t.3 ∙ ground arith)
