-- ===== src/Scheduler/Tick.antt =====
-- `scheduler_tick` on a system with one CPU.
use base_kernel.Base.{
  ℕ, ◌-◌, ◌≤◌, ◌<◌, ◌≡◌, ◌≢◌, refl, subst, ◌∙◌, inl, inr, true, false, List, [], ◌∷◌, ◌++◌, ◌==◌,
  if◌then◌else◌, arith, Bool-cases, add64,
}
use base_kernel.Scheduler.{
  Store, Sched, update, scheduler_schedule, scheduler_dequeue, save_current, switch_to,
  scheduler_enqueue, tick_task, renew_slice, tick_current, scheduler_tick, detect_workload,
  get_time_quantum,
}
use base_kernel.Scheduler.Inv.{IsValid, current_of, IsQueue-frame}
use base_kernel.Scheduler.Schedule.{keeps_current, schedule_switch}
use base_kernel.Scheduler.Balance.{balance_load_single}

pub num_cpus-schedule : (s : Sched) → (scheduler_schedule s).num_cpus ≡ s.num_cpus
unfolding scheduler_schedule scheduler_dequeue save_current switch_to scheduler_enqueue
num_cpus-schedule s = ground arith

num_cpus-tick_current : (s : Sched) → (tick_current s).num_cpus ≡ s.num_cpus
unfolding tick_current
num_cpus-tick_current s =
    elim (Bool-cases ((tick_task (s.store (current_of s))).ticks_remaining == 0)) [
      | inl z ↦ rw z (num_cpus-schedule _)
      | inr nz ↦ rw nz refl
    ]

abbrev ticked : Sched → Sched
ticked s = record s { global_ticks = add64 s.global_ticks 1 }

tick_single :
    (s : Sched) → s.num_cpus ≡ 1 → current_of s ≢ 0 → scheduler_tick s ≡ tick_current (ticked s)
unfolding scheduler_tick
tick_single s one nz =
    let e : (current_of s == 0) ≡ false = ground arith in
    let b =
      balance_load_single (tick_current (ticked s)) (num_cpus-tick_current (ticked s) ∙ one) in
    rw (e, b) (ground arith)

-- The state in which an expired slice hands over.
abbrev expired : Sched → Sched
expired s = record s {
  store = update s.store (current_of s) (renew_slice (tick_task (s.store (current_of s))));
  rqs = update s.rqs 0 (record (s.rqs 0) { busy_time = add64 (s.rqs 0).busy_time 1 });
}

expired-IsValid : (s : Sched) (xs : List ℕ) → IsValid s xs → IsValid (expired s) xs
unfolding renew_slice tick_task
expired-IsValid s xs v = record {
  queue =
      IsQueue-frame s.store (expired s).store (s.rqs 0) ((expired s).rqs 0) xs (λ p. ground arith)
        refl refl refl v.queue;
  current_out = v.current_out;
}

expired-keeps : (s : Sched) → keeps_current (expired s) ≡ keeps_current s
unfolding renew_slice tick_task
expired-keeps s = ground arith

pub busy-ne : (s : Sched) → keeps_current s ≡ true → current_of s ≢ 0
busy-ne s b = ground arith

-- On one CPU, in a valid state, a tick that uses up the slice of the running task while another
-- task is ready: the first ready task runs, the old one is last in the list, with a full quantum
-- for the workload detected from its times, this tick included.
pub tick_preempts :
    (s : Sched) (x : ℕ) (xs : List ℕ)
    → IsValid s (x ∷ xs)
    → s.num_cpus ≡ 1
    → keeps_current s ≡ true
    → (s.store (current_of s)).ticks_remaining ≤ 1
    → let s' = scheduler_tick s in
      (current_of s' ≡ x)
      × IsValid s' (xs ++ current_of s ∷ [])
      × ((s'.store (current_of s)).ticks_remaining
          ≡ get_time_quantum (detect_workload (tick_task (s.store (current_of s)))))
unfolding tick_current tick_task renew_slice
tick_preempts s x xs v one b h =
    let z : ((tick_task (s.store (current_of s))).ticks_remaining == 0) ≡ true = ground arith in
    let t = ticked s in
    let w : IsValid (expired t) (x ∷ xs) =
      expired-IsValid t (x ∷ xs) (record { queue = v.queue; current_out = v.current_out }) in
    let r = schedule_switch (expired t) x xs w in
    let k : keeps_current (expired t) ≡ true = expired-keeps t ∙ b in
    rw (tick_single s one (busy-ne s b), z)
      (
        r.0,
        subst
            (λ q.
              IsValid (scheduler_schedule (expired t)) (if q then xs ++ current_of s ∷ [] else xs))
            k r.1,
        r.4 (current_of s) ∙ ground arith,
      )

-- On one CPU, in a valid state, a tick that leaves some of the slice: the same task runs on, with
-- one tick less and one more tick of CPU time, and the ready list is as it was.
pub tick_continues :
    (s : Sched) (xs : List ℕ)
    → IsValid s xs
    → s.num_cpus ≡ 1
    → current_of s ≢ 0
    → 1 < (s.store (current_of s)).ticks_remaining
    → let s' = scheduler_tick s in
      let t = s.store (current_of s) in
      (current_of s' ≡ current_of s)
      × IsValid s' xs
      × ((s'.store (current_of s)).ticks_remaining ≡ t.ticks_remaining - 1)
      × ((s'.store (current_of s)).cpu_time ≡ add64 t.cpu_time 1)
unfolding tick_current tick_task
tick_continues s xs v one nz h =
    let z : ((tick_task (s.store (current_of s))).ticks_remaining == 0) ≡ false = ground arith in
    let st' : Store = update s.store (current_of s) (tick_task (s.store (current_of s))) in
    rw (tick_single s one nz, z)
      (
        refl,
        record {
          queue =
              IsQueue-frame s.store st' (s.rqs 0) _ xs (λ p. ground arith) refl refl refl v.queue;
          current_out = v.current_out;
        },
        ground arith,
        ground arith,
      )
