-- ===== src/Scheduler/Tests.antt =====
-- Tests of kernel/scheduler.c, and its theorems at concrete states.
use base_kernel.Base.{ℕ, ◌≡◌, refl, [], ◌∷◌, arith, add64, if◌then◌else◌, ◌==◌}
use base_kernel.Scheduler.{
  running, Task, Sched, empty_queue, new_task, priority_normal, detect_workload, get_time_quantum,
  tick_task, scheduler_schedule, scheduler_tick,
}
use base_kernel.Scheduler.Inv.{IsValid, current_of}
use base_kernel.Scheduler.Schedule.{ready_after, state_after, schedule_switch}
use base_kernel.Scheduler.Rotate.{reschedule, reschedule_reaches, IsBusy}
use base_kernel.Scheduler.Tick.{tick_preempts}

abbrev plain : Task
plain = new_task 1 4096 8192 priority_normal

-- Task 10 runs with one tick left; tasks 20 and 30 are ready, in this order.
abbrev three : Sched
three = record {
  store = λ p.
      if p == 10
      then record plain { state = running; ticks_remaining = 1 }
      else if p == 20
      then record plain { id = 2; next = 30 }
      else record plain { id = 3 };
  rqs = λ c. record empty_queue {
    head = 20;
    tail = 30;
    running_task = 10;
    total_tasks = 3;
    load = 2;
  };
  num_cpus = 1;
  next_task_id = 4;
  global_ticks = 0;
  context_switches = 0;
  load_balances = 0;
}

-- Task 10 runs, and only task 20 is ready.
abbrev two : Sched
two = record three {
  store = λ p.
      if p == 10
      then record plain { state = running; ticks_remaining = 5 }
      else record plain { id = 2 };
  rqs = λ c. record empty_queue {
    head = 20;
    tail = 20;
    running_task = 10;
    total_tasks = 2;
    load = 1;
  };
}

-- Task 10 runs alone.
abbrev one_task : Sched
one_task = record two { rqs = λ c. record empty_queue { running_task = 10; total_tasks = 1 } }

three-IsValid : IsValid three (20 ∷ 30 ∷ [])
unfolding new_task
three-IsValid = record {
  queue = record {
    chain = (refl, omega arith, (refl, omega arith, refl));
    distinct = ((omega arith, tt), (tt, tt));
    tail_at = refl;
    load_is = refl;
  };
  current_out = (omega arith, (omega arith, tt));
}

two-IsValid : IsValid two (20 ∷ [])
unfolding new_task
two-IsValid = record {
  queue = record {
    chain = (refl, omega arith, refl);
    distinct = (tt, tt);
    tail_at = refl;
    load_is = refl;
  };
  current_out = (omega arith, tt);
}

one_task-IsValid : IsValid one_task []
one_task-IsValid = record {
  queue = record { chain = refl; distinct = tt; tail_at = refl; load_is = refl };
  current_out = tt;
}

schedule_switch_example :
    let s' = scheduler_schedule three in
    (current_of s' ≡ 20)
    × IsValid s' (ready_after three (30 ∷ []))
    × ((p : ℕ) → (s'.store p).state ≡ state_after three 20 p)
    × (s'.context_switches ≡ add64 0 1)
    × ((p : ℕ) → (s'.store p).ticks_remaining ≡ (three.store p).ticks_remaining)
schedule_switch_example = schedule_switch three 20 (30 ∷ []) three-IsValid

reschedule_reaches_example :
    let s' = reschedule 2 three in (current_of s' ≡ 30) × IsValid s' (10 ∷ 20 ∷ []) × IsBusy s'
reschedule_reaches_example = reschedule_reaches (20 ∷ []) three 30 [] three-IsValid refl

tick_preempts_example :
    let s' = scheduler_tick three in
    (current_of s' ≡ 20)
    × IsValid s' (30 ∷ 10 ∷ [])
    × ((s'.store 10).ticks_remaining
        ≡ get_time_quantum (detect_workload (tick_task (three.store 10))))
tick_preempts_example = tick_preempts three 20 (30 ∷ []) three-IsValid refl refl (omega arith)

-- Two CPUs, the second with a load of five.
abbrev uneven : Sched
uneven = record one_task {
  rqs = λ c. if c == 0 then empty_queue else record empty_queue { head = 20; tail = 20; load = 5 };
  num_cpus = 2;
}
