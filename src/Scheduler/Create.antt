-- ===== src/Scheduler/Create.antt =====
-- Initialisation, task creation and the task count.
use base_kernel.Base.{
  ℕ, ◌+◌, ◌-◌, ◌<◌, ◌^◌, ◌%◌, ◌≡◌, ◌≢◌, refl, ◌∙◌, true, false, [], arith, add64,
}
use base_kernel.Scheduler.{
  Task, Sched, update, scheduler_init, scheduler_create_task, scheduler_create_task_fork,
  scheduler_enqueue, scheduler_schedule, scheduler_dequeue, save_current, switch_to, enqueue,
  dequeue, scheduler_get_task_count, count_from,
}
use base_kernel.Scheduler.Inv.{IsValid, current_of}
use base_kernel.Scheduler.Schedule.{keeps_current}
use base_kernel.Scheduler.Tick.{num_cpus-schedule}

-- After the initialisation, with an address for the idle task, one CPU runs the idle task, and
-- nothing is ready.
pub scheduler_init-IsValid :
    (idle : ℕ) (s : Sched)
    → idle ≢ 0
    → let s' = scheduler_init idle s in
      IsValid s' [] × (keeps_current s' ≡ true) × (s'.num_cpus ≡ 1)
unfolding scheduler_init
scheduler_init-IsValid idle s nz = (
  record {
    queue = record { chain = refl; distinct = tt; tail_at = refl; load_is = refl };
    current_out = tt;
  },
  ground arith,
  refl,
)

filled : ℕ → Task → Sched → Sched
filled task t s = record s { store = update s.store task t; next_task_id = add64 s.next_task_id 1 }

-- `fork` never makes a task: it passes no entry point on.
pub create_task_fork_fails :
    (task stack : ℕ) (s : Sched) → scheduler_create_task_fork task stack s ≡ (false, 0, s)
unfolding scheduler_create_task_fork scheduler_create_task
create_task_fork_fails task stack s = refl

total-schedule :
    (s : Sched)
    → (s.rqs 0).head ≢ 0
    → (s.rqs 0).head ≢ current_of s
    → keeps_current s ≡ true
    → ((scheduler_schedule s).rqs 0).total_tasks ≡ add64 (s.rqs 0).total_tasks 1
unfolding scheduler_schedule scheduler_dequeue dequeue save_current switch_to scheduler_enqueue
    enqueue
total-schedule s h ne k = ground arith

task_count_single :
    (s : Sched) → s.num_cpus ≡ 1 → scheduler_get_task_count s ≡ (s.rqs 0).total_tasks % 2 ^ 64
unfolding scheduler_get_task_count count_from
task_count_single s one = rw (one, count_from) (omega arith)

-- On one CPU, below the end of the counter: the count of tasks goes up by one whenever the CPU
-- passes from a running task to another one.
pub task_count-schedule :
    (s : Sched)
    → s.num_cpus ≡ 1
    → (s.rqs 0).head ≢ 0
    → (s.rqs 0).head ≢ current_of s
    → keeps_current s ≡ true
    → (s.rqs 0).total_tasks < 2 ^ 64 - 1
    → scheduler_get_task_count (scheduler_schedule s) ≡ scheduler_get_task_count s + 1
task_count-schedule s one h ne k small = omega (
  arith,
  task_count_single s one,
  task_count_single (scheduler_schedule s) (num_cpus-schedule s ∙ one),
  total-schedule s h ne k,
)
