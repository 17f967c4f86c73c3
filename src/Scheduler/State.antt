-- ===== src/Scheduler/State.antt =====
-- The data of kernel/scheduler.c.
use base_kernel.Base.{ℕ, ◌==◌, if◌then◌else◌}
use base_kernel.Base.Int.{ℤ, pos}

pub data Workload : Type 0 where
  interactive compute io realtime : Workload

pub data TaskState : Type 0 where
  running ready blocked terminated : TaskState

pub record Task : Type 0 where
  pub id : ℕ
  pub state : TaskState
  pub stack_top : ℕ
  pub stack_bottom : ℕ
  pub priority : ℤ
  pub dynamic_priority : ℤ
  pub time_slice : ℕ
  pub ticks_remaining : ℕ
  pub workload : Workload
  pub cpu_time : ℕ
  pub io_wait_time : ℕ
  pub last_run : ℕ
  pub voluntary_yields : ℕ
  pub cpu_affinity : ℕ
  pub last_cpu : ℕ
  pub vm_context : ℕ
  pub next : ℕ

pub record RunQueue : Type 0 where
  pub head : ℕ
  pub tail : ℕ
  pub running_task : ℕ
  pub total_tasks : ℕ
  pub idle_time : ℕ
  pub busy_time : ℕ
  pub load : ℕ

abbrev pub Store : Type 0
Store = ℕ → Task

pub record Sched : Type 0 where
  pub store : Store
  pub rqs : ℕ → RunQueue
  pub num_cpus : ℕ
  pub next_task_id : ℕ
  pub global_ticks : ℕ
  pub context_switches : ℕ
  pub load_balances : ℕ

abbrev pub update {ℓ} : {A : Type ℓ} → (ℕ → A) → ℕ → A → ℕ → A
update f p v q = if p == q then v else f q

abbrev pub quantum_interactive : ℕ
quantum_interactive = 5

abbrev pub quantum_compute : ℕ
quantum_compute = 20

abbrev pub quantum_io : ℕ
quantum_io = 10

abbrev pub quantum_realtime : ℕ
quantum_realtime = 2

abbrev pub priority_rt_max : ℤ
priority_rt_max = pos 99

abbrev pub priority_normal : ℤ
priority_normal = pos 100

abbrev pub priority_batch : ℤ
priority_batch = pos 120
