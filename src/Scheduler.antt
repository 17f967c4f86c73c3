-- ===== src/Scheduler.antt =====
-- kernel/scheduler.c: run queues of tasks that are linked through their `next` fields.
-- A pointer to a task is its address, 0 is NULL, and `store` is what the addresses hold. The
-- array of run queues is a function of the CPU's number. Counters wrap at their C types' width.
-- What `kmalloc_tracked` returns comes in as arguments, 0 for a failed allocation. The stack's
-- contents and the log lines are left out.
mod State
pub mod Detect
pub mod Queue
pub mod Inv
pub mod Schedule
pub mod Rotate
pub mod Tick
pub mod Yield
pub mod Balance
pub mod Create
mod Tests
pub use State.*
use base_kernel.Base.{
  ℕ, zero, suc, ◌+◌, ◌-◌, ◌*◌, ◌/◌, ◌%◌, ◌^◌, Bool, true, false, not, ◌&&◌, ◌||◌, ltb, leb, ◌==◌,
  if◌then◌else◌, add64, sub64, add32, sub32,
}
use base_kernel.Base.Int.{ℤ, pos, negsuc, leb_ℤ}

pub detect_workload : Task → Workload
detect_workload t =
    let total = add64 t.cpu_time t.io_wait_time in
    let io_percent = (t.io_wait_time * 100) % 2 ^ 64 / total in
    let cpu_percent = (t.cpu_time * 100) % 2 ^ 64 / total in
    if leb_ℤ t.priority priority_rt_max
    then realtime
    else if total == 0
    then interactive
    else if ltb 50 io_percent
    then io
    else if ltb 80 cpu_percent
    then compute
    else interactive

pub get_time_quantum : Workload → ℕ
get_time_quantum interactive = quantum_interactive
get_time_quantum compute = quantum_compute
get_time_quantum io = quantum_io
get_time_quantum realtime = quantum_realtime

-- `scheduler_enqueue` on one queue: the task is linked behind the tail.
pub enqueue : ℕ → Store → RunQueue → Store × RunQueue
enqueue task store₀ rq =
    let store = update store₀ task (record (store₀ task) { next = 0 }) in
    if rq.head == 0
    then (
      store,
      record rq {
        head = task;
        tail = task;
        total_tasks = add64 rq.total_tasks 1;
        load = add32 rq.load 1;
      },
    )
    else (
      update store rq.tail (record (store rq.tail) { next = task }),
      record rq { tail = task; total_tasks = add64 rq.total_tasks 1; load = add32 rq.load 1 },
    )

-- `scheduler_dequeue` on one queue: the head, 0 if the queue is empty.
pub dequeue : Store → RunQueue → ℕ × Store × RunQueue
dequeue store rq =
    if rq.head == 0
    then (0, store, rq)
    else (let task = rq.head in
        let rest = (store task).next in
        (
          task,
          update store task (record (store task) { next = 0 }),
          record rq {
            head = rest;
            tail = if rest == 0 then 0 else rq.tail;
            load = sub32 rq.load 1;
          },
        ))

pub scheduler_enqueue : ℕ → ℕ → Sched → Sched
scheduler_enqueue cpu task s =
    let (store, rq) = enqueue task s.store (s.rqs cpu) in
    record s { store = store; rqs = update s.rqs cpu rq }

pub scheduler_dequeue : ℕ → Sched → ℕ × Sched
scheduler_dequeue cpu s =
    let (task, store, rq) = dequeue s.store (s.rqs cpu) in
    (task, record s { store = store; rqs = update s.rqs cpu rq })

-- The search of `balance_load`: the rounds `i`, `i + 1`, … with the busiest CPU so far, if any.
pub record Busiest : Type 0 where
  pub found : Bool
  pub cpu : ℕ
  pub max_load : ℕ

pub find_busiest : (ℕ → RunQueue) → ℕ → ℕ → ℕ → Busiest → Busiest
find_busiest rqs cpu zero i b = b
find_busiest rqs cpu (suc n) i b =
    let l = (rqs i).load in
    find_busiest rqs cpu n (i + 1) (
      if not (i == cpu) && ltb (add32 b.max_load 1) l
      then record { found = true; cpu = i; max_load = l }
      else b)

pub steal_task : ℕ → ℕ → Sched → Sched
steal_task cpu victim s =
    let (stolen, s₁) = scheduler_dequeue victim s in
    if stolen == 0
    then s₁
    else (let s₂ = record s₁ {
      store = update s₁.store stolen (record (s₁.store stolen) { last_cpu = cpu });
    } in
        let s₃ = scheduler_enqueue cpu stolen s₂ in
        record s₃ { load_balances = add64 s₃.load_balances 1 })

pub balance_load : ℕ → Sched → Sched
balance_load cpu s =
    let b = find_busiest s.rqs cpu s.num_cpus 0 (record { found = false; cpu = 0; max_load = 0 }) in
    if ltb 0 (s.rqs cpu).load
    then s
    else if b.found && ltb 2 b.max_load
    then steal_task cpu b.cpu s
    else s

abbrev is_running : TaskState → Bool
is_running running = true
is_running _ = false

-- The current task goes back to the queue if it is still runnable.
pub save_current : ℕ → Sched → Sched
save_current current s =
    if not (current == 0) && is_running (s.store current).state
    then scheduler_enqueue 0 current
        (record s { store = update s.store current (record (s.store current) { state = ready }) })
    else s

pub switch_to : ℕ → Sched → Sched
switch_to next s = record s {
  store =
      update s.store next
        (record (s.store next) { state = running; last_run = s.global_ticks; last_cpu = 0 });
  rqs = update s.rqs 0 (record (s.rqs 0) { running_task = next });
  context_switches = add64 s.context_switches 1;
}

pub scheduler_schedule : Sched → Sched
scheduler_schedule s =
    let current = (s.rqs 0).running_task in
    let (next, s₁) = scheduler_dequeue 0 s in
    if next == 0 then s else switch_to next (save_current current s₁)

-- The current task's part of `scheduler_tick`.
pub tick_task : Task → Task
tick_task t = record t { cpu_time = add64 t.cpu_time 1; ticks_remaining = t.ticks_remaining - 1 }

pub renew_slice : Task → Task
renew_slice t =
    let w = detect_workload t in
    record t { workload = w; time_slice = get_time_quantum w; ticks_remaining = get_time_quantum w }

pub tick_current : Sched → Sched
tick_current s =
    let rq = s.rqs 0 in
    let current = rq.running_task in
    let t = tick_task (s.store current) in
    let s₁ = record s { rqs = update s.rqs 0 (record rq { busy_time = add64 rq.busy_time 1 }) } in
    if t.ticks_remaining == 0
    then scheduler_schedule (record s₁ { store = update s.store current (renew_slice t) })
    else record s₁ { store = update s.store current t }

pub scheduler_tick : Sched → Sched
scheduler_tick s₀ =
    let s = record s₀ { global_ticks = add64 s₀.global_ticks 1 } in
    if (s.rqs 0).running_task == 0
    then s
    else (let s₁ = tick_current s in if s₁.global_ticks % 100 == 0 then balance_load 0 s₁ else s₁)

pub scheduler_yield : Sched → Sched
scheduler_yield s =
    let current = (s.rqs 0).running_task in
    let t = s.store current in
    if current == 0
    then scheduler_schedule s
    else scheduler_schedule (record s {
      store =
          update s.store current
            (record t { voluntary_yields = add64 t.voluntary_yields 1; ticks_remaining = 0 });
    })

pub scheduler_terminate : Sched → Sched
scheduler_terminate s =
    let current = (s.rqs 0).running_task in
    if current == 0
    then s
    else scheduler_schedule (record s {
      store = update s.store current (record (s.store current) { state = terminated });
    })

abbrev pub empty_queue : RunQueue
empty_queue = record {
  head = 0;
  tail = 0;
  running_task = 0;
  total_tasks = 0;
  idle_time = 0;
  busy_time = 0;
  load = 0;
}

-- `scheduler_init`, with the address of the idle task. The fields that it does not write keep what
-- `kmalloc` left there, zeros, as do the run queues of the other CPUs.
pub scheduler_init : ℕ → Sched → Sched
scheduler_init idle s = record s {
  store = update s.store idle (record {
    id = s.next_task_id;
    state = running;
    stack_top = 0;
    stack_bottom = 0;
    priority = priority_batch;
    dynamic_priority = priority_batch;
    time_slice = quantum_interactive;
    ticks_remaining = quantum_interactive;
    workload = interactive;
    cpu_time = 0;
    io_wait_time = 0;
    last_run = 0;
    voluntary_yields = 0;
    cpu_affinity = 1;
    last_cpu = 0;
    vm_context = 0;
    next = 0;
  });
  rqs = update s.rqs 0 (record empty_queue { running_task = idle });
  num_cpus = 1;
  next_task_id = add64 s.next_task_id 1;
}

-- A new task: the stack pointer lies 21 words below the stack's end, behind the frame.
pub new_task : ℕ → ℕ → ℕ → ℤ → Task
new_task id stack stack_top priority = record {
  id = id;
  state = ready;
  stack_top = stack_top;
  stack_bottom = stack;
  priority = priority;
  dynamic_priority = priority;
  time_slice = quantum_interactive;
  ticks_remaining = quantum_interactive;
  workload = interactive;
  cpu_time = 0;
  io_wait_time = 0;
  last_run = 0;
  voluntary_yields = 0;
  cpu_affinity = 0xFFFFFFFF;
  last_cpu = 0;
  vm_context = 0;
  next = 0;
}

-- What the two kinds of creation share: both allocations worked, the task is filled in and queued.
-- The result is the `uint64_t` id before its conversion to `pid_t`; 0 stands beside it for -1.
pub add_task : ℕ → ℕ → ℕ → ℤ → Sched → Bool × ℕ × Sched
add_task task stack stack_top priority s =
    let id = s.next_task_id in
    if task == 0 then (false, 0, s) else if stack == 0 then (false, 0, s) else (
      true,
      id,
      scheduler_enqueue 0 task (record s {
        store = update s.store task (new_task id stack stack_top priority);
        next_task_id = add64 id 1;
      }),
    )

-- `scheduler_create_task(entry, arg, stack_size, priority, name)`
pub scheduler_create_task : ℕ → ℕ → ℤ → ℕ → ℕ → Sched → Bool × ℕ × Sched
scheduler_create_task entry stack_size priority task stack s =
    if entry == 0 || ltb stack_size 4096
    then (false, 0, s)
    else add_task task stack (sub64 (add64 stack stack_size) 168) priority s

pub scheduler_create_user_task : ℕ → ℕ → Sched → Bool × ℕ × Sched
scheduler_create_user_task task kstack s =
    add_task task kstack (add64 kstack 4096) priority_normal s

-- `entry` is NULL here.
pub scheduler_create_task_fork : ℕ → ℕ → Sched → Bool × ℕ × Sched
scheduler_create_task_fork task stack s = scheduler_create_task 0 4096 priority_normal task stack s

pub scheduler_get_current_task_id : Sched → ℕ
scheduler_get_current_task_id s =
    let current = (s.rqs 0).running_task in if current == 0 then 0 else (s.store current).id

pub count_from : (ℕ → RunQueue) → ℕ → ℕ → ℕ → ℕ
count_from rqs zero i total = total
count_from rqs (suc n) i total = count_from rqs n (i + 1) (add64 total (rqs i).total_tasks)

pub scheduler_get_task_count : Sched → ℕ
scheduler_get_task_count s = count_from s.rqs s.num_cpus 0 0
