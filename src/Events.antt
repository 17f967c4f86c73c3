-- ===== src/Events.antt =====
-- events.c: one table of 16 event queues, each a circular buffer of 256 events that belongs to a
-- process. Process ids and event fields are only stored and compared, so they are the bit
-- patterns of their machine integers. A call that changes the table returns the new one.
pub mod Spec
pub mod Queue
pub mod Table
pub mod Refine
pub mod Handler
pub mod Deliver
mod Tests
use base_kernel.Base.{
  ℕ, zero, suc, ◌+◌, ◌-◌, ◌%◌, ◌^◌, Bool, true, false, not, ◌||◌, List, [], ◌∷◌, Option, none, some,
  ltb, leb, ◌==◌, if◌then◌else◌, get_or, set, replicate, length,
}
use base_kernel.Base.Int.{ℤ, pos, negsuc}

abbrev pub event_queue_size : ℕ
event_queue_size = 256

abbrev pub max_event_queues : ℕ
max_event_queues = 16

-- `event_t`: the tag with the union's member that goes with it.
pub data Event : Type 0 where
  keyboard : ℕ → ℕ → ℕ → ℕ → Event
  mouse : ℕ → ℕ → ℕ → ℕ → ℕ → Event

-- An event of all zero bytes.
abbrev pub zero_event : Event
zero_event = keyboard 0 0 0 0

pub record EventQueue : Type 0 where
  pub queue : List Event
  pub head : ℕ
  pub tail : ℕ
  pub count : ℕ
  pub registered_process : ℕ

-- `memset(&event_queues[i], 0, sizeof(event_queue_t))`
abbrev pub zero_queue : EventQueue
zero_queue = record {
  queue = replicate event_queue_size zero_event;
  head = 0;
  tail = 0;
  count = 0;
  registered_process = 0;
}

abbrev pub Table : Type 0
Table = List EventQueue

-- The table after `event_init`.
pub event_init : Table
event_init = replicate max_event_queues zero_queue

-- The searches over the table: the first index whose queue belongs to `pid`.
pub find_queue : ℕ → Table → Option ℕ
find_queue pid [] = none
find_queue pid (q ∷ qs) =
    if q.registered_process == pid
    then some 0
    else elim (find_queue pid qs) [ none ↦ none | some i ↦ some (suc i) ]

pub event_create_queue : ℕ → Table → Option ℕ × Table
event_create_queue pid t = elim (find_queue 0 t) [
  | none ↦ (none, t)
  | some i ↦ (some i, set t i (record zero_queue { registered_process = pid }))
]

-- `queue_id < 0 || queue_id >= MAX_EVENT_QUEUES`, and the queue's state where it passes.
pub queue_at : ℤ → Table → Option EventQueue
queue_at (negsuc n) t = none
queue_at (pos i) t =
    if leb max_event_queues i
    then none
    else (let q = get_or t i zero_queue in if q.registered_process == 0 then none else some q)

abbrev pub index : ℤ → ℕ
index (pos i) = i
index (negsuc n) = 0

-- `true` for the result 0, `false` for -1.
pub event_destroy_queue : ℤ → Table → Bool × Table
event_destroy_queue id t = elim (queue_at id t) [
  | none ↦ (false, t)
  | some q ↦ (true, set t (index id) zero_queue)
]

-- The event goes to the slot `head`, unless the queue is full.
pub enqueue : Event → EventQueue → Option EventQueue
enqueue e q =
    if leb event_queue_size q.count
    then none
    else some (record q {
      queue = set q.queue q.head e;
      head = (q.head + 1) % event_queue_size;
      count = q.count + 1;
    })

-- What `event_queue_keyboard` and `event_queue_mouse` share.
pub post : ℕ → Event → Table → Bool × Table
post target e t = elim (find_queue target t) [
  | none ↦ (false, t)
  | some i ↦ elim (enqueue e (get_or t i zero_queue)) [
    | none ↦ (false, t)
    | some q ↦ (true, set t i q)
  ]
]

-- The placeholder that each queued event carries.
abbrev pub timestamp : ℕ
timestamp = 1234567890

pub event_queue_keyboard : ℕ → ℕ → ℕ → ℕ → Table → Bool × Table
event_queue_keyboard target keycode modifiers state t =
    post target (keyboard timestamp keycode modifiers state) t

pub event_queue_mouse : ℕ → ℕ → ℕ → ℕ → ℕ → Table → Bool × Table
event_queue_mouse target x y buttons wheel t = post target (mouse timestamp x y buttons wheel) t

-- The results -1, 0 and 1 of `event_get_next`, the last with `*event_out`.
pub data Next : Type 0 where
  inactive empty : Next
  got : Event → Next

-- The event at `tail` leaves the queue.
pub dequeue : EventQueue → Option (Event × EventQueue)
dequeue q =
    if q.count == 0
    then none
    else some (
      get_or q.queue q.tail zero_event,
      record q { tail = (q.tail + 1) % event_queue_size; count = q.count - 1 },
    )

pub event_get_next : ℤ → Table → Next × Table
event_get_next id t = elim (queue_at id t) [
  | none ↦ (inactive, t)
  | some q ↦ elim (dequeue q) [ none ↦ (empty, t) | some (e, q') ↦ (got e, set t (index id) q') ]
]

-- The loops of `keyboard_event_handler` and `mouse_event_handler`: the rounds `i`, `i + 1`, ….
pub broadcast_from : Event → ℕ → ℕ → Table → Table
broadcast_from e zero i t = t
broadcast_from e (suc n) i t =
    let pid = (get_or t i zero_queue).registered_process in
    broadcast_from e n (i + 1) (if pid == 0 then t else (post pid e t).1)

pub keyboard_event_handler : ℕ → ℕ → ℕ → Table → Table
keyboard_event_handler keycode modifiers state =
    broadcast_from (keyboard timestamp keycode modifiers state) max_event_queues 0

pub mouse_event_handler : ℕ → ℕ → ℕ → ℕ → Table → Table
mouse_event_handler x y buttons wheel =
    broadcast_from (mouse timestamp x y buttons wheel) max_event_queues 0

-- The system calls, for the process `pid` that the scheduler runs.
pub sys_event_create_queue : ℕ → Table → Option ℕ × Table
sys_event_create_queue pid t = event_create_queue pid t

-- `(int)queue_id` of a 64-bit integer: the low 32 bits, read with their sign.
abbrev low_bits : ℤ → ℕ
low_bits (pos n) = n % 2 ^ 32
low_bits (negsuc n) = 2 ^ 32 - 1 - n % 2 ^ 32

abbrev pub to_int : ℤ → ℤ
to_int z = let w = low_bits z in if ltb w (2 ^ 31) then pos w else negsuc (2 ^ 32 - 1 - w)

pub sys_event_destroy_queue : ℤ → Table → Bool × Table
sys_event_destroy_queue id t = event_destroy_queue (to_int id) t

pub sys_event_get_next : ℕ → Table → Next × Table
sys_event_get_next pid t = elim (find_queue pid t) [
  | none ↦ (inactive, t)
  | some i ↦ event_get_next (pos i) t
]

-- What the rest of the kernel can ask of the table, and what it is told.
pub data Call : Type 0 where
  create : ℕ → Call
  destroy : ℤ → Call
  post_keyboard : ℕ → ℕ → ℕ → ℕ → Call
  post_mouse : ℕ → ℕ → ℕ → ℕ → ℕ → Call
  next : ℤ → Call
  next_of_process : ℕ → Call
  keyboard_interrupt : ℕ → ℕ → ℕ → Call
  mouse_interrupt : ℕ → ℕ → ℕ → ℕ → Call

pub data Reply : Type 0 where
  created : Option ℕ → Reply
  done : Bool → Reply
  received : Next → Reply
  handled : Reply

pub step : Call → Table → Reply × Table
step (create pid) t = let (r, t') = event_create_queue pid t in (created r, t')
step (destroy id) t = let (r, t') = event_destroy_queue id t in (done r, t')
step (post_keyboard p k m s) t = let (r, t') = event_queue_keyboard p k m s t in (done r, t')
step (post_mouse p x y b w) t = let (r, t') = event_queue_mouse p x y b w t in (done r, t')
step (next id) t = let (r, t') = event_get_next id t in (received r, t')
step (next_of_process pid) t = let (r, t') = sys_event_get_next pid t in (received r, t')
step (keyboard_interrupt k m s) t = (handled, keyboard_event_handler k m s t)
step (mouse_interrupt x y b w) t = (handled, mouse_event_handler x y b w t)

-- The replies to a sequence of calls.
pub run : List Call → Table → List Reply
run [] t = []
run (c ∷ cs) t = let (r, t') = step c t in r ∷ run cs t'
