-- ===== src/Events/Spec.antt =====
-- What the event system of events.c promises: 16 slots, each free or owned by a process with a
-- list of at most 256 pending events, oldest first. No indices and no buffers.
use base_kernel.Base.{
  ℕ, zero, suc, ◌+◌, Bool, true, false, List, [], ◌∷◌, ◌++◌, Option, none, some, leb, ◌==◌,
  if◌then◌else◌, get_or, set, replicate, length,
}
use base_kernel.Base.Int.{ℤ, pos, negsuc}
use base_kernel.Events.{
  Event, keyboard, mouse, event_queue_size, max_event_queues, timestamp, index, Next, inactive,
  empty, got, Call, create, destroy, post_keyboard, post_mouse, next, next_of_process,
  keyboard_interrupt, mouse_interrupt, Reply, created, done, received, handled,
}

pub record Slot : Type 0 where
  pub owner : ℕ
  pub pending : List Event

abbrev pub free_slot : Slot
free_slot = record { owner = 0; pending = [] }

abbrev pub Slots : Type 0
Slots = List Slot

unfoldable pub init_slots : Slots
init_slots = replicate max_event_queues free_slot

unfoldable pub find_slot : ℕ → Slots → Option ℕ
find_slot pid [] = none
find_slot pid (s ∷ ss) =
    if s.owner == pid
    then some 0
    else elim (find_slot pid ss) [ none ↦ none | some i ↦ some (suc i) ]

unfoldable pub create_slot : ℕ → Slots → Option ℕ × Slots
create_slot pid t = elim (find_slot 0 t) [
  | none ↦ (none, t)
  | some i ↦ (some i, set t i (record { owner = pid; pending = [] }))
]

unfoldable pub slot_at : ℤ → Slots → Option Slot
slot_at (negsuc n) t = none
slot_at (pos i) t =
    if leb max_event_queues i
    then none
    else (let s = get_or t i free_slot in if s.owner == 0 then none else some s)

unfoldable pub destroy_slot : ℤ → Slots → Bool × Slots
destroy_slot id t = elim (slot_at id t) [
  | none ↦ (false, t)
  | some s ↦ (true, set t (index id) free_slot)
]

unfoldable pub push : Event → Slot → Option Slot
push e s =
    if leb event_queue_size (length s.pending)
    then none
    else some (record s { pending = s.pending ++ e ∷ [] })

unfoldable pub pop_list : ℕ → List Event → Option (Event × Slot)
pop_list owner [] = none
pop_list owner (e ∷ es) = some (e, record { owner = owner; pending = es })

unfoldable pub pop : Slot → Option (Event × Slot)
pop s = pop_list s.owner s.pending

unfoldable pub post_slot : ℕ → Event → Slots → Bool × Slots
post_slot target e t = elim (find_slot target t) [
  | none ↦ (false, t)
  | some i ↦ elim (push e (get_or t i free_slot)) [ none ↦ (false, t) | some s ↦ (true, set t i s) ]
]

unfoldable pub next_slot : ℤ → Slots → Next × Slots
next_slot id t = elim (slot_at id t) [
  | none ↦ (inactive, t)
  | some s ↦ elim (pop s) [ none ↦ (empty, t) | some (e, s') ↦ (got e, set t (index id) s') ]
]

unfoldable pub next_of : ℕ → Slots → Next × Slots
next_of pid t = elim (find_slot pid t) [ none ↦ (inactive, t) | some i ↦ next_slot (pos i) t ]

unfoldable pub post_all : Event → ℕ → ℕ → Slots → Slots
post_all e zero i t = t
post_all e (suc n) i t =
    let pid = (get_or t i free_slot).owner in
    post_all e n (i + 1) (if pid == 0 then t else (post_slot pid e t).1)

unfoldable pub step_slots : Call → Slots → Reply × Slots
step_slots (create pid) t = let (r, t') = create_slot pid t in (created r, t')
step_slots (destroy id) t = let (r, t') = destroy_slot id t in (done r, t')
step_slots (post_keyboard p k m s) t =
    let (r, t') = post_slot p (keyboard timestamp k m s) t in (done r, t')
step_slots (post_mouse p x y b w) t =
    let (r, t') = post_slot p (mouse timestamp x y b w) t in (done r, t')
step_slots (next id) t = let (r, t') = next_slot id t in (received r, t')
step_slots (next_of_process pid) t = let (r, t') = next_of pid t in (received r, t')
step_slots (keyboard_interrupt k m s) t =
    (handled, post_all (keyboard timestamp k m s) max_event_queues 0 t)
step_slots (mouse_interrupt x y b w) t =
    (handled, post_all (mouse timestamp x y b w) max_event_queues 0 t)

unfoldable pub run_slots : List Call → Slots → List Reply
run_slots [] t = []
run_slots (c ∷ cs) t = let (r, t') = step_slots c t in r ∷ run_slots cs t'
