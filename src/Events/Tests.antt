-- ===== src/Events/Tests.antt =====
-- Tests of events.c, and its theorems at concrete tables.
use base_kernel.Base.{ℕ, zero, suc, ◌≡◌, refl, true, List, [], ◌∷◌, some, arith, get_or}
use base_kernel.Base.Int.{pos, negsuc}
use base_kernel.Events.{
  keyboard, timestamp, EventQueue, Table, zero_queue, find_queue, event_create_queue, queue_at,
  event_destroy_queue, enqueue, post, event_queue_keyboard, dequeue, event_get_next, broadcast_from,
  keyboard_event_handler, sys_event_get_next, event_init, Call, create, destroy, post_keyboard,
  next, next_of_process, keyboard_interrupt, created, done, received, handled, got, inactive, empty,
  step, run,
}
use base_kernel.Events.Spec.{run_slots, init_slots, find_slot}
use base_kernel.Events.Queue.{view, zero_queue-IsValid}
use base_kernel.Events.Table.{AllValid, slots}
use base_kernel.Events.Handler.{offered, IsSole}
use base_kernel.Events.Refine.{run_refines}
use base_kernel.Events.Deliver.{keyboard_handler_delivers}

abbrev script : List Call
script =
    create 7
    ∷ keyboard_interrupt 30 0 1
    ∷ post_keyboard 7 31 0 1
    ∷ next (pos 0)
    ∷ next_of_process 7
    ∷ next (pos 0)
    ∷ destroy (pos 0)
    ∷ next (pos 0)
    ∷ next (negsuc 0)
    ∷ []

run-script :
    run script event_init
    ≡ created (some 0)
      ∷ handled
      ∷ done true
      ∷ received (got (keyboard timestamp 30 0 1))
      ∷ received (got (keyboard timestamp 31 0 1))
      ∷ received empty
      ∷ done true
      ∷ received inactive
      ∷ received inactive
      ∷ []
unfolding run step event_init event_create_queue find_queue keyboard_event_handler broadcast_from
    post enqueue event_queue_keyboard event_get_next queue_at dequeue sys_event_get_next
    event_destroy_queue
run-script = refl

run_refines_example : run script event_init ≡ run_slots script init_slots
run_refines_example = run_refines script

-- Process 7 owns queues 0 and 1, process 9 owns queue 2.
abbrev owned : ℕ → EventQueue
owned pid = record zero_queue { registered_process = pid }

abbrev table : Table
table = owned 7 ∷ owned 7 ∷ owned 9 ∷ []

table-AllValid : AllValid table
table-AllValid = (zero_queue-IsValid 7, (zero_queue-IsValid 7, (zero_queue-IsValid 9, tt)))

table-IsSole : IsSole (slots table) 2
unfolding find_slot
table-IsSole = (omega arith, refl, only)
  where
    only : (m : ℕ) → (get_or (slots table) m (record { owner = 0; pending = [] })).owner ≡ 9 → m ≡ 2
    only zero e = absurd (omega arith)
    only (suc zero) e = absurd (omega arith)
    only (suc (suc zero)) e = refl
    only (suc (suc (suc m))) e = absurd (omega arith)

keyboard_handler_delivers_example :
    view (get_or (keyboard_event_handler 30 0 1 table) 2 zero_queue)
    ≡ offered (keyboard timestamp 30 0 1) (view (owned 9))
keyboard_handler_delivers_example =
    keyboard_handler_delivers 30 0 1 table 2 table-AllValid (omega arith) table-IsSole
