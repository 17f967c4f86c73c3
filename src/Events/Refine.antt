-- ===== src/Events/Refine.antt =====
-- `run` of events.c beside `run_slots` of the specification.
use base_kernel.Base.{
  ℕ, suc, ◌≡◌, refl, ◌∙◌, ap, ap₂, List, [], ◌∷◌, All, replicate, map-replicate, zero,
}
use base_kernel.Events.{
  Table, Call, create, destroy, post_keyboard, post_mouse, next, next_of_process,
  keyboard_interrupt, mouse_interrupt, step, run, event_queue_keyboard, event_queue_mouse,
  keyboard_event_handler, mouse_event_handler, keyboard, mouse, timestamp, max_event_queues,
  event_init, created, done, received, zero_queue,
}
use base_kernel.Events.Spec.{step_slots, run_slots, init_slots}
use base_kernel.Events.Queue.{IsValid, view, zero_queue-IsValid}
use base_kernel.Events.Table.{
  AllValid, slots, Agrees, create_refines, destroy_refines, post_refines, next_refines,
  next_of_refines, broadcast_refines,
}

-- Each call returns the reply of the specification, leaves its slots behind and keeps every
-- buffer valid.
pub step_refines : (c : Call) (t : Table) → AllValid t → Agrees (step c t) (step_slots c (slots t))
unfolding step step_slots event_queue_keyboard event_queue_mouse keyboard_event_handler
    mouse_event_handler
step_refines (create pid) t v = let r = create_refines pid t v in (ap created r.0, r.1, r.2)
step_refines (destroy id) t v = let r = destroy_refines id t v in (ap done r.0, r.1, r.2)
step_refines (post_keyboard p k m s) t v =
    let r = post_refines p (keyboard timestamp k m s) t v in (ap done r.0, r.1, r.2)
step_refines (post_mouse p x y b w) t v =
    let r = post_refines p (mouse timestamp x y b w) t v in (ap done r.0, r.1, r.2)
step_refines (next id) t v = let r = next_refines id t v in (ap received r.0, r.1, r.2)
step_refines (next_of_process pid) t v =
    let r = next_of_refines pid t v in (ap received r.0, r.1, r.2)
step_refines (keyboard_interrupt k m s) t v =
    let r = broadcast_refines (keyboard timestamp k m s) max_event_queues 0 t v in (refl, r.0, r.1)
step_refines (mouse_interrupt x y b w) t v =
    let r = broadcast_refines (mouse timestamp x y b w) max_event_queues 0 t v in (refl, r.0, r.1)

run_from_refines : (cs : List Call) (t : Table) → AllValid t → run cs t ≡ run_slots cs (slots t)
unfolding run run_slots
run_from_refines [] t v = refl
run_from_refines (c ∷ cs) t v =
    let r = step_refines c t v in
    ap₂ ◌∷◌ r.0 (run_from_refines cs (step c t).1 r.2 ∙ ap (run_slots cs) r.1)

All-replicate {ℓ κ} : {A : Type ℓ} (P : A → Type κ) (n : ℕ) (a : A) → P a → All P (replicate n a)
All-replicate P zero a p = tt
All-replicate P (suc n) a p = (p, All-replicate P n a p)

-- From the initial table on, the replies to any sequence of calls, interrupts included, are those
-- of 16 slots with lists of at most 256 pending events, first in first out.
pub run_refines : (cs : List Call) → run cs event_init ≡ run_slots cs init_slots
unfolding event_init init_slots
run_refines cs =
    run_from_refines cs event_init
      (All-replicate IsValid max_event_queues zero_queue (zero_queue-IsValid 0))
    ∙ ap (run_slots cs) (map-replicate view max_event_queues zero_queue)
