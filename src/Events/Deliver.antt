-- ===== src/Events/Deliver.antt =====
-- `keyboard_event_handler` and `mouse_event_handler`: who gets an interrupt's event.
use base_kernel.Base.{
  ℕ, ◌<◌, ◌≡◌, ◌≢◌, sym, ap, ◌∙◌, true, some, leb, ltb, ◌&&◌, ◌+◌, arith, get_or,
}
use base_kernel.Events.{
  Event, keyboard, timestamp, Table, zero_queue, max_event_queues, find_queue, broadcast_from,
  keyboard_event_handler,
}
use base_kernel.Events.Spec.{Slot, free_slot, post_all}
use base_kernel.Events.Queue.{view}
use base_kernel.Events.Table.{AllValid, slots, broadcast_refines, get_or-slots, find_queue-slots}
use base_kernel.Events.Handler.{IsSole, offered, broadcast_offers, second_queue_starves, owner_at}

broadcast_view :
    (e : Event) (t : Table) (j : ℕ)
    → AllValid t
    → view (get_or (broadcast_from e max_event_queues 0 t) j zero_queue)
      ≡ get_or (post_all e max_event_queues 0 (slots t)) j free_slot
broadcast_view e t j v =
    sym (get_or-slots (broadcast_from e max_event_queues 0 t) j)
    ∙ ap (λ ss. get_or ss j free_slot) (broadcast_refines e max_event_queues 0 t v).0

-- In a table of valid queues, a keyboard interrupt appends one event to each of the 16 queues
-- that is the only one of its process, if fewer than 256 are pending there, and leaves it as it
-- is otherwise.
pub keyboard_handler_delivers :
    (keycode modifiers state : ℕ) (t : Table) (j : ℕ)
    → AllValid t
    → j < max_event_queues
    → IsSole (slots t) j
    → view (get_or (keyboard_event_handler keycode modifiers state t) j zero_queue)
      ≡ offered (keyboard timestamp keycode modifiers state) (view (get_or t j zero_queue))
unfolding keyboard_event_handler
keyboard_handler_delivers keycode modifiers state t j v h u =
    let e = keyboard timestamp keycode modifiers state in
    let inside : (leb 0 j && ltb j (0 + max_event_queues)) ≡ true = ground arith in
    broadcast_view e t j v
    ∙ broadcast_offers e max_event_queues 0 (slots t) j u
    ∙ rw inside (ap (offered e) (get_or-slots t j))

-- In a table of valid queues, a queue that is not the first one of its process gets no keyboard
-- event from an interrupt.
pub keyboard_handler_starves :
    (keycode modifiers state : ℕ) (t : Table) (i j : ℕ)
    → AllValid t
    → find_queue (get_or t j zero_queue).registered_process t ≡ some i
    → i ≢ j
    → view (get_or (keyboard_event_handler keycode modifiers state t) j zero_queue)
      ≡ view (get_or t j zero_queue)
unfolding keyboard_event_handler
keyboard_handler_starves keycode modifiers state t i j v f ne =
    let e = keyboard timestamp keycode modifiers state in
    let owner : owner_at (slots t) j ≡ (get_or t j zero_queue).registered_process =
      ap (λ (s : Slot). s.owner) (get_or-slots t j) in
    broadcast_view e t j v
    ∙ second_queue_starves e max_event_queues 0 (slots t) i j
        (rw owner (sym (find_queue-slots _ t) ∙ f)) ne
    ∙ get_or-slots t j
