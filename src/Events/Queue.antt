-- ===== src/Events/Queue.antt =====
-- One circular buffer of events.c against a slot of the specification.
use mathlib.Core.Option
use native.Mathlib.Numerals.{add-one}
use base_kernel.Base.{
  ℕ, ◌+◌, ◌%◌, ◌≤◌, ◌<◌, ◌≡◌, refl, ap, inl, inr, List, Option, some, leb, ◌==◌, Bool-cases, arith,
  length, length-set,
}
use base_kernel.Base.Ring.{stored, length-stored, stored-set, stored_of_pos}
use base_kernel.Events.{
  Event, EventQueue, zero_event, zero_queue, event_queue_size, enqueue, dequeue,
}
use base_kernel.Events.Spec.{Slot, push, pop, pop_list}

-- The buffer is whole, and the write index follows from the read index and the count.
pub record IsValid (q : EventQueue) : Type 0 where
  pub size : length q.queue ≡ event_queue_size
  pub tail_in : q.tail < event_queue_size
  pub count_in : q.count ≤ event_queue_size
  pub head_at : q.head ≡ (q.tail + q.count) % event_queue_size

abbrev pub pending_of : EventQueue → List Event
pending_of q = stored zero_event event_queue_size q.queue q.tail q.count

abbrev pub view : EventQueue → Slot
view q = record { owner = q.registered_process; pending = pending_of q }

pub zero_queue-IsValid : (pid : ℕ) → IsValid (record zero_queue { registered_process = pid })
zero_queue-IsValid pid = record {
  size = refl;
  tail_in = omega arith;
  count_in = omega arith;
  head_at = refl;
}

-- A posted event is the newest of the queue, or refused when 256 are pending.
pub enqueue_refines :
    (e : Event) (q : EventQueue) → IsValid q → Option.map view (enqueue e q) ≡ push e (view q)
unfolding enqueue push
enqueue_refines e q v =
    rw (length-stored zero_event event_queue_size q.queue q.tail q.count)
      (elim (Bool-cases (leb event_queue_size q.count)) [
        | inl full ↦ rw full refl
        | inr room ↦ rw room (
            let s =
              stored-set zero_event event_queue_size q.queue e q.count q.tail q.head
                (omega (arith, v.size)) v.tail_in (ground arith) v.head_at in
            ap {B = Option Slot}
              (λ ps. some (record { owner = q.registered_process; pending = ps }))
              (rw (add-one q.count) s))
      ])

pub enqueue-IsValid :
    (e : Event) (q : EventQueue) {q' : EventQueue} → IsValid q → enqueue e q ≡ some q' → IsValid q'
unfolding enqueue
enqueue-IsValid e q {q'} v h = ground (arith, length-set q.queue q.head e, v.size)

pub dequeue_refines :
    (q : EventQueue)
    → IsValid q
    → Option.map (λ (x : Event × EventQueue). (x.0, view x.1)) (dequeue q) ≡ pop (view q)
unfolding dequeue pop pop_list
dequeue_refines q v = elim (Bool-cases (q.count == 0)) [
  | inl z ↦ let e : q.count ≡ 0 = ground arith in rw (z, e) refl
  | inr nz ↦
      rw (nz, stored_of_pos zero_event event_queue_size q.queue q.tail q.count (ground arith)) refl
]

pub dequeue-IsValid :
    (q : EventQueue) {e : Event} {q' : EventQueue}
    → IsValid q
    → dequeue q ≡ some (e, q')
    → IsValid q'
unfolding dequeue
dequeue-IsValid q {e} {q'} v h = ground arith
