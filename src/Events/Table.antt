-- ===== src/Events/Table.antt =====
-- The table of events.c against the slots of the specification, call by call.
use mathlib.Core.Option
use base_kernel.Base.{
  ℕ, zero, suc, ◌+◌, ◌≡◌, refl, sym, subst, ap, ◌∙◌, inl, inr, [], ◌∷◌, map, Option, none, some,
  ◌==◌, Bool-cases, Option-cases, arith, get_or, All, All-set, All-get_or, map-set, get_or-map,
}
use base_kernel.Base.Int.{ℤ, pos, negsuc}
use base_kernel.Events.{
  Event, EventQueue, Table, zero_queue, find_queue, event_create_queue, queue_at, index,
  event_destroy_queue, enqueue, post, dequeue, event_get_next, sys_event_get_next, broadcast_from,
}
use base_kernel.Events.Spec.{
  Slots, free_slot, find_slot, create_slot, slot_at, destroy_slot, push, pop, post_slot, next_slot,
  next_of, post_all,
}
use base_kernel.Events.Queue.{
  IsValid, view, zero_queue-IsValid, enqueue_refines, enqueue-IsValid, dequeue_refines,
  dequeue-IsValid,
}

abbrev pub AllValid : Table → Type 0
AllValid t = All IsValid t

abbrev pub slots : Table → Slots
slots t = map view t

pub find_queue-slots : (pid : ℕ) (t : Table) → find_queue pid t ≡ find_slot pid (slots t)
unfolding find_queue find_slot
find_queue-slots pid [] = refl
find_queue-slots pid (q ∷ qs) = rw (find_queue-slots pid qs) refl

-- The relation between a call's result and its specification's.
abbrev pub Agrees : {R : Type 0} → R × Table → R × Slots → Type 0
Agrees r s = (r.0 ≡ s.0) × (slots r.1 ≡ s.1) × AllValid r.1

slot_found :
    (pid : ℕ) (t : Table) {o : Option ℕ} → find_queue pid t ≡ o → find_slot pid (slots t) ≡ o
slot_found pid t e = sym (find_queue-slots pid t) ∙ e

pub create_refines :
    (pid : ℕ) (t : Table)
    → AllValid t
    → Agrees (event_create_queue pid t) (create_slot pid (slots t))
unfolding event_create_queue create_slot
create_refines pid t v = elim (Option-cases (find_queue 0 t)) [
  | inl e ↦ rw (e, event_create_queue) (rw (slot_found 0 t e, create_slot) (refl, refl, v))
  | inr (i, e) ↦
      rw (e, event_create_queue)
        (rw (slot_found 0 t e, create_slot)
          (refl, map-set view t i _, All-set IsValid t i _ (zero_queue-IsValid pid) v))
]

pub get_or-slots : (t : Table) (i : ℕ) → get_or (slots t) i free_slot ≡ view (get_or t i zero_queue)
get_or-slots t i = get_or-map view t i zero_queue

queue_at-slots : (id : ℤ) (t : Table) → Option.map view (queue_at id t) ≡ slot_at id (slots t)
unfolding queue_at slot_at
queue_at-slots (negsuc n) t = refl
queue_at-slots (pos i) t = rw (get_or-slots t i) (ground arith)

queue_at-get_or :
    (id : ℤ) (t : Table) {q : EventQueue}
    → queue_at id t ≡ some q
    → get_or t (index id) zero_queue ≡ q
unfolding queue_at
queue_at-get_or (negsuc n) t e = cc
queue_at-get_or (pos i) t e = ground arith

slot_at-none : (id : ℤ) (t : Table) → queue_at id t ≡ none → slot_at id (slots t) ≡ none
slot_at-none id t e = sym (queue_at-slots id t) ∙ ap (Option.map view) e

slot_at-some :
    (id : ℤ) (t : Table) {q : EventQueue}
    → queue_at id t ≡ some q
    → slot_at id (slots t) ≡ some (view q)
slot_at-some id t e = sym (queue_at-slots id t) ∙ ap (Option.map view) e

get_or-IsValid : (t : Table) (i : ℕ) → AllValid t → IsValid (get_or t i zero_queue)
get_or-IsValid t i v = All-get_or IsValid t i zero_queue (zero_queue-IsValid 0) v

pub destroy_refines :
    (id : ℤ) (t : Table)
    → AllValid t
    → Agrees (event_destroy_queue id t) (destroy_slot id (slots t))
unfolding event_destroy_queue destroy_slot
destroy_refines id t v = elim (Option-cases (queue_at id t)) [
  | inl e ↦ rw (e, event_destroy_queue) (rw (slot_at-none id t e, destroy_slot) (refl, refl, v))
  | inr (q, e) ↦
      rw (e, event_destroy_queue)
        (rw (slot_at-some id t {q = q} e, destroy_slot)
          (
            refl,
            map-set view t (index id) _,
            All-set IsValid t (index id) _ (zero_queue-IsValid 0) v,
          ))
]

-- Posting to the first queue of a process.
pub post_refines :
    (target : ℕ) (e : Event) (t : Table)
    → AllValid t
    → Agrees (post target e t) (post_slot target e (slots t))
unfolding post post_slot
post_refines target e t v = elim (Option-cases (find_queue target t)) [
  | inl f ↦ rw (f, post) (rw (slot_found target t f, post_slot) (refl, refl, v))
  | inr (i, f) ↦
      let q = get_or t i zero_queue in
      let w = get_or-IsValid t i v in
      let pushed = enqueue_refines e q w in
      elim (Option-cases (enqueue e q)) [
        | inl full ↦
            let p : push e (view q) ≡ none = sym pushed ∙ ap (Option.map view) full in
            rw (f, post, full, post)
              (rw (slot_found target t f, post_slot, get_or-slots t i, p, post_slot)
                (refl, refl, v))
        | inr (q', ok) ↦
            let p : push e (view q) ≡ some (view q') = sym pushed ∙ ap (Option.map view) ok in
            rw (f, post, ok, post)
              (rw (slot_found target t f, post_slot, get_or-slots t i, p, post_slot)
                (
                  refl,
                  map-set view t i q',
                  All-set IsValid t i q' (enqueue-IsValid e q {q' = q'} w ok) v,
                ))
      ]
]

pub next_refines :
    (id : ℤ) (t : Table) → AllValid t → Agrees (event_get_next id t) (next_slot id (slots t))
unfolding event_get_next next_slot
next_refines id t v = elim (Option-cases (queue_at id t)) [
  | inl f ↦ rw (f, event_get_next) (rw (slot_at-none id t f, next_slot) (refl, refl, v))
  | inr (q, f) ↦
      let w : IsValid q = subst IsValid (queue_at-get_or id t f) (get_or-IsValid t (index id) v) in
      let popped = dequeue_refines q w in
      elim (Option-cases (dequeue q)) [
        | inl none_left ↦
            let p : pop (view q) ≡ none = sym popped ∙ ap (Option.map _) none_left in
            rw (f, event_get_next, none_left, event_get_next)
              (rw (slot_at-some id t {q = q} f, next_slot, p, next_slot) (refl, refl, v))
        | inr ((e, q'), ok) ↦
            let p : pop (view q) ≡ some (e, view q') = sym popped ∙ ap (Option.map _) ok in
            rw (f, event_get_next, ok, event_get_next)
              (rw (slot_at-some id t {q = q} f, next_slot, p, next_slot)
                (
                  refl,
                  map-set view t (index id) q',
                  All-set IsValid t (index id) q' (dequeue-IsValid q {e = e} {q' = q'} w ok) v,
                ))
      ]
]

pub next_of_refines :
    (pid : ℕ) (t : Table) → AllValid t → Agrees (sys_event_get_next pid t) (next_of pid (slots t))
unfolding sys_event_get_next next_of
next_of_refines pid t v = elim (Option-cases (find_queue pid t)) [
  | inl f ↦ rw (f, sys_event_get_next) (rw (slot_found pid t f, next_of) (refl, refl, v))
  | inr (i, f) ↦
      rw (f, sys_event_get_next) (rw (slot_found pid t f, next_of) (next_refines (pos i) t v))
]

-- The loops of the interrupt handlers.
pub broadcast_refines :
    (e : Event) (n i : ℕ) (t : Table)
    → AllValid t
    → (slots (broadcast_from e n i t) ≡ post_all e n i (slots t))
      × AllValid (broadcast_from e n i t)
unfolding broadcast_from post_all
broadcast_refines e zero i t v = (refl, v)
broadcast_refines e (suc n) i t v =
    let pid = (get_or t i zero_queue).registered_process in
    let p = post_refines pid e t v in
    elim (Bool-cases (pid == 0)) [
      | inl z ↦ rw (get_or-slots t i, z) (broadcast_refines e n (i + 1) t v)
      | inr nz ↦
          rw (get_or-slots t i, nz, ← p.1) (broadcast_refines e n (i + 1) (post pid e t).1 p.2)
    ]
