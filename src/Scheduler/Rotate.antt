-- ===== src/Scheduler/Rotate.antt =====
-- Repeated calls of `scheduler_schedule`.
use mathlib.Core.List.{append_assoc}
use base_kernel.Base.{
  ℕ, zero, suc, ◌≡◌, ◌≢◌, ap, subst, ◌∙◌, true, List, [], ◌∷◌, ◌++◌, if◌then◌else◌, arith, length,
}
use base_kernel.Scheduler.{Sched, scheduler_schedule}
use base_kernel.Scheduler.Inv.{IsValid, current_of}
use base_kernel.Scheduler.Schedule.{keeps_current, schedule_switch}

-- `n` calls of `scheduler_schedule`, with nothing in between.
pub reschedule : ℕ → Sched → Sched
reschedule zero s = s
reschedule (suc n) s = reschedule n (scheduler_schedule s)

-- The current task exists and is running.
abbrev pub IsBusy : Sched → Type 0
IsBusy s = keeps_current s ≡ true

IsBusy-after :
    (s : Sched) (x : ℕ) (xs : List ℕ) → IsValid s (x ∷ xs) → IsBusy (scheduler_schedule s)
IsBusy-after s x xs v =
    let r = schedule_switch s x xs v in
    let nz : x ≢ 0 = v.queue.chain.1 in let st = r.2 x in rw r.0 (ground (arith, st))

-- One switch with a runnable current task: the list rotates.
pub schedule_rotates :
    (s : Sched) (x : ℕ) (xs : List ℕ)
    → IsValid s (x ∷ xs)
    → IsBusy s
    → (current_of (scheduler_schedule s) ≡ x)
      × IsValid (scheduler_schedule s) (xs ++ current_of s ∷ [])
      × IsBusy (scheduler_schedule s)
schedule_rotates s x xs v b =
    let r = schedule_switch s x xs v in
    (
      r.0,
      subst (λ k. IsValid (scheduler_schedule s) (if k then xs ++ current_of s ∷ [] else xs)) b r.1,
      IsBusy-after s x xs v,
    )

-- In a valid state with a running task: a task with `length ys` tasks before it in the ready list
-- runs after `length ys + 1` switches, and the list is then what stood behind it, the task that
-- ran first, and what stood before it.
pub reschedule_reaches :
    (ys : List ℕ) (s : Sched) (x : ℕ) (zs : List ℕ)
    → IsValid s (ys ++ x ∷ zs)
    → IsBusy s
    → let s' = reschedule (suc (length ys)) s in
      (current_of s' ≡ x) × IsValid s' (zs ++ current_of s ∷ ys) × IsBusy s'
unfolding reschedule
reschedule_reaches [] s x zs v b = schedule_rotates s x zs v b
reschedule_reaches (y ∷ ys) s x zs v b =
    let r = schedule_rotates s y (ys ++ x ∷ zs) v b in
    let v' : IsValid (scheduler_schedule s) (ys ++ x ∷ (zs ++ current_of s ∷ [])) =
      subst (IsValid (scheduler_schedule s)) (append_assoc ys (x ∷ zs) (current_of s ∷ [])) r.1 in
    let q = reschedule_reaches ys (scheduler_schedule s) x (zs ++ current_of s ∷ []) v' r.2 in
    (
      q.0,
      subst (IsValid (reschedule (suc (length ys)) (scheduler_schedule s)))
          (append_assoc zs (current_of s ∷ []) (current_of (scheduler_schedule s) ∷ ys)
            ∙ ap (λ c. zs ++ current_of s ∷ c ∷ ys) r.0)
          q.1,
      q.2,
    )
