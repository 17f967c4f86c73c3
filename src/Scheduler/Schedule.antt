-- ===== src/Scheduler/Schedule.antt =====
-- `scheduler_schedule` on CPU 0.
use base_kernel.Base.{
  ℕ, ◌≡◌, ◌≢◌, refl, sym, ap, ap₂, subst, ◌∙◌, inl, inr, Bool, true, false, not, ◌&&◌, List, [],
  ◌∷◌, ◌++◌, ◌==◌, Bool-cases, if◌then◌else◌, arith, add64,
}
use base_kernel.Scheduler.{
  TaskState, running, ready, Sched, update, is_running, save_current, switch_to, scheduler_dequeue,
  scheduler_schedule, dequeue,
}
use base_kernel.Base.Chain.{NotIn, NotIn-append}
use base_kernel.Scheduler.Queue.{IsQueue}
use base_kernel.Scheduler.Inv.{
  IsValid, current_of, IsQueue-frame, dequeue-Taken, enqueue-Taken, scheduler_dequeue_lem,
  scheduler_enqueue_lem,
}

-- The current task goes back to the ready list.
abbrev pub keeps_current : Sched → Bool
keeps_current s = not (current_of s == 0) && is_running (s.store (current_of s)).state

-- With no ready task nothing happens.
pub schedule_idle : (s : Sched) → IsValid s [] → scheduler_schedule s ≡ s
unfolding scheduler_schedule scheduler_dequeue dequeue
schedule_idle s v =
    let e : ((s.rqs 0).head == 0) ≡ true = ground (arith, v.queue.chain) in rw e refl

-- The ready list that a switch leaves.
abbrev pub ready_after : Sched → List ℕ → List ℕ
ready_after s xs = if keeps_current s then xs ++ current_of s ∷ [] else xs

-- A task's state behind a switch to `x`.
abbrev pub state_after : Sched → ℕ → ℕ → TaskState
state_after s x p =
    if x == p
    then running
    else if keeps_current s && current_of s == p
    then ready
    else (s.store p).state

save_current_lem :
    (s : Sched) (current : ℕ) (xs : List ℕ)
    → IsQueue s.store (s.rqs 0) xs
    → NotIn current xs
    → let s' = save_current current s in
      let kept = not (current == 0) && is_running (s.store current).state in
      IsQueue s'.store (s'.rqs 0) (if kept then xs ++ current ∷ [] else xs)
      × ((p : ℕ) → (s'.store p).state ≡ (if kept && current == p then ready else (s.store p).state))
      × (s'.context_switches ≡ s.context_switches)
      × (s'.global_ticks ≡ s.global_ticks)
      × ((p : ℕ) → (s'.store p).ticks_remaining ≡ (s.store p).ticks_remaining)
unfolding save_current
save_current_lem s current xs q n =
    elim (Bool-cases (not (current == 0) && is_running (s.store current).state)) [
      | inr no_save ↦ rw no_save (q, λ p. refl, refl, refl, λ p. refl)
      | inl kept ↦
          let s₁ : Sched = record s {
            store = update s.store current (record (s.store current) { state = ready });
          } in
          let q₁ =
            IsQueue-frame s.store s₁.store (s.rqs 0) (s.rqs 0) xs (λ p. ground arith) refl refl refl
              q in
          let f = enqueue-Taken current s₁ in
          rw kept (
            scheduler_enqueue_lem current s₁ xs q₁ (ground arith) n,
            λ p. f.state p ∙ ground arith,
            f.switches,
            f.ticks,
            λ p. f.slice p ∙ ground arith,
          )
    ]

switch_to_lem :
    (x : ℕ) (s : Sched) (ys : List ℕ)
    → IsQueue s.store (s.rqs 0) ys
    → NotIn x ys
    → let s' = switch_to x s in
      (current_of s' ≡ x)
      × IsValid s' ys
      × ((p : ℕ) → (s'.store p).state ≡ (if x == p then running else (s.store p).state))
      × (s'.context_switches ≡ add64 s.context_switches 1)
      × ((p : ℕ) → (s'.store p).ticks_remaining ≡ (s.store p).ticks_remaining)
unfolding switch_to
switch_to_lem x s ys q n = (
  refl,
  record {
    queue =
        IsQueue-frame s.store (switch_to x s).store (s.rqs 0) ((switch_to x s).rqs 0) ys
          (λ p. ground arith) refl refl refl q;
    current_out = n;
  },
  λ p. ground arith,
  refl,
  λ p. ground arith,
)

NotIn-ready :
    (x c : ℕ) (xs : List ℕ) (b : Bool)
    → NotIn x xs
    → x ≢ c
    → NotIn x (if b then xs ++ c ∷ [] else xs)
NotIn-ready x c xs true n ne = NotIn-append x xs (c ∷ []) n (ne, tt)
NotIn-ready x c xs false n ne = n

-- In a valid state with a first ready task `x`, that task runs; the old one, if it was running,
-- is ready and last in the list, and the state stays valid; all other tasks keep their state; one
-- more switch is counted; no task loses what is left of its time slice.
pub schedule_switch :
    (s : Sched) (x : ℕ) (xs : List ℕ)
    → IsValid s (x ∷ xs)
    → let s' = scheduler_schedule s in
      (current_of s' ≡ x)
      × IsValid s' (ready_after s xs)
      × ((p : ℕ) → (s'.store p).state ≡ state_after s x p)
      × (s'.context_switches ≡ add64 s.context_switches 1)
      × ((p : ℕ) → (s'.store p).ticks_remaining ≡ (s.store p).ticks_remaining)
unfolding scheduler_schedule
schedule_switch s x xs v =
    let c : ℕ = current_of s in
    let s₁ : Sched = (scheduler_dequeue 0 s).1 in
    let d = scheduler_dequeue_lem s x xs v.queue in
    let f = dequeue-Taken s in
    let nz : (x == 0) ≡ false = ground (arith, v.queue.chain) in
    let saved = save_current_lem s₁ c xs d.1 v.current_out.1 in
    let ne : x ≢ c = λ e. v.current_out.0 (sym e) in
    let kept : Bool = not (c == 0) && is_running (s₁.store c).state in
    let same : kept ≡ keeps_current s = ap (λ st. not (c == 0) && is_running st) (f.state c) in
    let n = NotIn-ready x c xs kept v.queue.distinct.0 ne in
    let r = switch_to_lem x (save_current c s₁) (if kept then xs ++ c ∷ [] else xs) saved.0 n in
    rw (d.0, nz)
      (
        r.0,
        subst (λ b. IsValid (switch_to x (save_current c s₁)) (if b then xs ++ c ∷ [] else xs)) same
            r.1,
        λ p.
            r.2 p
            ∙ ap (λ st. if x == p then running else st)
                (saved.1 p ∙ ap₂ (λ b st. if b && c == p then ready else st) same (f.state p)),
        r.3 ∙ ap (λ n. add64 n 1) (saved.2 ∙ f.switches),
        λ p. r.4 p ∙ saved.4 p ∙ f.slice p,
      )
