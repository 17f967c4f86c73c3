-- ===== src/Scheduler/Inv.antt =====
-- CPU 0 seen as a running task and a list of ready ones.
use base_kernel.Base.{ℕ, ◌≡◌, ◌≢◌, refl, ◌∙◌, List, [], ◌∷◌, ◌++◌, arith, All}
use base_kernel.Scheduler.{
  Store, RunQueue, Sched, enqueue, dequeue, scheduler_enqueue, scheduler_dequeue,
}
use base_kernel.Base.Chain.{NotIn, Chain-cong}
use base_kernel.Scheduler.Queue.{IsQueue, next_of, enqueue_lem, dequeue_lem}

abbrev pub current_of : Sched → ℕ
current_of s = (s.rqs 0).running_task

-- The run queue of CPU 0 holds exactly these tasks, and the running one is not among them.
pub record IsValid (s : Sched) (xs : List ℕ) : Type 0 where
  pub queue : IsQueue s.store (s.rqs 0) xs
  pub current_out : NotIn (current_of s) xs

All-pointwise {ℓ} : (P : ℕ → Type ℓ) (xs : List ℕ) → ((p : ℕ) → P p) → All P xs
All-pointwise P [] f = tt
All-pointwise P (x ∷ xs) f = (f x, All-pointwise P xs f)

-- A queue does not see changes to other fields than `next`, `head`, `tail` and `load`.
pub IsQueue-frame :
    (st st' : Store) (rq rq' : RunQueue) (xs : List ℕ)
    → ((p : ℕ) → next_of st' p ≡ next_of st p)
    → rq'.head ≡ rq.head
    → rq'.tail ≡ rq.tail
    → rq'.load ≡ rq.load
    → IsQueue st rq xs
    → IsQueue st' rq' xs
IsQueue-frame st st' rq rq' xs n h t l q = record {
  chain = rw h (
      Chain-cong (next_of st) (next_of st') rq.head xs
        (All-pointwise (λ p. next_of st' p ≡ next_of st p) xs n) q.chain);
  distinct = q.distinct;
  tail_at = t ∙ q.tail_at;
  load_is = l ∙ q.load_is;
}

-- What taking the first task off leaves as it was.
pub record Taken (s s' : Sched) : Type 0 where
  pub current : current_of s' ≡ current_of s
  pub switches : s'.context_switches ≡ s.context_switches
  pub ticks : s'.global_ticks ≡ s.global_ticks
  pub state : (p : ℕ) → (s'.store p).state ≡ (s.store p).state
  pub slice : (p : ℕ) → (s'.store p).ticks_remaining ≡ (s.store p).ticks_remaining

pub dequeue-Taken : (s : Sched) → Taken s (scheduler_dequeue 0 s).1
unfolding scheduler_dequeue dequeue
dequeue-Taken s = record {
  current = ground arith;
  switches = refl;
  ticks = refl;
  state = λ p. ground arith;
  slice = λ p. ground arith;
}

pub enqueue-Taken : (task : ℕ) (s : Sched) → Taken s (scheduler_enqueue 0 task s)
unfolding scheduler_enqueue enqueue
enqueue-Taken task s = record {
  current = ground arith;
  switches = refl;
  ticks = refl;
  state = λ p. ground arith;
  slice = λ p. ground arith;
}

pub scheduler_dequeue_lem :
    (s : Sched) (x : ℕ) (xs : List ℕ)
    → IsQueue s.store (s.rqs 0) (x ∷ xs)
    → let (task, s') = scheduler_dequeue 0 s in (task ≡ x) × IsQueue s'.store (s'.rqs 0) xs
unfolding scheduler_dequeue
scheduler_dequeue_lem s x xs q = dequeue_lem s.store (s.rqs 0) x xs q

pub scheduler_enqueue_lem :
    (task : ℕ) (s : Sched) (xs : List ℕ)
    → IsQueue s.store (s.rqs 0) xs
    → task ≢ 0
    → NotIn task xs
    → let s' = scheduler_enqueue 0 task s in IsQueue s'.store (s'.rqs 0) (xs ++ task ∷ [])
unfolding scheduler_enqueue
scheduler_enqueue_lem task s xs q nz n = enqueue_lem task s.store (s.rqs 0) xs q nz n
