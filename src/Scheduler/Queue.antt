-- ===== src/Scheduler/Queue.antt =====
-- `scheduler_enqueue` and `scheduler_dequeue` on one run queue, beside the list that it holds.
use base_kernel.Base.{
  ℕ, ◌%◌, ◌^◌, ◌≡◌, ◌≢◌, refl, sym, false, List, [], ◌∷◌, ◌++◌, ◌==◌, if◌then◌else◌, arith, length,
  length-append,
}
use base_kernel.Scheduler.{Task, Store, RunQueue, update, enqueue, dequeue}
use base_kernel.Base.Chain.{
  Chain, NotIn, Distinct, last_or, Chain-cong, All-NotIn, last_or-ne, Distinct-snoc, last_or-snoc,
  Chain-snoc,
}

abbrev pub next_of : Store → ℕ → ℕ
next_of st p = (st p).next

-- The queue holds exactly the tasks of the list, in order.
pub record IsQueue (st : Store) (rq : RunQueue) (xs : List ℕ) : Type 0 where
  pub chain : Chain (next_of st) rq.head xs
  pub distinct : Distinct xs
  pub tail_at : rq.tail ≡ last_or 0 xs
  pub load_is : rq.load ≡ length xs % 2 ^ 32

next_of-update :
    (st : Store) (p q : ℕ) (t : Task)
    → next_of (update st p t) q ≡ (if p == q then t.next else next_of st q)
next_of-update st p q t = ground arith

pub enqueue_lem :
    (task : ℕ) (st : Store) (rq : RunQueue) (xs : List ℕ)
    → IsQueue st rq xs
    → task ≢ 0
    → NotIn task xs
    → let (st', rq') = enqueue task st rq in IsQueue st' rq' (xs ++ task ∷ [])
unfolding enqueue
enqueue_lem task st rq [] v nz n =
    let e : rq.head ≡ 0 = v.chain in
    rw e (record {
      chain = (refl, nz, ground arith);
      distinct = (tt, tt);
      tail_at = refl;
      load_is = omega (arith, v.load_is);
    })
enqueue_lem task st rq (x ∷ xs) v nz n =
    let e : (rq.head == 0) ≡ false = ground (arith, v.chain) in
    let st₁ : Store = update st task (record (st task) { next = 0 }) in
    let st₂ : Store = update st₁ rq.tail (record (st₁ rq.tail) { next = task }) in
    rw e (record {
      chain =
          Chain-snoc (next_of st) (next_of st₂) rq.head x task xs v.chain v.distinct n nz
            (λ q a b. ground (arith, v.tail_at)) (ground (arith, v.tail_at))
            (ground (arith, v.tail_at, last_or-ne task x xs n));
      distinct = Distinct-snoc (x ∷ xs) task v.distinct n;
      tail_at = sym (last_or-snoc x xs task);
      load_is = omega (arith, v.load_is, length-append xs (task ∷ []));
    })

pub dequeue-empty : (st : Store) (rq : RunQueue) → IsQueue st rq [] → dequeue st rq ≡ (0, st, rq)
unfolding dequeue
dequeue-empty st rq v = ground (arith, v.chain)

rest_tail :
    (nx : ℕ → ℕ) (h t x : ℕ) (xs : List ℕ)
    → Chain nx h xs
    → t ≡ last_or x xs
    → (if h == 0 then 0 else t) ≡ last_or 0 xs
rest_tail nx h t x [] c e = ground arith
rest_tail nx h t x (y ∷ ys) c e = ground arith

unlinked :
    (st : Store) (x : ℕ) (t : Task) (xs : List ℕ)
    → NotIn x xs
    → Chain (next_of st) (next_of st x) xs
    → Chain (next_of (update st x t)) (next_of st x) xs
unlinked st x t xs n c =
    Chain-cong (next_of st) (next_of (update st x t)) (next_of st x) xs
      (All-NotIn (λ p. next_of (update st x t) p ≡ next_of st p) x xs (λ p ne. ground arith) n) c

pub dequeue_lem :
    (st : Store) (rq : RunQueue) (x : ℕ) (xs : List ℕ)
    → IsQueue st rq (x ∷ xs)
    → let (task, st', rq') = dequeue st rq in (task ≡ x) × IsQueue st' rq' xs
unfolding dequeue
dequeue_lem st rq x xs v =
    let e : (rq.head == 0) ≡ false = ground (arith, v.chain) in
    let h : rq.head ≡ x = v.chain.0 in
    rw e (
      h,
      record {
        chain = rw h (unlinked st x (record (st x) { next = 0 }) xs v.distinct.0 v.chain.2);
        distinct = v.distinct.1;
        tail_at = rw h (rest_tail (next_of st) (next_of st x) rq.tail x xs v.chain.2 v.tail_at);
        load_is = omega (arith, v.load_is);
      },
    )
