-- ===== src/Scheduler/Balance.antt =====
-- `balance_load`: whom an idle CPU steals from.
use base_kernel.Base.{
  ℕ, zero, suc, ◌+◌, ◌<◌, ◌≡◌, ◌≢◌, refl, false, not, ◌&&◌, ltb, ◌==◌, arith, Bool-cases, inl, inr,
  ◌⊎◌, add32,
}
use base_kernel.Scheduler.{RunQueue, Sched, Busiest, find_busiest, balance_load, steal_task}

-- With one CPU there is nobody to steal from.
pub balance_load_single : (s : Sched) → s.num_cpus ≡ 1 → balance_load 0 s ≡ s
unfolding balance_load find_busiest
balance_load_single s e = rw (e, find_busiest) (ground arith)

-- The record of the search names another CPU below `i` with that load.
abbrev pub IsVictim : (ℕ → RunQueue) → ℕ → ℕ → Busiest → Type 0
IsVictim rqs cpu i b =
    (b.found ≡ false) ⊎ ((b.cpu ≢ cpu) × (b.cpu < i) × ((rqs b.cpu).load ≡ b.max_load))

find_busiest-IsVictim :
    (rqs : ℕ → RunQueue) (cpu n i j : ℕ) (b : Busiest)
    → i + n ≡ j
    → IsVictim rqs cpu i b
    → IsVictim rqs cpu j (find_busiest rqs cpu n i b)
unfolding find_busiest
find_busiest-IsVictim rqs cpu zero i j b e v = let q : i ≡ j = omega arith in rw (← q) v
find_busiest-IsVictim rqs cpu (suc n) i j b e v =
    find_busiest-IsVictim rqs cpu n (i + 1) j _ (omega arith)
      (elim (Bool-cases (not (i == cpu) && ltb (add32 b.max_load 1) (rqs i).load)) [
        | inl hit ↦ rw hit (inr (ground arith, omega arith, refl))
        | inr miss ↦ rw miss (elim v [ inl a ↦ inl a | inr a ↦ inr (a.0, omega (arith, a.1), a.2) ])
      ])

-- A balancing step leaves the state alone unless the CPU is idle, and then takes a task only from
-- another existing CPU with a load of three or more.
pub balance_load_victim :
    (cpu : ℕ) (s : Sched)
    → (balance_load cpu s ≡ s)
      ⊎ ((victim : ℕ) × (balance_load cpu s ≡ steal_task cpu victim s)
          × ((s.rqs cpu).load ≡ 0)
          × (victim ≢ cpu)
          × (victim < s.num_cpus)
          × (2 < (s.rqs victim).load))
unfolding balance_load
balance_load_victim cpu s = elim (Bool-cases (ltb 0 (s.rqs cpu).load)) [
  | inl busy ↦ inl (rw busy refl)
  | inr idle ↦ elim (Bool-cases (b.found && ltb 2 b.max_load)) [
    | inr none_found ↦ inl (rw (idle, none_found) refl)
    | inl hit ↦
        elim (find_busiest-IsVictim s.rqs cpu s.num_cpus 0 s.num_cpus start (omega arith)
          (inl refl)) [
            | inl not_found ↦ ground arith
            | inr v ↦ inr (b.cpu, rw (idle, hit) refl, ground arith, v.0, v.1, ground arith)
          ]
  ]
]
  where
    start : Busiest
    start = record { found = false; cpu = 0; max_load = 0 }

    b : Busiest
    b = find_busiest s.rqs cpu s.num_cpus 0 start
