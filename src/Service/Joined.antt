-- ===== src/Service/Joined.antt =====
-- Stop of social.go can always return.
use social.Service.{
  launched, Step, Stage, Reach, Phase, Actor, is_over, Social, serving, joining_scheduler,
  joining_worker, stopped, absent, planning, waiting, working, returned, outside, plan, cancel,
  process, poll, halt, run, work, scheduler_joined, worker_joined,
}
use social.Prelude.{ℕ, suc, ◌≤◌, true, ◌≡◌, ◌≢◌, refl, arith}
use social.Exec.{Sys, Env}
use social.Service.Stop.{tell-phase, Reach-Settled, is_told, Settled, tell-is_told}

-- Steps without the outside, and how many.
pub data Trail (env : Env) : ℕ → Social → Social → Type 0 where
  done : {a : Social} → Trail env 0 a a
  more :
      {n : ℕ} {a b c : Social} {actor : Actor}
      → Step env a actor b
      → actor ≢ outside
      → Trail env n b c
      → Trail env (suc n) a c

-- At most `k` such steps lead to the end of Stop.
pub record Ends (env : Env) (k : ℕ) (a : Social) : Type 0 where
  pub steps : ℕ
  pub last : Social
  pub few : steps ≤ k
  pub trail : Trail env steps a last
  pub over : last.stage ≡ stopped

module _ {env : Env} where
  ended : (a : Social) → a.stage ≡ stopped → Ends env 0 a
  ended a e = record { steps = 0; last = a; few = omega arith; trail = done; over = e }

  step :
      {k : ℕ} {a b : Social} {actor : Actor}
      → Step env a actor b
      → actor ≢ outside
      → Ends env k b
      → Ends env (suc k) a
  step st h e = record {
    steps = suc e.steps;
    last = e.last;
    few = omega (arith, e.few);
    trail = more st h e.trail;
    over = e.over;
  }

  longer : {j k : ℕ} {a : Social} → j ≤ k → Ends env j a → Ends env k a
  longer le e = record {
    steps = e.steps;
    last = e.last;
    few = omega (arith, le, e.few);
    trail = e.trail;
    over = e.over;
  }

  worker_over :
      (a : Social) → a.stage ≡ joining_worker → is_over a.worker.phase ≡ true → Ends env 1 a
  worker_over a e f = step (worker_joined e f) (λ k. absurd (cc)) (ended _ refl)

  worker_waiting :
      (a : Social)
      → a.stage ≡ joining_worker
      → a.worker.phase ≡ waiting
      → a.worker.told ≡ true
      → Ends env 2 a
  unfolding is_over
  worker_waiting a e f g = step (work (halt f g)) (λ k. absurd (cc)) (worker_over _ e refl)

  worker_ends :
      (a : Social) (p : Phase)
      → a.worker.phase ≡ p
      → a.stage ≡ joining_worker
      → is_told a.worker ≡ true
      → p ≢ planning
      → Ends env 3 a
  unfolding is_over
  worker_ends a absent f e t n = longer (omega arith) (worker_over a e (ground arith))
  worker_ends a returned f e t n = longer (omega arith) (worker_over a e (ground arith))
  worker_ends a planning f e t n = absurd (n refl)
  worker_ends a waiting f e t n = longer (omega arith) (worker_waiting a e f (ground arith))
  worker_ends a working f e t n =
      step (work (poll f)) (λ k. absurd (cc)) (worker_waiting _ e refl (ground arith))

  scheduler_over :
      (a : Social)
      → a.stage ≡ joining_scheduler
      → is_over a.scheduler.phase ≡ true
      → a.worker.phase ≢ planning
      → Ends env 4 a
  scheduler_over a e f n =
      step (scheduler_joined e f) (λ k. absurd (cc))
        (worker_ends _ a.worker.phase (tell-phase a.worker) refl (tell-is_told a.worker) n)

  scheduler_waiting :
      (a : Social)
      → a.stage ≡ joining_scheduler
      → a.scheduler.phase ≡ waiting
      → a.scheduler.told ≡ true
      → a.worker.phase ≢ planning
      → Ends env 5 a
  unfolding is_over
  scheduler_waiting a e f g n =
      step (run (cancel f g)) (λ k. absurd (cc)) (scheduler_over _ e refl n)

  scheduler_planning :
      (a : Social)
      → a.stage ≡ joining_scheduler
      → a.scheduler.phase ≡ planning
      → a.scheduler.told ≡ true
      → a.worker.phase ≢ planning
      → Ends env 6 a
  scheduler_planning a e f g n =
      step (run (plan f)) (λ k. absurd (cc)) (scheduler_waiting _ e refl g n)

  scheduler_ends :
      (a : Social) (p : Phase)
      → a.scheduler.phase ≡ p
      → a.stage ≡ joining_scheduler
      → is_told a.scheduler ≡ true
      → a.worker.phase ≢ planning
      → Ends env 7 a
  unfolding is_over
  scheduler_ends a absent f e t n = longer (omega arith) (scheduler_over a e (ground arith) n)
  scheduler_ends a returned f e t n = longer (omega arith) (scheduler_over a e (ground arith) n)
  scheduler_ends a planning f e t n =
      longer (omega arith) (scheduler_planning a e f (ground arith) n)
  scheduler_ends a waiting f e t n = longer (omega arith) (scheduler_waiting a e f (ground arith) n)
  scheduler_ends a working f e t n =
      step (run (process f)) (λ k. absurd (cc)) (scheduler_planning _ e refl (ground arith) n)

  stage_ends : (a : Social) (g : Stage) → a.stage ≡ g → g ≢ serving → Settled a → Ends env 7 a
  stage_ends a serving e n h = absurd (n refl)
  stage_ends a joining_scheduler e n h =
      scheduler_ends a a.scheduler.phase refl e (h.scheduler_told e) h.worker_phase
  stage_ends a joining_worker e n h =
      longer (omega arith) (worker_ends a a.worker.phase refl e (h.worker_told e) h.worker_phase)
  stage_ends a stopped e n h = longer (omega arith) (ended a e)

-- From every state in which Stop has been called, at most seven steps of the scheduler, the worker
-- and the host, without any from outside, bring it to its return.
pub stop-Ends :
    {env : Env} {s : Sys} {a : Social} → Reach env (launched s) a → a.stage ≢ serving → Ends env 7 a
stop-Ends {a = a} r n = stage_ends a a.stage refl n (Reach-Settled r)
