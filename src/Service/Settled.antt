-- ===== src/Service/Settled.antt =====
-- Jobs that are delivered or dead.
use social.Service.{Social, Reach}
use social.Service.OnJobs.{Reach-OnJobs}
use social.Service.Deliveries.{JobLaws, worker_round-Yields}
use social.Service.Laws.{After-guard}
use social.Table.Single.{Single, Single-append, Single-update}
use social.Prelude.{
  ◌&&◌, ◌==◌, Bool, true, false, ltb, List, ◌≡◌, ap, ◌∙◌, inl, inr, Bool-cases, All-map, arith,
}
use social.Model.{Time, Db, RouteJob, RouteAttempt}
use social.Exec.{Env, Sys}
use social.Exec.Keeps.{StatementKeeps}
use social.Router.Statements.{
  insert_job_row, insert_attempt_row, update_job_row, is_job, is_pending, is_due_job,
  same_route_attempt,
}
use social.Router.Worker.{worker_round}
use social.Post.Statements.{unique_failed, reference_failed}
use social.Table.{count}

-- The job is there, and every row with its identifier is that job.
abbrev pub Settled : RouteJob → List RouteJob → Type 0
Settled = Single (λ j. j.id)

abbrev SettledIn : RouteJob → Db → Type 0
SettledIn job db = Settled job db.route_jobs

module _ (job : RouteJob) (enforce : Bool) where
  insert_job_row-Settled :
      (j : RouteJob) → StatementKeeps (SettledIn job) enforce (insert_job_row j)
  unfolding insert_job_row is_job
  insert_job_row-Settled j db h = elim (Bool-cases (ltb 0 (count (is_job j.id) db.route_jobs))) [
    | inl e ↦ rw e tt
    | inr e ↦ rw e (Single-append (λ k. k.id) job j db.route_jobs (ground arith) h)
  ]

  -- An update of another job.
  update_job_row-Settled :
      (j : RouteJob) (f : RouteJob → RouteJob)
      → is_job job.id j ≡ false
      → ((k : RouteJob) → (f k).id ≡ k.id)
      → StatementKeeps (SettledIn job) enforce (update_job_row j.id f)
  unfolding update_job_row is_job
  update_job_row-Settled j f other keys db h =
      Single-update (λ k. k.id) job j f db.route_jobs other keys h

  insert_attempt_row-Settled :
      (a : RouteAttempt) → StatementKeeps (SettledIn job) enforce (insert_attempt_row a)
  unfolding insert_attempt_row
  insert_attempt_row-Settled a db h =
      After-guard (SettledIn job) (ltb 0 (count (same_route_attempt a.id) db.route_log))
        unique_failed _
        (After-guard (SettledIn job) (enforce && count (is_job a.job_id) db.route_jobs == 0)
          reference_failed _ h)

  laws-Settled : JobLaws enforce (SettledIn job) (λ j. is_job job.id j ≡ false)
  laws-Settled = record { logged = insert_attempt_row-Settled; changed = update_job_row-Settled }

-- A due job is another one, as the job is not pending.
due-other :
    (job k : RouteJob) (at : Time)
    → is_pending job.status ≡ false
    → (is_job job.id k ≡ true → k ≡ job)
    → is_due_job at k ≡ true
    → is_job job.id k ≡ false
unfolding is_due_job
due-other job k at done same due = elim (Bool-cases (is_job job.id k)) [
  | inl e ↦
      let pend : is_pending k.status ≡ false = ap (λ j. is_pending j.status) (same e) ∙ done in
      absurd (ground arith)
  | inr e ↦ e
]

worker_round-Settled :
    (job : RouteJob) (env : Env) (s : Sys)
    → is_pending job.status ≡ false
    → Settled job s.db.route_jobs
    → Settled job (worker_round env s).1.db.route_jobs
unfolding is_job
worker_round-Settled job env s done h =
    let round =
      worker_round-Yields {P = SettledIn job} env (laws-Settled job env.enforce_refs) (λ db at k.
        All-map {P = λ j. is_job job.id j ≡ true → j ≡ job}
          (λ j same due. due-other job j at done same due) db.route_jobs k.1) in
    (round.at s h).0

pub Reach-Settled :
    {env : Env} {a b : Social} (job : RouteJob)
    → is_pending job.status ≡ false
    → Settled job a.sys.db.route_jobs
    → Reach env a b
    → Settled job b.sys.db.route_jobs
Reach-Settled {env} job done h r =
    Reach-OnJobs env (Settled job) (λ j e. insert_job_row-Settled job env.enforce_refs j)
      (λ s k. worker_round-Settled job env s done k) r h
