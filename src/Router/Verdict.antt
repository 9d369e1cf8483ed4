-- ===== src/Router/Verdict.antt =====
-- What becomes of a job that is delivered, by the answer of the agent.
use social.Prelude.{
  ℕ, ◌+◌, String, Bool, true, false, ◌&&◌, ◌||◌, ltb, leb, ◌==◌, if◌then◌else◌, Option, none, some,
  List, ◌≡◌, inl, inr, refl, sym, subst, Bool-cases, All, length, tests,
}
use social.Table.{count, update-selected}
use social.Model.{RouteAttempt, Db, Time, RouteJob, JobStatus, pending, delivered, dead}
use social.Model.Http.{Request, Response, reply}
use social.Exec.{Env, Sys, M, ◌>>=◌, ◌>>◌, bump, exec, pure, ignore}
use social.Prelude.Int.{ℤ}
use social.Platform.{until_or, seconds_or}
use social.Router.Worker.{parse_trimmed}
use social.Exec.{and_then}
use social.Exec.Runs.{Runs, runs_rules}
use social.Exec.Keeps.{Keeps, StatementKeeps, keeps_rules}
use social.Post.Delete.{NoFaults}
use social.Router.{mark_delivered, mark_failed, schedule_retry, log_attempt}
use social.Router.Statements.{
  same_route_attempt, is_job, update_job_row, insert_attempt_row, set_delivered, set_dead,
  set_retry,
}
use social.Router.Worker.{
  apply_retry, rate_limited, answered, deliver, route_retry_delays, parse_route_retry_after,
}

-- The rows of a job have a status.
abbrev pub AllHave : String → JobStatus → List RouteJob → Type 0
AllHave id status jobs = All (λ j. is_job id j ≡ true → j.status ≡ status) jobs

-- The status that the answer to the n-th attempt leads to.
unfoldable pub verdict : (code attempt : ℕ) → JobStatus
verdict code attempt =
    if code == 429
    then pending
    else if ltb code 300 && leb 200 code
    then delivered
    else if (ltb code 400 || leb 500 code) && leb attempt 4
    then pending
    else dead

retry_status : ℕ → JobStatus
retry_status n = if leb n 4 then pending else dead

module _ (code n : ℕ) where
  verdict_ok : (leb 200 code && ltb code 300) ≡ true → verdict code n ≡ delivered
  unfolding verdict
  verdict_ok e = grind tests

  verdict_limit : (code == 429) ≡ true → verdict code n ≡ pending
  unfolding verdict
  verdict_limit e = grind tests

  verdict_client :
      (code == 429) ≡ false → (leb 400 code && ltb code 500) ≡ true → verdict code n ≡ dead
  unfolding verdict
  verdict_client f g = grind tests

  verdict_other :
      (leb 200 code && ltb code 300) ≡ false
      → (code == 429) ≡ false
      → (leb 400 code && ltb code 500) ≡ false
      → verdict code n ≡ retry_status n
  unfolding verdict retry_status
  verdict_other e f g = grind tests

-- A method that takes a job from pending to a status.
record Decides (id : String) (status : JobStatus) {A : Type 0} (m : M A) : Type 0 where
  at :
      (env : Env) (s : Sys)
      → NoFaults env
      → AllHave id pending s.db.route_jobs
      → AllHave id status (m env s).1.db.route_jobs

updated-Decides :
    (id : String) (status : JobStatus) (f : RouteJob → RouteJob)
    → ((j : RouteJob) → j.status ≡ pending → (f j).status ≡ status)
    → Decides id status (exec (update_job_row id f) >> pure tt)
unfolding update_job_row
updated-Decides id status f h = record {
  at = λ env s nf q.
      rw (nf s.tick) (update-selected (λ j. j.status ≡ status) (is_job id) f s.db.route_jobs q h);
}

mark_delivered-Decides : (id : String) → Decides id delivered (mark_delivered id)
unfolding mark_delivered set_delivered
mark_delivered-Decides id = updated-Decides id delivered set_delivered (λ j e. refl)

mark_failed-Decides : (id msg : String) → Decides id dead (mark_failed id msg)
unfolding mark_failed set_dead
mark_failed-Decides id msg = updated-Decides id dead (set_dead msg) (λ j e. refl)

schedule_retry-Decides :
    (id : String) (n : ℕ) (t : Time) (msg : String) → Decides id pending (schedule_retry id n t msg)
unfolding schedule_retry set_retry
schedule_retry-Decides id n t msg = updated-Decides id pending (set_retry n t msg) (λ j e. e)

insert_attempt_row-frame :
    (P : List RouteJob → Type 0) (enforce : Bool) (a : RouteAttempt)
    → StatementKeeps (λ db. P db.route_jobs) enforce (insert_attempt_row a)
unfolding insert_attempt_row
insert_attempt_row-frame P enforce a db h =
    elim (Bool-cases (ltb 0 (count (same_route_attempt a.id) db.route_log))) [
      | inl e ↦ rw e tt
      | inr e ↦ rw e (elim (Bool-cases (enforce && count (is_job a.job_id) db.route_jobs == 0)) [
        | inl f ↦ rw f tt
        | inr f ↦ rw f h
      ])
    ]

log_attempt-Keeps :
    (P : List RouteJob → Type 0) (enforce : Bool) (id : String) (n code : ℕ) (msg : String)
    → Keeps enforce (λ db. P db.route_jobs) (log_attempt id n code msg)
unfolding log_attempt
log_attempt-Keeps P enforce id n code msg = search (keeps_rules, insert_attempt_row-frame P)

ignored :
    {id : String} {status : JobStatus} {m : M (Unit {0})}
    → Decides id status m
    → Decides id status (ignore m)
ignored d = record { at = d.at }

-- The log comes first, and does not touch the jobs.
logged-Decides :
    (id : String) (status : JobStatus) (n code : ℕ) (msg : String) (m : M (Unit {0}))
    → Decides id status m
    → Decides id status (log_attempt id n code msg >> m)
unfolding log_attempt
logged-Decides id status n code msg m d = record {
  at = λ env s nf q.
      d.at env (log_attempt id n code msg env s).1 nf
        ((log_attempt-Keeps (AllHave id pending) env.enforce_refs id n code msg).at env s refl q);
}

apply_retry-Decides :
    (j : RouteJob) (n : ℕ) (msg : String) → Decides j.id (retry_status n) (apply_retry j n msg)
unfolding apply_retry retry_status
apply_retry-Decides j n msg = elim (Bool-cases (leb n 4)) [
  | inl e ↦
      let more : ltb (length route_retry_delays) n ≡ false = grind tests in
      rw e (
        rw more (record {
          at = λ env s nf q. (schedule_retry-Decides j.id n _ msg).at env (bump s) nf q;
        }))
  | inr e ↦
      let spent : ltb (length route_retry_delays) n ≡ true = grind tests in
      rw e (rw spent (record { at = (mark_failed-Decides j.id _).at }))
]

-- parseRouteRetryAfter always returns, and touches no table.
until_or-Runs : (d : ℤ) (o : Option Time) → Runs 0 (until_or d o)
unfolding until_or
until_or-Runs d none = search runs_rules
until_or-Runs d (some t) = search runs_rules

seconds_or-Runs : (m : M ℤ) (o : Option ℤ) → Runs 0 m → Runs 0 (seconds_or m o)
unfolding seconds_or
seconds_or-Runs m none r = r
seconds_or-Runs m (some secs) r = search runs_rules

parsed-Runs : (v : String) → Runs 0 (parse_route_retry_after v)
unfolding parse_route_retry_after parse_trimmed
parsed-Runs v = search (runs_rules, until_or-Runs, seconds_or-Runs) depth 8

module _ {enforce : Bool} {P : Db → Type 0} where
  until_or-Keeps : (d : ℤ) (o : Option Time) → Keeps enforce P (until_or d o)
  unfolding until_or
  until_or-Keeps d none = search keeps_rules
  until_or-Keeps d (some t) = search keeps_rules

  seconds_or-Keeps : (m : M ℤ) (o : Option ℤ) → Keeps enforce P m → Keeps enforce P (seconds_or m o)
  unfolding seconds_or
  seconds_or-Keeps m none r = r
  seconds_or-Keeps m (some secs) r = search keeps_rules

  parsed-Keeps : (v : String) → Keeps enforce P (parse_route_retry_after v)
  unfolding parse_route_retry_after parse_trimmed
  parsed-Keeps v = search (keeps_rules, until_or-Keeps, seconds_or-Keeps) depth 8

-- A method that always returns and touches no job leaves the decision to what follows.
then-Decides :
    {A : Type 0} {id : String} {status : JobStatus} {k : ℕ} {m : M A} {f : A → M (Unit {0})}
    → Runs k m
    → ((enforce : Bool) → Keeps enforce (λ db. AllHave id pending db.route_jobs) m)
    → ((a : A) → Decides id status (f a))
    → Decides id status (m >>= f)
then-Decides {id = id} {status} {m = m} {f} r k d = record {
  at = λ env s nf q.
      let o = r.at env s in
      let (res, s') = m env s in
      subst (λ x. AllHave id status (and_then x f env s').1.db.route_jobs) (sym o.returned)
        ((d o.value).at env s' nf ((k env.enforce_refs).at env s refl q));
}

rate_limited-Decides :
    (j : RouteJob) (n : ℕ) (r : Response) → Decides j.id pending (rate_limited j n r)
unfolding rate_limited schedule_retry log_attempt
rate_limited-Decides j n r =
    then-Decides (parsed-Runs r.retry_after) (λ enforce. parsed-Keeps r.retry_after)
      (λ d. record {
        at = λ env s nf q.
            let q' =
              (log_attempt-Keeps (AllHave j.id pending) env.enforce_refs j.id n r.status
                  "429 Too Many Requests").at
                env s refl q in
            (schedule_retry-Decides j.id n _ _).at env _ nf q';
      })

answered-Decides :
    (j : RouteJob) (n : ℕ) (r : Response) → Decides j.id (verdict r.status n) (answered j n r)
unfolding answered
answered-Decides j n r =
    let code = r.status in
    elim (Bool-cases (leb 200 code && ltb code 300)) [
      | inl e ↦ rw e (
          rw (verdict_ok code n e)
            (logged-Decides j.id delivered n code "" _ (ignored (mark_delivered-Decides j.id))))
      | inr e ↦ rw e (elim (Bool-cases (code == 429)) [
        | inl f ↦ rw f (rw (verdict_limit code n f) (rate_limited-Decides j n r))
        | inr f ↦ rw f (elim (Bool-cases (leb 400 code && ltb code 500)) [
          | inl g ↦ rw g (
              rw (verdict_client code n f g)
                (logged-Decides j.id dead n code _ _ (ignored (mark_failed-Decides j.id _))))
          | inr g ↦ rw g (
              rw (verdict_other code n e f g)
                (logged-Decides j.id (retry_status n) n code _ _ (apply_retry-Decides j n _)))
        ])
      ])
    ]

-- A job that is pending, and whose agent answers, is afterwards as the code of the answer and the
-- number of the attempt say, if the database has no faults: delivered on 2xx, dead on a client
-- error other than 429, pending on 429 however many attempts there were, and pending on any other
-- code until the fifth attempt, then dead.
pub deliver-verdict :
    (j : RouteJob) (env : Env) (s : Sys) (r : Response)
    → NoFaults env
    → env.url_fault j.agent_url ≡ none
    → ((req : Request) → env.http s.tick req ≡ reply r)
    → AllHave j.id pending s.db.route_jobs
    → AllHave j.id (verdict r.status (j.attempts + 1)) (deliver j env s).1.db.route_jobs
unfolding deliver
deliver-verdict j env s r nf u h q =
    rw u (rw (h _) ((answered-Decides j (j.attempts + 1) r).at env _ nf q))
