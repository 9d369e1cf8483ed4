-- ===== src/Router/Tries.antt =====
-- How often a job is delivered.
use social.Router.Worker
use social.Prelude.{
  ℕ, suc, ◌+◌, ◌-◌, ◌≤◌, String, Bool, false, ◌&&◌, ltb, ◌==◌, if◌then◌else◌, Option, none, some,
  List, [], ◌∷◌, ◌≡◌, ◌≢◌, refl, ap, ◌∙◌, arith, All, get_or,
}
use social.Model.{Time, RouteAttempt, RouteJob, Db}
use social.Exec.{M, receive, send, Sys, Env}
use social.Router.Worker.{
  route_retry_delays, delivery_request, with_request, on_jobs, after_send, worker_round,
  deliver_all, deliver, apply_retry,
}
use social.Router.Statements.{
  same_route_attempt, is_job, set_retry, set_delivered, set_dead, update_job_row,
  insert_attempt_row,
}
use social.Router.{Rows, due_jobs, schedule_retry, mark_failed, mark_delivered, log_attempt}
use social.Exec.Keeps.{
  Keeps-now, Keeps-bind, Keeps-cases, keeps_rules, Keeps-ignore, StatementKeeps, Keeps,
}
use social.Model.Http.{unreachable, Reply, reply, Response, Request}
use social.Service.Laws.{After-guard}
use social.Table.{count, All-update}
use social.Post.Statements.{reference_failed, unique_failed}
use social.Model.Errors.{err, ok, Result, Error}
use social.Exec.Yields.{
  Yields-try, Yields-bind, Yields-attempt, Yields-ask, Yields-then, Yields-pure, Yields-of_Keeps,
  Yields,
}

-- No job of the store has more than four attempts behind it.
abbrev pub FewAttempts : Db → Type 0
FewAttempts db = All (λ j. j.attempts ≤ 4) db.route_jobs

-- No answer is a rate limit.
abbrev pub NeverLimited : Env → Type 0
NeverLimited env =
    (k : ℕ) (req : Request) (r : Response) → env.http k req ≡ reply r → r.status ≢ 429

update_row-FewAttempts :
    (enforce : Bool) (id : String) (f : RouteJob → RouteJob)
    → ((j : RouteJob) → j.attempts ≤ 4 → (f j).attempts ≤ 4)
    → StatementKeeps FewAttempts enforce (update_job_row id f)
unfolding update_job_row
update_row-FewAttempts enforce id f k db h =
    All-update (λ j. j.attempts ≤ 4) (is_job id) f db.route_jobs (λ j _ few. k j few) h

insert_attempt_row-FewAttempts :
    (enforce : Bool) (a : RouteAttempt) → StatementKeeps FewAttempts enforce (insert_attempt_row a)
unfolding insert_attempt_row
insert_attempt_row-FewAttempts enforce a db h =
    After-guard FewAttempts (ltb 0 (count (same_route_attempt a.id) db.route_log)) unique_failed _ (
      After-guard FewAttempts (enforce && count (is_job a.job_id) db.route_jobs == 0)
        reference_failed _ h)

module _ {enforce : Bool} where
  mark_delivered-FewAttempts : (id : String) → Keeps enforce FewAttempts (mark_delivered id)
  unfolding mark_delivered set_delivered
  mark_delivered-FewAttempts id =
      let row = update_row-FewAttempts enforce id set_delivered (λ j few. few) in
      search (keeps_rules, row)

  mark_failed-FewAttempts : (id msg : String) → Keeps enforce FewAttempts (mark_failed id msg)
  unfolding mark_failed set_dead
  mark_failed-FewAttempts id msg =
      let row = update_row-FewAttempts enforce id (set_dead msg) (λ j few. few) in
      search (keeps_rules, row)

  schedule_retry-FewAttempts :
      (id : String) (attempt : ℕ) (at : Time) (msg : String)
      → attempt ≤ 4
      → Keeps enforce FewAttempts (schedule_retry id attempt at msg)
  unfolding schedule_retry set_retry
  schedule_retry-FewAttempts id attempt at msg le =
      let row = update_row-FewAttempts enforce id (set_retry attempt at msg) (λ j few. le) in
      search (keeps_rules, row)

  log_attempt-FewAttempts :
      (id : String) (attempt code : ℕ) (msg : String)
      → Keeps enforce FewAttempts (log_attempt id attempt code msg)
  unfolding log_attempt
  log_attempt-FewAttempts id attempt code msg =
      search (keeps_rules, insert_attempt_row-FewAttempts) depth 8

  apply_retry-FewAttempts :
      (j : RouteJob) (attempt : ℕ) (msg : String)
      → Keeps enforce FewAttempts (apply_retry j attempt msg)
  unfolding apply_retry
  apply_retry-FewAttempts j attempt msg =
      Keeps-cases (ltb 4 attempt) (λ e. Keeps-ignore (mark_failed-FewAttempts j.id _))
        (λ e. Keeps-bind Keeps-now (λ at. Keeps-ignore (
          schedule_retry-FewAttempts j.id attempt (at + get_or route_retry_delays (attempt - 1) 0)
            msg (ground arith))))

  passed_over :
      {A : Type 0} (m : M A) {n : M A}
      → Keeps enforce FewAttempts n
      → Keeps enforce FewAttempts (if false then m else n)
  passed_over m k = k

  answered-FewAttempts :
      (j : RouteJob) (attempt : ℕ) (r : Response)
      → r.status ≢ 429
      → Keeps enforce FewAttempts (Worker.answered j attempt r)
  unfolding Worker.answered
  answered-FewAttempts j attempt r h =
      let unlimited : (r.status == 429) ≡ false = ground arith in
      rw unlimited (
        search
          (
            keeps_rules, passed_over, log_attempt-FewAttempts, mark_delivered-FewAttempts,
            mark_failed-FewAttempts, apply_retry-FewAttempts,
          )
          depth 9)

  fault-FewAttempts :
      (j : RouteJob) (attempt : ℕ) (e : Error)
      → Keeps enforce FewAttempts (after_send j attempt (err e))
  fault-FewAttempts j attempt e =
      search (keeps_rules, log_attempt-FewAttempts, apply_retry-FewAttempts) depth 8

replied :
    (env : Env) (unlimited : NeverLimited env) (req : Request) (s : Sys) (rep : Reply)
    → env.http s.tick req ≡ rep
    → FewAttempts s.db
    → FewAttempts (receive rep env (record s { sent = req ∷ s.sent; tick = suc s.tick })).1.db
      × ((r : Response)
          → (receive rep env (record s { sent = req ∷ s.sent; tick = suc s.tick })).0 ≡ ok r
          → r.status ≢ 429)
replied env unlimited req s (unreachable m) e h = (h, λ r f. absurd (cc))
replied env unlimited req s (reply a) e h =
    (h, λ r f. unlimited s.tick req r (let same : a ≡ r = cc in e ∙ ap reply same))

module _ {env : Env} (unlimited : NeverLimited env) where
  send-Yields : (req : Request) → Yields env FewAttempts (λ r. r.status ≢ 429) (send req)
  send-Yields req = record { at = λ s h. replied env unlimited req s (env.http s.tick req) refl h }

  after_send-Yields :
      (j : RouteJob) (attempt : ℕ) (r : Result Response)
      → ((a : Response) → r ≡ ok a → a.status ≢ 429)
      → Yields env FewAttempts (λ u. Unit {0}) (after_send j attempt r)
  after_send-Yields j attempt (ok a) h =
      Yields-of_Keeps env (λ enforce. answered-FewAttempts j attempt a (h a refl))
  after_send-Yields j attempt (err e) h =
      Yields-of_Keeps env (λ enforce. fault-FewAttempts j attempt e)

  with_request-Yields :
      (j : RouteJob) (attempt : ℕ) (signature : String) (fault : Option String)
      → Yields env FewAttempts (λ u. Unit {0}) (with_request j attempt signature fault)
  with_request-Yields j attempt signature (some fault) =
      Yields-of_Keeps env
        (λ enforce. search (keeps_rules, log_attempt-FewAttempts, mark_failed-FewAttempts))
  with_request-Yields j attempt signature none =
      Yields-bind (Yields-try (send-Yields (delivery_request j signature)))
        (after_send-Yields j attempt)

  deliver-Yields : (j : RouteJob) → Yields env FewAttempts (λ u. Unit {0}) (deliver j)
  unfolding deliver
  deliver-Yields j = Yields-then (Yields-ask (λ e. e.hmac j.payload) tt) (λ signature.
      Yields-then (Yields-ask (λ e. e.url_fault j.agent_url) tt)
        (λ fault. with_request-Yields j (j.attempts + 1) signature fault))

  deliver_all-Yields :
      (js : List RouteJob) → Yields env FewAttempts (λ u. Unit {0}) (deliver_all js)
  unfolding deliver_all
  deliver_all-Yields [] = Yields-pure tt tt
  deliver_all-Yields (j ∷ js) = Yields-then (deliver-Yields j) (λ u. deliver_all-Yields js)

  on_jobs-Yields : (r : Result Rows) → Yields env FewAttempts (λ u. Unit {0}) (on_jobs r)
  on_jobs-Yields (ok (js, e)) = deliver_all-Yields js
  on_jobs-Yields (err e) = Yields-pure tt tt

  due_jobs-Yields : Yields env FewAttempts (λ js. Unit {0}) due_jobs
  unfolding due_jobs
  due_jobs-Yields = Yields-of_Keeps env (λ enforce. search keeps_rules)

  worker_round-Yields : Yields env FewAttempts (λ u. Unit {0}) worker_round
  unfolding worker_round
  worker_round-Yields = Yields-then (Yields-attempt due_jobs-Yields) on_jobs-Yields

-- If no request is ever answered with 429, a round of the worker leaves no job with more than four
-- attempts behind it, if there was none before.
pub worker_round-FewAttempts :
    (env : Env) (s : Sys)
    → NeverLimited env
    → FewAttempts s.db
    → FewAttempts (worker_round env s).1.db
worker_round-FewAttempts env s unlimited h = ((worker_round-Yields unlimited).at s h).0
