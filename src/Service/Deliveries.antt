-- ===== src/Service/Deliveries.antt =====
-- The router under laws on the statements: an event, and a round of the worker.
use social.Exec.Yields.{
  Yields-ask, Yields-then, Yields, Yields-bind, Yields-try, Yields-clock, Yields-query, Yields-pure,
}
use social.Table.{select, select-All, All-select}
use social.Table.Order.{order_by, All-order_by}
use social.Prelude.{
  All-always, All, All-take, All-map₂, ◌≡◌, true, ℕ, String, Bool, Option, none, some, List, [],
  ◌∷◌, inl, inr, refl, Option-cases,
}
use social.Model.{Time, RouteAttempt, RouteJob, Db}
use social.Exec.Keeps.{Keeps-if, Keeps-bind, keeps_rules, Keeps, StatementKeeps}
use social.Service.Laws.{aside, update_job_row-Keeps, insert_attempt_row-Keeps, Lawful}
use social.Router.Worker.{
  after_send, with_request, on_jobs, worker_round, rate_limited, parse_trimmed, deliver_all,
  deliver, apply_retry, answered, parse_route_retry_after,
}
use social.Model.Errors.{err, ok, Result}
use social.Router.{
  read_rows, Rows, routes_for, SignalEvent, schedule_retry, mark_delivered, due_jobs, RouteMap,
  Route, mark_failed, log_attempt, handle, enqueue_matching, enqueue,
}
use social.Platform.Text.{trim_space}
use social.Model.Http.{Response}
use social.Exec.{ask, gets, Sys, Env}
use social.Platform.Frame.{seconds_or-Keeps}
use social.Router.Statements.{
  next_first, is_due_job, insert_attempt_row, set_retry, set_delivered, set_dead, update_job_row,
}

module _ {enforce : Bool} {P : Db → Type 0} where
  parse_trimmed-Keeps : (v : String) → Keeps enforce P (parse_trimmed v)
  unfolding parse_trimmed
  parse_trimmed-Keeps v = search (keeps_rules, seconds_or-Keeps)

  parse_route-Keeps : (v : String) → Keeps enforce P (parse_route_retry_after v)
  unfolding parse_route_retry_after
  parse_route-Keeps v = parse_trimmed-Keeps (trim_space v)

module _ {enforce : Bool} {P : Db → Type 0} (laws : Lawful enforce P) where
  enqueue-Keeps :
      (route : Route) (sig : String) (ev : SignalEvent) → Keeps enforce P (enqueue route sig ev)
  unfolding enqueue
  enqueue-Keeps route sig ev = elim (Option-cases ev.json) [
    | inl e ↦ rw e (search keeps_rules)
    | inr (payload, e) ↦ rw e (search (keeps_rules, laws.insert_job _ refl))
  ]

  enqueue_matching-Keeps :
      (routes : List Route) (sig : String) (ev : SignalEvent)
      → Keeps enforce P (enqueue_matching routes sig ev)
  unfolding enqueue_matching
  enqueue_matching-Keeps [] sig ev = search keeps_rules
  enqueue_matching-Keeps (r ∷ rs) sig ev =
      let ih = enqueue_matching-Keeps rs sig ev in
      Keeps-if _ (Keeps-bind (enqueue-Keeps r sig ev) (λ _. ih)) ih

  pub handle-Keeps :
      (routes : RouteMap) (sig : String) (ev : SignalEvent) → Keeps enforce P (handle routes sig ev)
  unfolding handle
  handle-Keeps routes sig ev = enqueue_matching-Keeps (routes_for routes sig) sig ev

-- What a round needs: the log may grow, and the jobs that it takes may change, but not their names.
pub record JobLaws (enforce : Bool) (P : Db → Type 0) (G : RouteJob → Type 0) : Type 0 where
  pub logged : (a : RouteAttempt) → StatementKeeps P enforce (insert_attempt_row a)
  pub changed :
      (j : RouteJob) (f : RouteJob → RouteJob)
      → G j
      → ((k : RouteJob) → (f k).id ≡ k.id)
      → StatementKeeps P enforce (update_job_row j.id f)

module _ {enforce : Bool} {P : Db → Type 0} {G : RouteJob → Type 0}
    (laws : JobLaws enforce P G) where
  module _ (j : RouteJob) (g : G j) where
    mark_delivered-Keeps : Keeps enforce P (mark_delivered j.id)
    unfolding mark_delivered set_delivered
    mark_delivered-Keeps =
        let row = laws.changed j set_delivered g (λ k. refl) in search (keeps_rules, row)

    mark_failed-Keeps : (msg : String) → Keeps enforce P (mark_failed j.id msg)
    unfolding mark_failed set_dead
    mark_failed-Keeps msg =
        let row = laws.changed j (set_dead msg) g (λ k. refl) in search (keeps_rules, row)

    schedule_retry-Keeps :
        (attempt : ℕ) (at : Time) (msg : String)
        → Keeps enforce P (schedule_retry j.id attempt at msg)
    unfolding schedule_retry set_retry
    schedule_retry-Keeps attempt at msg =
        let row = laws.changed j (set_retry attempt at msg) g (λ k. refl) in
        search (keeps_rules, row)

    log_attempt-Keeps :
        (attempt code : ℕ) (msg : String) → Keeps enforce P (log_attempt j.id attempt code msg)
    unfolding log_attempt
    log_attempt-Keeps attempt code msg = search (keeps_rules, laws.logged) depth 8

    apply_retry-Keeps : (attempt : ℕ) (msg : String) → Keeps enforce P (apply_retry j attempt msg)
    unfolding apply_retry
    apply_retry-Keeps attempt msg = search (keeps_rules, mark_failed-Keeps, schedule_retry-Keeps)

    rate_limited-Keeps : (attempt : ℕ) (r : Response) → Keeps enforce P (rate_limited j attempt r)
    unfolding rate_limited
    rate_limited-Keeps attempt r =
        search (keeps_rules, parse_route-Keeps, log_attempt-Keeps, schedule_retry-Keeps) depth 9

    answered-Keeps : (attempt : ℕ) (r : Response) → Keeps enforce P (answered j attempt r)
    unfolding answered
    answered-Keeps attempt r =
        search
          (
            keeps_rules, log_attempt-Keeps, mark_delivered-Keeps, mark_failed-Keeps,
            rate_limited-Keeps, apply_retry-Keeps,
          )
          depth 9

    after_send-Keeps :
        (attempt : ℕ) (r : Result Response) → Keeps enforce P (after_send j attempt r)
    after_send-Keeps attempt (ok r) = answered-Keeps attempt r
    after_send-Keeps attempt (err e) =
        search (keeps_rules, log_attempt-Keeps, apply_retry-Keeps) depth 8

    with_request-Keeps :
        (attempt : ℕ) (signature : String) (fault : Option String)
        → Keeps enforce P (with_request j attempt signature fault)
    with_request-Keeps attempt signature (some fault) =
        search (keeps_rules, log_attempt-Keeps, mark_failed-Keeps) depth 8
    with_request-Keeps attempt signature none = search (keeps_rules, after_send-Keeps) depth 8

    deliver-Keeps : Keeps enforce P (deliver j)
    unfolding deliver
    deliver-Keeps = search (keeps_rules, with_request-Keeps)

  deliver_all-Keeps : (js : List RouteJob) → All G js → Keeps enforce P (deliver_all js)
  unfolding deliver_all
  deliver_all-Keeps [] h = search keeps_rules
  deliver_all-Keeps (j ∷ js) h = Keeps-bind (deliver-Keeps j h.0) (λ _. deliver_all-Keeps js h.1)

-- A round, where the jobs that it takes are good ones.
module _ {P : Db → Type 0} {G : RouteJob → Type 0} (env : Env) (laws : JobLaws env.enforce_refs P G)
    (good : (db : Db) (at : Time)
      → P db
      → All (λ j. is_due_job at j ≡ true → G j) db.route_jobs) where
  due_good : (at : Time) (db : Db) → P db → All G (select (is_due_job at) db.route_jobs)
  due_good at db h =
      let test = is_due_job at in
      All-map₂ (λ j e k. k e) (select test db.route_jobs) (select-All test db.route_jobs)
        (All-select (λ j. test j ≡ true → G j) test db.route_jobs (good db at h))

  read_rows-All :
      (cut : Option (ℕ × String)) (jobs : List RouteJob) → All G jobs → All G (read_rows cut jobs).0
  read_rows-All none jobs h = h
  read_rows-All (some (n, msg)) jobs h = All-take G n jobs h

  due_jobs-Yields : Yields env P (λ rows. All G rows.0) due_jobs
  unfolding due_jobs
  due_jobs-Yields = Yields-clock (λ at. Yields-then {Q = λ rows. All G rows.0} gets_tick (λ n.
      Yields-bind {f = λ jobs. ask (λ e. read_rows (e.rows_error n) jobs)}
        (Yields-query _ (λ db h.
          let due = select (is_due_job at) db.route_jobs in
          All-take G 50 (order_by next_first due)
            (All-order_by next_first G due (due_good at db h))))
        (λ jobs good_ones.
          Yields-ask (λ e. read_rows (e.rows_error n) jobs)
            (read_rows-All (env.rows_error n) jobs good_ones))))
    where
      gets_tick : Yields env P (λ n. Unit {0}) (gets (λ s. s.tick))
      gets_tick = record { at = λ s h. (h, λ n e. tt) }

  on_jobs-Yields :
      (r : Result Rows)
      → ((rows : Rows) → r ≡ ok rows → All G rows.0)
      → Yields env P (λ u. Unit {0}) (on_jobs r)
  on_jobs-Yields (ok (js, e)) h =
      let kept = deliver_all-Keeps laws js (h (js, e) refl) in
      record { at = λ s i. (kept.at env s refl i, λ u f. tt) }
  on_jobs-Yields (err e) h = Yields-pure tt tt

  pub worker_round-Yields : Yields env P (λ u. Unit {0}) worker_round
  unfolding worker_round
  worker_round-Yields = Yields-bind (Yields-try due_jobs-Yields) on_jobs-Yields

-- A round, for a property that does not look at jobs.
pub worker_round-Holds :
    {P : Db → Type 0} (env : Env)
    → Lawful env.enforce_refs P
    → ((db : Db) (jobs : List RouteJob) → P db → P (record db { route_jobs = jobs }))
    → (s : Sys) → P s.db
    → P (worker_round env s).1.db
worker_round-Holds {P} env laws unseen s h =
    let each : JobLaws env.enforce_refs P (λ j. Unit {0}) = record {
      logged = insert_attempt_row-Keeps (aside laws);
      changed = λ j f g k. update_job_row-Keeps env.enforce_refs unseen j.id f;
    } in
    let round : Yields env P (λ u. Unit {0}) worker_round =
      worker_round-Yields env each (λ db at k.
        All-always (λ j. is_due_job at j ≡ true → Unit {0}) (λ j e. tt) db.route_jobs) in
    (round.at s h).0
