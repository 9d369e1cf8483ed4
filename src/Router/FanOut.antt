-- ===== src/Router/FanOut.antt =====
-- The jobs that an event puts into the store.
use social.Prelude.{
  ℕ, suc, String, Bool, true, false, if◌then◌else◌, none, some, List, [], ◌∷◌, ◌++◌, ◌≡◌, refl, sym,
  ◌∙◌, str_eq,
}
use social.Exec.{◌>>◌, Sys, Env}
use social.Router.{add_all, handle, SignalEvent, enqueue_matching, enqueue, Route}
use social.Router.Statements.{insert_job_row, is_job}
use social.Model.{pending, Time, RouteJob}
use social.Table.{count, select}
use social.Router.Routes.{routes_for-add_all, has_signal, append_assoc, append_nil}
use social.Model.Errors.{ok}

-- ContentType == ev.Type
unfoldable pub has_type : String → Route → Bool
has_type type_name r = str_eq r.content_type type_name

-- A job that is pending and due at once, without attempts.
abbrev fresh_job : (route : Route) (sig payload id : String) (at : Time) → RouteJob
fresh_job route sig payload id at = record {
  id = id;
  signal = sig;
  content_type = route.content_type;
  agent_url = route.agent_url;
  payload = payload;
  status = pending;
  attempts = 0;
  next_attempt = some at;
  last_error = "";
  created_at = at;
}

-- One job for each route: each reads the clock, draws an identifier and inserts its row.
unfoldable pub jobs_for : Env → (sig payload : String) → (tick : ℕ) → List Route → List RouteJob
jobs_for env sig payload tick [] = []
jobs_for env sig payload tick (r ∷ rs) =
    fresh_job r sig payload (env.fresh_id (suc tick)) (env.clock tick)
    ∷ jobs_for env sig payload (suc (suc (suc tick))) rs

-- No identifier of the new jobs is in the store or occurs twice.
abbrev pub AreNew : (jobs new : List RouteJob) → Type 0
AreNew jobs [] = Unit
AreNew jobs (j ∷ js) = (count (is_job j.id) jobs ≡ 0) × AreNew (jobs ++ j ∷ []) js

-- The state behind one insertion.
abbrev inserted : Sys → RouteJob → Sys
inserted s j = record s {
  db = record s.db { route_jobs = s.db.route_jobs ++ j ∷ [] };
  tick = suc (suc (suc s.tick));
}

enqueue-inserted :
    (r : Route) (sig payload : String) (ev : SignalEvent) (env : Env) (s : Sys)
    → ev.json ≡ some payload
    → env.db_fault (suc (suc s.tick)) ≡ none
    → count (is_job (env.fresh_id (suc s.tick))) s.db.route_jobs ≡ 0
    → enqueue r sig ev env s
      ≡ (ok tt, inserted s (fresh_job r sig payload (env.fresh_id (suc s.tick)) (env.clock s.tick)))
unfolding enqueue insert_job_row
enqueue-inserted r sig payload ev env s e f g = rw e (rw f (rw g refl))

matching-jobs :
    (rs : List Route) (sig payload : String) (ev : SignalEvent) (env : Env) (s : Sys)
    → ev.json ≡ some payload
    → ((k : ℕ) → env.db_fault k ≡ none)
    → AreNew s.db.route_jobs (jobs_for env sig payload s.tick (select (has_type ev.type_name) rs))
    → (enqueue_matching rs sig ev env s).1.db.route_jobs
      ≡ s.db.route_jobs ++ jobs_for env sig payload s.tick (select (has_type ev.type_name) rs)
unfolding enqueue_matching select has_type jobs_for
matching-jobs [] sig payload ev env s e f h = sym (append_nil s.db.route_jobs)
matching-jobs (r ∷ rs) sig payload ev env s e f h =
    let j : RouteJob = fresh_job r sig payload (env.fresh_id (suc s.tick)) (env.clock s.tick) in
    let rest = enqueue_matching rs sig ev in
    let later = select (has_type ev.type_name) rs in
    elim (str_eq r.content_type ev.type_name)
        as (λ b.
          AreNew s.db.route_jobs (jobs_for env sig payload s.tick (if b then r ∷ later else later))
          → ((if b then enqueue r sig ev >> rest else rest) env s).1.db.route_jobs
            ≡ s.db.route_jobs ++ jobs_for env sig payload s.tick (if b then r ∷ later else later)) [
              | true ↦ λ new.
                  rw (enqueue-inserted r sig payload ev env s e (f (suc (suc s.tick))) new.0) (
                    matching-jobs rs sig payload ev env (inserted s j) e f new.1
                    ∙ append_assoc s.db.route_jobs (j ∷ [])
                        (jobs_for env sig payload (suc (suc (suc s.tick))) later))
              | false ↦ λ new. matching-jobs rs sig payload ev env s e f new
            ]
      h

-- After AddRoutes has built its map, an event that can be marshalled puts one job into the store
-- for each route with its signal and type, in the order of the routes and behind the jobs that
-- were there: pending, without attempts, due at once, and with the event's payload and the route's
-- URL. The database has no faults, and the new identifiers are in no other row.
pub handle-add_all :
    (routes : List Route) (sig payload : String) (ev : SignalEvent) (env : Env) (s : Sys)
    → ev.json ≡ some payload
    → ((k : ℕ) → env.db_fault k ≡ none)
    → AreNew s.db.route_jobs (
        jobs_for env sig payload s.tick
          (select (has_type ev.type_name) (select (has_signal sig) routes)))
    → (handle (add_all [] routes) sig ev env s).1.db.route_jobs
      ≡ s.db.route_jobs
        ++ jobs_for env sig payload s.tick
            (select (has_type ev.type_name) (select (has_signal sig) routes))
unfolding handle
handle-add_all routes sig payload ev env s e f h =
    rw (routes_for-add_all routes sig)
      (matching-jobs (select (has_signal sig) routes) sig payload ev env s e f h)
