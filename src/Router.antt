-- ===== src/Router.antt =====
-- router.go: the routes by signal, the job store and the signal handler.
pub mod Statements
pub mod Worker
pub mod Validate
pub mod Public
pub mod Routes
pub mod FanOut
pub mod Tries
pub mod Verdict
use social.Prelude.{
  ℕ, String, Bool, true, false, if◌then◌else◌, Option, none, some, List, [], ◌∷◌, ◌++◌, take,
  str_eq,
}
use social.Table.{select}
use social.Table.Order.{order_by}
use social.Model.{Time, RouteJob, RouteAttempt, pending}
use social.Model.Errors.{database, Error, Result, ok, err}
use social.Exec.{ask, gets, M, and_then, ◌>>=◌, ◌>>◌, pure, ignore, now, new_id, query, exec}
use Statements.{
  insert_job_row, is_due_job, next_first, set_delivered, set_dead, set_retry, update_job_row,
  insert_attempt_row,
}

-- Route of route.go; a signal is a text.
pub record Route : Type 0 where
  pub signal : String
  pub content_type : String
  pub agent_url : String

-- The map `bySignal` of AddRoutes, as pairs of a signal and its routes.
abbrev pub RouteMap : Type 0
RouteMap = List (String × List Route)

-- bySignal[r.Signal] = append(bySignal[r.Signal], r)
unfoldable pub add_route : RouteMap → Route → RouteMap
add_route [] r = (r.signal, r ∷ []) ∷ []
add_route ((sig, rs) ∷ m) r =
    if str_eq sig r.signal then (sig, rs ++ r ∷ []) ∷ m else (sig, rs) ∷ add_route m r

-- for _, r := range routes { … }
unfoldable pub add_all : RouteMap → List Route → RouteMap
unfolding add_route
add_all m [] = m
add_all m (r ∷ rs) = add_all (add_route m r) rs

-- r.routes[sig], which is nil for a signal without routes.
unfoldable pub routes_for : RouteMap → String → List Route
routes_for [] sig = []
routes_for ((s, rs) ∷ m) sig = if str_eq s sig then rs else routes_for m sig

-- The part of smeldr.SignalEvent that is used: the type, and its JSON if it can be marshalled.
pub record SignalEvent : Type 0 where
  pub type_name : String
  pub json : Option String

abbrev pub job_of : Route → String → String → String → Time → RouteJob
job_of route sig payload id at = record {
  id = id;
  signal = sig;
  content_type = route.content_type;
  agent_url = route.agent_url;
  payload = payload;
  status = pending;
  attempts = 0;
  next_attempt = some at;
  last_error = "";
  created_at = at;
}

-- Errors are logged and not returned.
unfoldable pub enqueue : Route → String → SignalEvent → M (Unit {0})
enqueue route sig ev = elim ev.json [
  | none ↦ pure tt
  | some payload ↦ do
    at ← now
    id ← new_id
    ignore (exec (insert_job_row (job_of route sig payload id at)))
]

-- The rows that were read, and rows.Err().
abbrev pub Rows : Type 0
Rows = List RouteJob × Option Error

abbrev pub read_rows : Option (ℕ × String) → List RouteJob → Rows
read_rows none jobs = (jobs, none)
read_rows (some (n, msg)) jobs = (take n jobs, some (database msg))

-- An error of the reading comes with the jobs that were read.
unfoldable pub due_jobs : M Rows
due_jobs = do
  at ← now
  n ← gets (λ s. s.tick)
  jobs ← query (λ db. take 50 (order_by next_first (select (is_due_job at) db.route_jobs)))
  ask (λ env. read_rows (env.rows_error n) jobs)

unfoldable pub mark_delivered : String → M (Unit {0})
mark_delivered id = exec (update_job_row id set_delivered) >> pure tt

unfoldable pub mark_failed : String → String → M (Unit {0})
mark_failed id msg = exec (update_job_row id (set_dead msg)) >> pure tt

unfoldable pub schedule_retry : String → ℕ → Time → String → M (Unit {0})
schedule_retry id attempts next_at msg =
    exec (update_job_row id (set_retry attempts next_at msg)) >> pure tt

unfoldable pub log_attempt : String → (attempt status_code : ℕ) → String → M (Unit {0})
log_attempt job_id attempt status_code msg = do
  id ← new_id
  at ← now
  let row : RouteAttempt = record {
    id = id;
    job_id = job_id;
    attempt = attempt;
    status_code = status_code;
    error = msg;
    attempted_at = at;
  }
  ignore (exec (insert_attempt_row row))

-- The loop of the handler over the candidates.
unfoldable pub enqueue_matching : List Route → String → SignalEvent → M (Unit {0})
unfolding enqueue
enqueue_matching [] sig ev = pure tt
enqueue_matching (route ∷ routes) sig ev =
    let rest = enqueue_matching routes sig ev in
    if str_eq route.content_type ev.type_name then enqueue route sig ev >> rest else rest

-- handle(sig)
unfoldable pub handle : RouteMap → String → SignalEvent → M (Unit {0})
unfolding enqueue_matching routes_for
handle routes sig ev = enqueue_matching (routes_for routes sig) sig ev
