-- ===== src/Router/Worker.antt =====
-- route_worker.go: the delivery of one job, its retries, and one round of the worker.
use Prim.Native.String.{◌++◌}
use social.Prelude.{
  ℕ, ◌+◌, ◌-◌, String, ◌&&◌, ltb, leb, ◌==◌, if◌then◌else◌, Option, none, some, List, [], ◌∷◌,
  get_or, length, str_eq,
}
use social.Prelude.Int.{ℤ, pos, add_time, is_positive}
use social.Model.{RouteJob}
use social.Model.Errors.{Result, ok, err, itoa}
use social.Model.Http.{Request, Response}
use social.Exec.{M, ◌>>=◌, ◌>>◌, pure, try, ignore, ask, now, send, text_of}
use social.Platform.{until_or, seconds_or}
use social.Platform.Text.{atoi, trim_space}
use social.Router.{Rows, due_jobs, mark_delivered, mark_failed, schedule_retry, log_attempt}

-- 30 s, 2 min, 10 min, 1 h
abbrev pub route_retry_delays : List ℕ
route_retry_delays = 30000000000 ∷ 120000000000 ∷ 600000000000 ∷ 3600000000000 ∷ []

abbrev no_delay : ℤ
no_delay = pos 0

-- parseRouteRetryAfter; 0 if the header cannot be parsed.
unfoldable pub parse_trimmed : String → M ℤ
unfolding until_or seconds_or
parse_trimmed v =
    if str_eq v ""
    then pure no_delay
    else do date ← ask (λ env. env.parse_http_time v); seconds_or (until_or no_delay date) (atoi v)

unfoldable pub parse_route_retry_after : String → M ℤ
unfolding parse_trimmed trim_space
parse_route_retry_after v = parse_trimmed (trim_space v)

unfoldable pub apply_retry : RouteJob → ℕ → String → M (Unit {0})
apply_retry j attempt msg =
    if ltb (length route_retry_delays) attempt
    then ignore (mark_failed j.id ("max retries exceeded: " ++ msg))
    else do
      at ← now
      ignore (schedule_retry j.id attempt (at + get_or route_retry_delays (attempt - 1) 0) msg)

-- min(attempt-1, len(routeRetryDelays)-1)
unfoldable pub backoff : ℕ → ℤ
backoff attempt =
    let last = length route_retry_delays - 1 in
    pos (get_or route_retry_delays (if ltb (attempt - 1) last then attempt - 1 else last) 0)

unfoldable pub rate_limited : RouteJob → ℕ → Response → M (Unit {0})
unfolding backoff parse_route_retry_after
rate_limited j attempt r = do
  d ← parse_route_retry_after r.retry_after
  log_attempt j.id attempt r.status "429 Too Many Requests"
  at ← now
  ignore (
      schedule_retry j.id attempt (add_time at (if is_positive d then d else backoff attempt))
        "429 Too Many Requests")

-- The switch of `deliver` on the status code.
unfoldable pub answered : RouteJob → ℕ → Response → M (Unit {0})
unfolding rate_limited
answered j attempt r =
    let code = r.status in
    let msg = "HTTP " ++ itoa code in
    if leb 200 code && ltb code 300
    then log_attempt j.id attempt code "" >> ignore (mark_delivered j.id)
    else if code == 429
    then rate_limited j attempt r
    else if leb 400 code && ltb code 500
    then log_attempt j.id attempt code msg >> ignore (mark_failed j.id msg)
    else log_attempt j.id attempt code msg >> apply_retry j attempt msg

abbrev pub delivery_request : RouteJob → String → Request
delivery_request j signature = record {
  method = "POST";
  url = j.agent_url;
  auth = "";
  fields =
      ("Content-Type", "application/json")
      ∷ ("X-Smeldr-Signature", "sha256=" ++ signature)
      ∷ ("X-Forge-Signature", "sha256=" ++ signature)
      ∷ ("", j.payload)
      ∷ [];
}

abbrev pub after_send : RouteJob → ℕ → Result Response → M (Unit {0})
after_send j attempt (ok r) = answered j attempt r
after_send j attempt (err e) = do
  msg ← text_of e
  log_attempt j.id attempt 0 msg
  apply_retry j attempt msg

abbrev pub with_request : RouteJob → ℕ → String → Option String → M (Unit {0})
with_request j attempt signature (some fault) =
    log_attempt j.id attempt 0 fault >> ignore (mark_failed j.id fault)
with_request j attempt signature none = do
  r ← try (send (delivery_request j signature))
  after_send j attempt r

unfoldable pub deliver : RouteJob → M (Unit {0})
unfolding answered
deliver j = do
  signature ← ask (λ env. env.hmac j.payload)
  fault ← ask (λ env. env.url_fault j.agent_url)
  with_request j (j.attempts + 1) signature fault

unfoldable pub deliver_all : List RouteJob → M (Unit {0})
unfolding deliver
deliver_all [] = pure tt
deliver_all (j ∷ js) = deliver j >> deliver_all js

-- The jobs are delivered also where reading them ended with an error, which is logged.
abbrev pub on_jobs : Result Rows → M (Unit {0})
on_jobs (err e) = pure tt
on_jobs (ok (jobs, e)) = deliver_all jobs

-- One round of the loop of runWorker, up to the wait.
unfoldable pub worker_round : M (Unit {0})
unfolding deliver_all
worker_round = do jobs ← try due_jobs; on_jobs jobs
