-- ===== src/Router/Statements.antt =====
-- The SQL statements of router.go on smeldr_social_route_jobs and smeldr_social_route_log.
use social.Prelude.{
  ℕ, leb, ltb, ◌==◌, ◌&&◌, String, Bool, true, false, if◌then◌else◌, Option, none, some, [], ◌∷◌,
  ◌++◌, str_eq,
}
use social.Table.{count, update}
use social.Model.{Time, RouteJob, RouteAttempt, JobStatus, pending, delivered, dead}
use social.Model.Errors.{ok, err}
use social.Exec.{Statement}
use social.Post.Statements.{unique_failed, reference_failed}

unfoldable pub is_job : String → RouteJob → Bool
is_job id j = str_eq j.id id

unfoldable pub is_pending : JobStatus → Bool
is_pending pending = true
is_pending _ = false

-- INSERT INTO smeldr_social_route_jobs
unfoldable pub insert_job_row : RouteJob → Statement
insert_job_row j enforce db =
    if ltb 0 (count (is_job j.id) db.route_jobs)
    then err unique_failed
    else ok (record db { route_jobs = db.route_jobs ++ j ∷ [] }, 1)

-- next_attempt IS NULL OR next_attempt <= $1
unfoldable pub is_ready : Time → Option Time → Bool
is_ready at none = true
is_ready at (some t) = leb t at

unfoldable pub is_due_job : Time → RouteJob → Bool
unfolding is_pending is_ready
is_due_job at j = is_pending j.status && is_ready at j.next_attempt

-- ORDER BY next_attempt ASC; a NULL sorts first, as in SQLite
unfoldable pub next_first : RouteJob → RouteJob → Bool
next_first j k = elim j.next_attempt [
  | none ↦ true
  | some t ↦ elim k.next_attempt [ none ↦ false | some u ↦ leb t u ]
]

unfoldable pub set_delivered : RouteJob → RouteJob
set_delivered j = record j { status = delivered; last_error = "" }

unfoldable pub set_dead : String → RouteJob → RouteJob
set_dead msg j = record j { status = dead; last_error = msg }

unfoldable pub set_retry : ℕ → Time → String → RouteJob → RouteJob
set_retry attempts next_at msg j = record j {
  attempts = attempts;
  next_attempt = some next_at;
  last_error = msg;
}

-- UPDATE smeldr_social_route_jobs SET … WHERE id=$n
unfoldable pub update_job_row : String → (RouteJob → RouteJob) → Statement
update_job_row id f enforce db =
    ok (
      record db { route_jobs = update (is_job id) f db.route_jobs },
      count (is_job id) db.route_jobs,
    )

unfoldable pub same_route_attempt : String → RouteAttempt → Bool
same_route_attempt id a = str_eq a.id id

-- INSERT INTO smeldr_social_route_log
unfoldable pub insert_attempt_row : RouteAttempt → Statement
insert_attempt_row a enforce db =
    if ltb 0 (count (same_route_attempt a.id) db.route_log)
    then err unique_failed
    else if enforce && count (is_job a.job_id) db.route_jobs == 0
    then err reference_failed
    else ok (record db { route_log = db.route_log ++ a ∷ [] }, 1)
