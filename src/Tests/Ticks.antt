-- ===== src/Tests/Ticks.antt =====
-- The theorems on the scheduler and on the schedules, on concrete ticks.
use social.Prelude.{
  ℕ, ◌+◌, ◌*◌, ◌≤◌, true, false, none, ◌≡◌, ◌⊎◌, refl, arith, All, Mem, here, length,
}
use social.Table.{count}
use social.Model.{Db, Time, ScheduledPost, PostStatus, scheduled, queued, active}
use social.Model.Errors.{as_rate_limit_error, Error, Result, ok, err, plain, publish_error}
use social.Exec.Runs.{Runs}
use social.Post.Statements.{has_id, logs_post}
use social.Post.Due.{IsScheduledAt}
use social.Schedule.{dequeue_oldest_queued, waits_for}
use social.Schedule.Line.{dequeue_oldest_queued-first, IsQueuedFor}
use social.Scheduler.{
  publish_with_retry, after_failure, is_terminal, next_interval, scheduler_fallback_interval,
}
use social.Scheduler.Retry.{
  IsFinal, RetriedAt, seconds_before_retry, publish_with_retry-IsFinal, after_failure-RetriedAt,
}
use social.Scheduler.Attempts.{publish_with_retry-Runs}
use social.Scheduler.Cap.{tick_schedule-cap}
use social.Scheduler.Queue.{tick_schedule}
use social.Scheduler.Interval.{next_interval_wakes}
use social.Prelude.Int.{pos, ℤ, negsuc}
use social.Prelude.{◌/◌, ◌%◌, ◌*◌, ◌+◌}
use social.Model.{Slot}
use social.Model.Zone.{Zone}
use social.Schedule.Fired.{walk_days, next_day}
use social.Schedule.Walk.{Advances, walk_days-enough}
use social.Tests.{world, start, tables, post_with, daily}

four_logged : count (logs_post "p1") tables.delivery_log ≡ 4
unfolding count logs_post
four_logged = refl

publish_with_retry-IsFinal_example :
    All
      (λ q. has_id "p1" q ≡ true → IsFinal q.status)
      (publish_with_retry (post_with "p1" scheduled 10) (world 500) start).1.db.posts
publish_with_retry-IsFinal_example =
    publish_with_retry-IsFinal (post_with "p1" scheduled 10) (world 500) start (λ k. refl)
      (omega (arith, four_logged))

not_terminal : is_terminal (publish_error 500 "down" false) ≡ false
unfolding is_terminal social.Model.Errors.as_publish_error
not_terminal = refl

no_limit : as_rate_limit_error (publish_error 500 "down" false) ≡ none
unfolding as_rate_limit_error
no_limit = refl

after_failure-RetriedAt_example :
    All
      (λ q.
        has_id "p1" q ≡ true
        → RetriedAt
            (1000000000000 + seconds_before_retry 1 * 1000000000)
            (post_with "p1" scheduled 10)
            q)
      (after_failure
        (post_with "p1" scheduled 10)
        1
        (publish_error 500 "down" false)
        "down"
        (world 500)
        start).1.db.posts
after_failure-RetriedAt_example =
    after_failure-RetriedAt (post_with "p1" scheduled 10) 1 (publish_error 500 "down" false) "down"
      (world 500) start (λ k. refl) not_terminal no_limit (omega arith)

publish_with_retry-Runs_example : Runs 1 (publish_with_retry (post_with "p1" scheduled 10))
publish_with_retry-Runs_example = publish_with_retry-Runs (post_with "p1" scheduled 10)

tick_schedule-cap_example :
    length (tick_schedule 1000000000000 daily (world 500) start).1.db.delivery_log
    ≤ length tables.delivery_log + length daily.slots
tick_schedule-cap_example = tick_schedule-cap 1000000000000 daily (world 500) start

is_scheduled_p1 : IsScheduledAt 10 (post_with "p1" scheduled 10)
unfolding social.Model.Status.is_scheduled
is_scheduled_p1 = (refl, refl)

next_interval_wakes_example :
    (d : ℕ) × ((next_interval (world 200) start).0 ≡ ok d)
    × (d ≤ scheduler_fallback_interval)
    × ((d ≡ 0) ⊎ (1000000000001 + d ≤ 10))
next_interval_wakes_example =
    next_interval_wakes (world 200) start (post_with "p1" scheduled 10) 10 refl (here refl)
      is_scheduled_p1

dequeued : (dequeue_oldest_queued "c1" (world 200) start).0 ≡ ok (post_with "p2" queued 20)
unfolding dequeue_oldest_queued social.Table.Order.order_by social.Table.select waits_for
dequeued = refl

dequeue_oldest_queued-first_example :
    (Mem (post_with "p2" queued 20) tables.posts × IsQueuedFor "c1" (post_with "p2" queued 20))
    × ((q : ScheduledPost) → Mem q tables.posts → IsQueuedFor "c1" q → 20 ≤ q.created_at)
dequeue_oldest_queued-first_example =
    dequeue_oldest_queued-first "c1" (world 200) start (post_with "p2" queued 20) dequeued

abbrev whole : ℤ → ℕ
whole (pos n) = n
whole (negsuc n) = 0

-- The days of UTC.
abbrev utc : Zone
utc = record {
  local_day = λ t. t / 86400000000000;
  local_clock = λ t. t % 86400000000000;
  date = λ day hour min nsec.
      day * 86400000000000 + whole hour * 3600000000000 + whole min * 60000000000 + nsec;
}

utc-Advances : Advances utc
unfolding next_day
utc-Advances t = omega arith

abbrev monday : Slot
monday = record { weekday = pos 1; time = "09:00"; timezone = "UTC" }

walk_days-enough_example :
    walk_days (3 + 4) utc monday (pos 9) (pos 0) 0 2 0
    ≡ walk_days 3 utc monday (pos 9) (pos 0) 0 2 0
walk_days-enough_example =
    walk_days-enough 3 4 utc monday (pos 9) (pos 0) 0 2 0 utc-Advances (omega arith)
