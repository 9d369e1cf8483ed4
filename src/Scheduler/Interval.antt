-- ===== src/Scheduler/Interval.antt =====
-- nextInterval of scheduler.go: the sleep is bounded, and never passes a scheduled post by.
use social.Prelude.{ℕ, suc, ◌+◌, ◌≤◌, Option, none, some, ◌≡◌, ◌⊎◌, refl, arith, Mem}
use social.Model.{Time, ScheduledPost}
use social.Model.Errors.{ok}
use social.Exec.{Env, Sys, try, bump}
use social.Post.{next_scheduled_at}
use social.Post.Statements.{min_scheduled_at}
use social.Post.Due.{IsScheduledAt, NotAfter, min_scheduled_at-NotAfter}
use social.Scheduler.{sleep_until, found_or_none, next_interval, scheduler_fallback_interval}

sleep_until_bounded :
    (o : Option Time) (env : Env) (s : Sys)
    → (d : ℕ) × ((sleep_until o env s).0 ≡ ok d) × (d ≤ scheduler_fallback_interval)
unfolding sleep_until
sleep_until_bounded none env s = (scheduler_fallback_interval, refl, omega arith)
sleep_until_bounded (some t) env s = (_, refl, ground arith)

-- Also when its query fails.
next_interval_bounded :
    (env : Env) (s : Sys)
    → (d : ℕ) × ((next_interval env s).0 ≡ ok d) × (d ≤ scheduler_fallback_interval)
unfolding next_interval
next_interval_bounded env s =
    let (r, s') = try next_scheduled_at env s in
    sleep_until_bounded (found_or_none (next_scheduled_at env s).0) env s'

sleep_until-NotAfter :
    (o : Option Time) (t : Time) (env : Env) (s : Sys) (d : ℕ)
    → NotAfter t o
    → (sleep_until o env s).0 ≡ ok d
    → (d ≡ 0) ⊎ (env.clock s.tick + d ≤ t)
unfolding sleep_until
sleep_until-NotAfter none t env s d n h = absurd n
sleep_until-NotAfter (some u) t env s d n h = ground arith

-- Unless its query fails, nextInterval gives an interval of at most 60 seconds that does not pass the
-- time of any scheduled post: the scheduler wakes at that time or before, and does not sleep at all
-- when the time has come.
pub next_interval_wakes :
    (env : Env) (s : Sys) (p : ScheduledPost) (t : Time)
    → env.db_fault s.tick ≡ none
    → Mem p s.db.posts
    → IsScheduledAt t p
    → (d : ℕ) × ((next_interval env s).0 ≡ ok d)
      × (d ≤ scheduler_fallback_interval)
      × ((d ≡ 0) ⊎ (env.clock (suc s.tick) + d ≤ t))
unfolding next_interval next_scheduled_at
next_interval_wakes env s p t f m h =
    let (d, e, le) = next_interval_bounded env s in
    (
      d,
      e,
      le,
      sleep_until-NotAfter (min_scheduled_at s.db.posts) t env (bump s) d
          (min_scheduled_at-NotAfter s.db.posts p t m h) (ground arith),
    )
