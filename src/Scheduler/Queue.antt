-- ===== src/Scheduler/Queue.antt =====
-- processDue and processSlotQueue of scheduler.go. A loop returns whether it was cut short by a
-- cancelled context.
use social.Prelude.{
  ℕ, zero, suc, ◌+◌, String, Bool, true, false, ltb, if◌then◌else◌, none, some, List, [], ◌∷◌,
  length,
}
use social.Model.{Time, ScheduledPost, PublicationSchedule}
use social.Model.Errors.{Result, ok, err}
use social.Exec.{M, ◌>>=◌, ◌>>◌, pure, try, ignore, ask, now, cancelled}
use social.Post.{due_posts}
use social.Schedule.{list_active_schedules, update_schedule_last_tick, dequeue_oldest_queued}
use social.Schedule.Fired.{fired_slots_between}
use social.Oauth.{purge_expired_oauth_states}
use social.Scheduler.{publish_with_retry}

-- The variable `published` after a loop, and whether the function has returned.
pub record Progress : Type 0 where
  pub published : ℕ
  pub stopped : Bool

abbrev pub at_count : ℕ → M Progress
at_count n = pure (record { published = n; stopped = false })

abbrev pub stop_at : ℕ → M Progress
stop_at n = pure (record { published = n; stopped = true })

-- One turn of the inner loop: a post is published and the loop goes on, or it is left.
unfoldable pub publish_next : ℕ → (ℕ → M Progress) → Result ScheduledPost → M Progress
publish_next published next (err e) = at_count published
publish_next published next (ok p) = do publish_with_retry p; next (published + 1)

abbrev pub unless_stopped : Bool → ℕ → M Progress → M Progress
unless_stopped true published m = stop_at published
unless_stopped false published m = m

-- for i := 0; i < count && published < cap; i++ { … }
unfoldable pub publish_fired : (credential_id : String) (cap count published : ℕ) → M Progress
unfolding publish_next
publish_fired credential_id cap zero published = at_count published
publish_fired credential_id cap (suc count) published =
    if ltb published cap
    then (do
      stop ← cancelled
      unless_stopped stop published (do
        r ← try (dequeue_oldest_queued credential_id)
        publish_next published (publish_fired credential_id cap count) r))
    else at_count published

abbrev pub next_counts : Progress → (ℕ → M Progress) → M Progress
next_counts p next = if p.stopped then stop_at p.published else next p.published

-- for _, count := range fireCounts { … }
unfoldable pub publish_counts : (credential_id : String) (cap : ℕ) → List ℕ → ℕ → M Progress
unfolding publish_fired
publish_counts credential_id cap [] published = at_count published
publish_counts credential_id cap (count ∷ counts) published = do
  p ← publish_fired credential_id cap count published
  next_counts p (publish_counts credential_id cap counts)

-- last_tick_at if it is set, else created_at.
unfoldable pub window_start : PublicationSchedule → Time
window_start s = elim s.last_tick_at [ none ↦ s.created_at | some t ↦ t ]

-- The body of the loop over the schedules, behind the test of the context.
unfoldable pub tick_schedule : Time → PublicationSchedule → M Bool
unfolding publish_counts window_start
tick_schedule at s = do
  ignore (update_schedule_last_tick s.id at)
  load ← ask (λ env. env.load_location)
  p ←
      publish_counts s.credential_id (length s.slots)
        (fired_slots_between load s (window_start s) at) 0
  pure p.stopped

abbrev pub or_next : Bool → M Bool → M Bool
or_next true next = pure true
or_next false next = next

unfoldable pub tick_schedules : Time → List PublicationSchedule → M Bool
unfolding tick_schedule
tick_schedules at [] = pure false
tick_schedules at (s ∷ rest) = do
  stop ← cancelled
  or_next stop (do stopped ← tick_schedule at s; or_next stopped (tick_schedules at rest))

abbrev pub on_schedules : Time → Result (List PublicationSchedule) → M (Unit {0})
on_schedules at (err e) = pure tt
on_schedules at (ok schedules) = tick_schedules at schedules >> pure tt

unfoldable pub process_slot_queue : M (Unit {0})
unfolding tick_schedules
process_slot_queue = do at ← now; schedules ← try list_active_schedules; on_schedules at schedules

unfoldable pub publish_all : List ScheduledPost → M Bool
publish_all [] = pure false
publish_all (p ∷ ps) = do stop ← cancelled; or_next stop (publish_with_retry p >> publish_all ps)

abbrev pub after_due : Bool → M (Unit {0})
after_due true = pure tt
after_due false = do process_slot_queue; ignore purge_expired_oauth_states

abbrev pub on_due : Result (List ScheduledPost) → M (Unit {0})
on_due (err e) = pure tt
on_due (ok posts) = do stopped ← publish_all posts; after_due stopped

unfoldable pub process_due : M (Unit {0})
unfolding publish_all process_slot_queue
process_due = do posts ← try due_posts; on_due posts
