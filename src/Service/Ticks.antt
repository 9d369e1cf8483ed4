-- ===== src/Service/Ticks.antt =====
-- The scheduler under laws on the statements: an attempt on a post, and a tick.
use social.Prelude.{
  ℕ, zero, suc, String, Bool, true, false, Option, none, some, List, [], ◌∷◌, refl,
}
use social.Model.{PublicationSchedule, PlatformCredential, ScheduledPost, Time, Db}
use social.Schedule.Statements.{set_last_tick}
use social.Service.Laws.{aside, delete_states-Keeps, KeepsSlots, Lawful}
use social.Exec.{M}
use social.Scheduler.Queue.{
  unless_stopped, or_next, on_schedules, on_due, next_counts, after_due, tick_schedules,
  tick_schedule, publish_next, publish_fired, publish_counts, publish_all, process_slot_queue,
  process_due, Progress,
}
use social.Model.Errors.{ok, err, Error, Result}
use social.Scheduler.{
  sleep_until, next_interval, counted, settle, publish_with_retry, attempt_with, after_failure,
}
use social.Schedule.{list_active_schedules, update_schedule_last_tick, dequeue_oldest_queued}
use social.Oauth.{purge_expired_oauth_states}
use social.Exec.Keeps.{Keeps-cancelled, Keeps-bind, keeps_rules, Keeps}
use social.Post.{next_scheduled_at, due_posts, delivery_attempt_count}
use social.Credential.References.{or_not_found-Keeps, get_credential-Keeps}
use social.Service.Stored.{
  maybe_refresh-Keeps, log_delivery_attempt-Keeps, mark_post_failed-Keeps,
  mark_post_published-Keeps, update_post-Keeps,
}
use social.Scheduler.Frame.{call_platform_publish-Keeps}

KeepsSlots-set_last_tick : (at : Time) → KeepsSlots (set_last_tick at)
unfolding set_last_tick
KeepsSlots-set_last_tick at = record {
  same_id = λ s. refl;
  same_credential = λ s. refl;
  same_slots = λ s. refl;
}

module _ {enforce : Bool} {P : Db → Type 0} (laws : Lawful enforce P) where
  last_tick-Keeps : (id : String) (at : Time) → Keeps enforce P (update_schedule_last_tick id at)
  unfolding update_schedule_last_tick
  last_tick-Keeps id at = search (keeps_rules, laws.update_schedule, KeepsSlots-set_last_tick)

  after_failure-Keeps :
      (p : ScheduledPost) (n : ℕ) (e : Error) (msg : String)
      → Keeps enforce P (after_failure p n e msg)
  unfolding after_failure
  after_failure-Keeps p n e msg =
      search (keeps_rules, update_post-Keeps laws, mark_post_failed-Keeps laws) depth 7

  settle-Keeps : (p : ScheduledPost) (n : ℕ) (r : Result String) → Keeps enforce P (settle p n r)
  unfolding settle
  settle-Keeps p n (ok id) =
      search (keeps_rules, mark_post_published-Keeps laws, log_delivery_attempt-Keeps laws)
  settle-Keeps p n (err e) =
      search (keeps_rules, log_delivery_attempt-Keeps laws, after_failure-Keeps) depth 7

  attempt_with-Keeps :
      (p : ScheduledPost) (n : ℕ) (r : Result PlatformCredential)
      → Keeps enforce P (attempt_with p n r)
  unfolding attempt_with
  attempt_with-Keeps p n (err e) = search (keeps_rules, mark_post_failed-Keeps laws)
  attempt_with-Keeps p n (ok cred) =
      search (keeps_rules, call_platform_publish-Keeps, settle-Keeps, maybe_refresh-Keeps laws)

  counted-Keeps : (p : ScheduledPost) (r : Result ℕ) → Keeps enforce P (counted p r)
  counted-Keeps p (err e) = search keeps_rules
  counted-Keeps p (ok n) = search (keeps_rules, get_credential-Keeps, attempt_with-Keeps)

  publish_with_retry-Keeps : (p : ScheduledPost) → Keeps enforce P (publish_with_retry p)
  unfolding publish_with_retry delivery_attempt_count
  publish_with_retry-Keeps p = search (keeps_rules, counted-Keeps)

  dequeue-Keeps : (id : String) → Keeps enforce P (dequeue_oldest_queued id)
  unfolding dequeue_oldest_queued
  dequeue-Keeps id = search (keeps_rules, or_not_found-Keeps)

  publish_next-Keeps :
      (n : ℕ) (next : ℕ → M Progress) (r : Result ScheduledPost)
      → ((k : ℕ) → Keeps enforce P (next k))
      → Keeps enforce P (publish_next n next r)
  unfolding publish_next
  publish_next-Keeps n next (err e) k = search keeps_rules
  publish_next-Keeps n next (ok p) k = search (keeps_rules, publish_with_retry-Keeps, k)

  unless_stopped-Keeps :
      (b : Bool) (n : ℕ) (m : M Progress)
      → Keeps enforce P m
      → Keeps enforce P (unless_stopped b n m)
  unless_stopped-Keeps true n m k = search keeps_rules
  unless_stopped-Keeps false n m k = k

  publish_fired-Keeps :
      (id : String) (cap count n : ℕ) → Keeps enforce P (publish_fired id cap count n)
  unfolding publish_fired
  publish_fired-Keeps id cap zero n = search keeps_rules
  publish_fired-Keeps id cap (suc count) n =
      let ih = publish_fired-Keeps id cap count in
      search (keeps_rules, dequeue-Keeps, publish_next-Keeps, unless_stopped-Keeps, ih) depth 8

  next_counts-Keeps :
      (p : Progress) (next : ℕ → M Progress)
      → ((k : ℕ) → Keeps enforce P (next k))
      → Keeps enforce P (next_counts p next)
  next_counts-Keeps p next k = search (keeps_rules, k)

  publish_counts-Keeps :
      (id : String) (cap : ℕ) (counts : List ℕ) (n : ℕ)
      → Keeps enforce P (publish_counts id cap counts n)
  unfolding publish_counts
  publish_counts-Keeps id cap [] n = search keeps_rules
  publish_counts-Keeps id cap (c ∷ cs) n =
      let ih = publish_counts-Keeps id cap cs in
      search (keeps_rules, publish_fired-Keeps, next_counts-Keeps, ih)

  tick_schedule-Keeps : (at : Time) (s : PublicationSchedule) → Keeps enforce P (tick_schedule at s)
  unfolding tick_schedule update_schedule_last_tick
  tick_schedule-Keeps at s = search (keeps_rules, last_tick-Keeps, publish_counts-Keeps) depth 8

  or_next-Keeps : (b : Bool) (m : M Bool) → Keeps enforce P m → Keeps enforce P (or_next b m)
  or_next-Keeps true m k = search keeps_rules
  or_next-Keeps false m k = k

  tick_schedules-Keeps :
      (at : Time) (ss : List PublicationSchedule) → Keeps enforce P (tick_schedules at ss)
  unfolding tick_schedules
  tick_schedules-Keeps at [] = search keeps_rules
  tick_schedules-Keeps at (s ∷ ss) =
      let ih = tick_schedules-Keeps at ss in
      Keeps-bind Keeps-cancelled (λ stop.
        or_next-Keeps stop _ (Keeps-bind (tick_schedule-Keeps at s) (λ b. or_next-Keeps b _ ih)))

  on_schedules-Keeps :
      (at : Time) (r : Result (List PublicationSchedule)) → Keeps enforce P (on_schedules at r)
  on_schedules-Keeps at (err e) = search keeps_rules
  on_schedules-Keeps at (ok ss) = search (keeps_rules, tick_schedules-Keeps)

  pub process_slot_queue-Keeps : Keeps enforce P process_slot_queue
  unfolding process_slot_queue list_active_schedules
  process_slot_queue-Keeps = search (keeps_rules, on_schedules-Keeps)

  publish_all-Keeps : (ps : List ScheduledPost) → Keeps enforce P (publish_all ps)
  unfolding publish_all
  publish_all-Keeps [] = search keeps_rules
  publish_all-Keeps (p ∷ ps) =
      let ih = publish_all-Keeps ps in
      Keeps-bind Keeps-cancelled
        (λ stop. or_next-Keeps stop _ (Keeps-bind (publish_with_retry-Keeps p) (λ _. ih)))

  after_due-Keeps : (b : Bool) → Keeps enforce P (after_due b)
  unfolding purge_expired_oauth_states
  after_due-Keeps true = search keeps_rules
  after_due-Keeps false =
      search (keeps_rules, process_slot_queue-Keeps, delete_states-Keeps (aside laws)) depth 9

  on_due-Keeps : (r : Result (List ScheduledPost)) → Keeps enforce P (on_due r)
  on_due-Keeps (err e) = search keeps_rules
  on_due-Keeps (ok ps) = search (keeps_rules, publish_all-Keeps, after_due-Keeps)

  pub process_due-Keeps : Keeps enforce P process_due
  unfolding process_due due_posts
  process_due-Keeps = search (keeps_rules, on_due-Keeps) depth 7

module _ {enforce : Bool} {P : Db → Type 0} where
  sleep_until-Keeps : (t : Option Time) → Keeps enforce P (sleep_until t)
  unfolding sleep_until
  sleep_until-Keeps none = search keeps_rules
  sleep_until-Keeps (some t) = search keeps_rules

  pub next_interval-Keeps : Keeps enforce P next_interval
  unfolding next_interval next_scheduled_at
  next_interval-Keeps = search (keeps_rules, sleep_until-Keeps)
