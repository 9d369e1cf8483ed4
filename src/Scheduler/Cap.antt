-- ===== src/Scheduler/Cap.antt =====
-- processSlotQueue publishes at most len(slots) posts for a schedule in one tick.
use social.Prelude.{
  ℕ, zero, suc, ◌+◌, ◌≤◌, ◌<◌, String, Bool, true, false, ltb, if◌then◌else◌, List, [], ◌∷◌, ◌≡◌,
  inl, inr, refl, ap, arith, Bool-cases, length,
}
use social.Model.{Time, ScheduledPost, PublicationSchedule}
use social.Model.Errors.{Result, ok, err}
use social.Exec.{Env, Sys, M, and_then, pure, bump}
use social.Exec.Keeps.{keeps_rules}
use social.Exec.Runs.{Adds, Adds-of_Keeps, logged}
use social.Schedule.{dequeue_oldest_queued, update_schedule_last_tick}
use social.Schedule.Statements.{update_schedule_row}
use social.Schedule.Fired.{fired_slots_between}
use social.Credential.References.{or_not_found-Keeps}
use social.Scheduler.{publish_with_retry}
use social.Scheduler.Attempts.{publish_with_retry-Runs}
use social.Scheduler.Queue.{
  Progress, at_count, stop_at, publish_next, publish_fired, publish_counts, next_counts,
  unless_stopped, tick_schedule, window_start,
}

dequeue-Adds : (id : String) → Adds 0 (dequeue_oldest_queued id)
unfolding dequeue_oldest_queued
dequeue-Adds id = Adds-of_Keeps (λ b k. search (keeps_rules, or_not_found-Keeps))

-- What a loop does from `n` published posts: it returns, stays within the cap, and logs at most as
-- many attempts as it counts posts.
record Fair (cap n start : ℕ) (out : Result Progress × Sys) : Type 0 where
  progress : Progress
  returned : out.0 ≡ ok progress
  capped : progress.published ≤ cap
  counted : logged out.1 + n ≤ start + progress.published

abbrev published_of : Result Progress → ℕ
published_of (ok p) = p.published
published_of (err e) = 0

abbrev AllFair : ℕ → (ℕ → M Progress) → Type 0
AllFair cap f = (n : ℕ) → n ≤ cap → (env : Env) (s : Sys) → Fair cap n (logged s) (f n env s)

at_count-Fair :
    (cap n : ℕ) (s s' : Sys)
    → n ≤ cap
    → logged s' ≤ logged s
    → Fair cap n (logged s) (ok (record { published = n; stopped = false }), s')
at_count-Fair cap n s s' h k = record {
  progress = record { published = n; stopped = false };
  returned = refl;
  capped = h;
  counted = omega arith;
}

after_publish-Fair :
    (cap n : ℕ) (next : ℕ → M Progress) (r : Result (Unit {0})) (env : Env) (s s' : Sys)
    → r ≡ ok tt
    → logged s' ≤ logged s + 1
    → Fair cap (n + 1) (logged s') (next (n + 1) env s')
    → Fair cap n (logged s) (and_then r (λ _. next (n + 1)) env s')
after_publish-Fair cap n next (ok u) env s s' e h f = record {
  progress = f.progress;
  returned = f.returned;
  capped = f.capped;
  counted = omega (arith, f.counted);
}
after_publish-Fair cap n next (err x) env s s' e h f = absurd (cc)

publish_next-Fair :
    (cap n : ℕ) (next : ℕ → M Progress) (r : Result ScheduledPost) (env : Env) (s s' : Sys)
    → n < cap
    → AllFair cap next
    → logged s' ≤ logged s
    → Fair cap n (logged s) (publish_next n next r env s')
unfolding publish_next
publish_next-Fair cap n next (err e) env s s' lt all h = at_count-Fair cap n s s' (omega arith) h
publish_next-Fair cap n next (ok p) env s s' lt all h =
    let o = (publish_with_retry-Runs p).at env s' in
    let (r, s'') = publish_with_retry p env s' in
    after_publish-Fair cap n next r env s s'' o.returned (omega (arith, o.bounded))
      (all (n + 1) (omega arith) env s'')

unless_stopped-Fair :
    (cap n : ℕ) (stop : Bool) (m : M Progress) (env : Env) (s : Sys)
    → n ≤ cap
    → Fair cap n (logged s) (m env s)
    → Fair cap n (logged s) (unless_stopped stop n m env s)
unless_stopped-Fair cap n true m env s h f = record {
  progress = record { published = n; stopped = true };
  returned = refl;
  capped = h;
  counted = omega arith;
}
unless_stopped-Fair cap n false m env s h f = f

below_cap-Fair :
    (cap n : ℕ) (m : M Progress) (env : Env) (s : Sys)
    → n ≤ cap
    → (n < cap → Fair cap n (logged s) (m env s))
    → Fair cap n (logged s) ((if ltb n cap then m else at_count n) env s)
below_cap-Fair cap n m env s h f = elim (Bool-cases (ltb n cap)) [
  | inl e ↦ rw e (f (grind arith))
  | inr e ↦ rw e (at_count-Fair cap n s s h (omega arith))
]

publish_fired-Fair : (id : String) (cap count : ℕ) → AllFair cap (publish_fired id cap count)
unfolding publish_fired
publish_fired-Fair id cap zero n h env s = at_count-Fair cap n s s h (omega arith)
publish_fired-Fair id cap (suc count) n h env s =
    let s' = bump s in
    let k = (dequeue-Adds id).at env s' in
    let (r, t) = dequeue_oldest_queued id env s' in
    below_cap-Fair cap n _ env s h (λ lt.
      unless_stopped-Fair cap n (env.cancelled s.tick) _ env s' h (
        publish_next-Fair cap n (publish_fired id cap count) r env s' t lt
          (publish_fired-Fair id cap count) (omega (arith, k))))

stop_or_next-Fair :
    (cap n start k : ℕ) (stop : Bool) (next : ℕ → M Progress) (env : Env) (s : Sys)
    → k ≤ cap
    → logged s + n ≤ start + k
    → AllFair cap next
    → Fair cap n start ((if stop then stop_at k else next k) env s)
stop_or_next-Fair cap n start k true next env s h c all = record {
  progress = record { published = k; stopped = true };
  returned = refl;
  capped = h;
  counted = c;
}
stop_or_next-Fair cap n start k false next env s h c all =
    let g = all k h env s in
    record {
      progress = g.progress;
      returned = g.returned;
      capped = g.capped;
      counted = omega (arith, g.counted);
    }

next_counts-Fair :
    (cap n start : ℕ) (next : ℕ → M Progress) (r : Result Progress) (env : Env) (s : Sys)
    → Fair cap n start (r, s)
    → AllFair cap next
    → Fair cap n start (and_then r (λ p. next_counts p next) env s)
next_counts-Fair cap n start next (err e) env s f all = absurd (let e = f.returned in cc)
next_counts-Fair cap n start next (ok p) env s f all =
    let e = ap published_of f.returned in
    stop_or_next-Fair cap n start p.published p.stopped next env s (omega (arith, f.capped))
      (omega (arith, f.counted)) all

publish_counts-Fair :
    (id : String) (cap : ℕ) (counts : List ℕ) → AllFair cap (publish_counts id cap counts)
unfolding publish_counts
publish_counts-Fair id cap [] n h env s = at_count-Fair cap n s s h (omega arith)
publish_counts-Fair id cap (count ∷ counts) n h env s =
    let f = publish_fired-Fair id cap count n h env s in
    let (r, s') = publish_fired id cap count n env s in
    next_counts-Fair cap n (logged s) (publish_counts id cap counts) r env s' f
      (publish_counts-Fair id cap counts)

set_tick-Adds : (id : String) (at : Time) → Adds 0 (update_schedule_last_tick id at)
unfolding update_schedule_last_tick update_schedule_row
set_tick-Adds id at = Adds-of_Keeps (λ b k. search keeps_rules)

after_counts-capped :
    (cap start : ℕ) (r : Result Progress) (env : Env) (s : Sys)
    → Fair cap 0 start (r, s)
    → logged (and_then r (λ p. pure p.stopped) env s).1 ≤ start + cap
after_counts-capped cap start (ok p) env s f = omega (arith, f.counted, f.capped)
after_counts-capped cap start (err e) env s f = omega (arith, f.counted, f.capped)

-- One tick of a schedule adds at most as many rows to the delivery log as the schedule has slots,
-- however many slots fired since the last tick and whatever the platforms answer.
pub tick_schedule-cap :
    (at : Time) (schedule : PublicationSchedule) (env : Env) (s : Sys)
    → length (tick_schedule at schedule env s).1.db.delivery_log
      ≤ length s.db.delivery_log + length schedule.slots
unfolding tick_schedule
tick_schedule-cap at schedule env s =
    let k = (set_tick-Adds schedule.id at).at env s in
    let s' = (update_schedule_last_tick schedule.id at env s).1 in
    let cap = length schedule.slots in
    let counts = fired_slots_between env.load_location schedule (window_start schedule) at in
    let (r, t) = publish_counts schedule.credential_id cap counts 0 env s' in
    let f = publish_counts-Fair schedule.credential_id cap counts 0 (omega arith) env s' in
    let h = after_counts-capped cap (logged s') r env t f in omega (arith, h, k)
