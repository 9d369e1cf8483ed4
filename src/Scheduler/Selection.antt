-- ===== src/Scheduler/Selection.antt =====
-- A tick of the scheduler keeps an invariant, if its attempts do on the posts that it picks.
use social.Prelude.{
  ℕ, zero, suc, ◌+◌, String, Bool, true, false, ◌||◌, ltb, Option, none, some, List, [], ◌∷◌, ◌≡◌,
  refl, subst, arith, Mem, here, there, length,
}
use social.Model.{PublicationSchedule, OauthState, Time, ScheduledPost, Db}
use social.Post.Statements.{scheduled_first, created_first, is_due}
use social.Schedule.{
  dequeue_oldest_queued, update_schedule_last_tick, first_row, waits_for, list_active_schedules,
}
use social.Exec.{◌>>=◌, cancelled, M, Env}
use social.Exec.Keeps.{Keeps-cancelled, Keeps-ignore, StatementKeeps, keeps_rules, Keeps}
use social.Oauth.{purge_expired_oauth_states, delete_states}
use social.Model.Status.{is_queued, is_scheduled}
use social.Table.Order.{mem-order_by, order_by}
use social.Schedule.Statements.{is_schedule, update_schedule_row}
use social.Scheduler.Queue.{
  window_start, on_due, unless_stopped, or_next, on_schedules, next_counts, after_due,
  tick_schedules, tick_schedule, publish_next, publish_fired, publish_counts, publish_all,
  process_slot_queue, process_due, Progress,
}
use social.Model.Errors.{not_found, err, ok, Result}
use social.Exec.Yields.{
  Yields-ask, Yields-try, Yields-query, Yields-if, Yields-fail, Yields-attempt, Yields-then,
  Yields-pure, Yields-of_Keeps, Yields-clock, Yields-bind, Yields,
}
use social.Post.{or_not_found, due_posts}
use social.Scheduler.{publish_with_retry}
use social.Table.{update, delete, mem-select, select}
use social.Schedule.Fired.{fired_slots_between}

-- An invariant, and what it says of the posts that are scheduled or queued.
pub record Selects (I : Db → Type 0) (G : ScheduledPost → Type 0) : Type 0 where
  pub attempt : (enforce : Bool) (p : ScheduledPost) → G p → Keeps enforce I (publish_with_retry p)
  pub pick :
      (db : Db) (p : ScheduledPost)
      → I db
      → Mem p db.posts
      → is_scheduled p.status || is_queued p.status ≡ true
      → G p
  pub elsewhere :
      (db : Db) (schedules : List PublicationSchedule) (states : List OauthState)
      → I db
      → I (record db { schedules = schedules; oauth_states = states })

abbrev AllGood : (ScheduledPost → Type 0) → List ScheduledPost → Type 0
AllGood G posts = (p : ScheduledPost) → Mem p posts → G p

abbrev Anything : {A : Type 0} → A → Type 0
Anything _ = Unit {0}

is_due-picked :
    (at : Time) (p : ScheduledPost)
    → is_due at p ≡ true
    → is_scheduled p.status || is_queued p.status ≡ true
unfolding is_due
is_due-picked at p h = ground arith

waits_for-picked :
    (id : String) (p : ScheduledPost)
    → waits_for id p ≡ true
    → is_scheduled p.status || is_queued p.status ≡ true
unfolding waits_for
waits_for-picked id p h = ground arith

module _ {I : Db → Type 0} {G : ScheduledPost → Type 0} (laws : Selects I G) where
  update_schedule_row-frame :
      (enforce : Bool) (id : String) (f : PublicationSchedule → PublicationSchedule)
      → StatementKeeps I enforce (update_schedule_row id f)
  unfolding update_schedule_row
  update_schedule_row-frame enforce id f db h =
      laws.elsewhere db (update (is_schedule id) f db.schedules) db.oauth_states h

  delete_states-frame :
      (enforce : Bool) (test : OauthState → Bool) → StatementKeeps I enforce (delete_states test)
  unfolding delete_states
  delete_states-frame enforce test db h =
      laws.elsewhere db db.schedules (delete test db.oauth_states) h

  purge-Keeps : (enforce : Bool) → Keeps enforce I purge_expired_oauth_states
  unfolding purge_expired_oauth_states
  purge-Keeps enforce = search (keeps_rules, delete_states-frame) depth 9

  last_tick-Keeps :
      (enforce : Bool) (id : String) (at : Time) → Keeps enforce I (update_schedule_last_tick id at)
  unfolding update_schedule_last_tick
  last_tick-Keeps enforce id at = search (keeps_rules, update_schedule_row-frame) depth 8

listed-Keeps : {I : Db → Type 0} (enforce : Bool) → Keeps enforce I list_active_schedules
unfolding list_active_schedules
listed-Keeps enforce = search keeps_rules

module _ {G : ScheduledPost → Type 0} where
  first_row-good :
      (posts : List ScheduledPost) (p : ScheduledPost)
      → AllGood G posts
      → first_row posts ≡ some p
      → G p
  first_row-good [] p h e = absurd (cc)
  first_row-good (q ∷ posts) p h e = let same : q ≡ p = cc in subst G same (h q (here refl))

  order_by-good :
      (test : ScheduledPost → Bool) (before : ScheduledPost → ScheduledPost → Bool)
      (posts : List ScheduledPost)
      → ((p : ScheduledPost) → Mem p posts → test p ≡ true → G p)
      → AllGood G (order_by before (select test posts))
  order_by-good test before posts h p m =
      let found = (mem-select test p posts).0 ((mem-order_by before p (select test posts)).0 m) in
      h p found.0 found.1

module _ {I : Db → Type 0} {G : ScheduledPost → Type 0} (laws : Selects I G) {env : Env} where
  due_posts-Yields : Yields env I (AllGood G) due_posts
  unfolding due_posts
  due_posts-Yields = Yields-clock (λ at. Yields-query _ (λ db h.
      order_by-good (is_due at) scheduled_first db.posts
        (λ p m e. laws.pick db p h m (is_due-picked at p e))))

  attempt-Yields : (p : ScheduledPost) → G p → Yields env I Anything (publish_with_retry p)
  attempt-Yields p k = Yields-of_Keeps env (λ enforce. laws.attempt enforce p k)

  found-Yields :
      (row : Option ScheduledPost)
      → ((p : ScheduledPost) → row ≡ some p → G p)
      → Yields env I G (or_not_found row)
  found-Yields none h = Yields-fail not_found
  found-Yields (some p) h = Yields-pure p (h p refl)

  dequeue-Yields : (id : String) → Yields env I G (dequeue_oldest_queued id)
  unfolding dequeue_oldest_queued
  dequeue-Yields id =
      Yields-bind
        (Yields-query _ (λ db h p e.
          first_row-good _ p
            (order_by-good (waits_for id) created_first db.posts
              (λ q m f. laws.pick db q h m (waits_for-picked id q f)))
            e))
        (λ row h. found-Yields row h)

  cancelled-Yields :
      {A : Type 0} {f : Bool → M A}
      → ((stop : Bool) → Yields env I Anything (f stop))
      → Yields env I Anything (cancelled >>= f)
  cancelled-Yields k = Yields-then (Yields-of_Keeps env (λ enforce. Keeps-cancelled)) k

  publish_next-Yields :
      (n : ℕ) (next : ℕ → M Progress) (r : Result ScheduledPost)
      → ((p : ScheduledPost) → r ≡ ok p → G p)
      → ((k : ℕ) → Yields env I Anything (next k))
      → Yields env I Anything (publish_next n next r)
  unfolding publish_next
  publish_next-Yields n next (err e) h k = Yields-pure _ tt
  publish_next-Yields n next (ok p) h k = Yields-then (attempt-Yields p (h p refl)) (λ u. k (n + 1))

  unless_stopped-Yields :
      (b : Bool) (n : ℕ) (m : M Progress)
      → Yields env I Anything m
      → Yields env I Anything (unless_stopped b n m)
  unless_stopped-Yields true n m k = Yields-pure _ tt
  unless_stopped-Yields false n m k = k

  publish_fired-Yields :
      (id : String) (cap count n : ℕ) → Yields env I Anything (publish_fired id cap count n)
  unfolding publish_fired
  publish_fired-Yields id cap zero n = Yields-pure _ tt
  publish_fired-Yields id cap (suc count) n =
      let ih = publish_fired-Yields id cap count in
      Yields-if (ltb n cap)
        (λ e. cancelled-Yields (λ stop.
          unless_stopped-Yields stop n _
            (Yields-bind (Yields-try (dequeue-Yields id)) (λ r h. publish_next-Yields n _ r h ih))))
        (λ e. Yields-pure (record { published = n; stopped = false }) tt)

  next_counts-Yields :
      (p : Progress) (next : ℕ → M Progress)
      → ((k : ℕ) → Yields env I Anything (next k))
      → Yields env I Anything (next_counts p next)
  next_counts-Yields p next k = Yields-if p.stopped (λ e. Yields-pure _ tt) (λ e. k p.published)

  publish_counts-Yields :
      (id : String) (cap : ℕ) (counts : List ℕ) (n : ℕ)
      → Yields env I Anything (publish_counts id cap counts n)
  unfolding publish_counts
  publish_counts-Yields id cap [] n = Yields-pure _ tt
  publish_counts-Yields id cap (c ∷ cs) n =
      let ih = publish_counts-Yields id cap cs in
      Yields-then (publish_fired-Yields id cap c n) (λ p. next_counts-Yields p _ ih)

  tick_schedule-Yields :
      (at : Time) (s : PublicationSchedule) → Yields env I Anything (tick_schedule at s)
  unfolding tick_schedule
  tick_schedule-Yields at s =
      Yields-then
        (Yields-of_Keeps env (λ enforce. Keeps-ignore (last_tick-Keeps laws enforce s.id at)))
        (λ u. Yields-then (Yields-ask (λ e. e.load_location) tt) (λ load.
          Yields-then
            (publish_counts-Yields s.credential_id (length s.slots)
              (fired_slots_between load s (window_start s) at) 0)
            (λ p. Yields-pure p.stopped tt)))

  or_next-Yields :
      (b : Bool) (m : M Bool) → Yields env I Anything m → Yields env I Anything (or_next b m)
  or_next-Yields true m k = Yields-pure _ tt
  or_next-Yields false m k = k

  tick_schedules-Yields :
      (at : Time) (ss : List PublicationSchedule) → Yields env I Anything (tick_schedules at ss)
  unfolding tick_schedules
  tick_schedules-Yields at [] = Yields-pure _ tt
  tick_schedules-Yields at (s ∷ ss) =
      let ih = tick_schedules-Yields at ss in
      cancelled-Yields (λ stop.
        or_next-Yields stop _
          (Yields-then (tick_schedule-Yields at s) (λ b. or_next-Yields b _ ih)))

  on_schedules-Yields :
      (at : Time) (r : Result (List PublicationSchedule))
      → Yields env I Anything (on_schedules at r)
  on_schedules-Yields at (err e) = Yields-pure _ tt
  on_schedules-Yields at (ok ss) = Yields-then (tick_schedules-Yields at ss) (λ b. Yields-pure _ tt)

  process_slot_queue-Yields : Yields env I Anything process_slot_queue
  unfolding process_slot_queue
  process_slot_queue-Yields = Yields-clock (λ at.
      Yields-then (Yields-attempt (Yields-of_Keeps env (λ enforce. listed-Keeps enforce)))
        (on_schedules-Yields at))

  publish_all-Yields :
      (ps : List ScheduledPost) → AllGood G ps → Yields env I Anything (publish_all ps)
  unfolding publish_all
  publish_all-Yields [] h = Yields-pure _ tt
  publish_all-Yields (p ∷ ps) h =
      let ih = publish_all-Yields ps (λ q m. h q (there m)) in
      cancelled-Yields
        (λ stop. or_next-Yields stop _ (Yields-then (attempt-Yields p (h p (here refl))) (λ u. ih)))

  after_due-Yields : (b : Bool) → Yields env I Anything (after_due b)
  after_due-Yields true = Yields-pure _ tt
  after_due-Yields false =
      Yields-then process_slot_queue-Yields
        (λ u. Yields-of_Keeps env (λ enforce. Keeps-ignore (purge-Keeps laws enforce)))

  on_due-Yields :
      (r : Result (List ScheduledPost))
      → ((ps : List ScheduledPost) → r ≡ ok ps → AllGood G ps)
      → Yields env I Anything (on_due r)
  on_due-Yields (err e) h = Yields-pure _ tt
  on_due-Yields (ok ps) h = Yields-then (publish_all-Yields ps (h ps refl)) after_due-Yields

  pub process_due-Yields : Yields env I Anything process_due
  unfolding process_due
  process_due-Yields = Yields-bind (Yields-try due_posts-Yields) on_due-Yields
