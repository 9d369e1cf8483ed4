-- ===== src/Service/Tables.antt =====
-- The invariants of the tables that the statements keep: references between the tables, one schedule
-- for each credential, and valid slots.
use social.Prelude.{
  ◌≡◌, ◌≤◌, String, Bool, true, ◌&&◌, ◌||◌, ltb, ◌==◌, Option, List, [], ◌∷◌, ◌++◌, inl, inr, sym,
  subst, arith, Bool-cases, All,
}
use social.Service.Laws.{insert_job_row-Keeps, After-guard, KeepsSlots, Lawful}
use social.Model.{
  RouteJob, Time, ScheduledPost, DeliveryAttempt, CredentialRow, Db, PublicationSchedule,
}
use social.Model.Zone.{Zone}
use social.Credential.{
  uses_credential, Tokens, update_credential_row, insert_credential_row, delete_credential_row,
}
use social.Schedule.Statements.{
  is_schedule, schedules_credential, update_schedule_row, insert_schedule_row, delete_schedule_row,
}
use social.Schedule.Unique.{delete_schedule_row-Keeps, update_schedule_row-Keeps, OnePerCredential}
use social.Post.References.{
  insert_log_row-References, delete_log_rows-References, delete_post_row-References,
  update_post_row-References, insert_post_row-References, References,
}
use social.Exec.Keeps.{StatementKeeps}
use social.Tools.Slots.{IsValidSlot, HasValidSlots, ValidSlots}
use social.Post.Statements.{
  logs_post, same_attempt, has_id, unique_failed, reference_failed, is_credential, update_post_row,
  insert_post_row, insert_log_row, delete_post_row, delete_log_rows,
}
use social.Table.{delete_none, count}
use social.Tools.SlotsKept.{delete_row_kept, update_row_kept}
use social.Credential.References.{
  update_credential_row-References, insert_credential_row-References, delete_unused,
}
use social.Router.Statements.{insert_job_row}

pub insert_schedule_row-References :
    (enforce : Bool) (s : PublicationSchedule)
    → StatementKeeps References enforce (insert_schedule_row s)
unfolding insert_schedule_row
insert_schedule_row-References enforce s db r =
    let kept : References (record db { schedules = db.schedules ++ s ∷ [] }) = record {
      posts = r.posts;
      attempts = r.attempts;
    } in
    After-guard References
      (ltb 0 (count (is_schedule s.id) db.schedules)
        || ltb 0 (count (schedules_credential s.credential_id) db.schedules))
      unique_failed _ kept

pub update_schedule_row-References :
    (enforce : Bool) (id : String) (f : PublicationSchedule → PublicationSchedule)
    → StatementKeeps References enforce (update_schedule_row id f)
unfolding update_schedule_row
update_schedule_row-References enforce id f db r = record { posts = r.posts; attempts = r.attempts }

delete_schedule_row-References :
    (enforce : Bool) (id : String) → StatementKeeps References enforce (delete_schedule_row id)
unfolding delete_schedule_row
delete_schedule_row-References enforce id db r = record { posts = r.posts; attempts = r.attempts }

-- The database refuses to take a credential from its posts.
delete_credential_row-References :
    (id : String) → StatementKeeps References true (delete_credential_row id)
unfolding delete_credential_row
delete_credential_row-References id db r =
    elim (Bool-cases (
      ltb 0 (count (is_credential id) db.credentials)
      && ltb 0 (count (uses_credential id) db.posts))) [
        | inl e ↦ rw e tt
        | inr e ↦ rw e (elim (Bool-cases (count (is_credential id) db.credentials == 0)) [
          | inl none_there ↦ rw (delete_none (is_credential id) db.credentials (ground arith)) r
          | inr some_there ↦ delete_unused id db (ground arith) r
        ])
      ]

pub References-unseen :
    (db : Db) (jobs : List RouteJob) → References db → References (record db { route_jobs = jobs })
References-unseen db jobs r = record { posts = r.posts; attempts = r.attempts }

pub Lawful-References : Lawful true References
Lawful-References = record {
  insert_post = insert_post_row-References;
  update_post = λ id f k. update_post_row-References id f k true;
  delete_post = delete_post_row-References;
  delete_log = λ id. delete_log_rows-References id true;
  insert_log = insert_log_row-References;
  insert_credential = insert_credential_row-References true;
  update_credential = update_credential_row-References true;
  delete_credential = delete_credential_row-References;
  update_schedule = λ id f k. update_schedule_row-References true id f;
  delete_schedule = delete_schedule_row-References true;
  insert_job = λ j e. insert_job_row-Keeps true References-unseen j;
  elsewhere = λ db states log configs r. record { posts = r.posts; attempts = r.attempts };
}

-- What looks at schedules and jobs alone is kept by the statements on the other tables.
module _ (enforce : Bool) (Q : List PublicationSchedule → List RouteJob → Type 0) where
  abbrev OnSchedulesAndJobs : Db → Type 0
  OnSchedulesAndJobs db = Q db.schedules db.route_jobs

  insert_post_row-frame :
      (p : ScheduledPost) → StatementKeeps OnSchedulesAndJobs enforce (insert_post_row p)
  unfolding insert_post_row
  insert_post_row-frame p db h =
      After-guard OnSchedulesAndJobs (ltb 0 (count (has_id p.id) db.posts)) unique_failed _ (
        After-guard OnSchedulesAndJobs
          (enforce && count (is_credential p.credential_id) db.credentials == 0) reference_failed _
          h)

  update_post_row-frame :
      (id : String) (f : ScheduledPost → ScheduledPost)
      → StatementKeeps OnSchedulesAndJobs enforce (update_post_row id f)
  unfolding update_post_row
  update_post_row-frame id f db h = h

  delete_post_row-frame :
      (id : String) → StatementKeeps OnSchedulesAndJobs enforce (delete_post_row id)
  unfolding delete_post_row
  delete_post_row-frame id db h =
      After-guard OnSchedulesAndJobs
        (enforce
          && (ltb 0 (count (has_id id) db.posts) && ltb 0 (count (logs_post id) db.delivery_log)))
        reference_failed _ h

  delete_log_rows-frame :
      (id : String) → StatementKeeps OnSchedulesAndJobs enforce (delete_log_rows id)
  unfolding delete_log_rows
  delete_log_rows-frame id db h = h

  insert_log_row-frame :
      (a : DeliveryAttempt) → StatementKeeps OnSchedulesAndJobs enforce (insert_log_row a)
  unfolding insert_log_row
  insert_log_row-frame a db h =
      After-guard OnSchedulesAndJobs (ltb 0 (count (same_attempt a.id) db.delivery_log))
        unique_failed _
        (After-guard OnSchedulesAndJobs (enforce && count (has_id a.post_id) db.posts == 0)
          reference_failed _ h)

  insert_credential_row-frame :
      (c : CredentialRow) → StatementKeeps OnSchedulesAndJobs enforce (insert_credential_row c)
  unfolding insert_credential_row
  insert_credential_row-frame c db h =
      After-guard OnSchedulesAndJobs (ltb 0 (count (is_credential c.id) db.credentials))
        unique_failed _ h

  update_credential_row-frame :
      (id : String) (t : Tokens) (at : Time)
      → StatementKeeps OnSchedulesAndJobs enforce (update_credential_row id t at)
  unfolding update_credential_row
  update_credential_row-frame id t at db h = h

  delete_credential_row-frame :
      (id : String) → StatementKeeps OnSchedulesAndJobs enforce (delete_credential_row id)
  unfolding delete_credential_row
  delete_credential_row-frame id db h =
      After-guard OnSchedulesAndJobs
        (enforce
          && (ltb 0 (count (is_credential id) db.credentials)
              && ltb 0 (count (uses_credential id) db.posts)))
        reference_failed _ h

  pub Lawful-OnSchedulesAndJobs :
      ((id : String) (f : PublicationSchedule → PublicationSchedule)
        → KeepsSlots f
        → StatementKeeps OnSchedulesAndJobs enforce (update_schedule_row id f))
      → ((id : String) → StatementKeeps OnSchedulesAndJobs enforce (delete_schedule_row id))
      → ((j : RouteJob)
          → j.attempts ≡ 0
          → StatementKeeps OnSchedulesAndJobs enforce (insert_job_row j))
      → Lawful enforce OnSchedulesAndJobs
  Lawful-OnSchedulesAndJobs update delete insert = record {
    insert_post = insert_post_row-frame;
    update_post = λ id f k. update_post_row-frame id f;
    delete_post = delete_post_row-frame;
    delete_log = delete_log_rows-frame;
    insert_log = insert_log_row-frame;
    insert_credential = insert_credential_row-frame;
    update_credential = update_credential_row-frame;
    delete_credential = delete_credential_row-frame;
    update_schedule = update;
    delete_schedule = delete;
    insert_job = insert;
    elsewhere = λ db states log configs h. h;
  }

pub Lawful-OnePerCredential : (enforce : Bool) → Lawful enforce OnePerCredential
Lawful-OnePerCredential enforce =
    Lawful-OnSchedulesAndJobs enforce
      (λ schedules jobs. (id : String) → count (schedules_credential id) schedules ≤ 1)
      (λ id f k. update_schedule_row-Keeps enforce id f k.same_credential)
      (delete_schedule_row-Keeps enforce)
      (λ j e. insert_job_row-Keeps enforce {P = OnePerCredential} (λ db jobs h. h) j)

pub Lawful-ValidSlots :
    (enforce : Bool) (load : String → Option Zone) → Lawful enforce (ValidSlots load)
Lawful-ValidSlots enforce load =
    Lawful-OnSchedulesAndJobs enforce (λ schedules jobs. All (HasValidSlots load) schedules)
      (λ id f k db h.
        update_row_kept load enforce id f
          (λ s v. subst (All (IsValidSlot load)) (sym (k.same_slots s)) v) db h)
      (delete_row_kept load enforce)
      (λ j e. insert_job_row-Keeps enforce {P = ValidSlots load} (λ db jobs h. h) j)
