-- ===== src/Service/Laws.antt =====
-- What a property of the tables needs of the SQL statements, so that every operation of the program
-- keeps it.
use social.Prelude.{
  ℕ, String, Bool, true, false, ◌&&◌, ltb, ◌==◌, if◌then◌else◌, List, [], ◌∷◌, ◌++◌, ◌≡◌, inl, inr,
  Bool-cases,
}
use social.Model.{
  Time, CredentialRow, DeliveryAttempt, RouteJob, RouteAttempt, OauthState, ConfigRow,
  ScheduledPost, PublicationSchedule, Db,
}
use social.Model.Errors.{err, Result, Error}
use social.Oauth.{is_state, insert_state_row, delete_states}
use social.Router.Statements.{
  same_route_attempt, is_job, update_job_row, insert_job_row, insert_attempt_row,
}
use social.Config.{set_config, is_config, upsert_config_row}
use social.Exec.Keeps.{After, StatementKeeps}
use social.Table.{update, delete, count}
use social.Post.Statements.{
  insert_log_row, delete_log_rows, reference_failed, delete_post_row, update_post_row,
  unique_failed, insert_post_row,
}
use social.Post.References.{KeepsKeys}
use social.Credential.{delete_credential_row, update_credential_row, Tokens, insert_credential_row}
use social.Schedule.Statements.{delete_schedule_row, update_schedule_row}

-- An update of a schedule that leaves its keys and its slots alone.
pub record KeepsSlots (f : PublicationSchedule → PublicationSchedule) : Type 0 where
  pub same_id : (s : PublicationSchedule) → (f s).id ≡ s.id
  pub same_credential : (s : PublicationSchedule) → (f s).credential_id ≡ s.credential_id
  pub same_slots : (s : PublicationSchedule) → (f s).slots ≡ s.slots

-- The statements on posts, credentials and schedules keep the property, but for those that store
-- slots, and so does a new job; and it does not look at the tables that are left.
pub record Lawful (enforce : Bool) (P : Db → Type 0) : Type 0 where
  pub insert_post : (p : ScheduledPost) → StatementKeeps P enforce (insert_post_row p)
  pub update_post :
      (id : String) (f : ScheduledPost → ScheduledPost)
      → KeepsKeys f
      → StatementKeeps P enforce (update_post_row id f)
  pub delete_post : (id : String) → StatementKeeps P enforce (delete_post_row id)
  pub delete_log : (id : String) → StatementKeeps P enforce (delete_log_rows id)
  pub insert_log : (a : DeliveryAttempt) → StatementKeeps P enforce (insert_log_row a)
  pub insert_credential : (c : CredentialRow) → StatementKeeps P enforce (insert_credential_row c)
  pub update_credential :
      (id : String) (t : Tokens) (at : Time)
      → StatementKeeps P enforce (update_credential_row id t at)
  pub delete_credential : (id : String) → StatementKeeps P enforce (delete_credential_row id)
  pub update_schedule :
      (id : String) (f : PublicationSchedule → PublicationSchedule)
      → KeepsSlots f
      → StatementKeeps P enforce (update_schedule_row id f)
  pub delete_schedule : (id : String) → StatementKeeps P enforce (delete_schedule_row id)
  pub insert_job : (j : RouteJob) → j.attempts ≡ 0 → StatementKeeps P enforce (insert_job_row j)
  pub elsewhere :
      (db : Db) (states : List OauthState) (log : List RouteAttempt) (configs : List ConfigRow)
      → P db
      → P (record db { oauth_states = states; route_log = log; platform_configs = configs })

-- The laws that the tools on credentials and configurations, the callbacks and the deletion of a
-- schedule need.
pub record Aside (enforce : Bool) (P : Db → Type 0) : Type 0 where
  pub insert_credential : (c : CredentialRow) → StatementKeeps P enforce (insert_credential_row c)
  pub update_credential :
      (id : String) (t : Tokens) (at : Time)
      → StatementKeeps P enforce (update_credential_row id t at)
  pub delete_credential : (id : String) → StatementKeeps P enforce (delete_credential_row id)
  pub delete_schedule : (id : String) → StatementKeeps P enforce (delete_schedule_row id)
  pub elsewhere :
      (db : Db) (states : List OauthState) (log : List RouteAttempt) (configs : List ConfigRow)
      → P db
      → P (record db { oauth_states = states; route_log = log; platform_configs = configs })

pub aside : {enforce : Bool} {P : Db → Type 0} → Lawful enforce P → Aside enforce P
aside laws = record {
  insert_credential = laws.insert_credential;
  update_credential = laws.update_credential;
  delete_credential = laws.delete_credential;
  delete_schedule = laws.delete_schedule;
  elsewhere = laws.elsewhere;
}

-- A guard of a statement that refuses it.
pub After-guard :
    (P : Db → Type 0) (b : Bool) (e : Error) (r : Result (Db × ℕ))
    → After P r
    → After P (if b then err e else r)
After-guard P true e r h = tt
After-guard P false e r h = h

-- The statements on the other tables.
module _ {enforce : Bool} {P : Db → Type 0} (laws : Aside enforce P) where
  pub insert_state_row-Keeps : (o : OauthState) → StatementKeeps P enforce (insert_state_row o)
  unfolding insert_state_row
  insert_state_row-Keeps o db h =
      After-guard P (ltb 0 (count (is_state o.state) db.oauth_states)) unique_failed _
        (laws.elsewhere db (db.oauth_states ++ o ∷ []) db.route_log db.platform_configs h)

  pub delete_states-Keeps :
      (test : OauthState → Bool) → StatementKeeps P enforce (delete_states test)
  unfolding delete_states
  delete_states-Keeps test db h =
      laws.elsewhere db (delete test db.oauth_states) db.route_log db.platform_configs h

  pub upsert_config_row-Keeps : (row : ConfigRow) → StatementKeeps P enforce (upsert_config_row row)
  unfolding upsert_config_row
  upsert_config_row-Keeps row db h =
      elim (Bool-cases (ltb 0 (count (is_config row.platform) db.platform_configs))) [
        | inl e ↦ rw e (
            laws.elsewhere db db.oauth_states db.route_log
              (update (is_config row.platform) (set_config row) db.platform_configs) h)
        | inr e ↦
            rw e
              (laws.elsewhere db db.oauth_states db.route_log (db.platform_configs ++ row ∷ []) h)
      ]

  pub insert_attempt_row-Keeps :
      (a : RouteAttempt) → StatementKeeps P enforce (insert_attempt_row a)
  unfolding insert_attempt_row
  insert_attempt_row-Keeps a db h =
      After-guard P (ltb 0 (count (same_route_attempt a.id) db.route_log)) unique_failed _ (
        After-guard P (enforce && count (is_job a.job_id) db.route_jobs == 0) reference_failed _
          (laws.elsewhere db db.oauth_states (db.route_log ++ a ∷ []) db.platform_configs h))

-- The statements on jobs, for a property that does not look at them.
module _ (enforce : Bool) {P : Db → Type 0}
    (unseen : (db : Db) (jobs : List RouteJob) → P db → P (record db { route_jobs = jobs })) where
  pub insert_job_row-Keeps : (j : RouteJob) → StatementKeeps P enforce (insert_job_row j)
  unfolding insert_job_row
  insert_job_row-Keeps j db h =
      After-guard P (ltb 0 (count (is_job j.id) db.route_jobs)) unique_failed _
        (unseen db (db.route_jobs ++ j ∷ []) h)

  pub update_job_row-Keeps :
      (id : String) (f : RouteJob → RouteJob) → StatementKeeps P enforce (update_job_row id f)
  unfolding update_job_row
  update_job_row-Keeps id f db h = unseen db (update (is_job id) f db.route_jobs) h
