-- ===== src/Scheduler/Marks.antt =====
-- What the writes of an attempt on a good post keep, an attempt keeps: by the scheduler and by
-- publishNow.
use social.Prelude.{ℕ, String, Bool, Option}
use social.Model.{CredentialRow, DeliveryAttempt, Time, PlatformCredential, ScheduledPost, Db}
use social.Exec.Keeps.{StatementKeeps, keeps_rules, Keeps}
use social.Model.Errors.{ok, err, Error, Result}
use social.Scheduler.{
  counted, settle, publish_with_retry, publish_now, finish_now, attempt_with, after_failure,
}
use social.Post.{
  update_post, mark_post_failed, mark_post_published, delivery_attempt_count, log_delivery_attempt,
}
use social.Scheduler.Refresh.{maybe_refresh_x_credential}
use social.Scheduler.Frame.{refresh-Keeps, call_platform_publish-Keeps}
use social.Credential.References.{get_credential-Keeps}
use social.Post.Statements.{insert_log_row}
use social.Credential.{insert_credential_row, update_credential_row, Tokens}

-- An invariant, and the posts on which the writes of an attempt keep it.
pub record Marks (enforce : Bool) (I : Db → Type 0) (G : ScheduledPost → Type 0) : Type 0 where
  pub published :
      (p : ScheduledPost) (platform_id : String)
      → G p
      → Keeps enforce I (mark_post_published p.id platform_id)
  pub failed :
      (p : ScheduledPost) (msg : String) → G p → Keeps enforce I (mark_post_failed p.id msg)
  pub changed :
      (p : ScheduledPost) (t : Option Time)
      → G p
      → Keeps enforce I (update_post (record p { scheduled_at = t }))
  pub logged : (a : DeliveryAttempt) → StatementKeeps I enforce (insert_log_row a)
  pub updated :
      (id : String) (t : Tokens) (at : Time)
      → StatementKeeps I enforce (update_credential_row id t at)
  pub inserted : (c : CredentialRow) → StatementKeeps I enforce (insert_credential_row c)

module _ {enforce : Bool} {I : Db → Type 0} {G : ScheduledPost → Type 0}
    (laws : Marks enforce I G) where
  log_delivery_attempt-Keeps :
      (id : String) (attempt code : ℕ) (msg : String)
      → Keeps enforce I (log_delivery_attempt id attempt code msg)
  unfolding log_delivery_attempt
  log_delivery_attempt-Keeps id attempt code msg = search (keeps_rules, laws.logged) depth 8

  maybe_refresh-Keeps :
      (cred : PlatformCredential) → Keeps enforce I (maybe_refresh_x_credential cred)
  maybe_refresh-Keeps = refresh-Keeps laws.updated laws.inserted

  finish_now-Keeps :
      (p : ScheduledPost) (r : Result String) → G p → Keeps enforce I (finish_now p r)
  unfolding finish_now
  finish_now-Keeps p (ok id) k = laws.published p id k
  finish_now-Keeps p (err e) k = search (keeps_rules, laws.failed)

  pub publish_now-Keeps : (p : ScheduledPost) → G p → Keeps enforce I (publish_now p)
  unfolding publish_now
  publish_now-Keeps p k =
      search
        (
          keeps_rules, get_credential-Keeps, maybe_refresh-Keeps, call_platform_publish-Keeps,
          finish_now-Keeps,
        )
        depth 8

  after_failure-Keeps :
      (p : ScheduledPost) (n : ℕ) (e : Error) (msg : String)
      → G p
      → Keeps enforce I (after_failure p n e msg)
  unfolding after_failure
  after_failure-Keeps p n e msg k = search (keeps_rules, laws.failed, laws.changed) depth 8

  settle-Keeps :
      (p : ScheduledPost) (n : ℕ) (r : Result String) → G p → Keeps enforce I (settle p n r)
  unfolding settle
  settle-Keeps p n (ok id) k = search (keeps_rules, log_delivery_attempt-Keeps, laws.published)
  settle-Keeps p n (err e) k =
      search (keeps_rules, log_delivery_attempt-Keeps, after_failure-Keeps) depth 8

  attempt_with-Keeps :
      (p : ScheduledPost) (n : ℕ) (r : Result PlatformCredential)
      → G p
      → Keeps enforce I (attempt_with p n r)
  unfolding attempt_with
  attempt_with-Keeps p n (err e) k = search (keeps_rules, laws.failed)
  attempt_with-Keeps p n (ok cred) k =
      search (keeps_rules, maybe_refresh-Keeps, call_platform_publish-Keeps, settle-Keeps) depth 8

  counted-Keeps : (p : ScheduledPost) (r : Result ℕ) → G p → Keeps enforce I (counted p r)
  counted-Keeps p (err e) k = search keeps_rules
  counted-Keeps p (ok n) k = search (keeps_rules, get_credential-Keeps, attempt_with-Keeps) depth 8

  pub publish_with_retry-Keeps : (p : ScheduledPost) → G p → Keeps enforce I (publish_with_retry p)
  unfolding publish_with_retry delivery_attempt_count
  publish_with_retry-Keeps p k = search (keeps_rules, counted-Keeps) depth 8
