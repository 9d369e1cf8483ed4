-- ===== src/Service/Stored.antt =====
-- The operations of post.go and credential.go under laws on their statements, and so the tools and
-- the HTTP handlers.
use social.Prelude.{ℕ, String, Bool, Option}
use social.Model.{Time, ScheduledPost, PlatformCredential, Platform, Db}
use social.Service.Laws.{Lawful, Aside}
use social.Credential.{upsert_credential_by_instance, delete_credential, delete_counted}
use social.Post.{
  update_post, mark_post_published, mark_post_failed, log_delivery_attempt, insert_post,
  delete_post_steps, delete_post,
}
use social.Exec.Keeps.{keeps_rules, Keeps}
use social.Post.Transaction.{in_tx-Keeps}
use social.Scheduler.Refresh.{maybe_refresh_x_credential}
use social.Post.References.{KeepsKeys-set_published, KeepsKeys-set_mutable, KeepsKeys-set_failed}
use social.Scheduler.Frame.{refresh-Keeps}
use social.Credential.References.{upsert-Keeps}

module _ {enforce : Bool} {P : Db → Type 0} (laws : Lawful enforce P) where
  pub insert_post-Keeps : (p : ScheduledPost) → Keeps enforce P (insert_post p)
  unfolding insert_post
  insert_post-Keeps p = search (keeps_rules, laws.insert_post)

  pub update_post-Keeps : (p : ScheduledPost) → Keeps enforce P (update_post p)
  unfolding update_post
  update_post-Keeps p = search (keeps_rules, laws.update_post, KeepsKeys-set_mutable)

  pub mark_post_published-Keeps : (id pid : String) → Keeps enforce P (mark_post_published id pid)
  unfolding mark_post_published
  mark_post_published-Keeps id pid = search (keeps_rules, laws.update_post, KeepsKeys-set_published)

  pub mark_post_failed-Keeps : (id msg : String) → Keeps enforce P (mark_post_failed id msg)
  unfolding mark_post_failed
  mark_post_failed-Keeps id msg = search (keeps_rules, laws.update_post, KeepsKeys-set_failed)

  pub log_delivery_attempt-Keeps :
      (id : String) (attempt code : ℕ) (msg : String)
      → Keeps enforce P (log_delivery_attempt id attempt code msg)
  unfolding log_delivery_attempt
  log_delivery_attempt-Keeps id attempt code msg = search (keeps_rules, laws.insert_log) depth 8

  delete_post_steps-Keeps : (id : String) → Keeps enforce P (delete_post_steps id)
  unfolding delete_post_steps
  delete_post_steps-Keeps id = search (keeps_rules, laws.delete_log, laws.delete_post)

  pub delete_post-Keeps : (id : String) → Keeps enforce P (delete_post id)
  unfolding delete_post
  delete_post-Keeps id = in_tx-Keeps enforce P (delete_post_steps id) (delete_post_steps-Keeps id)

  pub maybe_refresh-Keeps :
      (cred : PlatformCredential) → Keeps enforce P (maybe_refresh_x_credential cred)
  maybe_refresh-Keeps = refresh-Keeps laws.update_credential laws.insert_credential

module _ {enforce : Bool} {P : Db → Type 0} (laws : Aside enforce P) where
  pub upsert_credential-Keeps :
      (platform : Platform) (url name access refresh actor : String) (expiry : Option Time)
      → Keeps enforce P
          (upsert_credential_by_instance platform url name access refresh actor expiry)
  upsert_credential-Keeps = upsert-Keeps laws.update_credential laws.insert_credential

  delete_counted-Keeps : (id : String) (n : ℕ) → Keeps enforce P (delete_counted id n)
  unfolding delete_counted
  delete_counted-Keeps id n = search (keeps_rules, laws.delete_credential)

  pub delete_credential-Keeps : (id : String) → Keeps enforce P (delete_credential id)
  unfolding delete_credential
  delete_credential-Keeps id = search (keeps_rules, delete_counted-Keeps)
