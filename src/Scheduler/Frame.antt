-- ===== src/Scheduler/Frame.antt =====
-- What a call of a platform and a refresh of an X token leave alone: posts and their log.
use social.Prelude.{String, Bool, Option, none, some, List}
use social.Model.{
  Db, Time, ScheduledPost, DeliveryAttempt, CredentialRow, PlatformCredential, Platform, mastodon,
  linkedin, x_twitter, other_platform,
}
use social.Model.Http.{ClientConfig}
use social.Model.Errors.{Result, ok, err}
use social.Exec.Keeps.{Keeps, StatementKeeps, keeps_rules}
use social.Platform.Frame.{
  mastodon_publish-Keeps, linkedin_publish-Keeps, x_publish-Keeps, refresh_x_token-Keeps,
  expires_at-Keeps,
}
use social.Platform.Twitter.{TokenResponse}
use social.Credential.{Tokens, update_credential_row, insert_credential_row}
use social.Credential.References.{
  upsert-Keeps, update_credential_row-frame, insert_credential_row-frame,
}
use social.Scheduler.Refresh.{
  maybe_refresh_x_credential, refresh_with, store_tokens, persisted, expires_soon,
}
use social.Scheduler.{call_platform_publish, dispatch, with_client}
use social.Exec.{M}

module _ {enforce : Bool} {P : Db → Type 0} where
  with_client-Keeps :
      (msg : String) (o : Option ClientConfig) (f : ClientConfig → M String)
      → ((cfg : ClientConfig) → Keeps enforce P (f cfg))
      → Keeps enforce P (with_client msg o f)
  with_client-Keeps msg none f k = search keeps_rules
  with_client-Keeps msg (some cfg) f k = k cfg

  dispatch-Keeps :
      (q : Platform) (p : ScheduledPost) (cred : PlatformCredential)
      → Keeps enforce P (dispatch q p cred)
  unfolding dispatch
  dispatch-Keeps mastodon p cred = search (keeps_rules, with_client-Keeps, mastodon_publish-Keeps)
  dispatch-Keeps linkedin p cred = search (keeps_rules, with_client-Keeps, linkedin_publish-Keeps)
  dispatch-Keeps x_twitter p cred = search (keeps_rules, with_client-Keeps, x_publish-Keeps)
  dispatch-Keeps (other_platform n) p cred = search keeps_rules

  pub call_platform_publish-Keeps :
      (p : ScheduledPost) (cred : PlatformCredential)
      → Keeps enforce P (call_platform_publish p cred)
  unfolding call_platform_publish
  call_platform_publish-Keeps p cred = dispatch-Keeps p.platform p cred

  expires_soon-Keeps : (o : Option Time) → Keeps enforce P (expires_soon o)
  unfolding expires_soon
  expires_soon-Keeps none = search keeps_rules
  expires_soon-Keeps (some t) = search keeps_rules

  persisted-Keeps :
      (cred : PlatformCredential) (tr : TokenResponse) (t : Option Time) (r : Result String)
      → Keeps enforce P (persisted cred tr t r)
  unfolding persisted
  persisted-Keeps cred tr t (ok id) = search keeps_rules
  persisted-Keeps cred tr t (err e) = search keeps_rules

-- A property that the statements on credentials keep is kept by the refresh.
module _ {enforce : Bool} {P : Db → Type 0}
    (ku : (id : String) (t : Tokens) (at : Time)
      → StatementKeeps P enforce (update_credential_row id t at))
    (ki : (c : CredentialRow) → StatementKeeps P enforce (insert_credential_row c)) where
  store_tokens-Keeps :
      (cred : PlatformCredential) (r : Result TokenResponse) → Keeps enforce P (store_tokens cred r)
  unfolding store_tokens
  store_tokens-Keeps cred (err e) = search keeps_rules
  store_tokens-Keeps cred (ok tr) =
      search (keeps_rules, expires_at-Keeps, upsert-Keeps ku ki, persisted-Keeps) depth 8

  refresh_with-Keeps :
      (cred : PlatformCredential) (o : Option ClientConfig) → Keeps enforce P (refresh_with cred o)
  unfolding refresh_with
  refresh_with-Keeps cred none = search keeps_rules
  refresh_with-Keeps cred (some cfg) =
      search (keeps_rules, refresh_x_token-Keeps, store_tokens-Keeps)

  pub refresh-Keeps :
      (cred : PlatformCredential) → Keeps enforce P (maybe_refresh_x_credential cred)
  unfolding maybe_refresh_x_credential
  refresh-Keeps cred = search (keeps_rules, expires_soon-Keeps, refresh_with-Keeps) depth 8

-- The refresh changes neither a post nor the log.
pub refresh-frame :
    (enforce : Bool) (Q : List ScheduledPost → List DeliveryAttempt → Type 0)
    (cred : PlatformCredential)
    → Keeps enforce (λ db. Q db.posts db.delivery_log) (maybe_refresh_x_credential cred)
refresh-frame enforce Q =
    refresh-Keeps (update_credential_row-frame enforce Q) (insert_credential_row-frame enforce Q)
