-- ===== src/Scheduler/Refresh.antt =====
-- maybeRefreshXCredential of scheduler.go.
use social.Prelude.{
  ℕ, ◌+◌, String, Bool, true, false, ltb, if◌then◌else◌, Option, none, some, str_eq,
}
use social.Model.{Time, PlatformCredential, Platform, x_twitter}
use social.Model.Errors.{Result, ok, err}
use social.Model.Http.{ClientConfig}
use social.Exec.{M, ◌>>=◌, pure, try, gets, now}
use social.Credential.{upsert_credential_by_instance}
use social.Platform.LinkedIn.{expires_at}
use social.Platform.Twitter.{TokenResponse, refresh_x_token, x_api_base}

-- Five minutes.
abbrev pub x_token_expiry_buffer : ℕ
x_token_expiry_buffer = 300000000000

unfoldable pub is_x : Platform → Bool
is_x x_twitter = true
is_x _ = false

-- Whether the access token is within the buffer of its expiry.
unfoldable pub expires_soon : Option Time → M Bool
expires_soon none = pure false
expires_soon (some t) = do
  at ← now
  pure (if ltb (at + x_token_expiry_buffer) t then false else true)

abbrev kept_if_empty : String → String → String
kept_if_empty new old = if str_eq new "" then old else new

-- The credential with the new pair, if the store has it.
unfoldable pub persisted :
    PlatformCredential → TokenResponse → Option Time → Result String → M PlatformCredential
persisted cred tr expiry (err e) = pure cred
persisted cred tr expiry (ok id) = pure (record cred {
  expires_at = expiry;
  access_token = tr.access_token;
  refresh_token = kept_if_empty tr.refresh_token cred.refresh_token;
})

unfoldable pub store_tokens : PlatformCredential → Result TokenResponse → M PlatformCredential
unfolding persisted
store_tokens cred (err e) = pure cred
store_tokens cred (ok tr) = do
  expiry ← expires_at tr.expires_in
  r ← try (
      upsert_credential_by_instance x_twitter x_api_base cred.name tr.access_token
        (kept_if_empty tr.refresh_token cred.refresh_token) cred.actor_id expiry)
  persisted cred tr expiry r

unfoldable pub refresh_with : PlatformCredential → Option ClientConfig → M PlatformCredential
unfolding store_tokens
refresh_with cred none = pure cred
refresh_with cred (some cfg) = do
  tr ← try (refresh_x_token cfg cred.refresh_token)
  store_tokens cred tr

unfoldable pub maybe_refresh_x_credential : PlatformCredential → M PlatformCredential
unfolding is_x expires_soon refresh_with
maybe_refresh_x_credential cred =
    if is_x cred.platform
    then (do
      soon ← expires_soon cred.expires_at
      client ← gets (λ s. s.clients.twitter)
      if soon then refresh_with cred client else pure cred)
    else pure cred
