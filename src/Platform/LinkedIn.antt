-- ===== src/Platform/LinkedIn.antt =====
-- linkedin.go: `publish`, the display name and the expiry of a token.
pub mod Connect
use Prim.Native.String.{◌++◌}
use social.Prelude.{String, true, ◌||◌, ◌==◌, if◌then◌else◌, Option, none, some, [], ◌∷◌, str_eq}
use social.Prelude.Int.{ℤ, seconds, add_time, is_positive}
use social.Model.{Time, ScheduledPost, PlatformCredential}
use social.Model.Errors.{Error, publish_error, rate_limit_error, wrapped, itoa}
use social.Model.Http.{Request, Response, ClientConfig}
use social.Exec.{M, ◌>>=◌, pure, fail, on_error, now, send}
use social.Platform.{is_terminal_status, parse_retry_after}
use social.Platform.Text.{truncate, trim_space}

-- The post was created: a body that does not tell its id gives the empty id.
unfoldable pub created_id : Response → String
created_id r = elim r.json [ none ↦ "" | some j ↦ j.text "id" ]

unfoldable pub publish_reply : Response → M String
unfolding created_id parse_retry_after
publish_reply r =
    if r.status == 200 || r.status == 201
    then pure (created_id r)
    else if r.status == 429
    then (do d ← parse_retry_after r.retry_after; fail (rate_limit_error d))
    else fail (
        publish_error r.status ("HTTP " ++ itoa r.status ++ ": " ++ trim_space r.body)
          (is_terminal_status r.status))

abbrev missing_actor : Error
missing_actor =
    publish_error 0 "LinkedIn credential missing actor_id (person URN); reconnect the account" true

unfoldable pub publish : ClientConfig → ScheduledPost → PlatformCredential → M String
unfolding publish_reply
publish cfg p cred = if str_eq cred.actor_id "" then fail missing_actor else do
  let req : Request = record {
    method = "POST";
    url = "https://api.linkedin.com/v2/ugcPosts";
    auth = "Bearer " ++ cred.access_token;
    fields =
        ("author", cred.actor_id)
        ∷ ("lifecycleState", "PUBLISHED")
        ∷ ("text", truncate p.body 3000)
        ∷ ("shareMediaCategory", "NONE")
        ∷ ("visibility", "PUBLIC")
        ∷ [];
  }
  r ← on_error (wrapped "social: linkedin post") (send req)
  publish_reply r

-- linkedinExpiresAt, which handleXCallback, handleMastodonCallback and the X refresh repeat.
unfoldable pub expires_at : ℤ → M (Option Time)
expires_at expires_in =
    if is_positive expires_in
    then (do at ← now; pure (some (add_time at (seconds expires_in))))
    else pure none
