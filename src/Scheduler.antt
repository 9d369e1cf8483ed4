-- ===== src/Scheduler.antt =====
-- scheduler.go: the interval of the loop, and the publishing of one post.
pub mod Interval
pub mod Refresh
pub mod Queue
pub mod Frame
pub mod Attempts
pub mod Cap
pub mod Retry
pub mod Marks
pub mod Selection
use Prim.Native.String.{◌++◌}
use social.Prelude.{
  ℕ, ◌+◌, ◌-◌, String, Bool, true, false, ◌||◌, ltb, leb, if◌then◌else◌, Option, none, some, List,
  [], ◌∷◌, get_or, length,
}
use social.Prelude.Int.{ℤ, pos, add_time}
use social.Model.{
  Time, ScheduledPost, PlatformCredential, Platform, mastodon, linkedin, x_twitter, other_platform,
}
use social.Model.Errors.{
  Error, publish_error, as_publish_error, as_rate_limit_error, Result, ok, err,
}
use social.Model.Http.{ClientConfig}
use social.Exec.{M, and_then, ◌>>=◌, ◌>>◌, pure, fail, try, ignore, gets, now, text_of}
use social.Post.{
  update_post, mark_post_published, mark_post_failed, next_scheduled_at, log_delivery_attempt,
  delivery_attempt_count,
}
use social.Credential.{get_credential}
use social.Platform.Mastodon
use social.Platform.LinkedIn
use social.Platform.Twitter
use Refresh.{maybe_refresh_x_credential}

-- Sixty seconds.
abbrev pub scheduler_fallback_interval : ℕ
scheduler_fallback_interval = 60000000000

-- 30 s, 2 min, 10 min, 1 h
abbrev pub retry_delays : List ℕ
retry_delays = 30000000000 ∷ 120000000000 ∷ 600000000000 ∷ 3600000000000 ∷ []

-- The sleep until the earliest scheduled post, between 0 and the fallback.
unfoldable pub sleep_until : Option Time → M ℕ
sleep_until none = pure scheduler_fallback_interval
sleep_until (some t) = do
  at ← now
  pure (
      if leb t at
      then 0
      else if ltb scheduler_fallback_interval (t - at)
      then scheduler_fallback_interval
      else t - at)

abbrev pub found_or_none : Result (Option Time) → Option Time
found_or_none (ok t) = t
found_or_none (err e) = none

unfoldable pub next_interval : M ℕ
unfolding sleep_until
next_interval = do t ← try next_scheduled_at; sleep_until (found_or_none t)

unfoldable pub not_configured : String → Error
not_configured msg = publish_error 0 msg true

abbrev pub with_client : String → Option ClientConfig → (ClientConfig → M String) → M String
with_client msg none f = fail (not_configured msg)
with_client msg (some cfg) f = f cfg

-- The switch of callPlatformPublish on `p.Platform`.
unfoldable pub dispatch : Platform → ScheduledPost → PlatformCredential → M String
dispatch mastodon p cred = do
  client ← gets (λ s. s.clients.mastodon)
  with_client "Mastodon is not configured on this server" client
      (λ cfg. Mastodon.publish cfg p cred)
dispatch linkedin p cred = do
  client ← gets (λ s. s.clients.linkedin)
  with_client "LinkedIn is not configured on this server" client
      (λ cfg. LinkedIn.publish cfg p cred)
dispatch x_twitter p cred = do
  client ← gets (λ s. s.clients.twitter)
  with_client "X is not configured on this server" client (λ cfg. Twitter.publish cfg p cred)
dispatch (other_platform name) p cred = fail (not_configured ("unknown platform: " ++ name))

unfoldable pub call_platform_publish : ScheduledPost → PlatformCredential → M String
unfolding dispatch
call_platform_publish p cred = dispatch p.platform p cred

-- The status code to log: publishError's, 429 for a rate limit, else 0.
unfoldable pub code_or_limit : Option (ℕ × Bool) → Option ℤ → ℕ
code_or_limit (some (code, terminal)) limit = code
code_or_limit none (some d) = 429
code_or_limit none none = 0

unfoldable pub logged_code : Error → ℕ
unfolding code_or_limit
logged_code e = code_or_limit (as_publish_error e) (as_rate_limit_error e)

abbrev terminal_of : Option (ℕ × Bool) → Bool
terminal_of none = false
terminal_of (some (code, terminal)) = terminal

unfoldable pub is_terminal : Error → Bool
is_terminal e = terminal_of (as_publish_error e)

-- retryAfter for a rate limit, else the backoff; an index behind the table takes its last entry.
unfoldable pub delay_or : ℕ → Option ℤ → ℤ
delay_or attempts (some d) = d
delay_or attempts none = pos (
    get_or retry_delays
      (if leb (length retry_delays) attempts then length retry_delays - 1 else attempts) 0)

unfoldable pub reschedule : ScheduledPost → ℕ → Error → M (Unit {0})
unfolding delay_or
reschedule p attempts e = do
  at ← now
  ignore (
      update_post (record p {
        scheduled_at = some (add_time at (delay_or attempts (as_rate_limit_error e)));
      }))

-- What follows a failed attempt that has been logged.
unfoldable pub after_failure : ScheduledPost → ℕ → Error → String → M (Unit {0})
unfolding reschedule is_terminal
after_failure p attempts e msg =
    if is_terminal e || leb (length retry_delays + 1) (attempts + 1)
    then ignore (mark_post_failed p.id msg)
    else reschedule p attempts e

-- What follows the call of the platform.
unfoldable pub settle : ScheduledPost → ℕ → Result String → M (Unit {0})
unfolding after_failure logged_code
settle p attempts (ok platform_id) = do
  ignore (log_delivery_attempt p.id (attempts + 1) 200 "")
  ignore (mark_post_published p.id platform_id)
settle p attempts (err e) = do
  msg ← text_of e
  ignore (log_delivery_attempt p.id (attempts + 1) (logged_code e) msg)
  after_failure p attempts e msg

unfoldable pub attempt_with : ScheduledPost → ℕ → Result PlatformCredential → M (Unit {0})
unfolding settle
attempt_with p attempts (err e) = do
  msg ← text_of e
  ignore (mark_post_failed p.id ("credential not found: " ++ msg))
attempt_with p attempts (ok cred) = do
  fresh ← maybe_refresh_x_credential cred
  r ← try (call_platform_publish p fresh)
  settle p attempts r

abbrev pub counted : ScheduledPost → Result ℕ → M (Unit {0})
counted p (err e) = pure tt
counted p (ok attempts) = do
  cred ← try (get_credential p.credential_id)
  attempt_with p attempts cred

unfoldable pub publish_with_retry : ScheduledPost → M (Unit {0})
unfolding attempt_with
publish_with_retry p = do attempts ← try (delivery_attempt_count p.id); counted p attempts

-- publishNow
unfoldable pub finish_now : ScheduledPost → Result String → M (Unit {0})
finish_now p (ok platform_id) = mark_post_published p.id platform_id
finish_now p (err e) = do msg ← text_of e; ignore (mark_post_failed p.id msg); fail e

unfoldable pub publish_now : ScheduledPost → M (Unit {0})
unfolding finish_now
publish_now p = do
  cred ← get_credential p.credential_id
  fresh ← maybe_refresh_x_credential cred
  r ← try (call_platform_publish p fresh)
  finish_now p r
