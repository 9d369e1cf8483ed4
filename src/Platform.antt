-- ===== src/Platform.antt =====
-- The helpers that the platform clients share: isTerminalStatus, parseRetryAfter and truncate of
-- mastodon.go, and what they use of Go's strings, strconv and regexp packages.
pub mod Text
pub mod Mastodon
pub mod LinkedIn
pub mod Twitter
pub mod Frame
use social.Prelude.{
  ℕ, ◌-◌, ◌<◌, suc, zero, String, Bool, true, false, ◌||◌, ◌==◌, ltb, leb, if◌then◌else◌, Option,
  none, some, List, str_eq,
}
use social.Prelude.Int.{ℤ, pos, negsuc, seconds, sub_time, is_positive}
use social.Model.{Time}
use social.Model.Errors.{Error, Result, ok, err}
use social.Exec.{M, and_then, ◌>>=◌, ◌>>◌, pure, ask, now}
use Text.{atoi}

-- isTerminalStatus
unfoldable pub is_terminal_status : ℕ → Bool
is_terminal_status code = code == 401 || code == 403 || code == 422

abbrev pub five_minutes : ℤ
five_minutes = pos 300000000000

-- The duration from now to an HTTP date, if that lies ahead.
unfoldable pub until_or : ℤ → Option Time → M ℤ
until_or fallback none = pure fallback
until_or fallback (some t) = do
  at ← now
  let d = sub_time t at
  pure (if is_positive d then d else fallback)

unfoldable pub seconds_or : M ℤ → Option ℤ → M ℤ
seconds_or other none = other
seconds_or other (some secs) = pure (seconds secs)

-- parseRetryAfter of mastodon.go
unfoldable pub parse_retry_after : String → M ℤ
unfolding until_or seconds_or
parse_retry_after v = if str_eq v "" then pure five_minutes else do
  date ← ask (λ env. env.parse_http_time v)
  seconds_or (until_or five_minutes date) (atoi v)
