-- ===== src/Platform/Frame.antt =====
-- The platform clients never touch the database: whatever holds of the tables before a publish
-- holds after it.
use social.Prelude.{String, Bool, Option, none, some}
use social.Prelude.Int.{ℤ}
use social.Model.{Db, Time, ScheduledPost, PlatformCredential}
use social.Model.Http.{ClientConfig, Response}
use social.Exec.Keeps.{Keeps, keeps_rules}
use social.Platform.{parse_retry_after, until_or, seconds_or}
use social.Platform.Mastodon
use social.Platform.LinkedIn
use social.Platform.Twitter

module _ {enforce : Bool} {P : Db → Type 0} where
  until_or-Keeps : (d : ℤ) (o : Option Time) → Keeps enforce P (until_or d o)
  unfolding until_or
  until_or-Keeps d none = search keeps_rules
  until_or-Keeps d (some t) = search keeps_rules

  pub seconds_or-Keeps :
      (d : ℤ) (t : Option Time) (o : Option ℤ) → Keeps enforce P (seconds_or (until_or d t) o)
  unfolding seconds_or
  seconds_or-Keeps d t none = until_or-Keeps d t
  seconds_or-Keeps d t (some n) = search keeps_rules

  pub parse_retry_after-Keeps : (v : String) → Keeps enforce P (parse_retry_after v)
  unfolding parse_retry_after
  parse_retry_after-Keeps v = search (keeps_rules, seconds_or-Keeps)

  upload_media-Keeps :
      (cfg : ClientConfig) (token url alt : String)
      → Keeps enforce P (Mastodon.upload_media cfg token url alt)
  unfolding Mastodon.upload_media
  upload_media-Keeps cfg token url alt = search keeps_rules

  status_reply-Keeps : (r : Response) → Keeps enforce P (Mastodon.status_reply r)
  unfolding Mastodon.status_reply
  status_reply-Keeps r = search (keeps_rules, parse_retry_after-Keeps)

  pub mastodon_publish-Keeps :
      (cfg : ClientConfig) (p : ScheduledPost) (cred : PlatformCredential)
      → Keeps enforce P (Mastodon.publish cfg p cred)
  unfolding Mastodon.publish
  mastodon_publish-Keeps cfg p cred =
      search (keeps_rules, upload_media-Keeps, status_reply-Keeps) depth 8

  linkedin_reply-Keeps : (r : Response) → Keeps enforce P (LinkedIn.publish_reply r)
  unfolding LinkedIn.publish_reply
  linkedin_reply-Keeps r = search (keeps_rules, parse_retry_after-Keeps)

  pub linkedin_publish-Keeps :
      (cfg : ClientConfig) (p : ScheduledPost) (cred : PlatformCredential)
      → Keeps enforce P (LinkedIn.publish cfg p cred)
  unfolding LinkedIn.publish
  linkedin_publish-Keeps cfg p cred = search (keeps_rules, linkedin_reply-Keeps)

  pub expires_at-Keeps : (n : ℤ) → Keeps enforce P (LinkedIn.expires_at n)
  unfolding LinkedIn.expires_at
  expires_at-Keeps n = search keeps_rules

  upload_x_media-Keeps : (token url : String) → Keeps enforce P (Twitter.upload_x_media token url)
  unfolding Twitter.upload_x_media
  upload_x_media-Keeps token url = search keeps_rules depth 9

  x_reply-Keeps : (r : Response) → Keeps enforce P (Twitter.publish_reply r)
  unfolding Twitter.publish_reply
  x_reply-Keeps r = search (keeps_rules, parse_retry_after-Keeps)

  x_media-Keeps :
      (p : ScheduledPost) (cred : PlatformCredential) → Keeps enforce P (Twitter.media_of p cred)
  unfolding Twitter.media_of
  x_media-Keeps p cred = search (keeps_rules, upload_x_media-Keeps)

  pub x_publish-Keeps :
      (cfg : ClientConfig) (p : ScheduledPost) (cred : PlatformCredential)
      → Keeps enforce P (Twitter.publish cfg p cred)
  unfolding Twitter.publish
  x_publish-Keeps cfg p cred = search (keeps_rules, x_media-Keeps, x_reply-Keeps) depth 8

  pub refresh_x_token-Keeps :
      (cfg : ClientConfig) (token : String) → Keeps enforce P (Twitter.refresh_x_token cfg token)
  unfolding Twitter.refresh_x_token
  refresh_x_token-Keeps cfg token = search keeps_rules

pub ruleset publish_rules = (mastodon_publish-Keeps, linkedin_publish-Keeps, x_publish-Keeps)
