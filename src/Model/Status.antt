-- ===== src/Model/Status.antt =====
-- PostStatus of post.go and the platform names. Both are strings in Go: the constants are
-- constructors here, and every other text is kept as it is.
use social.Prelude.{String, Bool, true, false, ◌≡◌, arith, if◌then◌else◌, str_eq, eq_iff}

pub data PostStatus : Type 0 where
  draft scheduled published failed archived queued : PostStatus
  other_status : String → PostStatus

unfoldable pub status_text : PostStatus → String
status_text draft = "draft"
status_text scheduled = "scheduled"
status_text published = "published"
status_text failed = "failed"
status_text archived = "archived"
status_text queued = "queued"
status_text (other_status s) = s

-- The conversion `PostStatus(v)`.
unfoldable pub post_status : String → PostStatus
post_status v =
    if str_eq v "draft"
    then draft
    else if str_eq v "scheduled"
    then scheduled
    else if str_eq v "published"
    then published
    else if str_eq v "failed"
    then failed
    else if str_eq v "archived"
    then archived
    else if str_eq v "queued"
    then queued
    else other_status v

pub data Platform : Type 0 where
  mastodon linkedin x_twitter : Platform
  other_platform : String → Platform

unfoldable pub platform_text : Platform → String
platform_text mastodon = "mastodon"
platform_text linkedin = "linkedin"
platform_text x_twitter = "x"
platform_text (other_platform s) = s

unfoldable pub to_platform : String → Platform
to_platform v =
    if str_eq v "mastodon"
    then mastodon
    else if str_eq v "linkedin"
    then linkedin
    else if str_eq v "x"
    then x_twitter
    else other_platform v

-- No text is lost by the conversions.
status_text-post_status : (v : String) → status_text (post_status v) ≡ v
unfolding status_text post_status
status_text-post_status v = ground (
  arith,
  eq_iff v "draft",
  eq_iff v "scheduled",
  eq_iff v "published",
  eq_iff v "failed",
  eq_iff v "archived",
  eq_iff v "queued",
)

pub platform_text-to_platform : (v : String) → platform_text (to_platform v) ≡ v
unfolding platform_text to_platform
platform_text-to_platform v = ground (arith, eq_iff v "mastodon", eq_iff v "linkedin", eq_iff v "x")

unfoldable pub is_scheduled : PostStatus → Bool
is_scheduled scheduled = true
is_scheduled _ = false

unfoldable pub is_queued : PostStatus → Bool
is_queued queued = true
is_queued _ = false

unfoldable pub is_published : PostStatus → Bool
is_published published = true
is_published _ = false

unfoldable pub is_failed : PostStatus → Bool
is_failed failed = true
is_failed _ = false

unfoldable pub is_archived : PostStatus → Bool
is_archived archived = true
is_archived _ = false

unfoldable pub is_draft : PostStatus → Bool
is_draft draft = true
is_draft _ = false

-- The statuses that the MCP tools accept: draft, scheduled, queued, archived.
unfoldable pub is_settable : PostStatus → Bool
is_settable draft = true
is_settable scheduled = true
is_settable queued = true
is_settable archived = true
is_settable _ = false
