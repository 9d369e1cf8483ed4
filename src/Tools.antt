-- ===== src/Tools.antt =====
-- mcp.go: the tools on scheduled posts. A field of the request is its text, or nothing if it is
-- absent or not a text.
pub mod Frozen
pub mod Target
pub mod Created
pub mod Schedules
pub mod Credentials
pub mod Verifier
pub mod Slots
pub mod SlotsKept
pub mod Statuses
pub mod Vocabulary
pub mod Lasting
pub mod Elsewhere
pub mod Untouched
use social.Prelude.{
  ℕ, zero, suc, ◌+◌, ◌-◌, ◌*◌, ◌≤◌, ◌<◌, String, Bool, true, false, not, ◌&&◌, ◌||◌, ltb, leb, ◌==◌,
  if◌then◌else◌, Option, none, some, List, [], ◌∷◌, ◌++◌, ◌≡◌, ◌≢◌, ◌↔◌, ◌⊎◌, inl, inr, refl, sym,
  ap, subst, ◌∙◌, arith, Bool-cases, Option-cases, All, All-append, All-map, All-map₂, All-always,
  All-mem, Mem, here, there, mem-cons, eq_iff, str_eq, length, length-append, take, get_or, tests,
  map,
}
use Prim.Native.String.{◌++◌ as concat}
use social.Model.{
  Time, ScheduledPost, PostStatus, draft, scheduled, published, failed, archived, Platform,
  mastodon,
}
use social.Model.Status.{
  to_platform, post_status, status_text, is_settable, is_draft, is_published, is_failed,
  is_archived,
}
use social.Model.Errors.{Error, invalid_field, Result, ok, err}
use social.Exec.{M, and_then, ◌>>=◌, ◌>>◌, pure, fail, ask, now, new_id}
use social.Post.{insert_post, update_post, get_post, list_posts, delete_post}
use social.Scheduler.{publish_now}

abbrev pub Fields : Type 0
Fields = String → Option String

-- `if b { return err }`
unfoldable pub reject_if : Bool → Error → M (Unit {0})
reject_if true e = fail e
reject_if false e = pure tt

-- stringField
unfoldable pub string_field : Fields → String → String
string_field fields key = elim (fields key) [ none ↦ "" | some v ↦ v ]

unfoldable pub platform_field : Fields → String
unfolding string_field
platform_field fields =
    if str_eq (string_field fields "platform") ""
    then "mastodon"
    else string_field fields "platform"

unfoldable pub known_platform : String → Bool
known_platform v = str_eq v "mastodon" || str_eq v "linkedin" || str_eq v "x"

-- The time of the request: none given, an empty text, or a text that must parse.
unfoldable pub parsed_time : Option Time → M (Option Time)
parsed_time none = fail (invalid_field "scheduled_at" "must be RFC3339 datetime")
parsed_time (some t) = pure (some t)

unfoldable pub time_field : Option Time → Option String → M (Option Time)
unfolding parsed_time
time_field old none = pure old
time_field old (some raw) =
    if str_eq raw "" then pure none else do t ← ask (λ env. env.parse_rfc3339 raw); parsed_time t

unfoldable pub status_field : PostStatus → Option String → M PostStatus
status_field old none = pure old
status_field old (some v) =
    if is_settable (post_status v)
    then pure (post_status v)
    else fail (invalid_field "status" "must be draft, scheduled, queued, or archived")

-- A draft with a time is scheduled.
unfoldable pub promoted : Option Time → PostStatus → PostStatus
promoted none status = status
promoted (some t) status = if is_draft status then scheduled else status

unfoldable pub lacks_alt_text : String → String → Bool
lacks_alt_text media_url alt_text = not (str_eq media_url "") && str_eq alt_text ""

abbrev pub alt_text_required : Error
alt_text_required = invalid_field "alt_text" "required when media_url is set"

unfoldable pub mcp_create : Fields → M ScheduledPost
unfolding reject_if string_field platform_field known_platform time_field status_field promoted
    lacks_alt_text
mcp_create fields = do
  reject_if (str_eq (string_field fields "credential_id") "")
      (invalid_field "credential_id" "required")
  reject_if (str_eq (string_field fields "body") "") (invalid_field "body" "required")
  reject_if (not (known_platform (platform_field fields)))
      (invalid_field "platform" "must be 'mastodon', 'linkedin', or 'x'")
  at ← now
  id ← new_id
  reject_if (lacks_alt_text (string_field fields "media_url") (string_field fields "alt_text"))
      alt_text_required
  scheduled_at ← time_field none (fields "scheduled_at")
  status ← status_field draft (fields "status")
  let p : ScheduledPost = record {
    id = id;
    platform = to_platform (platform_field fields);
    credential_id = string_field fields "credential_id";
    body = string_field fields "body";
    media_url = string_field fields "media_url";
    alt_text = string_field fields "alt_text";
    scheduled_at = scheduled_at;
    status = promoted scheduled_at status;
    platform_post_id = "";
    error_msg = "";
    created_at = at;
    updated_at = at;
  }
  insert_post p
  pure p

abbrev pub or_old : Option String → String → String
or_old none old = old
or_old (some v) old = v

abbrev pub cannot : String → PostStatus → Error
cannot verb status =
    invalid_field "status"
      (concat "cannot " (concat verb (concat " a " (concat (status_text status) " post"))))

-- MCPUpdate behind its first guard.
unfoldable pub update_fields : Fields → ScheduledPost → M ScheduledPost
unfolding reject_if time_field status_field promoted lacks_alt_text
update_fields fields p = do
  scheduled_at ← time_field p.scheduled_at (fields "scheduled_at")
  status ← status_field p.status (fields "status")
  let media_url : String = or_old (fields "media_url") p.media_url
  let alt_text : String = or_old (fields "alt_text") p.alt_text
  reject_if (lacks_alt_text media_url alt_text) alt_text_required
  let q : ScheduledPost = record p {
    body = or_old (fields "body") p.body;
    media_url = media_url;
    alt_text = alt_text;
    credential_id = or_old (fields "credential_id") p.credential_id;
    scheduled_at = scheduled_at;
    status = promoted scheduled_at status;
  }
  update_post q
  pure q

unfoldable pub mcp_update : String → Fields → M ScheduledPost
unfolding reject_if update_fields
mcp_update slug fields = do
  p ← get_post slug
  reject_if (is_published p.status || is_failed p.status) (cannot "update" p.status)
  update_fields fields p

unfoldable pub mcp_publish : String → M (Unit {0})
unfolding reject_if
mcp_publish slug = do
  p ← get_post slug
  reject_if (is_published p.status) (invalid_field "status" "post is already published")
  reject_if (is_archived p.status) (invalid_field "status" "archived posts cannot be published")
  publish_now p

unfoldable pub mcp_schedule : String → Time → M (Unit {0})
unfolding reject_if
mcp_schedule slug at = do
  p ← get_post slug
  reject_if (is_published p.status || is_archived p.status) (cannot "schedule" p.status)
  update_post (record p { scheduled_at = some at; status = scheduled })

unfoldable pub mcp_archive : String → M (Unit {0})
unfolding reject_if
mcp_archive slug = do
  p ← get_post slug
  reject_if (is_published p.status)
      (invalid_field "status" "published posts cannot be archived via this tool")
  update_post (record p { status = archived })

-- MCPList
unfoldable pub mcp_list : List String → M (List ScheduledPost)
mcp_list statuses = list_posts (map post_status statuses)

-- MCPGet
unfoldable pub mcp_get : String → M ScheduledPost
mcp_get slug = get_post slug

-- MCPDelete
unfoldable pub mcp_delete : String → M (Unit {0})
mcp_delete slug = delete_post slug
