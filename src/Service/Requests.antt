-- ===== src/Service/Requests.antt =====
-- The tools on posts and the HTTP handlers under laws on the statements.
use social.Prelude.{String, Bool, true, false, Option, none, some}
use social.Model.{ScheduledPost, Time, PostStatus, Db}
use social.Service.Laws.{Lawful}
use social.PostHttp.{
  handle_post_list, handle_post_get, found_post, wrote_error, text, PostBody, update_from,
  require_bearer, patched_post, handle_post_update, handle_post_delete, handle_post_create,
  decoded_create, create_post, Written, Patch, JsonValue, with_bearer, patched_time,
  patched_instant, or_error, decoded_patch,
}
use social.Post.{list_posts, get_post}
use social.Tools.{
  Fields, update_fields, mcp_update, mcp_schedule, mcp_publish, mcp_create, mcp_archive, time_field,
  status_field, reject_if, parsed_time,
}
use social.Model.Errors.{unauthorized, err, ok, Result, Error}
use social.Exec.Keeps.{Keeps-pure, Keeps-if, Keeps-bind, keeps_rules, Keeps}
use social.Scheduler.{publish_now, finish_now}
use social.Exec.{M}
use social.Service.Stored.{
  mark_post_failed-Keeps, maybe_refresh-Keeps, mark_post_published-Keeps, update_post-Keeps,
  insert_post-Keeps, delete_post-Keeps,
}
use social.Credential.References.{or_not_found-Keeps, get_credential-Keeps}
use social.Scheduler.Frame.{call_platform_publish-Keeps}

module _ {enforce : Bool} {P : Db → Type 0} where
  pub reject_if-Keeps : (b : Bool) (e : Error) → Keeps enforce P (reject_if b e)
  unfolding reject_if
  reject_if-Keeps true e = search keeps_rules
  reject_if-Keeps false e = search keeps_rules

  pub get_post-Keeps : (id : String) → Keeps enforce P (get_post id)
  unfolding get_post
  get_post-Keeps id = search (keeps_rules, or_not_found-Keeps)

  parsed_time-Keeps : (t : Option Time) → Keeps enforce P (parsed_time t)
  unfolding parsed_time
  parsed_time-Keeps none = search keeps_rules
  parsed_time-Keeps (some t) = search keeps_rules

  pub time_field-Keeps :
      (old : Option Time) (v : Option String) → Keeps enforce P (time_field old v)
  unfolding time_field
  time_field-Keeps old none = search keeps_rules
  time_field-Keeps old (some v) = search (keeps_rules, parsed_time-Keeps)

  pub status_field-Keeps :
      (old : PostStatus) (v : Option String) → Keeps enforce P (status_field old v)
  unfolding status_field
  status_field-Keeps old none = search keeps_rules
  status_field-Keeps old (some v) = search keeps_rules

  patched_instant-Keeps : (t : Option Time) → Keeps enforce P (patched_instant t)
  unfolding patched_instant
  patched_instant-Keeps none = search keeps_rules
  patched_instant-Keeps (some t) = search keeps_rules

  pub patched_time-Keeps :
      (v : Option JsonValue) (old : Option Time) → Keeps enforce P (patched_time v old)
  unfolding patched_time
  patched_time-Keeps none old = search keeps_rules
  patched_time-Keeps (some JsonValue.other) old = search keeps_rules
  patched_time-Keeps (some (text v)) old = search (keeps_rules, patched_instant-Keeps)

  pub decoded_patch-Keeps : (v : Option Patch) → Keeps enforce P (decoded_patch v)
  unfolding decoded_patch
  decoded_patch-Keeps none = search keeps_rules
  decoded_patch-Keeps (some v) = search keeps_rules

  pub or_error-Keeps :
      {A : Type 0} (write : A → Written) (r : Result A) → Keeps enforce P (or_error write r)
  unfolding or_error
  or_error-Keeps write (ok a) = search keeps_rules
  or_error-Keeps write (err e) = search keeps_rules

  require_bearer-Keeps : (token : String) → Keeps enforce P (require_bearer token)
  unfolding require_bearer
  require_bearer-Keeps token = record { at = λ env s e h. h }

  pub with_bearer-Keeps :
      (token : String) (next : M Written)
      → Keeps enforce P next
      → Keeps enforce P (with_bearer token next)
  unfolding with_bearer
  with_bearer-Keeps token next k =
      Keeps-bind (require_bearer-Keeps token)
        (λ valid. Keeps-if valid k (Keeps-pure (wrote_error unauthorized)))

pub ruleset field_rules = (
  reject_if-Keeps, get_post-Keeps, time_field-Keeps, status_field-Keeps, patched_time-Keeps,
  decoded_patch-Keeps, or_error-Keeps, with_bearer-Keeps,
)

module _ {enforce : Bool} {P : Db → Type 0} (laws : Lawful enforce P) where
  pub mcp_create-Keeps : (fields : Fields) → Keeps enforce P (mcp_create fields)
  unfolding mcp_create
  mcp_create-Keeps fields = search (keeps_rules, field_rules, insert_post-Keeps laws) depth 20

  update_fields-Keeps :
      (fields : Fields) (p : ScheduledPost) → Keeps enforce P (update_fields fields p)
  unfolding update_fields
  update_fields-Keeps fields p = search (keeps_rules, field_rules, update_post-Keeps laws) depth 12

  pub mcp_update-Keeps :
      (slug : String) (fields : Fields) → Keeps enforce P (mcp_update slug fields)
  unfolding mcp_update
  mcp_update-Keeps slug fields = search (keeps_rules, field_rules, update_fields-Keeps)

  finish_now-Keeps : (p : ScheduledPost) (r : Result String) → Keeps enforce P (finish_now p r)
  unfolding finish_now
  finish_now-Keeps p (ok id) = mark_post_published-Keeps laws p.id id
  finish_now-Keeps p (err e) = search (keeps_rules, mark_post_failed-Keeps laws)

  publish_now-Keeps : (p : ScheduledPost) → Keeps enforce P (publish_now p)
  unfolding publish_now
  publish_now-Keeps p =
      search
        (
          keeps_rules,
          get_credential-Keeps,
          maybe_refresh-Keeps laws,
          call_platform_publish-Keeps,
          finish_now-Keeps,
        )
        depth 8

  pub mcp_publish-Keeps : (slug : String) → Keeps enforce P (mcp_publish slug)
  unfolding mcp_publish
  mcp_publish-Keeps slug = search (keeps_rules, field_rules, publish_now-Keeps) depth 8

  pub mcp_schedule-Keeps : (slug : String) (at : Time) → Keeps enforce P (mcp_schedule slug at)
  unfolding mcp_schedule
  mcp_schedule-Keeps slug at = search (keeps_rules, field_rules, update_post-Keeps laws) depth 8

  pub mcp_archive-Keeps : (slug : String) → Keeps enforce P (mcp_archive slug)
  unfolding mcp_archive
  mcp_archive-Keeps slug = search (keeps_rules, field_rules, update_post-Keeps laws) depth 8

  create_post-Keeps : (b : PostBody) → Keeps enforce P (create_post b)
  unfolding create_post
  create_post-Keeps b = search (keeps_rules, insert_post-Keeps laws) depth 9

  decoded_create-Keeps : (body : Option PostBody) → Keeps enforce P (decoded_create body)
  unfolding decoded_create
  decoded_create-Keeps none = search keeps_rules
  decoded_create-Keeps (some b) = create_post-Keeps b

  pub handle_post_create-Keeps :
      (token : String) (body : Option PostBody) → Keeps enforce P (handle_post_create token body)
  unfolding handle_post_create
  handle_post_create-Keeps token body =
      search (keeps_rules, field_rules, decoded_create-Keeps) depth 8

  patched_post-Keeps : (patch : Patch) (p : ScheduledPost) → Keeps enforce P (patched_post patch p)
  unfolding patched_post
  patched_post-Keeps patch p = search (keeps_rules, field_rules)

  update_from-Keeps : (id : String) (body : Option Patch) → Keeps enforce P (update_from id body)
  unfolding update_from
  update_from-Keeps id body =
      search (keeps_rules, field_rules, patched_post-Keeps, update_post-Keeps laws) depth 12

  pub handle_post_update-Keeps :
      (token id : String) (body : Option Patch) → Keeps enforce P (handle_post_update token id body)
  unfolding handle_post_update
  handle_post_update-Keeps token id body =
      search (keeps_rules, field_rules, update_from-Keeps) depth 8

  pub handle_post_delete-Keeps : (token id : String) → Keeps enforce P (handle_post_delete token id)
  unfolding handle_post_delete
  handle_post_delete-Keeps token id =
      search (keeps_rules, field_rules, delete_post-Keeps laws) depth 8

module _ {enforce : Bool} {P : Db → Type 0} where
  pub handle_post_list-Keeps :
      (token status : String) → Keeps enforce P (handle_post_list token status)
  unfolding handle_post_list list_posts
  handle_post_list-Keeps token status = search (keeps_rules, field_rules) depth 8

  found_post-Keeps : (id : String) → Keeps enforce P (found_post id)
  unfolding found_post
  found_post-Keeps id = search (keeps_rules, field_rules)

  pub handle_post_get-Keeps : (token id : String) → Keeps enforce P (handle_post_get token id)
  unfolding handle_post_get
  handle_post_get-Keeps token id = search (keeps_rules, field_rules, found_post-Keeps) depth 8
