-- ===== src/PostHttp.antt =====
-- post_http.go: the HTTP handlers on scheduled posts. A handler takes the bearer token, the
-- identifier of the path or the query, and the body as encoding/json decodes it.
pub mod Lookup
use social.Prelude.{
  ℕ, zero, suc, ◌+◌, ◌-◌, ◌*◌, ◌≤◌, ◌<◌, String, Bool, true, false, not, ◌&&◌, ◌||◌, ltb, leb, ◌==◌,
  if◌then◌else◌, Option, none, some, List, [], ◌∷◌, ◌++◌, ◌≡◌, ◌≢◌, ◌↔◌, ◌⊎◌, inl, inr, refl, sym,
  ap, subst, ◌∙◌, arith, Bool-cases, Option-cases, All, All-append, All-map, All-map₂, All-always,
  All-mem, Mem, here, there, mem-cons, eq_iff, str_eq, length, length-append, take, get_or, tests,
  map,
}
use social.Model.{Time, ScheduledPost, PostStatus, draft, Platform}
use social.Model.Status.{post_status, to_platform}
use social.Model.Errors.{Error, Result, ok, err, bad_request, unauthorized}
use social.Exec.{M, and_then, ◌>>=◌, ◌>>◌, pure, fail, try, ask, now, new_id, bump}
use social.Post.{insert_post, list_posts, get_post, update_post, delete_post}

-- What a handler writes.
pub data Written : Type 0 where
  -- smeldr.WriteError
  wrote_error : Error → Written
  -- writeJSON
  wrote_post : (status : ℕ) → ScheduledPost → Written
  wrote_posts : (status : ℕ) → List ScheduledPost → Written
  no_content : Written

-- The body of a POST; an absent field is empty.
pub record PostBody : Type 0 where
  pub platform : String
  pub credential_id : String
  pub body : String
  pub media_url : String
  pub alt_text : String
  pub scheduled_at : Option Time
  pub status : String

-- A value in the body of a PUT.
pub data JsonValue : Type 0 where
  text : String → JsonValue
  other : JsonValue

abbrev pub Patch : Type 0
Patch = String → Option JsonValue

unfoldable pub require_bearer : String → M Bool
require_bearer token env s = (ok (env.authorized s.tick token), bump s)

unfoldable pub with_bearer : String → M Written → M Written
unfolding require_bearer
with_bearer token next = do
  valid ← require_bearer token
  if valid then next else pure (wrote_error unauthorized)

-- An error of the handler's steps is written.
unfoldable pub or_error : {A : Type 0} → (A → Written) → Result A → M Written
or_error write (ok a) = pure (write a)
or_error write (err e) = pure (wrote_error e)

abbrev answered : {A : Type 0} → (A → Written) → M A → M Written
answered write m = try m >>= or_error write

abbrev or_default : String → String → String
or_default default v = if str_eq v "" then default else v

unfoldable pub new_post : PostBody → (id : String) → Time → ScheduledPost
unfolding to_platform post_status
new_post b id at = record {
  id = id;
  platform = to_platform (or_default "mastodon" b.platform);
  credential_id = b.credential_id;
  body = b.body;
  media_url = b.media_url;
  alt_text = b.alt_text;
  scheduled_at = b.scheduled_at;
  status = post_status (or_default "draft" b.status);
  platform_post_id = "";
  error_msg = "";
  created_at = at;
  updated_at = at;
}

-- The body behind its guards.
unfoldable pub create_post : PostBody → M ScheduledPost
unfolding new_post
create_post b =
    if str_eq b.credential_id "" || str_eq b.body ""
    then fail bad_request
    else do at ← now; id ← new_id; insert_post (new_post b id at); pure (new_post b id at)

unfoldable pub decoded_create : Option PostBody → M ScheduledPost
unfolding create_post
decoded_create none = fail bad_request
decoded_create (some b) = create_post b

unfoldable pub handle_post_create : (token : String) → Option PostBody → M Written
unfolding with_bearer decoded_create or_error
handle_post_create token body = with_bearer token (answered (wrote_post 201) (decoded_create body))

unfoldable pub handle_post_list : (token status : String) → M Written
unfolding with_bearer or_error post_status
handle_post_list token status = with_bearer token (
    answered (wrote_posts 200)
      (list_posts (if str_eq status "" then [] else post_status status ∷ [])))

unfoldable pub found_post : String → M ScheduledPost
found_post id = if str_eq id "" then fail bad_request else get_post id

unfoldable pub handle_post_get : (token id : String) → M Written
unfolding with_bearer or_error found_post
handle_post_get token id = with_bearer token (answered (wrote_post 200) (found_post id))

-- `if v, ok := patch[key].(string); ok`
unfoldable pub patched_text : Option JsonValue → String → String
patched_text (some (text v)) old = v
patched_text _ old = old

-- The same where an empty text is passed over.
unfoldable pub patched_name : {A : Type 0} → (String → A) → Option JsonValue → A → A
patched_name make (some (text v)) old = if str_eq v "" then old else make v
patched_name make _ old = old

unfoldable pub patched_instant : Option Time → M (Option Time)
patched_instant none = fail bad_request
patched_instant (some t) = pure (some t)

-- A key that is there without a time clears it.
unfoldable pub patched_time : Option JsonValue → Option Time → M (Option Time)
unfolding patched_instant
patched_time none old = pure old
patched_time (some other) old = pure none
patched_time (some (text v)) old =
    if str_eq v "" then pure none else do t ← ask (λ env. env.parse_rfc3339 v); patched_instant t

unfoldable pub patched_post : Patch → ScheduledPost → M ScheduledPost
unfolding patched_text patched_name patched_time to_platform post_status
patched_post patch p = do
  scheduled_at ← patched_time (patch "scheduled_at") p.scheduled_at
  pure (record p {
    platform = patched_name to_platform (patch "platform") p.platform;
    body = patched_text (patch "body") p.body;
    media_url = patched_text (patch "media_url") p.media_url;
    alt_text = patched_text (patch "alt_text") p.alt_text;
    status = patched_name post_status (patch "status") p.status;
    scheduled_at = scheduled_at;
  })

unfoldable pub decoded_patch : Option Patch → M Patch
decoded_patch none = fail bad_request
decoded_patch (some patch) = pure patch

-- The post is read again for the answer.
unfoldable pub update_from : (id : String) → Option Patch → M ScheduledPost
unfolding decoded_patch patched_post
update_from id body = do
  p ← get_post id
  patch ← decoded_patch body
  q ← patched_post patch p
  update_post q
  get_post id

unfoldable pub handle_post_update : (token id : String) → Option Patch → M Written
unfolding with_bearer or_error update_from
handle_post_update token id body =
    with_bearer token (answered (wrote_post 200) (update_from id body))

unfoldable pub handle_post_delete : (token id : String) → M Written
unfolding with_bearer or_error
handle_post_delete token id = with_bearer token (answered (λ u. no_content) (delete_post id))
