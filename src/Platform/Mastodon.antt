-- ===== src/Platform/Mastodon.antt =====
-- mastodon.go: the scopes, the media upload, the status post and `publish`. A request that cannot
-- be built counts as one that is not answered.
pub mod Connect
use Prim.Native.String.{◌++◌}
use social.Prelude.{String, ◌&&◌, not, ◌==◌, if◌then◌else◌, none, some, List, [], ◌∷◌, str_eq}
use social.Model.{ScheduledPost, PlatformCredential}
use social.Model.Errors.{
  Error, plain, publish_error, rate_limit_error, wrapped, itoa, Result, ok, err,
}
use social.Model.Http.{Request, Response, ClientConfig}
use social.Exec.{M, ◌>>=◌, pure, fail, lift, on_error, send}
use social.Platform.{is_terminal_status, parse_retry_after}
use social.Platform.Text.{truncate, trim_slashes}

-- strings.Join(scopes, " ")
unfoldable pub join_scopes : List String → String
join_scopes [] = ""
join_scopes (s ∷ []) = s
join_scopes (s ∷ t ∷ ss) = s ++ " " ++ join_scopes (t ∷ ss)

unfoldable pub effective_scope : ClientConfig → String
unfolding join_scopes
effective_scope cfg = elim cfg.scopes [
  | [] ↦ "write:statuses write:media"
  | s ∷ ss ↦ join_scopes (s ∷ ss)
]

abbrev pub bearer : String → String
bearer token = "Bearer " ++ token

-- The text field of a decoded body, or the error of json.Unmarshal.
unfoldable pub decoded : String → String → Response → Result String
decoded path msg r = elim r.json [ none ↦ err (plain msg) | some j ↦ ok (j.text path) ]

-- The refusal that a status other than success becomes.
unfoldable pub refused : String → Response → Error
unfolding truncate
refused what r =
    publish_error r.status (what ++ ": HTTP " ++ itoa r.status ++ ": " ++ truncate r.body 256)
      (is_terminal_status r.status)

abbrev pub optional_field : String → String → List (String × String)
optional_field name value = if str_eq value "" then [] else (name, value) ∷ []

abbrev get_request : String → Request
get_request url = record { method = "GET"; url = url; auth = ""; fields = [] }

-- The image as fetched: refused if it is not there or cannot be read.
unfoldable pub fetched : String → Response → Result Response
fetched what r =
    if not (r.status == 200)
    then err (plain (what ++ ": HTTP " ++ itoa r.status))
    else if r.readable
    then ok r
    else err (plain (what ++ " read"))

unfoldable pub upload_media : ClientConfig → (access_token media_url alt_text : String) → M String
unfolding fetched decoded refused
upload_media cfg access_token media_url alt_text = do
  image ← on_error (wrapped "social: fetch media") (send (get_request media_url))
  file ← lift (fetched "social: fetch media" image)
  let req : Request = record {
    method = "POST";
    url = trim_slashes cfg.instance_url ++ "/api/v2/media";
    auth = bearer access_token;
    fields = ("file", file.body) ∷ optional_field "description" alt_text;
  }
  r ← on_error (wrapped "social: upload media") (send req)
  if not (r.status == 200) && not (r.status == 202)
      then fail (refused "upload media" r)
      else lift (decoded "id" "social: upload media parse" r)

unfoldable pub status_reply : Response → M String
unfolding decoded refused parse_retry_after
status_reply r =
    if r.status == 429
    then (do d ← parse_retry_after r.retry_after; fail (rate_limit_error d))
    else if not (r.status == 200)
    then fail (refused "post status" r)
    else lift (decoded "id" "social: post status parse" r)

unfoldable pub post_status_update : ClientConfig → (access_token body media_id : String) → M String
unfolding status_reply
post_status_update cfg access_token body media_id = do
  let req : Request = record {
    method = "POST";
    url = trim_slashes cfg.instance_url ++ "/api/v1/statuses";
    auth = bearer access_token;
    fields = ("status", body) ∷ optional_field "media_ids" media_id;
  }
  r ← on_error (wrapped "social: post status") (send req)
  status_reply r

unfoldable pub media_of : ClientConfig → ScheduledPost → PlatformCredential → M String
media_of cfg p cred =
    if str_eq p.media_url ""
    then pure ""
    else upload_media cfg cred.access_token p.media_url p.alt_text

unfoldable pub publish : ClientConfig → ScheduledPost → PlatformCredential → M String
unfolding media_of upload_media post_status_update
publish cfg p cred = do
  media_id ← media_of cfg p cred
  post_status_update cfg cred.access_token p.body media_id
