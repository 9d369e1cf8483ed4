-- ===== src/Platform/Twitter.antt =====
-- twitter.go: the weighted length of a body, the media upload, the token refresh and `publish`.
pub mod Weight
pub mod Limit
pub mod Connect
use Prim.Native.String.{◌++◌, len}
use social.Prelude.{
  ℕ, String, Bool, true, false, ◌||◌, ◌&&◌, not, ◌==◌, ltb, leb, if◌then◌else◌, Option, none, some,
  List, [], ◌∷◌, str_eq, length,
}
use social.Prelude.Int.{ℤ}
use social.Model.{ScheduledPost, PlatformCredential}
use social.Model.Errors.{
  Error, plain, publish_error, rate_limit_error, wrapped, itoa, Result, ok, err,
}
use social.Model.Http.{Request, Response, Json, ClientConfig}
use social.Exec.{M, and_then, ◌>>=◌, ◌>>◌, pure, fail, lift, on_error, send}
use social.Platform.{is_terminal_status, parse_retry_after}
use social.Platform.Text.{truncate}
use Weight.{x_weighted_body_len}

abbrev pub x_max_body_length : ℕ
x_max_body_length = 280

abbrev pub x_api_base : String
x_api_base = "https://api.twitter.com"

abbrev x_media_upload_url : String
x_media_upload_url = "https://api.x.com/2/media/upload"

unfoldable pub decoded : String → String → Response → Result String
decoded path msg r = elim r.json [ none ↦ err (plain msg) | some j ↦ ok (j.text path) ]

unfoldable pub refused : String → Response → Error
unfolding truncate
refused what r =
    publish_error r.status (what ++ ": HTTP " ++ itoa r.status ++ ": " ++ truncate r.body 256)
      (is_terminal_status r.status)

unfoldable pub fetched : Response → Result Response
fetched r =
    if not (r.status == 200)
    then err (plain ("social: X fetch media: HTTP " ++ itoa r.status))
    else if r.readable
    then ok r
    else err (plain "social: X fetch media read")

abbrev created : Response → Bool
created r = r.status == 200 || r.status == 201

abbrev upload_request : String → List (String × String) → Request
upload_request access_token fields = record {
  method = "POST";
  url = x_media_upload_url;
  auth = "Bearer " ++ access_token;
  fields = fields;
}

abbrev content_type_or : String → String
content_type_or t = if str_eq t "" then "application/octet-stream" else t

-- Step 1, INIT: the media id. `size` is len(imgBytes) as a text.
unfoldable pub upload_init : (access_token content_type size : String) → M String
unfolding decoded refused
upload_init access_token content_type size = do
  r ← on_error (wrapped "social: X upload media INIT") (
      send (
        upload_request access_token (
          ("command", "INIT")
          ∷ ("media_type", content_type)
          ∷ ("total_bytes", size)
          ∷ ("media_category", "tweet_image")
          ∷ [])))
  if not (created r)
      then fail (refused "X upload media INIT" r)
      else lift (decoded "data.id" "social: X upload media INIT parse" r)

-- Step 2, APPEND: the image as segment 0.
unfoldable pub upload_append : (access_token media_id image : String) → M (Unit {0})
unfolding refused
upload_append access_token media_id image = do
  r ← on_error (wrapped "social: X upload media APPEND") (
      send (
        upload_request access_token (
          ("command", "APPEND")
          ∷ ("media_id", media_id)
          ∷ ("segment_index", "0")
          ∷ ("media", image)
          ∷ [])))
  if ltb r.status 200 || leb 300 r.status then fail (refused "X upload media APPEND" r) else pure tt

-- Step 3, FINALIZE: the final media id.
unfoldable pub upload_finalize : (access_token media_id : String) → M String
unfolding decoded refused
upload_finalize access_token media_id = do
  r ←
      on_error (wrapped "social: X upload media FINALIZE")
        (send (upload_request access_token (("command", "FINALIZE") ∷ ("media_id", media_id) ∷ [])))
  if not (created r)
      then fail (refused "X upload media FINALIZE" r)
      else lift (decoded "data.id" "social: X upload media FINALIZE parse" r)

-- uploadXMedia
unfoldable pub upload_x_media : (access_token media_url : String) → M String
unfolding fetched upload_init upload_append upload_finalize
upload_x_media access_token media_url = do
  image ←
      on_error (wrapped "social: X fetch media")
        (send (record { method = "GET"; url = media_url; auth = ""; fields = [] }))
  file ← lift (fetched image)
  media_id ← upload_init access_token (content_type_or file.content_type) (itoa (len file.body))
  upload_append access_token media_id file.body
  upload_finalize access_token media_id

abbrev media_field : String → List (String × String)
media_field media_id = ("media.media_ids", media_id) ∷ []

-- The attachment: no field, or the id of the uploaded image.
unfoldable pub media_of : ScheduledPost → PlatformCredential → M (List (String × String))
unfolding upload_x_media
media_of p cred = if str_eq p.media_url "" then pure [] else do
  media_id ←
      on_error (wrapped "social: X media upload") (upload_x_media cred.access_token p.media_url)
  pure (media_field media_id)

unfoldable pub publish_reply : Response → M String
unfolding decoded refused parse_retry_after
publish_reply r =
    if r.status == 429
    then (do d ← parse_retry_after r.retry_after; fail (rate_limit_error d))
    else if not r.readable
    then fail (plain "social: X publish read")
    else if not (created r)
    then fail (refused "X publish" r)
    else lift (decoded "data.id" "social: X publish parse" r)

unfoldable pub too_long : ℕ → Error
too_long n =
    publish_error 0
      ("post body exceeds X character limit (" ++ itoa n ++ "/" ++ itoa x_max_body_length ++ ")")
      true

unfoldable pub publish : ClientConfig → ScheduledPost → PlatformCredential → M String
unfolding media_of publish_reply too_long
publish cfg p cred =
    if ltb x_max_body_length (x_weighted_body_len p.body)
    then fail (too_long (x_weighted_body_len p.body))
    else do
      media ← media_of p cred
      let req : Request = record {
        method = "POST";
        url = x_api_base ++ "/2/tweets";
        auth = "Bearer " ++ cred.access_token;
        fields = ("text", p.body) ∷ media;
      }
      r ← on_error (wrapped "social: X publish") (send req)
      publish_reply r

-- xTokenResponse, as far as it is used.
pub record TokenResponse : Type 0 where
  pub access_token : String
  pub refresh_token : String
  pub expires_in : ℤ

unfoldable pub token_of : String → Response → Result TokenResponse
token_of what r = elim r.json [
  | none ↦ err (plain (what ++ " parse"))
  | some j ↦ ok (record {
    access_token = j.text "access_token";
    refresh_token = j.text "refresh_token";
    expires_in = j.number "expires_in";
  })
]

unfoldable pub token_reply : String → Response → Result TokenResponse
unfolding token_of truncate
token_reply what r =
    if not r.readable
    then err (plain (what ++ " read"))
    else if not (r.status == 200)
    then err (plain (what ++ ": HTTP " ++ itoa r.status ++ ": " ++ truncate r.body 256))
    else token_of what r

-- req.SetBasicAuth, with the base64 coding left out.
abbrev basic : ClientConfig → String
basic cfg = "Basic " ++ cfg.client_id ++ ":" ++ cfg.client_secret

unfoldable pub refresh_x_token : ClientConfig → String → M TokenResponse
unfolding token_reply
refresh_x_token cfg refresh_token = do
  let req : Request = record {
    method = "POST";
    url = x_api_base ++ "/2/oauth2/token";
    auth = basic cfg;
    fields = ("grant_type", "refresh_token") ∷ ("refresh_token", refresh_token) ∷ [];
  }
  r ← on_error (wrapped "social: X token refresh") (send req)
  lift (token_reply "social: X token refresh" r)

unfoldable pub exchange_request : ClientConfig → (code code_verifier : String) → Request
exchange_request cfg code code_verifier = record {
  method = "POST";
  url = x_api_base ++ "/2/oauth2/token";
  auth = basic cfg;
  fields =
      ("grant_type", "authorization_code")
      ∷ ("code", code)
      ∷ ("redirect_uri", cfg.redirect_url)
      ∷ ("code_verifier", code_verifier)
      ∷ [];
}

unfoldable pub exchange_code : ClientConfig → (code code_verifier : String) → M TokenResponse
unfolding token_reply exchange_request
exchange_code cfg code code_verifier = do
  r ← on_error (wrapped "social: X token exchange") (send (exchange_request cfg code code_verifier))
  lift (token_reply "social: X token exchange" r)
