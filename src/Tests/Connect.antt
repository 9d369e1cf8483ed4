-- ===== src/Tests/Connect.antt =====
-- The theorems on OAuth flows, credentials and HTTP handlers, on concrete requests.
use social.Prelude.{String, if◌then◌else◌, Option, none, some, [], ◌≡◌, refl, sym, arith, str_eq}
use social.Table.{find?, count}
use social.Model.{ScheduledPost, draft, mastodon}
use social.Model.Errors.{Result, ok}
use social.Exec.{Sys}
use social.Credential.{get_credential, upsert_credential_by_instance}
use social.Credential.Readback.{GivesBack, get_credential-upsert}
use social.Oauth.{is_state}
use social.Oauth.Callback.{handle_mastodon_callback, handle_linkedin_callback, handle_x_callback}
use social.Oauth.Refused.{Answered, Ended, callback-Answered}
use social.Post.Statements.{has_id}
use social.PostHttp.{
  wrote_post, PostBody, handle_post_create, handle_post_list, handle_post_get, handle_post_update,
  handle_post_delete,
}
use social.PostHttp.Lookup.{Unauthorized, handlers-Unauthorized, handle_post_get-create}
use social.Tools.{Fields, string_field}
use social.Tools.Credentials.{mcp_create_credential}
use social.Tools.Verifier.{Sends, Exchanges, query_of, handle_x_callback-mcp_create_credential}
use social.Tests.{world, start, config}

callback-Answered_example :
    Ended
      (λ c. c.mastodon ≡ none)
      "mastodon"
      (query_of "code" "abc")
      (world 200)
      start
      (handle_mastodon_callback (query_of "code" "abc") (world 200) start)
    × Ended
        (λ c. c.linkedin ≡ none)
        "linkedin"
        (query_of "code" "abc")
        (world 200)
        start
        (handle_linkedin_callback (query_of "code" "abc") (world 200) start)
    × Answered "x"
        (query_of "code" "abc")
        (world 200)
        start
        (handle_x_callback (query_of "code" "abc") (world 200) start)
callback-Answered_example = callback-Answered (query_of "code" "abc") (world 200) start

abbrev x_request : Fields
x_request key = if str_eq key "platform" then some "x" else none

handle_x_callback-mcp_create_credential_example :
    Sends
      (world 200)
      config
      "new"
      ((world 200).challenge "verifier")
      (mcp_create_credential x_request (world 200) start).0
    × Exchanges "code" "verifier" []
        (handle_x_callback
          (query_of "code" "new")
          (world 200)
          (mcp_create_credential x_request (world 200) start).1).1.sent
unfolding string_field count is_state
handle_x_callback-mcp_create_credential_example =
    handle_x_callback-mcp_create_credential x_request config "code" "verifier" (world 200) start
      (λ k. refl) refl refl refl refl refl refl (omega arith)

abbrev posted : Option PostBody
posted = some (record {
  platform = "";
  credential_id = "c1";
  body = "hello";
  media_url = "";
  alt_text = "";
  scheduled_at = none;
  status = "";
})

handlers-Unauthorized_example :
    Unauthorized start (handle_post_create "guess" posted (world 200) start)
    × Unauthorized start (handle_post_list "guess" "" (world 200) start)
    × Unauthorized start (handle_post_get "guess" "p1" (world 200) start)
    × Unauthorized start (handle_post_update "guess" "p1" none (world 200) start)
    × Unauthorized start (handle_post_delete "guess" "p1" (world 200) start)
handlers-Unauthorized_example =
    handlers-Unauthorized "guess" "p1" "" posted none (world 200) start refl

abbrev posted_row : ScheduledPost
posted_row = record {
  id = "new";
  platform = mastodon;
  credential_id = "c1";
  body = "hello";
  media_url = "";
  alt_text = "";
  scheduled_at = none;
  status = draft;
  platform_post_id = "";
  error_msg = "";
  created_at = 1000000000001;
  updated_at = 1000000000001;
}

posted_result :
    (handle_post_create "token" posted (world 200) start).0 ≡ ok (wrote_post 201 posted_row)
unfolding handle_post_create social.Post.insert_post social.Post.Statements.insert_post_row count
    has_id social.Post.Statements.is_credential
posted_result = refl

handle_post_get-create_example :
    (handle_post_get "token" "new"
      (world 200)
      (handle_post_create "token" posted (world 200) start).1).0
    ≡ ok (wrote_post 200 posted_row)
unfolding count has_id
handle_post_get-create_example =
    handle_post_get-create "token" "token" posted posted_row (world 200) start (λ k. refl)
      posted_result refl refl refl

abbrev upserted : Result String × Sys
upserted =
    upsert_credential_by_instance mastodon "https://social.example" "main" "a2" "r2" "8" none
      (world 200) start

upserted_result :
    upsert_credential_by_instance mastodon "https://social.example" "main" "a2" "r2" "8" none
      (world 200)
      start
    ≡ (ok "c1", upserted.1)
unfolding upsert_credential_by_instance social.Credential.encrypt_token
    social.Credential.write_credential find? social.Credential.at_instance
    social.Credential.update_credential_row
upserted_result = refl

get_credential-upsert_example :
    GivesBack (get_credential "c1" (world 200) upserted.1).0 "a2" "r2" "8" none
get_credential-upsert_example =
    get_credential-upsert mastodon "https://social.example" "main" "a2" "r2" "8" none (world 200)
      start upserted.1 "c1" (λ k text enc h. sym h) upserted_result refl
