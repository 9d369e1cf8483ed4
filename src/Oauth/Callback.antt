-- ===== src/Oauth/Callback.antt =====
-- oauth.go: the OAuth callbacks. A client is read once in a callback, so that it stays the same
-- throughout; the code reads the Mastodon and the LinkedIn client anew at each use.
use social.Prelude.{ℕ, String, not, ◌||◌, if◌then◌else◌, Option, none, some, str_eq}
use Prim.Native.String.{◌++◌}
use social.Model.{Platform, mastodon, linkedin, x_twitter}
use social.Model.Status.{platform_text}
use social.Model.Http.{ClientConfig}
use social.Model.Errors.{Error, Result, ok, err, plain}
use social.Exec.{M, ◌>>=◌, pure, fail, try, gets, text_of}
use social.Oauth.{consume_oauth_state}
use social.Credential.{upsert_credential_by_instance}
use social.Platform.Text.{trim_slashes, cut_prefix}
use social.Platform.LinkedIn.{expires_at}
use social.Platform.LinkedIn.Connect.{
  fetch_person_urn, linkedin_display_name, linkedin_instance_url,
}
use social.Platform.LinkedIn.Connect as LinkedInConnect
use social.Platform.Mastodon.Connect as MastodonConnect
use social.Platform.Twitter.{TokenResponse, x_api_base}
use social.Platform.Twitter

-- What a handler answers.
pub data Answer : Type 0 where
  -- http.Error
  http_error : (status : ℕ) → String → Answer
  -- http.Redirect with StatusFound
  redirect : String → Answer
  -- the page that says that the platform is connected
  connected : String → Answer

-- The panic of a handler that uses a nil client: an error of the method, as nothing is answered.
abbrev pub nil_dereference : Error
nil_dereference = plain "runtime error: invalid memory address or nil pointer dereference"

-- The parameters of the request's query.
pub record Query : Type 0 where
  pub code : String
  pub state : String
  pub error : String

unfoldable pub matched :
    (expected : String) → Result (Platform × String) → (String → M Answer) → M Answer
unfolding platform_text
matched expected (err e) next = pure (http_error 400 "invalid or expired OAuth state")
matched expected (ok (platform, code_verifier)) next =
    if not (str_eq (platform_text platform) expected)
    then pure (http_error 400 ("unexpected platform: " ++ platform_text platform))
    else next code_verifier

-- The beginning that the three callbacks share. What follows takes the code verifier.
unfoldable pub checked_callback : (expected : String) → Query → (String → M Answer) → M Answer
unfolding matched
checked_callback expected q next =
    if not (str_eq q.error "")
    then pure (http_error 400 ("OAuth error: " ++ q.error))
    else if str_eq q.code "" || str_eq q.state ""
    then pure (http_error 400 "missing code or state")
    else do state ← try (consume_oauth_state q.state); matched expected state next

unfoldable pub success : (platform success_url : String) → Answer
success platform success_url =
    if str_eq success_url "" then connected platform else redirect success_url

-- The end that they share: the credential is saved, or not.
unfoldable pub saved_answer : (platform success_url : String) → Result String → M Answer
unfolding success
saved_answer platform success_url (ok id) = pure (success platform success_url)
saved_answer platform success_url (err e) = pure (http_error 500 "failed to save credential")

-- The answer to an error of the platform.
abbrev pub bad_gateway : String → Error → M Answer
bad_gateway what e = text_of e >>= λ m. pure (http_error 502 (what ++ m))

-- The instance without its scheme.
abbrev or_whole : String → Option String → Option String → String
or_whole url (some after) other = after
or_whole url none (some after) = after
or_whole url none none = url

unfoldable pub instance_name : String → String
unfolding cut_prefix
instance_name url = or_whole url (cut_prefix "https://" url) (cut_prefix "http://" url)

unfoldable pub mastodon_exchanged : ClientConfig → Result TokenResponse → M Answer
unfolding expires_at upsert_credential_by_instance saved_answer instance_name trim_slashes
mastodon_exchanged cfg (err e) = bad_gateway "token exchange failed: " e
mastodon_exchanged cfg (ok tr) = do
  expires ← expires_at tr.expires_in
  let url : String = trim_slashes cfg.instance_url
  id ← try (
      upsert_credential_by_instance mastodon url (instance_name url) tr.access_token
        tr.refresh_token "" expires)
  saved_answer "Mastodon" cfg.success_url id

unfoldable pub mastodon_connect : (code code_verifier : String) → Option ClientConfig → M Answer
unfolding mastodon_exchanged
mastodon_connect code code_verifier none = fail nil_dereference
mastodon_connect code code_verifier (some cfg) = do
  tr ← try (MastodonConnect.exchange_code cfg code code_verifier)
  mastodon_exchanged cfg tr

unfoldable pub handle_mastodon_callback : Query → M Answer
unfolding checked_callback mastodon_connect
handle_mastodon_callback q = checked_callback "mastodon" q (λ code_verifier. do
  client ← gets (λ s. s.clients.mastodon)
  mastodon_connect q.code code_verifier client)

unfoldable pub linkedin_identified : ClientConfig → TokenResponse → Result String → M Answer
unfolding expires_at upsert_credential_by_instance saved_answer linkedin_display_name
linkedin_identified cfg tr (err e) = bad_gateway "failed to fetch LinkedIn person URN: " e
linkedin_identified cfg tr (ok actor_id) = do
  expires ← expires_at tr.expires_in
  id ← try (
      upsert_credential_by_instance linkedin linkedin_instance_url (linkedin_display_name actor_id)
        tr.access_token "" actor_id expires)
  saved_answer "LinkedIn" cfg.success_url id

unfoldable pub linkedin_exchanged : ClientConfig → Result TokenResponse → M Answer
unfolding linkedin_identified fetch_person_urn
linkedin_exchanged cfg (err e) = bad_gateway "token exchange failed: " e
linkedin_exchanged cfg (ok tr) = do
  actor_id ← try (fetch_person_urn tr.access_token)
  linkedin_identified cfg tr actor_id

unfoldable pub linkedin_connect : (code : String) → Option ClientConfig → M Answer
unfolding linkedin_exchanged
linkedin_connect code none = fail nil_dereference
linkedin_connect code (some cfg) = do
  tr ← try (LinkedInConnect.exchange_code cfg code)
  linkedin_exchanged cfg tr

unfoldable pub handle_linkedin_callback : Query → M Answer
unfolding checked_callback linkedin_connect
handle_linkedin_callback q =
    checked_callback "linkedin" q
      (λ code_verifier. do client ← gets (λ s. s.clients.linkedin); linkedin_connect q.code client)

unfoldable pub x_exchanged : ClientConfig → Result TokenResponse → M Answer
unfolding expires_at upsert_credential_by_instance saved_answer
x_exchanged cfg (err e) = bad_gateway "token exchange failed: " e
x_exchanged cfg (ok tr) = do
  expires ← expires_at tr.expires_in
  id ← try (
      upsert_credential_by_instance x_twitter x_api_base "X account" tr.access_token
        tr.refresh_token "" expires)
  saved_answer "X" cfg.success_url id

unfoldable pub x_connect : (code code_verifier : String) → Option ClientConfig → M Answer
unfolding x_exchanged
x_connect code code_verifier none = pure (http_error 503 "X is not configured on this server")
x_connect code code_verifier (some cfg) = do
  tr ← try (Twitter.exchange_code cfg code code_verifier)
  x_exchanged cfg tr

unfoldable pub handle_x_callback : Query → M Answer
unfolding checked_callback x_connect
handle_x_callback q = checked_callback "x" q (λ code_verifier. do
  client ← gets (λ s. s.clients.twitter)
  x_connect q.code code_verifier client)
