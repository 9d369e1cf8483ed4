-- ===== src/Platform/LinkedIn/Connect.antt =====
-- linkedin.go: authURL, exchangeCode, fetchPersonURN and linkedinDisplayName. The bodies that go
-- into error texts are not cut to 512 bytes.
use social.Prelude.{String, not, ◌==◌, if◌then◌else◌, Option, none, some, [], ◌∷◌, str_eq}
use Prim.Native.String.{◌++◌}
use social.Model.Http.{Request, Response, ClientConfig}
use social.Model.Errors.{Result, ok, err, plain, wrapped, itoa}
use social.Exec.{Env, M, ◌>>=◌, fail, lift, on_error, send}
use social.Platform.Text.{cut_prefix}
use social.Platform.Twitter.{TokenResponse, token_of, decoded}

unfoldable pub auth_url : Env → ClientConfig → (state : String) → String
auth_url env cfg state =
    "https://www.linkedin.com/oauth/v2/authorization?"
    ++ env.encode_query (
        ("response_type", "code")
        ∷ ("client_id", cfg.client_id)
        ∷ ("redirect_uri", cfg.redirect_url)
        ∷ ("state", state)
        ∷ ("scope", "openid profile w_member_social")
        ∷ [])

-- The error of a status other than 200.
abbrev status_error : String → Response → String
status_error what r = what ++ ": HTTP " ++ itoa r.status ++ ": " ++ r.body

unfoldable pub linkedin_token_reply : Response → Result TokenResponse
unfolding token_of
linkedin_token_reply r =
    if not (r.status == 200)
    then err (plain (status_error "social: linkedin token exchange" r))
    else token_of "social: linkedin token decode" r

unfoldable pub exchange_code : ClientConfig → (code : String) → M TokenResponse
unfolding linkedin_token_reply
exchange_code cfg code = do
  let req : Request = record {
    method = "POST";
    url = "https://www.linkedin.com/oauth/v2/accessToken";
    auth = "";
    fields =
        ("grant_type", "authorization_code")
        ∷ ("code", code)
        ∷ ("redirect_uri", cfg.redirect_url)
        ∷ ("client_id", cfg.client_id)
        ∷ ("client_secret", cfg.client_secret)
        ∷ [];
  }
  r ← on_error (wrapped "social: linkedin token exchange") (send req)
  lift (linkedin_token_reply r)

unfoldable pub person_urn : String → Result String
person_urn sub =
    if str_eq sub ""
    then err (plain "social: linkedin userinfo: sub field is empty")
    else ok ("urn:li:person:" ++ sub)

unfoldable pub userinfo_sub : Response → M String
unfolding decoded
userinfo_sub r =
    if not (r.status == 200)
    then fail (plain (status_error "social: linkedin userinfo" r))
    else lift (decoded "sub" "social: linkedin userinfo decode" r)

unfoldable pub fetch_person_urn : (access_token : String) → M String
unfolding person_urn userinfo_sub
fetch_person_urn access_token = do
  let req : Request = record {
    method = "GET";
    url = "https://api.linkedin.com/v2/userinfo";
    auth = "Bearer " ++ access_token;
    fields = [];
  }
  r ← on_error (wrapped "social: linkedin userinfo") (send req)
  sub ← userinfo_sub r
  lift (person_urn sub)

abbrev named : Option String → String
named none = "linkedin"
named (some after) = "linkedin:" ++ after

unfoldable pub linkedin_display_name : String → String
unfolding cut_prefix
linkedin_display_name urn = named (cut_prefix "urn:li:person:" urn)

abbrev pub linkedin_instance_url : String
linkedin_instance_url = "https://www.linkedin.com"
