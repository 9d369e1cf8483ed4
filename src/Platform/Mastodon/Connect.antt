-- ===== src/Platform/Mastodon/Connect.antt =====
-- mastodon.go: authURL and exchangeCode.
use social.Prelude.{String, if◌then◌else◌, List, [], ◌∷◌, str_eq}
use Prim.Native.String.{◌++◌}
use social.Model.Http.{Request, ClientConfig}
use social.Model.Errors.{wrapped}
use social.Exec.{Env, M, ◌>>=◌, lift, on_error, send}
use social.Platform.Text.{trim_slashes, replace_plus}
use social.Platform.Mastodon.{effective_scope, optional_field}
use social.Platform.Twitter.{TokenResponse, token_reply}

abbrev pkce_fields : String → List (String × String)
pkce_fields code_challenge =
    if str_eq code_challenge ""
    then []
    else ("code_challenge", code_challenge) ∷ ("code_challenge_method", "S256") ∷ []

-- The parameters are encoded by url.Values.Encode.
unfoldable pub auth_url : Env → ClientConfig → (state code_challenge : String) → String
auth_url env cfg state code_challenge =
    trim_slashes cfg.instance_url
    ++ "/oauth/authorize?"
    ++ replace_plus (
        env.encode_query (
          ("client_id", cfg.client_id)
          ∷ ("redirect_uri", cfg.redirect_url)
          ∷ ("response_type", "code")
          ∷ ("scope", effective_scope cfg)
          ∷ ("state", state)
          ∷ pkce_fields code_challenge))

unfoldable pub token_request : ClientConfig → (code code_verifier : String) → Request
token_request cfg code code_verifier = record {
  method = "POST";
  url = trim_slashes cfg.instance_url ++ "/oauth/token";
  auth = "";
  fields =
      ("grant_type", "authorization_code")
      ∷ ("code", code)
      ∷ ("client_id", cfg.client_id)
      ∷ ("client_secret", cfg.client_secret)
      ∷ ("redirect_uri", cfg.redirect_url)
      ∷ ("scope", effective_scope cfg)
      ∷ optional_field "code_verifier" code_verifier;
}

unfoldable pub exchange_code : ClientConfig → (code code_verifier : String) → M TokenResponse
unfolding token_request token_reply
exchange_code cfg code code_verifier = do
  r ← on_error (wrapped "social: token exchange") (send (token_request cfg code code_verifier))
  lift (token_reply "social: token exchange" r)
