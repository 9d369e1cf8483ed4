-- ===== src/Platform/Twitter/Connect.antt =====
-- twitter.go: generatePKCE, effectiveScope and authURL.
use social.Prelude.{String, Option, none, some, [], ◌∷◌}
use Prim.Native.String.{◌++◌}
use social.Model.Http.{ClientConfig}
use social.Model.Errors.{Result, ok, err, plain}
use social.Exec.{Env, M, bump}
use social.Platform.Mastodon.{join_scopes}

-- The verifier and its challenge.
abbrev paired : Env → Option String → Result (String × String)
paired env none = err (plain "social: generate PKCE")
paired env (some v) = ok (v, env.challenge v)

unfoldable pub generate_pkce : M (String × String)
generate_pkce env s = (paired env (env.verifier s.tick), bump s)

unfoldable pub effective_scope : ClientConfig → String
unfolding join_scopes
effective_scope cfg = elim cfg.scopes [
  | [] ↦ "tweet.read users.read tweet.write offline.access media.write"
  | s ∷ ss ↦ join_scopes (s ∷ ss)
]

unfoldable pub auth_url : Env → ClientConfig → (state code_challenge : String) → String
unfolding effective_scope
auth_url env cfg state code_challenge =
    "https://x.com/i/oauth2/authorize?"
    ++ env.encode_query (
        ("response_type", "code")
        ∷ ("client_id", cfg.client_id)
        ∷ ("redirect_uri", cfg.redirect_url)
        ∷ ("scope", effective_scope cfg)
        ∷ ("state", state)
        ∷ ("code_challenge", code_challenge)
        ∷ ("code_challenge_method", "S256")
        ∷ [])
