-- ===== src/Tools/Verifier.antt =====
-- The OAuth flow of X from mcp.go to oauth.go: the code verifier of PKCE reaches the token endpoint.
use Prim.Native.String.{◌++◌}
use social.Prelude.{
  [], Mem, here, there, List, ℕ, suc, ◌+◌, ◌≤◌, String, false, Option, some, ◌∷◌, ◌≡◌, refl, ap,
  ◌∙◌, arith, str_eq,
}
use social.Table.{count}
use social.Model.{Platform, x_twitter}
use social.Model.Status.{platform_text}
use social.Model.Http.{Request, ClientConfig}
use social.Model.Errors.{Result, ok, err}
use social.Exec.{try, Env, Sys, M, and_then, ◌>>=◌, bump}
use social.Credential.{
  upsert_credential_by_instance, write_credential, encrypt_token, insert_credential_row,
  update_credential_row,
}
use social.Oauth.{
  insert_oauth_state, insert_state_row, consume_oauth_state, consume_row, delete_states, is_state,
  oauth_state_ttl,
}
use social.Oauth.State.{consume-insert}
use social.Oauth.Callback.{
  Query, matched, checked_callback, saved_answer, x_exchanged, x_connect, handle_x_callback,
}
use social.Platform.LinkedIn.{expires_at}
use social.Platform.Twitter.{TokenResponse, exchange_request}
use social.Platform.Twitter
use social.Platform.Twitter.Connect.{generate_pkce, auth_url, effective_scope}
use social.Post.Delete.{NoFaults}
use social.Tools.{Fields, string_field}
use social.Tools.Credentials.{connect_x, mcp_create_credential, Connection}
use social.Prelude.Int.{ℤ}

-- The state token that a connection to X makes, and the state of the system before it is stored.
abbrev pub new_state : Env → Sys → String
new_state env s = env.fresh_id (suc s.tick)

connect_x-insert :
    (cfg : ClientConfig) (v : String) (env : Env) (s : Sys)
    → NoFaults env
    → s.clients.twitter ≡ some cfg
    → env.verifier s.tick ≡ some v
    → count (is_state (new_state env s)) s.db.oauth_states ≡ 0
    → ((connect_x env s).0
        ≡ ok (record {
          redirect_url = auth_url env cfg (new_state env s) (env.challenge v);
          platform_name = "X";
        }))
      × ((connect_x env s).1
          ≡ (insert_oauth_state (new_state env s) x_twitter v env (bump (bump s))).1)
unfolding connect_x generate_pkce insert_oauth_state insert_state_row
connect_x-insert cfg v env s nf c p new =
    rw c (rw p (rw (nf (suc (suc (suc s.tick)))) (rw new (refl, refl))))

inserted-same :
    (state : String) (platform : Platform) (v : String) (env : Env) (s : Sys)
    → NoFaults env
    → count (is_state state) s.db.oauth_states ≡ 0
    → ((insert_oauth_state state platform v env s).0 ≡ ok tt)
      × ((insert_oauth_state state platform v env s).1.clients ≡ s.clients)
      × ((insert_oauth_state state platform v env s).1.sent ≡ s.sent)
unfolding insert_oauth_state insert_state_row
inserted-same state platform v env s nf new = rw (nf (suc s.tick)) (rw new (refl, refl, refl))

consumed-same :
    (state : String) (env : Env) (s : Sys)
    → ((consume_oauth_state state env s).1.clients ≡ s.clients)
      × ((consume_oauth_state state env s).1.sent ≡ s.sent)
unfolding consume_oauth_state consume_row delete_states
consumed-same state env s = (ground arith, ground arith)

upsert-sent :
    (platform : Platform) (url name access refresh actor_id : String) (expires : Option ℕ)
    (env : Env) (s : Sys)
    → (upsert_credential_by_instance platform url name access refresh actor_id expires env s).1.sent
      ≡ s.sent
unfolding upsert_credential_by_instance write_credential encrypt_token insert_credential_row
    update_credential_row
upsert-sent platform url name access refresh actor_id expires env s = ground arith

-- A method that sends nothing.
record Quiet {A : Type 0} (m : M A) : Type 0 where
  at : (env : Env) (s : Sys) → (m env s).1.sent ≡ s.sent

continued-sent :
    {A B : Type 0} (r : Result A) (f : A → M B) (env : Env) (s : Sys)
    → ((a : A) → Quiet (f a))
    → (and_then r f env s).1.sent ≡ s.sent
continued-sent (ok a) f env s k = (k a).at env s
continued-sent (err e) f env s k = refl

Quiet-bind :
    {A B : Type 0} {m : M A} {f : A → M B} → Quiet m → ((a : A) → Quiet (f a)) → Quiet (m >>= f)
Quiet-bind {m = m} {f = f} q k = record {
  at = λ env s. let (r, t) = m env s in continued-sent r f env t k ∙ q.at env s;
}

expires_at-Quiet : (n : ℤ) → Quiet (expires_at n)
unfolding expires_at
expires_at-Quiet n = record { at = λ env s. ground arith }

saved-Quiet : (title url : String) (r : Result String) → Quiet (saved_answer title url r)
unfolding saved_answer
saved-Quiet title url (ok id) = record { at = λ env s. refl }
saved-Quiet title url (err e) = record { at = λ env s. refl }

upsert-Quiet :
    (platform : Platform) (url name access refresh actor_id : String) (expires : Option ℕ)
    → Quiet (try (upsert_credential_by_instance platform url name access refresh actor_id expires))
upsert-Quiet platform url name access refresh actor_id expires = record {
  at = upsert-sent platform url name access refresh actor_id expires;
}

x_exchanged-Quiet : (cfg : ClientConfig) (r : Result TokenResponse) → Quiet (x_exchanged cfg r)
unfolding x_exchanged
x_exchanged-Quiet cfg (err e) = record { at = λ env s. refl }
x_exchanged-Quiet cfg (ok tr) =
    Quiet-bind (expires_at-Quiet tr.expires_in) (λ expires.
      Quiet-bind (upsert-Quiet _ _ _ _ _ _ _) (λ id. saved-Quiet "X" cfg.success_url id))

exchange_code-sent :
    (code v : String) (cfg : ClientConfig) (env : Env) (s : Sys)
    → (Twitter.exchange_code cfg code v env s).1.sent ≡ exchange_request cfg code v ∷ s.sent
unfolding Twitter.exchange_code
exchange_code-sent code v cfg env s = ground arith

x_connect-sent :
    (code v : String) (cfg : ClientConfig) (env : Env) (s : Sys)
    → (x_connect code v (some cfg) env s).1.sent ≡ exchange_request cfg code v ∷ s.sent
unfolding x_connect
x_connect-sent code v cfg env s =
    let (r, t) = Twitter.exchange_code cfg code v env s in
    (x_exchanged-Quiet cfg r).at env t ∙ exchange_code-sent code v cfg env s

-- A callback with a code and a state.
abbrev pub query_of : (code state : String) → Query
query_of code state = record { code = code; state = state; error = "" }

-- What a callback does behind a state token that is accepted for X.
handle_x_callback-sent :
    (code state v : String) (cfg : ClientConfig) (env : Env) (s : Sys)
    → str_eq code "" ≡ false
    → str_eq state "" ≡ false
    → s.clients.twitter ≡ some cfg
    → (consume_oauth_state state env s).0 ≡ ok (x_twitter, v)
    → (handle_x_callback (query_of code state) env s).1.sent ≡ exchange_request cfg code v ∷ s.sent
unfolding handle_x_callback checked_callback matched platform_text
handle_x_callback-sent code state v cfg env s hc hs c h =
    let t : Sys = (consume_oauth_state state env s).1 in
    let (clients, sent) = consumed-same state env s in
    let client : t.clients.twitter ≡ some cfg = ap (λ x. x.twitter) clients ∙ c in
    rw hc (
      rw hs (
        rw h (
          rw client
            (x_connect-sent code v cfg env t ∙ ap (λ rs. exchange_request cfg code v ∷ rs) sent))))

-- One request was sent after the old ones: a form with a code and a code verifier.
pub record Exchanges (code v : String) (old sent : List Request) : Type 0 where
  pub request : Request
  pub last : sent ≡ request ∷ old
  pub with_code : Mem ("code", code) request.fields
  pub with_verifier : Mem ("code_verifier", v) request.fields

-- The URL asks for an authorization with a state and a challenge that is a SHA-256.
pub record Asks (env : Env) (cfg : ClientConfig) (state challenge url : String) : Type 0 where
  pub params : List (String × String)
  pub encoded : url ≡ "https://x.com/i/oauth2/authorize?" ++ env.encode_query params
  pub with_client : Mem ("client_id", cfg.client_id) params
  pub with_state : Mem ("state", state) params
  pub with_challenge : Mem ("code_challenge", challenge) params
  pub with_method : Mem ("code_challenge_method", "S256") params

auth_url-Asks :
    (env : Env) (cfg : ClientConfig) (state challenge : String)
    → Asks env cfg state challenge (auth_url env cfg state challenge)
unfolding auth_url
auth_url-Asks env cfg state challenge = record {
  params =
      ("response_type", "code")
      ∷ ("client_id", cfg.client_id)
      ∷ ("redirect_uri", cfg.redirect_url)
      ∷ ("scope", effective_scope cfg)
      ∷ ("state", state)
      ∷ ("code_challenge", challenge)
      ∷ ("code_challenge_method", "S256")
      ∷ [];
  encoded = refl;
  with_client = there (here refl);
  with_state = there (there (there (there (here refl))));
  with_challenge = there (there (there (there (there (here refl)))));
  with_method = there (there (there (there (there (there (here refl))))));
}

-- The tool returns such a URL.
pub record Sends (env : Env) (cfg : ClientConfig) (state challenge : String) (r : Result Connection)
    : Type 0 where
  pub url : String
  pub returned : r ≡ ok (record { redirect_url = url; platform_name = "X" })
  pub asks : Asks env cfg state challenge url

-- When create_platform_credential for X is followed by the callback with its state token, within
-- the token's time to live, then the URL that it returned carries that token, the client and the
-- challenge of the verifier that was generated, and the callback sends one request, whose form has that verifier and the
-- callback's code; if X is configured, the database has no faults and the identifier is new.
pub handle_x_callback-mcp_create_credential :
    (fields : Fields) (cfg : ClientConfig) (code v : String) (env : Env) (s : Sys)
    → NoFaults env
    → string_field fields "platform" ≡ "x"
    → s.clients.twitter ≡ some cfg
    → env.verifier s.tick ≡ some v
    → count (is_state (new_state env s)) s.db.oauth_states ≡ 0
    → str_eq code "" ≡ false
    → str_eq (new_state env s) "" ≡ false
    → env.clock (suc (suc (suc (suc (suc (suc s.tick))))))
      ≤ env.clock (suc (suc s.tick)) + oauth_state_ttl
    → Sends env cfg (new_state env s) (env.challenge v) (mcp_create_credential fields env s).0
      × Exchanges code v s.sent
          (handle_x_callback
            (query_of code (new_state env s))
            env
            (mcp_create_credential fields env s).1).1.sent
unfolding mcp_create_credential exchange_request
handle_x_callback-mcp_create_credential fields cfg code v env s nf p c g new hc hs ttl =
    let state = new_state env s in
    let start : Sys = bump (bump s) in
    let (url, left) = connect_x-insert cfg v env s nf c g new in
    let (done, clients, sent) = inserted-same state x_twitter v env start nf new in
    let t : Sys = (insert_oauth_state state x_twitter v env start).1 in
    let consumed : (consume_oauth_state state env t).0 ≡ ok (x_twitter, v) =
      rw done at (consume-insert state x_twitter v env start nf new ttl) in
    let exchanged =
      handle_x_callback-sent code state v cfg env t hc hs (ap (λ x. x.twitter) clients ∙ c)
        consumed in
    let whole = exchanged ∙ ap (λ rs. exchange_request cfg code v ∷ rs) sent in
    rw p (
      record {
        url = auth_url env cfg state (env.challenge v);
        returned = url;
        asks = auth_url-Asks env cfg state (env.challenge v);
      },
      record {
        request = exchange_request cfg code v;
        last = rw left whole;
        with_code = there (here refl);
        with_verifier = there (there (there (here refl)));
      },
    )
