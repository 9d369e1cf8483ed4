-- ===== src/Oauth/Guarded.antt =====
-- The three platforms of oauth.go: how each callback ends, and that a refusal stores no credential.
use social.Prelude.{
  arith, ◌≡◌, ◌∙◌, subst, Option-cases, String, Bool, ◌||◌, Option, none, some, List, inl, inr,
  refl, Bool-cases, str_eq,
}
use social.Model.{CredentialRow, OauthState, Platform}
use social.Model.Status.{platform_text}
use social.Model.Errors.{Result, ok, err}
use social.Model.Http.{Response, ClientConfig, Clients}
use social.Exec.{M, Env, Sys, gets, fail, try, ◌>>=◌}
use social.Exec.Keeps.{Keeps, keeps_rules, StatementKeeps}
use social.Oauth.{consume_oauth_state, consume_row, delete_states}
use social.Oauth.Callback.{
  Answer, nil_dereference, Query, matched, checked_callback, mastodon_exchanged, mastodon_connect,
  linkedin_identified, linkedin_exchanged, linkedin_connect, x_exchanged, x_connect,
}
use social.Platform.LinkedIn.{expires_at}
use social.Platform.LinkedIn.Connect.{userinfo_sub, fetch_person_urn}
use social.Platform.LinkedIn.Connect as LinkedInConnect
use social.Platform.Mastodon.Connect as MastodonConnect
use social.Platform.Twitter.{TokenResponse}
use social.Platform.Twitter
use social.Prelude.Int.{is_positive, ℤ}
use social.Oauth.Guards.{
  SameCredentials, Spares, Steps, Guards, pure-Guards, try-Steps, Guards-bind, saved-Guards,
  bad_gateway-Guards, Ends, Ends-of_Guards, gets-Steps,
}

expires_at-Steps : (n : ℤ) → Steps (expires_at n)
unfolding expires_at
expires_at-Steps n = elim (Bool-cases (is_positive n)) [
  | inl e ↦ rw e (record { at = λ env s. (_, (refl, refl)) })
  | inr e ↦ rw e (record { at = λ env s. (_, (refl, refl)) })
]

mastodon_exchange-Spares :
    (cfg : ClientConfig) (code v : String) → Spares (MastodonConnect.exchange_code cfg code v)
unfolding MastodonConnect.exchange_code
mastodon_exchange-Spares cfg code v enforce rows = search keeps_rules

linkedin_exchange-Spares :
    (cfg : ClientConfig) (code : String) → Spares (LinkedInConnect.exchange_code cfg code)
unfolding LinkedInConnect.exchange_code
linkedin_exchange-Spares cfg code enforce rows = search keeps_rules

userinfo_sub-Spares : (r : Response) → Spares (userinfo_sub r)
unfolding userinfo_sub
userinfo_sub-Spares r enforce rows = search keeps_rules

fetch_person_urn-Spares : (token : String) → Spares (fetch_person_urn token)
unfolding fetch_person_urn
fetch_person_urn-Spares token enforce rows = search (keeps_rules, userinfo_sub-Spares)

x_exchange-Spares :
    (cfg : ClientConfig) (code v : String) → Spares (Twitter.exchange_code cfg code v)
unfolding Twitter.exchange_code
x_exchange-Spares cfg code v enforce rows = search keeps_rules

mastodon_exchanged-Guards :
    (cfg : ClientConfig) (r : Result TokenResponse) → Guards (mastodon_exchanged cfg r)
unfolding mastodon_exchanged
mastodon_exchanged-Guards cfg (err e) = bad_gateway-Guards _ e
mastodon_exchanged-Guards cfg (ok tr) =
    Guards-bind (expires_at-Steps tr.expires_in) (λ expires. saved-Guards _ _ _ _ _ _ _ _ _)

x_exchanged-Guards : (cfg : ClientConfig) (r : Result TokenResponse) → Guards (x_exchanged cfg r)
unfolding x_exchanged
x_exchanged-Guards cfg (err e) = bad_gateway-Guards _ e
x_exchanged-Guards cfg (ok tr) =
    Guards-bind (expires_at-Steps tr.expires_in) (λ expires. saved-Guards _ _ _ _ _ _ _ _ _)

linkedin_identified-Guards :
    (cfg : ClientConfig) (tr : TokenResponse) (r : Result String)
    → Guards (linkedin_identified cfg tr r)
unfolding linkedin_identified
linkedin_identified-Guards cfg tr (err e) = bad_gateway-Guards _ e
linkedin_identified-Guards cfg tr (ok id) =
    Guards-bind (expires_at-Steps tr.expires_in) (λ expires. saved-Guards _ _ _ _ _ _ _ _ _)

linkedin_exchanged-Guards :
    (cfg : ClientConfig) (r : Result TokenResponse) → Guards (linkedin_exchanged cfg r)
unfolding linkedin_exchanged
linkedin_exchanged-Guards cfg (err e) = bad_gateway-Guards _ e
linkedin_exchanged-Guards cfg (ok tr) =
    Guards-bind (try-Steps (fetch_person_urn-Spares tr.access_token))
      (λ id. linkedin_identified-Guards cfg tr id)

-- A step that reads a client, and what follows where it is there.
connect-Ends :
    (client : Clients → Option ClientConfig) (f : Option ClientConfig → M Answer)
    → f none ≡ fail nil_dereference
    → ((cfg : ClientConfig) → Guards (f (some cfg)))
    → Ends (λ c. client c ≡ none) (gets (λ s. client s.clients) >>= f)
connect-Ends client f missing k = record {
  at = λ env s. elim (Option-cases (client s.clients)) [
    | inl e ↦ inr (rw e (rw missing (refl, refl, refl)))
    | inr (cfg, e) ↦ inl (rw e ((k cfg).at env s))
  ];
}

mastodon_connect-Guards :
    (code v : String) (cfg : ClientConfig) → Guards (mastodon_connect code v (some cfg))
unfolding mastodon_connect
mastodon_connect-Guards code v cfg =
    Guards-bind (try-Steps (mastodon_exchange-Spares cfg code v))
      (λ r. mastodon_exchanged-Guards cfg r)

linkedin_connect-Guards :
    (code : String) (cfg : ClientConfig) → Guards (linkedin_connect code (some cfg))
unfolding linkedin_connect
linkedin_connect-Guards code cfg =
    Guards-bind (try-Steps (linkedin_exchange-Spares cfg code))
      (λ r. linkedin_exchanged-Guards cfg r)

x_connect-Guards :
    (code v : String) (client : Option ClientConfig) → Guards (x_connect code v client)
unfolding x_connect
x_connect-Guards code v none = pure-Guards _
x_connect-Guards code v (some cfg) =
    Guards-bind (try-Steps (x_exchange-Spares cfg code v)) (λ r. x_exchanged-Guards cfg r)

pub mastodon-Ends :
    (code v : String)
    → Ends (λ c. c.mastodon ≡ none) (gets (λ s. s.clients.mastodon) >>= mastodon_connect code v)
unfolding mastodon_connect
mastodon-Ends code v =
    connect-Ends (λ c. c.mastodon) (mastodon_connect code v) refl (mastodon_connect-Guards code v)

pub linkedin-Ends :
    (code : String)
    → Ends (λ c. c.linkedin ≡ none) (gets (λ s. s.clients.linkedin) >>= linkedin_connect code)
unfolding linkedin_connect
linkedin-Ends code =
    connect-Ends (λ c. c.linkedin) (linkedin_connect code) refl (linkedin_connect-Guards code)

-- X answers that it is not configured.
pub x-Ends : (code v : String) → Ends (λ c. ⊥) (gets (λ s. s.clients.twitter) >>= x_connect code v)
x-Ends code v = Ends-of_Guards (Guards-bind (gets-Steps _) (x_connect-Guards code v))

delete_states-Keeps :
    (test : OauthState → Bool) (enforce : Bool) (rows : List CredentialRow)
    → StatementKeeps (SameCredentials rows) enforce (delete_states test)
unfolding delete_states
delete_states-Keeps test enforce rows db h = h

consume_row-Keeps :
    (state : String) (row : Option OauthState) (enforce : Bool) (rows : List CredentialRow)
    → Keeps enforce (SameCredentials rows) (consume_row state row)
unfolding consume_row
consume_row-Keeps state none enforce rows = search keeps_rules
consume_row-Keeps state (some o) enforce rows = search (keeps_rules, delete_states-Keeps)

consume-Spares : (state : String) → Spares (consume_oauth_state state)
unfolding consume_oauth_state
consume-Spares state enforce rows = search (keeps_rules, consume_row-Keeps)

-- The clients stay as they are.
consume-clients :
    (state : String) (env : Env) (s : Sys) → (consume_oauth_state state env s).1.clients ≡ s.clients
unfolding consume_oauth_state consume_row delete_states
consume-clients state env s = ground arith

module _ (Missing : Clients → Type 0) where
  matched-Ends :
      (expected : String) (r : Result (Platform × String)) (next : String → M Answer)
      → ((v : String) → Ends Missing (next v))
      → Ends Missing (matched expected r next)
  unfolding matched
  matched-Ends expected (err e) next k = Ends-of_Guards (pure-Guards _)
  matched-Ends expected (ok (platform, v)) next k =
      elim (Bool-cases (str_eq (platform_text platform) expected)) [
        | inl e ↦ rw e (k v)
        | inr e ↦ rw e (Ends-of_Guards (pure-Guards _))
      ]

  consumed-Ends :
      (state : String) (f : Result (Platform × String) → M Answer)
      → ((r : Result (Platform × String)) → Ends Missing (f r))
      → Ends Missing (try (consume_oauth_state state) >>= f)
  consumed-Ends state f k = record {
    at = λ env s.
        let (r, t) = consume_oauth_state state env s in
        let kept : t.db.credentials ≡ s.db.credentials =
          (consume-Spares state env.enforce_refs s.db.credentials).at env s refl refl in
        elim ((k r).at env t) [
          | inl (a, (answered, guarded)) ↦
              inl (a, (answered, elim guarded [ inl n ↦ inl n | inr e ↦ inr (e ∙ kept) ]))
          | inr (missing, panicked, same) ↦
              inr (subst Missing (consume-clients state env s) missing, panicked, same ∙ kept)
        ];
  }

  pub checked_callback-Ends :
      (expected : String) (q : Query) (next : String → M Answer)
      → ((v : String) → Ends Missing (next v))
      → Ends Missing (checked_callback expected q next)
  unfolding checked_callback
  checked_callback-Ends expected q next k = elim (Bool-cases (str_eq q.error "")) [
    | inr e ↦ rw e (Ends-of_Guards (pure-Guards _))
    | inl e ↦ elim (Bool-cases (str_eq q.code "" || str_eq q.state "")) [
      | inl f ↦ rw e (rw f (Ends-of_Guards (pure-Guards _)))
      | inr f ↦ rw e (rw f (consumed-Ends q.state _ (λ r. matched-Ends expected r next k)))
    ]
  ]
