-- ===== src/Oauth/Refused.antt =====
-- The callbacks of oauth.go: a refusal stores no credential, and a success needs a state token.
use social.Prelude.{
  none, suc, String, true, false, ◌||◌, ◌≡◌, ◌⊎◌, inl, inr, refl, arith, Bool-cases, Mem, eq_iff,
  str_eq,
}
use social.Model.{OauthState, Platform}
use social.Model.Status.{platform_text}
use social.Model.Errors.{Result, ok, err}
use social.Exec.{Env, Sys, M}
use social.Model.Http.{Clients}
use social.Oauth.{consume_oauth_state}
use social.Oauth.State.{Vouches, consume_oauth_state-Vouches}
use social.Oauth.Callback.{
  Answer, Query, matched, checked_callback, handle_mastodon_callback, handle_linkedin_callback,
  handle_x_callback,
}
use social.Oauth.Guards.{is_refusal, Ends, Panicked}
use social.Oauth.Guarded.{mastodon-Ends, linkedin-Ends, x-Ends, checked_callback-Ends}

matched_accepted :
    (expected : String) (r : Result (Platform × String)) (next : String → M Answer) (env : Env)
    (s : Sys) (a : Answer)
    → (matched expected r next env s).0 ≡ ok a
    → is_refusal a ≡ false
    → (result : Platform × String) × ((r ≡ ok result) × (platform_text result.0 ≡ expected))
unfolding matched is_refusal
matched_accepted expected (err e) next env s a h n = absurd (ground (arith, h, n))
matched_accepted expected (ok (platform, v)) next env s a h n =
    elim (Bool-cases (str_eq (platform_text platform) expected)) [
      | inl e ↦ ((platform, v), (refl, (eq_iff (platform_text platform) expected).0 e))
      | inr e ↦ absurd (let k = rw e at h in ground (arith, k, n))
    ]

-- A state token that was stored for the platform, and is not too old.
abbrev pub Accepts : (expected : String) → Query → Env → Sys → Type 0
Accepts expected q env s =
    (result : Platform × String) × ((platform_text result.0 ≡ expected)
      × ((o : OauthState) × (Mem o s.db.oauth_states
            × Vouches q.state result (env.clock (suc (suc s.tick))) o)))

-- The callback has answered: it has refused and left the credentials as they were, or it has
-- accepted a state token.
abbrev pub Answered : (expected : String) → Query → Env → Sys → Result Answer × Sys → Type 0
Answered expected q env s out =
    (a : Answer) × ((out.0 ≡ ok a)
      × (((is_refusal a ≡ true) × (out.1.db.credentials ≡ s.db.credentials))
          ⊎ ((is_refusal a ≡ false) × Accepts expected q env s)))

accepted :
    (expected : String) (q : Query) (next : String → M Answer) (env : Env) (s : Sys) (a : Answer)
    → (checked_callback expected q next env s).0 ≡ ok a
    → is_refusal a ≡ false
    → Accepts expected q env s
unfolding checked_callback is_refusal
accepted expected q next env s a h n = elim (Bool-cases (str_eq q.error "")) [
  | inr e ↦ absurd (let k = rw e at h in ground (arith, k, n))
  | inl e ↦ elim (Bool-cases (str_eq q.code "" || str_eq q.state "")) [
    | inl f ↦ absurd (let k = rw f at (rw e at h) in ground (arith, k, n))
    | inr f ↦
        let k = rw f at (rw e at h) in
        let (r, t) = consume_oauth_state q.state env s in
        let (result, (consumed, same)) = matched_accepted expected r next env t a k n in
        (result, (same, consume_oauth_state-Vouches q.state env s result consumed))
  ]
]

-- The callback has answered like that, or it has panicked without its client.
abbrev pub Ended :
    (Clients → Type 0) → (expected : String) → Query → Env → Sys → Result Answer × Sys → Type 0
Ended Missing expected q env s out = Answered expected q env s out ⊎ Panicked Missing s out

guarded-Ended :
    (Missing : Clients → Type 0) (expected : String) (q : Query) (next : String → M Answer)
    → ((v : String) → Ends Missing (next v))
    → (env : Env) (s : Sys)
    → Ended Missing expected q env s (checked_callback expected q next env s)
unfolding is_refusal
guarded-Ended Missing expected q next k env s =
    elim ((checked_callback-Ends Missing expected q next k).at env s) [
      | inr p ↦ inr p
      | inl (a, (answered, guarded)) ↦ inl (
        a,
        (
          answered,
          elim (Bool-cases (is_refusal a)) [
            | inl r ↦ inl (r, elim guarded [ inl n ↦ absurd (cc) | inr e ↦ e ])
            | inr n ↦ inr (n, accepted expected q next env s a answered n)
          ],
        ),
      )
    ]

-- The callback of X answers, and those of Mastodon and LinkedIn answer or panic, which they do only
-- where the client of the platform is missing. An answer either tells of an error and the stored
-- credentials are as they were, or the request's state was a stored token of that platform, within
-- its time to live. A panic leaves the credentials as they were as well.
pub callback-Answered :
    (q : Query) (env : Env) (s : Sys)
    → Ended (λ c. c.mastodon ≡ none) "mastodon" q env s (handle_mastodon_callback q env s)
      × Ended (λ c. c.linkedin ≡ none) "linkedin" q env s (handle_linkedin_callback q env s)
      × Answered "x" q env s (handle_x_callback q env s)
unfolding handle_mastodon_callback handle_linkedin_callback handle_x_callback
callback-Answered q env s = (
  guarded-Ended (λ c. c.mastodon ≡ none) "mastodon" q _ (mastodon-Ends q.code) env s,
  guarded-Ended (λ c. c.linkedin ≡ none) "linkedin" q _ (λ v. linkedin-Ends q.code) env s,
  elim (guarded-Ended (λ c. ⊥) "x" q _ (x-Ends q.code) env s) [ inl a ↦ a | inr p ↦ absurd p.0 ],
)
