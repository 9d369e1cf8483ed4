-- ===== src/Oauth/Guards.antt =====
-- Steps that leave the credentials alone, and answers whose refusals do; for oauth.go.
use social.Prelude.{
  ℕ, String, Bool, true, false, Option, List, ◌≡◌, ◌⊎◌, inl, inr, refl, ap, ◌∙◌, arith,
}
use social.Model.{CredentialRow, Db, Platform}
use social.Model.Http.{Clients}
use social.Model.Errors.{Error, Result, ok, err}
use social.Exec.{Env, Sys, M, and_then, ◌>>=◌, pure, try, gets}
use social.Exec.Keeps.{Keeps}
use social.Credential.{
  upsert_credential_by_instance, write_credential, encrypt_token, insert_credential_row,
  update_credential_row,
}
use social.Oauth.Callback.{
  bad_gateway, Answer, http_error, redirect, connected, success, saved_answer, nil_dereference,
}

-- The answers that tell of an error.
unfoldable pub is_refusal : Answer → Bool
is_refusal (http_error code text) = true
is_refusal (redirect url) = false
is_refusal (connected platform) = false

-- The credentials are those.
abbrev pub SameCredentials : List CredentialRow → Db → Type 0
SameCredentials rows db = db.credentials ≡ rows

abbrev pub Spares : {A : Type 0} → M A → Type 0
Spares m = (enforce : Bool) (rows : List CredentialRow) → Keeps enforce (SameCredentials rows) m

-- A step that returns and leaves the credentials as they are.
pub record Steps {A : Type 0} (m : M A) : Type 0 where
  pub at :
      (env : Env) (s : Sys)
      → (x : A) × (((m env s).0 ≡ ok x) × ((m env s).1.db.credentials ≡ s.db.credentials))

-- The method has answered; if the answer is a refusal, the credentials are as before.
abbrev pub Guarded : Sys → Result Answer × Sys → Type 0
Guarded s out =
    (a : Answer) × ((out.0 ≡ ok a)
      × ((is_refusal a ≡ false) ⊎ (out.1.db.credentials ≡ s.db.credentials)))

pub record Guards (m : M Answer) : Type 0 where
  pub at : (env : Env) (s : Sys) → Guarded s (m env s)

-- The method has panicked on a nil client, and the credentials are as before.
abbrev pub Panicked : (Clients → Type 0) → Sys → Result Answer × Sys → Type 0
Panicked Missing s out =
    Missing s.clients × (out.0 ≡ err nil_dereference) × (out.1.db.credentials ≡ s.db.credentials)

-- The method answers like that, or it panics as a client is missing.
pub record Ends (Missing : Clients → Type 0) (m : M Answer) : Type 0 where
  pub at : (env : Env) (s : Sys) → Guarded s (m env s) ⊎ Panicked Missing s (m env s)

pub Ends-of_Guards : {Missing : Clients → Type 0} {m : M Answer} → Guards m → Ends Missing m
Ends-of_Guards k = record { at = λ env s. inl (k.at env s) }

pub pure-Guards : (a : Answer) → Guards (pure a)
pure-Guards a = record { at = λ env s. (a, (refl, inr refl)) }

pub try-Steps : {A : Type 0} {m : M A} → Spares m → Steps (try m)
try-Steps {m = m} k = record {
  at = λ env s. ((m env s).0, (refl, (k env.enforce_refs s.db.credentials).at env s refl refl));
}

pub gets-Steps : {A : Type 0} (f : Sys → A) → Steps (gets f)
gets-Steps f = record { at = λ env s. (f s, (refl, refl)) }

continued :
    {A : Type 0} (r : Result A) (f : A → M Answer) (env : Env) (s : Sys) (x : A)
    → r ≡ ok x
    → Guards (f x)
    → (a : Answer) × (((and_then r f env s).0 ≡ ok a)
        × ((is_refusal a ≡ false) ⊎ ((and_then r f env s).1.db.credentials ≡ s.db.credentials)))
continued (ok y) f env s x e k = let same : y ≡ x = cc in rw same (k.at env s)
continued (err y) f env s x e k = absurd (cc)

pub Guards-bind :
    {A : Type 0} {m : M A} {f : A → M Answer}
    → Steps m
    → ((x : A) → Guards (f x))
    → Guards (m >>= f)
Guards-bind {m = m} {f = f} c k = record {
  at = λ env s.
      let (r, t) = m env s in
      let (x, (returned, kept)) = c.at env s in
      let (a, (answered, guarded)) = continued r f env t x returned (k x) in
      (a, (answered, elim guarded [ inl n ↦ inl n | inr e ↦ inr (e ∙ kept) ]));
}

pub bad_gateway-Guards : (what : String) (e : Error) → Guards (bad_gateway what e)
bad_gateway-Guards what e = record { at = λ env s. (_, (refl, inr refl)) }

upsert_failed :
    (platform : Platform) (url name access refresh actor_id : String) (expires : Option ℕ)
    (env : Env) (s : Sys) (e : Error)
    → (upsert_credential_by_instance platform url name access refresh actor_id expires env s).0
      ≡ err e
    → (upsert_credential_by_instance platform url name access refresh actor_id expires env s).1.db
      ≡ s.db
unfolding upsert_credential_by_instance write_credential encrypt_token insert_credential_row
    update_credential_row
upsert_failed platform url name access refresh actor_id expires env s e h = ground (arith, h)

saved_cases :
    (r : Result String) (platform url : String) (env : Env) (s : Sys)
    → (a : Answer) × (((saved_answer platform url r env s) ≡ (ok a, s))
        × ((is_refusal a ≡ false) ⊎ ((e : Error) × (r ≡ err e))))
unfolding saved_answer success is_refusal
saved_cases (ok id) platform url env s = (success platform url, (refl, inl (ground arith)))
saved_cases (err e) platform url env s =
    (http_error 500 "failed to save credential", (refl, inr (e, refl)))

pub saved-Guards :
    (title success_url : String) (platform : Platform) (url name access refresh actor_id : String)
    (expires : Option ℕ)
    → Guards (
        try (upsert_credential_by_instance platform url name access refresh actor_id expires)
        >>= saved_answer title success_url)
saved-Guards title success_url platform url name access refresh actor_id expires = record {
  at = λ env s.
      let (x, t) =
        upsert_credential_by_instance platform url name access refresh actor_id expires env s in
      let (a, (answered, cases)) = saved_cases x title success_url env t in
      (
        a,
        (
          ap (λ out. out.0) answered,
          elim cases [
            | inl n ↦ inl n
            | inr (e, failed) ↦ inr (
                ap (λ out. out.1.db.credentials) answered
                ∙ ap (λ d. d.credentials)
                    (upsert_failed platform url name access refresh actor_id expires env s e
                      failed))
          ],
        ),
      );
}
