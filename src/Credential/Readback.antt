-- ===== src/Credential/Readback.antt =====
-- The tokens that are stored for an instance are those that its credential gives back.
use social.Prelude.{
  suc, String, Bool, true, false, ltb, Option, none, some, List, [], ◌∷◌, ◌++◌, ◌≡◌, inl, inr, refl,
  ap, subst, ◌∙◌, Bool-cases, Option-cases, All-mem, Mem, eq_iff, str_eq, tests,
}
use mathlib.Core.Option
use social.Table.{
  find?, count, update, find?-mem, find?-update_self, find?-append, find?-none, count-none,
  All-count_zero,
}
use social.Model.{Time, CredentialRow, PlatformCredential, Platform, Db}
use social.Model.Errors.{Result, ok}
use social.Exec.{Env, Sys, bump}
use social.Config.Stored.{Unseals}
use social.Credential.{
  encrypt_token, decrypt_token, at_instance, Tokens, set_tokens, update_credential_row,
  insert_credential_row, write_credential, non_empty, upsert_credential_by_instance, without_tokens,
  get_credential,
}
use social.Post.Statements.{is_credential}

-- The table has a credential of that identifier, with the encrypted tokens.
abbrev Holds : Db → String → Tokens → Type 0
Holds db id t =
    (row : CredentialRow) × ((find? (is_credential id) db.credentials ≡ some row)
      × (row.enc_access ≡ t.enc_access)
      × (row.enc_refresh ≡ t.enc_refresh)
      × (row.actor_id ≡ t.actor_id)
      × (row.expires_at ≡ t.expires_at))

find?-some :
    (test : CredentialRow → Bool) (rows : List CredentialRow) (row : CredentialRow)
    → Mem row rows
    → test row ≡ true
    → (found : CredentialRow) × (find? test rows ≡ some found)
find?-some test rows row m h = elim (Option-cases (find? test rows)) [
  | inr found ↦ found
  | inl e ↦ absurd (
      let zero =
        All-mem (λ x. test x ≡ false) rows (All-count_zero test rows (count-none test rows e)) m in
      cc)
]

own_id : (id : String) (row : CredentialRow) → row.id ≡ id → is_credential id row ≡ true
unfolding is_credential
own_id id row e = (eq_iff row.id id).1 e

updated-Holds :
    (platform : Platform) (url : String) (t : Tokens) (at : Time) (row : CredentialRow) (env : Env)
    (s : Sys) (id : String)
    → Mem row s.db.credentials
    → (write_credential platform url t at (some row) env s).0 ≡ ok id
    → Holds (write_credential platform url t at (some row) env s).1.db id t
unfolding write_credential update_credential_row is_credential set_tokens
updated-Holds platform url t at row env s id m h = elim (Option-cases (env.db_fault s.tick)) [
  | inr (msg, f) ↦ absurd (let k = rw f at h in cc)
  | inl f ↦ rw f (
      let same : row.id ≡ id = (let k = rw f at h in cc) in
      let (old, found) =
        find?-some (is_credential id) s.db.credentials row m (own_id id row same) in
      let kept =
        find?-update_self (is_credential id) (set_tokens t at) s.db.credentials (λ x k. k) in
      let moved =
        ap
          (λ i.
            find? (is_credential id) (update (is_credential i) (set_tokens t at) s.db.credentials))
          same in
      (
        set_tokens t at old,
        (moved ∙ (kept ∙ ap (Option.map (set_tokens t at)) found), refl, refl, refl, refl),
      ))
]

appended :
    (id : String) (row : CredentialRow) (rows : List CredentialRow)
    → row.id ≡ id
    → ltb 0 (count (is_credential row.id) rows) ≡ false
    → find? (is_credential id) (rows ++ row ∷ []) ≡ some row
appended id row rows same b =
    let zero : count (is_credential row.id) rows ≡ 0 = grind tests in
    let clear : count (is_credential id) rows ≡ 0 =
      subst (λ i. count (is_credential i) rows ≡ 0) same zero in
    find?-append (is_credential id) rows row
    ∙ rw (find?-none (is_credential id) rows clear) (rw (own_id id row same) refl)

inserted-Holds :
    (platform : Platform) (url : String) (t : Tokens) (at : Time) (env : Env) (s : Sys)
    (id : String)
    → (write_credential platform url t at none env s).0 ≡ ok id
    → Holds (write_credential platform url t at none env s).1.db id t
unfolding write_credential insert_credential_row
inserted-Holds platform url t at env s id h = elim (Option-cases (env.db_fault (suc s.tick))) [
  | inr (msg, f) ↦ absurd (let k = rw f at h in cc)
  | inl f ↦
      elim (Bool-cases (ltb 0 (count (is_credential (env.fresh_id s.tick)) s.db.credentials))) [
        | inl b ↦ absurd (let k = rw b at (rw f at h) in cc)
        | inr b ↦ rw f (
            rw b (
              let same : env.fresh_id s.tick ≡ id = (let k = rw b at (rw f at h) in cc) in
              let row : CredentialRow = record {
                id = env.fresh_id s.tick;
                platform = platform;
                name = t.name;
                instance_url = url;
                actor_id = t.actor_id;
                enc_access = t.enc_access;
                enc_refresh = t.enc_refresh;
                expires_at = t.expires_at;
                created_at = at;
                updated_at = at;
              } in
              (row, (appended id row s.db.credentials same b, refl, refl, refl, refl))))
      ]
]

-- What an accepted write holds: the row that was found is one of the table.
written-Holds :
    (platform : Platform) (url : String) (t : Tokens) (at : Time) (test : CredentialRow → Bool)
    (env : Env) (s : Sys) (id : String)
    → (write_credential platform url t at (non_empty (find? test s.db.credentials)) env s).0 ≡ ok id
    → Holds
        (write_credential platform url t at (non_empty (find? test s.db.credentials)) env s).1.db
        id
        t
unfolding non_empty
written-Holds platform url t at test env s id h =
    elim (Option-cases (find? test s.db.credentials)) [
      | inl e ↦ rw e (inserted-Holds platform url t at env s id (rw e at h))
      | inr (row, e) ↦ elim (Bool-cases (str_eq row.id "")) [
        | inl b ↦ rw e (rw b (inserted-Holds platform url t at env s id (rw b at (rw e at h))))
        | inr b ↦ rw e (
            rw b (
              updated-Holds platform url t at row env s id (find?-mem test s.db.credentials row e)
                (rw b at (rw e at h))))
      ]
    ]

-- The tokens as an upsert encrypts them.
abbrev pub GivesBack :
    Result PlatformCredential → (access refresh actor_id : String) → Option Time → Type 0
GivesBack r access refresh actor_id expires_at =
    (c : PlatformCredential) × ((r ≡ ok c)
      × (c.access_token ≡ access)
      × (c.refresh_token ≡ refresh)
      × (c.actor_id ≡ actor_id)
      × (c.expires_at ≡ expires_at))

got_tokens :
    (id access refresh : String) (t : Tokens) (env : Env) (s : Sys)
    → env.db_fault s.tick ≡ none
    → env.unseal t.enc_access ≡ some access
    → env.unseal t.enc_refresh ≡ some refresh
    → Holds s.db id t
    → GivesBack (get_credential id env s).0 access refresh t.actor_id t.expires_at
unfolding get_credential decrypt_token without_tokens
got_tokens id access refresh t env s nf ua ur (row, (found, ea, er, same, expires)) =
    rw nf (rw found (rw ea (rw er (rw ua (rw ur (_, (refl, refl, refl, same, expires)))))))

upserted-Holds :
    (platform : Platform) (url name access refresh actor_id enc enc' : String)
    (expires : Option Time) (env : Env) (s : Sys) (id : String)
    → env.seal s.tick access ≡ some enc
    → env.seal (suc s.tick) refresh ≡ some enc'
    → (upsert_credential_by_instance platform url name access refresh actor_id expires env s).0
      ≡ ok id
    → Holds
        (upsert_credential_by_instance platform url name access refresh actor_id expires env s).1.db
        id
        (record {
          name = name;
          actor_id = actor_id;
          enc_access = enc;
          enc_refresh = enc';
          expires_at = expires;
        })
unfolding upsert_credential_by_instance encrypt_token
upserted-Holds platform url name access refresh actor_id enc enc' expires env s id ea er h =
    elim (Option-cases (env.db_fault (suc (suc (suc s.tick))))) [
      | inr (msg, f) ↦ absurd (let k = rw f at (rw er at (rw ea at h)) in cc)
      | inl f ↦ rw ea (
          rw er (
            rw f (
              written-Holds platform url _ (env.clock (suc (suc s.tick))) (at_instance platform url)
                env (bump (bump (bump (bump s)))) id (rw f at (rw er at (rw ea at h))))))
    ]

-- After an upsert that succeeds, the credential of the returned identifier has the tokens, the
-- actor and the expiry that were given, if what was sealed can be unsealed and the lookup meets no
-- database fault.
pub get_credential-upsert :
    (platform : Platform) (url name access refresh actor_id : String) (expires : Option Time)
    (env : Env) (s t : Sys) (id : String)
    → Unseals env
    → upsert_credential_by_instance platform url name access refresh actor_id expires env s
      ≡ (ok id, t)
    → env.db_fault t.tick ≡ none
    → GivesBack (get_credential id env t).0 access refresh actor_id expires
unfolding upsert_credential_by_instance encrypt_token
get_credential-upsert platform url name access refresh actor_id expires env s t id v h nf =
    elim (Option-cases (env.seal s.tick access)) [
      | inl e ↦ absurd (let k = rw e at (ap (λ out. out.0) h) in cc)
      | inr (enc, ea) ↦ elim (Option-cases (env.seal (suc s.tick) refresh)) [
        | inl e ↦ absurd (let k = rw e at (rw ea at (ap (λ out. out.0) h)) in cc)
        | inr (enc', er) ↦
            let tokens : Tokens = record {
              name = name;
              actor_id = actor_id;
              enc_access = enc;
              enc_refresh = enc';
              expires_at = expires;
            } in
            got_tokens id access refresh tokens env t nf (v s.tick access enc ea)
              (v (suc s.tick) refresh enc' er)
              (subst (λ d. Holds d id tokens) (ap (λ out. out.1.db) h)
                (upserted-Holds platform url name access refresh actor_id enc enc' expires env s id
                  ea er (ap (λ out. out.0) h)))
      ]
    ]
