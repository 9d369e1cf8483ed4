-- ===== src/Credential/References.antt =====
-- The credential store keeps the references of the posts: upsertCredentialByInstance never takes a
-- credential away, and deleteCredential refuses one that posts use.
use social.Prelude.{
  ℕ, suc, ◌<◌, String, Bool, true, false, ◌&&◌, ltb, ◌==◌, if◌then◌else◌, Option, none, some, List,
  [], ◌∷◌, ◌++◌, ◌≡◌, inl, inr, refl, arith, Bool-cases, All-map, All-map₂, eq_iff,
}
use social.Table.{
  count, update, delete, count-append, count-update, count-delete_other, All-count_zero,
}
use social.Model.{Db, Time, ScheduledPost, DeliveryAttempt, CredentialRow, Platform}
use social.Model.Errors.{not_found, ok, err}
use social.Exec.{bump, Env, Sys, and_then, exec, fail, pure, answer, bump}
use social.Exec.Keeps.{
  After, Keeps, StatementKeeps, keeps_rules, Keeps-and_then, commit_result-keeps,
}
use social.Post.Statements.{is_credential}
use social.Post.References.{References}
use social.Credential.{
  Tokens, set_tokens, encrypt_token, decrypt_token, update_credential_row, insert_credential_row,
  delete_credential_row, uses_credential, write_credential, upsert_credential_by_instance,
  get_credential, delete_credential, delete_counted, in_use,
}
use social.Post.{or_not_found}

module _ {enforce : Bool} {P : Db → Type 0} where
  pub encrypt_token-Keeps : (t : String) → Keeps enforce P (encrypt_token t)
  unfolding encrypt_token
  encrypt_token-Keeps t = record { at = λ env s e h. h }

  pub decrypt_token-Keeps : (t : String) → Keeps enforce P (decrypt_token t)
  unfolding decrypt_token
  decrypt_token-Keeps t = record { at = λ env s e h. h }

  pub or_not_found-Keeps : {A : Type 0} (o : Option A) → Keeps enforce P (or_not_found o)
  or_not_found-Keeps none = search keeps_rules
  or_not_found-Keeps (some a) = search keeps_rules

  pub get_credential-Keeps : (id : String) → Keeps enforce P (get_credential id)
  unfolding get_credential
  get_credential-Keeps id = search (keeps_rules, or_not_found-Keeps, decrypt_token-Keeps) depth 8

  -- A property that the statements on credentials keep is kept by the upsert.
  write_credential-Keeps :
      ((id : String) (t : Tokens) (at : Time)
        → StatementKeeps P enforce (update_credential_row id t at))
      → ((c : CredentialRow) → StatementKeeps P enforce (insert_credential_row c))
      → (platform : Platform) (url : String) (t : Tokens) (at : Time) (o : Option CredentialRow)
      → Keeps enforce P (write_credential platform url t at o)
  unfolding write_credential
  write_credential-Keeps ku ki platform url t at none = search (keeps_rules, ki)
  write_credential-Keeps ku ki platform url t at (some c) = search (keeps_rules, ku)

  pub upsert-Keeps :
      ((id : String) (t : Tokens) (at : Time)
        → StatementKeeps P enforce (update_credential_row id t at))
      → ((c : CredentialRow) → StatementKeeps P enforce (insert_credential_row c))
      → (platform : Platform) (url name access refresh actor : String) (expiry : Option Time)
      → Keeps enforce P
          (upsert_credential_by_instance platform url name access refresh actor expiry)
  unfolding upsert_credential_by_instance
  upsert-Keeps ku ki platform url name access refresh actor expiry =
      search (keeps_rules, encrypt_token-Keeps, write_credential-Keeps ku ki) depth 9

-- What does not look at the credentials is kept by any change of them.
module _ (enforce : Bool) (Q : List ScheduledPost → List DeliveryAttempt → Type 0) where
  pub update_credential_row-frame :
      (id : String) (t : Tokens) (at : Time)
      → StatementKeeps (λ db. Q db.posts db.delivery_log) enforce (update_credential_row id t at)
  unfolding update_credential_row
  update_credential_row-frame id t at db h = h

  pub insert_credential_row-frame :
      (c : CredentialRow)
      → StatementKeeps (λ db. Q db.posts db.delivery_log) enforce (insert_credential_row c)
  unfolding insert_credential_row
  insert_credential_row-frame c db h =
      elim (Bool-cases (ltb 0 (count (is_credential c.id) db.credentials))) [
        | inl e ↦ rw e tt
        | inr e ↦ rw e h
      ]

same_credential :
    (id : String) (t : Tokens) (at : Time) (c : CredentialRow)
    → is_credential id (set_tokens t at c) ≡ is_credential id c
unfolding is_credential set_tokens
same_credential id t at c = refl

pub update_credential_row-References :
    (enforce : Bool) (id : String) (t : Tokens) (at : Time)
    → StatementKeeps References enforce (update_credential_row id t at)
unfolding update_credential_row
update_credential_row-References enforce id t at db r = record {
  posts =
      All-map {A = ScheduledPost}
        {P = λ p. 0 < count (is_credential p.credential_id) db.credentials}
        {Q = λ p.
          0
          < count (is_credential p.credential_id)
              (update (is_credential id) (set_tokens t at) db.credentials)}
        (λ p h.
          rw
            (count-update (is_credential id) (is_credential p.credential_id) (set_tokens t at)
              db.credentials (λ c _. same_credential p.credential_id t at c))
            h)
        db.posts r.posts;
  attempts = r.attempts;
}

pub insert_credential_row-References :
    (enforce : Bool) (c : CredentialRow)
    → StatementKeeps References enforce (insert_credential_row c)
unfolding insert_credential_row
insert_credential_row-References enforce c db r =
    elim (Bool-cases (ltb 0 (count (is_credential c.id) db.credentials))) [
      | inl e ↦ rw e tt
      | inr e ↦ rw e (record {
        posts =
            All-map {A = ScheduledPost}
              {P = λ p. 0 < count (is_credential p.credential_id) db.credentials}
              {Q = λ p. 0 < count (is_credential p.credential_id) (db.credentials ++ c ∷ [])}
              (λ p h.
                omega (arith, count-append (is_credential p.credential_id) db.credentials (c ∷ [])))
              db.posts r.posts;
        attempts = r.attempts;
      })
    ]

unused_elsewhere :
    (id : String) (p : ScheduledPost) (c : CredentialRow)
    → uses_credential id p ≡ false
    → is_credential id c ≡ true
    → is_credential p.credential_id c ≡ false
unfolding uses_credential is_credential
unused_elsewhere id p c f t =
    ground (arith, eq_iff c.id id, eq_iff p.credential_id id, eq_iff c.id p.credential_id)

-- A credential that no post uses can go, whether or not references are enforced.
pub delete_unused :
    (id : String) (db : Db)
    → count (uses_credential id) db.posts ≡ 0
    → References db
    → References (record db { credentials = delete (is_credential id) db.credentials })
delete_unused id db unused r = record {
  posts =
      All-map₂ {A = ScheduledPost}
        {P = λ p. 0 < count (is_credential p.credential_id) db.credentials}
        {Q = λ p. uses_credential id p ≡ false}
        {R = λ p.
          0 < count (is_credential p.credential_id) (delete (is_credential id) db.credentials)}
        (λ p h f.
          rw
            (count-delete_other (is_credential id) (is_credential p.credential_id) db.credentials
              (λ c. unused_elsewhere id p c f))
            h)
        db.posts r.posts (All-count_zero (uses_credential id) db.posts unused);
  attempts = r.attempts;
}

deleted-After :
    (enforce : Bool) (id : String) (db : Db)
    → count (uses_credential id) db.posts ≡ 0
    → References db
    → After References (delete_credential_row id enforce db)
unfolding delete_credential_row
deleted-After enforce id db unused r =
    elim (Bool-cases (
      enforce
      && (ltb 0 (count (is_credential id) db.credentials)
          && ltb 0 (count (uses_credential id) db.posts)))) [
            | inl e ↦ rw e tt
            | inr e ↦ rw e (delete_unused id db unused r)
          ]

found_or_not :
    (n : ℕ) {enforce : Bool} → Keeps enforce References (if n == 0 then fail not_found else pure tt)
found_or_not n = search keeps_rules

delete_counted-References :
    (id : String) (n : ℕ) (env : Env) (s : Sys)
    → count (uses_credential id) s.db.posts ≡ n
    → References s.db
    → References (delete_counted id n env s).1.db
unfolding delete_counted
delete_counted-References id n env s e r = elim (Bool-cases (ltb 0 n)) [
  | inl some_use ↦ rw some_use r
  | inr none_use ↦
      let stmt = delete_credential_row id in
      let (res, s') = exec stmt env s in
      rw none_use (
        (Keeps-and_then res (λ k. found_or_not k {enforce = env.enforce_refs})).at env s' refl (
          commit_result-keeps References (env.db_fault s.tick) (stmt env.enforce_refs s.db) s
            (deleted-After env.enforce_refs id s.db (ground arith) r) r))
]

counted-References :
    (f : Option String) (id : String) (n : ℕ) (env : Env) (s : Sys)
    → count (uses_credential id) s.db.posts ≡ n
    → References s.db
    → References (and_then (answer f n s).0 (delete_counted id) env (answer f n s).1).1.db
counted-References (some m) id n env s e r = r
counted-References none id n env s e r = delete_counted-References id n env (bump s) e r

-- deleteCredential keeps every post's credential, on a database that enforces references and on one
-- that does not.
pub delete_credential-References :
    (id : String) (env : Env) (s : Sys)
    → References s.db
    → References (delete_credential id env s).1.db
unfolding delete_credential
delete_credential-References id env s r =
    counted-References (env.db_fault s.tick) id (count (uses_credential id) s.db.posts) env s refl r

-- Without database faults, deleteCredential succeeds exactly for a credential that exists and that
-- no post uses; a credential in use is a conflict, whatever else holds.
pub delete_credential-result :
    (id : String) (env : Env) (s : Sys)
    → env.db_fault s.tick ≡ none
    → env.db_fault (suc s.tick) ≡ none
    → (delete_credential id env s).0 ≡ (
        if ltb 0 (count (uses_credential id) s.db.posts)
        then err (in_use id (count (uses_credential id) s.db.posts))
        else if count (is_credential id) s.db.credentials == 0
        then err not_found
        else ok tt)
unfolding delete_credential delete_counted delete_credential_row
delete_credential-result id env s f g = ground arith
