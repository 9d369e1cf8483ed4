-- ===== src/Service/Keys.antt =====
-- The primary keys of the tables of posts, attempts, credentials and schedules.
use social.Prelude.{
  ◌≤◌, String, Bool, ◌&&◌, ◌||◌, ltb, ◌==◌, List, [], ◌∷◌, ◌++◌, ◌≡◌, inl, inr, refl, ap, subst,
  arith, Bool-cases, eq_iff, str_eq, tests,
}
use social.Model.{
  RouteJob, Time, DeliveryAttempt, CredentialRow, ScheduledPost, PublicationSchedule, Db,
}
use social.Service.Laws.{insert_job_row-Keeps, After-guard, Lawful}
use social.Table.{count-one, count-update, count-delete_le, count-append, update, delete, count}
use social.Credential.{
  uses_credential, Tokens, set_tokens, update_credential_row, insert_credential_row,
  delete_credential_row,
}
use social.Post.Statements.{
  reference_failed, logs_post, same_attempt, is_credential, has_id, update_post_row,
  insert_post_row, insert_log_row, delete_post_row, delete_log_rows,
}
use social.Schedule.Statements.{
  schedules_credential, is_schedule, update_schedule_row, insert_schedule_row, delete_schedule_row,
}
use social.Exec.Keeps.{StatementKeeps}
use social.Post.References.{KeepsKeys}
use social.Model.Errors.{ok}

-- No two rows have the same key.
abbrev pub Distinct : {A : Type 0} → (A → String) → List A → Type 0
Distinct key rows = (id : String) → count (λ a. str_eq (key a) id) rows ≤ 1

module _ {A : Type 0} (key : A → String) where
  Distinct-insert :
      (rows : List A) (a : A)
      → count (λ b. str_eq (key b) (key a)) rows ≡ 0
      → Distinct key rows
      → Distinct key (rows ++ a ∷ [])
  Distinct-insert rows a new h id =
      let sum = count-append (λ b. str_eq (key b) id) rows (a ∷ []) in
      let one = count-one (λ b. str_eq (key b) id) a in
      elim (Bool-cases (str_eq (key a) id)) [
        | inl f ↦
            let same : key a ≡ id = (eq_iff (key a) id).0 f in
            let none_there : count (λ b. str_eq (key b) id) rows ≡ 0 =
              subst (λ k. count (λ b. str_eq (key b) k) rows ≡ 0) same new in
            ground (arith, sum, none_there, one, f)
        | inr f ↦ ground (arith, sum, h id, one, f)
      ]

  Distinct-update :
      (test : A → Bool) (f : A → A) (rows : List A)
      → ((a : A) → key (f a) ≡ key a)
      → Distinct key rows
      → Distinct key (update test f rows)
  Distinct-update test f rows same h id =
      rw (count-update test (λ b. str_eq (key b) id) f rows (λ a _. ap (λ k. str_eq k id) (same a)))
        (h id)

  Distinct-delete :
      (test : A → Bool) (rows : List A) → Distinct key rows → Distinct key (delete test rows)
  Distinct-delete test rows h id =
      omega (arith, h id, count-delete_le (λ b. str_eq (key b) id) test rows)

pub record DistinctKeys (db : Db) : Type 0 where
  pub posts : Distinct (λ p. p.id) db.posts
  pub attempts : Distinct (λ a. a.id) db.delivery_log
  pub credentials : Distinct (λ c. c.id) db.credentials
  pub schedules : Distinct (λ s. s.id) db.schedules

insert_post_row-DistinctKeys :
    (enforce : Bool) (p : ScheduledPost) → StatementKeeps DistinctKeys enforce (insert_post_row p)
unfolding insert_post_row has_id
insert_post_row-DistinctKeys enforce p db h =
    elim (Bool-cases (ltb 0 (count (has_id p.id) db.posts))) [
      | inl e ↦ rw e tt
      | inr e ↦ rw e (
          After-guard DistinctKeys
            (enforce && count (is_credential p.credential_id) db.credentials == 0) reference_failed
            (ok (record db { posts = db.posts ++ p ∷ [] }, 1)) (inserted (ground arith)))
    ]
  where
    inserted :
        count (λ q. str_eq q.id p.id) db.posts ≡ 0
        → DistinctKeys (record db { posts = db.posts ++ p ∷ [] })
    inserted new = record {
      posts = Distinct-insert (λ q. q.id) db.posts p new h.posts;
      attempts = h.attempts;
      credentials = h.credentials;
      schedules = h.schedules;
    }

insert_log_row-DistinctKeys :
    (enforce : Bool) (a : DeliveryAttempt) → StatementKeeps DistinctKeys enforce (insert_log_row a)
unfolding insert_log_row same_attempt
insert_log_row-DistinctKeys enforce a db h =
    elim (Bool-cases (ltb 0 (count (same_attempt a.id) db.delivery_log))) [
      | inl e ↦ rw e tt
      | inr e ↦ rw e (
          After-guard DistinctKeys (enforce && count (has_id a.post_id) db.posts == 0)
            reference_failed (ok (record db { delivery_log = db.delivery_log ++ a ∷ [] }, 1))
            (inserted (ground arith)))
    ]
  where
    inserted :
        count (λ b. str_eq b.id a.id) db.delivery_log ≡ 0
        → DistinctKeys (record db { delivery_log = db.delivery_log ++ a ∷ [] })
    inserted new = record {
      posts = h.posts;
      attempts = Distinct-insert (λ b. b.id) db.delivery_log a new h.attempts;
      credentials = h.credentials;
      schedules = h.schedules;
    }

insert_credential_row-DistinctKeys :
    (enforce : Bool) (c : CredentialRow)
    → StatementKeeps DistinctKeys enforce (insert_credential_row c)
unfolding insert_credential_row is_credential
insert_credential_row-DistinctKeys enforce c db h =
    elim (Bool-cases (ltb 0 (count (is_credential c.id) db.credentials))) [
      | inl e ↦ rw e tt
      | inr e ↦ rw e (record {
        posts = h.posts;
        attempts = h.attempts;
        credentials = Distinct-insert (λ d. d.id) db.credentials c (ground arith) h.credentials;
        schedules = h.schedules;
      })
    ]

pub insert_schedule_row-DistinctKeys :
    (enforce : Bool) (s : PublicationSchedule)
    → StatementKeeps DistinctKeys enforce (insert_schedule_row s)
unfolding insert_schedule_row is_schedule
insert_schedule_row-DistinctKeys enforce s db h =
    elim (Bool-cases (
      ltb 0 (count (is_schedule s.id) db.schedules)
      || ltb 0 (count (schedules_credential s.credential_id) db.schedules))) [
        | inl e ↦ rw e tt
        | inr e ↦ rw e (record {
          posts = h.posts;
          attempts = h.attempts;
          credentials = h.credentials;
          schedules = Distinct-insert (λ t. t.id) db.schedules s (grind tests) h.schedules;
        })
      ]

pub update_schedule_row-DistinctKeys :
    (enforce : Bool) (id : String) (f : PublicationSchedule → PublicationSchedule)
    → ((s : PublicationSchedule) → (f s).id ≡ s.id)
    → StatementKeeps DistinctKeys enforce (update_schedule_row id f)
unfolding update_schedule_row
update_schedule_row-DistinctKeys enforce id f same db h = record {
  posts = h.posts;
  attempts = h.attempts;
  credentials = h.credentials;
  schedules = Distinct-update (λ s. s.id) (is_schedule id) f db.schedules same h.schedules;
}

update_post_row-DistinctKeys :
    (enforce : Bool) (id : String) (f : ScheduledPost → ScheduledPost)
    → KeepsKeys f
    → StatementKeeps DistinctKeys enforce (update_post_row id f)
unfolding update_post_row
update_post_row-DistinctKeys enforce id f k db h = record {
  posts = Distinct-update (λ p. p.id) (has_id id) f db.posts k.same_id h.posts;
  attempts = h.attempts;
  credentials = h.credentials;
  schedules = h.schedules;
}

update_credential_row-DistinctKeys :
    (enforce : Bool) (id : String) (t : Tokens) (at : Time)
    → StatementKeeps DistinctKeys enforce (update_credential_row id t at)
unfolding update_credential_row set_tokens
update_credential_row-DistinctKeys enforce id t at db h = record {
  posts = h.posts;
  attempts = h.attempts;
  credentials =
      Distinct-update (λ c. c.id) (is_credential id) (set_tokens t at) db.credentials (λ c. refl)
        h.credentials;
  schedules = h.schedules;
}

delete_post_row-DistinctKeys :
    (enforce : Bool) (id : String) → StatementKeeps DistinctKeys enforce (delete_post_row id)
unfolding delete_post_row
delete_post_row-DistinctKeys enforce id db h =
    let left : DistinctKeys (record db { posts = delete (has_id id) db.posts }) = record {
      posts = Distinct-delete (λ p. p.id) (has_id id) db.posts h.posts;
      attempts = h.attempts;
      credentials = h.credentials;
      schedules = h.schedules;
    } in
    After-guard DistinctKeys
      (enforce
        && (ltb 0 (count (has_id id) db.posts) && ltb 0 (count (logs_post id) db.delivery_log)))
      reference_failed _ left

delete_credential_row-DistinctKeys :
    (enforce : Bool) (id : String) → StatementKeeps DistinctKeys enforce (delete_credential_row id)
unfolding delete_credential_row
delete_credential_row-DistinctKeys enforce id db h =
    let left : DistinctKeys (record db { credentials = delete (is_credential id) db.credentials }) =
      record {
        posts = h.posts;
        attempts = h.attempts;
        credentials = Distinct-delete (λ c. c.id) (is_credential id) db.credentials h.credentials;
        schedules = h.schedules;
      } in
    After-guard DistinctKeys
      (enforce
        && (ltb 0 (count (is_credential id) db.credentials)
            && ltb 0 (count (uses_credential id) db.posts)))
      reference_failed _ left

delete_log_rows-DistinctKeys :
    (enforce : Bool) (id : String) → StatementKeeps DistinctKeys enforce (delete_log_rows id)
unfolding delete_log_rows
delete_log_rows-DistinctKeys enforce id db h = record {
  posts = h.posts;
  attempts = Distinct-delete (λ a. a.id) (logs_post id) db.delivery_log h.attempts;
  credentials = h.credentials;
  schedules = h.schedules;
}

delete_schedule_row-DistinctKeys :
    (enforce : Bool) (id : String) → StatementKeeps DistinctKeys enforce (delete_schedule_row id)
unfolding delete_schedule_row
delete_schedule_row-DistinctKeys enforce id db h = record {
  posts = h.posts;
  attempts = h.attempts;
  credentials = h.credentials;
  schedules = Distinct-delete (λ s. s.id) (is_schedule id) db.schedules h.schedules;
}

pub DistinctKeys-unseen :
    (db : Db) (jobs : List RouteJob)
    → DistinctKeys db
    → DistinctKeys (record db { route_jobs = jobs })
DistinctKeys-unseen db jobs h = record {
  posts = h.posts;
  attempts = h.attempts;
  credentials = h.credentials;
  schedules = h.schedules;
}

pub Lawful-DistinctKeys : (enforce : Bool) → Lawful enforce DistinctKeys
Lawful-DistinctKeys enforce = record {
  insert_post = insert_post_row-DistinctKeys enforce;
  update_post = update_post_row-DistinctKeys enforce;
  delete_post = delete_post_row-DistinctKeys enforce;
  delete_log = delete_log_rows-DistinctKeys enforce;
  insert_log = insert_log_row-DistinctKeys enforce;
  insert_credential = insert_credential_row-DistinctKeys enforce;
  update_credential = update_credential_row-DistinctKeys enforce;
  delete_credential = delete_credential_row-DistinctKeys enforce;
  update_schedule = λ id f k. update_schedule_row-DistinctKeys enforce id f k.same_id;
  delete_schedule = delete_schedule_row-DistinctKeys enforce;
  insert_job = λ j e. insert_job_row-Keeps enforce DistinctKeys-unseen j;
  elsewhere = λ db states log configs h. record {
    posts = h.posts;
    attempts = h.attempts;
    credentials = h.credentials;
    schedules = h.schedules;
  };
}
