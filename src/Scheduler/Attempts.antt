-- ===== src/Scheduler/Attempts.antt =====
-- publishWithRetry always returns, and logs at most one attempt.
use social.Prelude.{
  ℕ, ◌+◌, ◌≤◌, String, Bool, ◌&&◌, ltb, ◌==◌, Option, none, some, [], ◌∷◌, inl, inr, refl, arith,
  Bool-cases, length, length-append,
}
use social.Prelude.Int.{ℤ}
use social.Model.{Db, Time, ScheduledPost, DeliveryAttempt, PlatformCredential, Platform}
use social.Model.Http.{ClientConfig}
use social.Model.Errors.{Error, Result, ok, err}
use social.Exec.{Env, Sys, exec, pure, bump, ◌>>◌}
use social.Exec.Keeps.{
  After, StatementKeeps, keeps_rules, Keeps-and_then, Keeps-pure, commit_result-keeps,
}
use social.Exec.Runs.{Adds, Adds-of_Keeps, Runs, runs_rules, Runs-le, Runs-before, logged}
use social.Post.{
  update_post, mark_post_published, mark_post_failed, log_delivery_attempt, delivery_attempt_count,
}
use social.Post.Statements.{update_post_row, insert_log_row, same_attempt, has_id}
use social.Table.{count}
use social.Credential.{get_credential, upsert_credential_by_instance}
use social.Credential.References.{
  get_credential-Keeps, upsert-Keeps, update_credential_row-frame, insert_credential_row-frame,
}
use social.Platform.Frame.{refresh_x_token-Keeps}
use social.Platform.LinkedIn.{expires_at}
use social.Platform.Twitter.{TokenResponse, refresh_x_token}
use social.Scheduler.Frame.{call_platform_publish-Keeps}
use social.Scheduler.Refresh.{
  maybe_refresh_x_credential, refresh_with, store_tokens, persisted, expires_soon,
}
use social.Scheduler.{
  after_failure, settle, attempt_with, counted, publish_with_retry, call_platform_publish,
}

-- A bound on the length of the log.
abbrev Short : ℕ → Db → Type 0
Short k db = length db.delivery_log ≤ k

update_post_row-frame :
    (enforce : Bool) (k : ℕ) (id : String) (f : ScheduledPost → ScheduledPost)
    → StatementKeeps (Short k) enforce (update_post_row id f)
unfolding update_post_row
update_post_row-frame enforce k id f db h = h

update_post-Adds : (p : ScheduledPost) → Adds 0 (update_post p)
unfolding update_post
update_post-Adds p = Adds-of_Keeps (λ b k. search (keeps_rules, update_post_row-frame))

mark_post_published-Adds : (id pid : String) → Adds 0 (mark_post_published id pid)
unfolding mark_post_published
mark_post_published-Adds id pid = Adds-of_Keeps (λ b k. search (keeps_rules, update_post_row-frame))

mark_post_failed-Adds : (id msg : String) → Adds 0 (mark_post_failed id msg)
unfolding mark_post_failed
mark_post_failed-Adds id msg = Adds-of_Keeps (λ b k. search (keeps_rules, update_post_row-frame))

delivery_attempt_count-Adds : (id : String) → Adds 0 (delivery_attempt_count id)
unfolding delivery_attempt_count
delivery_attempt_count-Adds id = Adds-of_Keeps (λ b k. search keeps_rules)

get_credential-Adds : (id : String) → Adds 0 (get_credential id)
get_credential-Adds id = Adds-of_Keeps (λ b k. get_credential-Keeps id)

call_platform_publish-Adds :
    (p : ScheduledPost) (cred : PlatformCredential) → Adds 0 (call_platform_publish p cred)
call_platform_publish-Adds p cred = Adds-of_Keeps (λ b k. call_platform_publish-Keeps p cred)

refresh_x_token-Adds : (cfg : ClientConfig) (t : String) → Adds 0 (refresh_x_token cfg t)
refresh_x_token-Adds cfg t = Adds-of_Keeps (λ b k. refresh_x_token-Keeps cfg t)

insert_log_row-Short :
    (a : DeliveryAttempt) (enforce : Bool) (db : Db)
    → After (Short (length db.delivery_log + 1)) (insert_log_row a enforce db)
unfolding insert_log_row
insert_log_row-Short a enforce db =
    elim (Bool-cases (ltb 0 (count (same_attempt a.id) db.delivery_log))) [
      | inl e ↦ rw e tt
      | inr e ↦ rw e (elim (Bool-cases (enforce && count (has_id a.post_id) db.posts == 0)) [
        | inl f ↦ rw f tt
        | inr f ↦ rw f (omega (arith, length-append db.delivery_log (a ∷ [])))
      ])
    ]

exec-insert_log_row :
    (a : DeliveryAttempt) (env : Env) (s : Sys)
    → logged ((exec (insert_log_row a) >> pure tt) env s).1 ≤ logged s + 1
exec-insert_log_row a env s =
    let stmt = insert_log_row a in
    let P : Db → Type 0 = Short (logged s + 1) in
    let (res, s') = exec stmt env s in
    (Keeps-and_then {enforce = env.enforce_refs} {P = P} res (λ _. Keeps-pure tt)).at env s' refl (
      commit_result-keeps P (env.db_fault s.tick) (stmt env.enforce_refs s.db) s
        (insert_log_row-Short a env.enforce_refs s.db) (omega arith))

log_delivery_attempt-Adds :
    (id : String) (n code : ℕ) (msg : String) → Adds 1 (log_delivery_attempt id n code msg)
unfolding log_delivery_attempt
log_delivery_attempt-Adds id n code msg = record {
  at = λ env s. exec-insert_log_row _ env (bump (bump s));
}

ruleset adds_rules = (
  update_post-Adds, mark_post_published-Adds, mark_post_failed-Adds, delivery_attempt_count-Adds,
  get_credential-Adds, call_platform_publish-Adds, refresh_x_token-Adds, log_delivery_attempt-Adds,
)

expires_soon-Runs : (o : Option Time) → Runs 0 (expires_soon o)
unfolding expires_soon
expires_soon-Runs none = search runs_rules
expires_soon-Runs (some t) = search runs_rules

persisted-Runs :
    (cred : PlatformCredential) (tr : TokenResponse) (t : Option Time) (r : Result String)
    → Runs 0 (persisted cred tr t r)
unfolding persisted
persisted-Runs cred tr t (ok id) = search runs_rules
persisted-Runs cred tr t (err e) = search runs_rules

expires_at-Runs : (n : ℤ) → Runs 0 (expires_at n)
unfolding expires_at
expires_at-Runs n = search runs_rules

upsert-Adds :
    (platform : Platform) (url name access refresh actor : String) (t : Option Time)
    → Adds 0 (upsert_credential_by_instance platform url name access refresh actor t)
upsert-Adds platform url name access refresh actor t = Adds-of_Keeps (λ b k.
    upsert-Keeps (update_credential_row-frame b (λ ps log. length log ≤ k))
      (insert_credential_row-frame b (λ ps log. length log ≤ k)) platform url name access refresh
      actor t)

store_tokens-Runs :
    (cred : PlatformCredential) (r : Result TokenResponse) → Runs 0 (store_tokens cred r)
unfolding store_tokens
store_tokens-Runs cred (err e) = search runs_rules
store_tokens-Runs cred (ok tr) =
    search (runs_rules, expires_at-Runs, upsert-Adds, persisted-Runs) depth 8

refresh_with-Runs :
    (cred : PlatformCredential) (o : Option ClientConfig) → Runs 0 (refresh_with cred o)
unfolding refresh_with
refresh_with-Runs cred none = search runs_rules
refresh_with-Runs cred (some cfg) = search (runs_rules, adds_rules, store_tokens-Runs)

pub refresh-Runs : (cred : PlatformCredential) → Runs 0 (maybe_refresh_x_credential cred)
unfolding maybe_refresh_x_credential
refresh-Runs cred = search (runs_rules, expires_soon-Runs, refresh_with-Runs) depth 8

after_failure-Runs :
    (p : ScheduledPost) (n : ℕ) (e : Error) (msg : String) → Runs 0 (after_failure p n e msg)
unfolding after_failure
after_failure-Runs p n e msg = search (runs_rules, adds_rules) depth 8

settle-Runs : (p : ScheduledPost) (n : ℕ) (r : Result String) → Runs 1 (settle p n r)
unfolding settle
settle-Runs p n (ok id) = search (runs_rules, Runs-before, adds_rules)
settle-Runs p n (err e) = search (runs_rules, Runs-before, adds_rules, after_failure-Runs) depth 8

attempt_with-Runs :
    (p : ScheduledPost) (n : ℕ) (r : Result PlatformCredential) → Runs 1 (attempt_with p n r)
unfolding attempt_with
attempt_with-Runs p n (err e) = Runs-le {k = 0} (omega arith) (search (runs_rules, adds_rules))
attempt_with-Runs p n (ok cred) = search (runs_rules, adds_rules, refresh-Runs, settle-Runs)

counted-Runs : (p : ScheduledPost) (r : Result ℕ) → Runs 1 (counted p r)
counted-Runs p (err e) = Runs-le {k = 0} (omega arith) (search runs_rules)
counted-Runs p (ok n) = search (runs_rules, adds_rules, attempt_with-Runs)

-- publishWithRetry always returns, and logs at most one attempt, whatever fails.
pub publish_with_retry-Runs : (p : ScheduledPost) → Runs 1 (publish_with_retry p)
unfolding publish_with_retry
publish_with_retry-Runs p = search (runs_rules, adds_rules, counted-Runs)
