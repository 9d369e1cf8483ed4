-- ===== src/Scheduler/Retry.antt =====
-- The schedule of the retries of publishWithRetry.
use social.Prelude.{
  ◌↔◌, ◌∙◌, ℕ, zero, suc, ◌+◌, ◌*◌, ◌≤◌, ◌<◌, String, true, false, leb, none, some, ◌≡◌, ◌⊎◌, inl,
  inr, refl, sym, ap, subst, arith, Bool-cases, All, All-always, length, tests,
}
use social.Table.{count, update-selected}
use social.Model.{Time, ScheduledPost, PlatformCredential, PostStatus, published, failed, scheduled}
use social.Model.Errors.{Error, Result, ok, err, as_rate_limit_error}
use social.Exec.{Env, Sys, M, and_then, ◌>>=◌, ◌>>◌, exec, bump, pure}
use social.Exec.Runs.{Runs}
use social.Post.{
  update_post, mark_post_published, mark_post_failed, log_delivery_attempt, delivery_attempt_count,
}
use social.Post.Delete.{NoFaults}
use social.Post.Due.{IsDue}
use social.Post.Statements.{
  update_post_row, set_published, set_failed, set_mutable, has_id, logs_post,
}
use social.Prelude.Int.{pos, add_time}
use social.Credential.{get_credential}
use social.Scheduler.{
  reschedule, after_failure, settle, attempt_with, publish_with_retry, call_platform_publish,
  is_terminal, delay_or, retry_delays,
}
use social.Scheduler.Attempts.{refresh-Runs}

-- What the rows of a post are like after a method, if the database has no faults.
record Leaves (id : String) (P : ScheduledPost → Type 0) {A : Type 0} (m : M A) : Type 0 where
  at :
      (env : Env) (s : Sys)
      → NoFaults env
      → All (λ p. has_id id p ≡ true → P p) (m env s).1.db.posts

updated-Leaves :
    (id : String) (P : ScheduledPost → Type 0) (f : ScheduledPost → ScheduledPost)
    → ((p : ScheduledPost) → P (f p))
    → Leaves id P (exec (update_post_row id f) >> pure tt)
unfolding update_post_row
updated-Leaves id P f h = record {
  at = λ env s nf. rw (nf s.tick) (
      update-selected P {Q = λ _. Unit} (has_id id) f s.db.posts
        (All-always _ (λ _ _. tt) s.db.posts) (λ p _. h p));
}

-- The status of a post that is not published again.
abbrev pub IsFinal : PostStatus → Type 0
IsFinal s = (s ≡ published) ⊎ (s ≡ failed)

abbrev Final : ScheduledPost → Type 0
Final p = IsFinal p.status

mark_post_failed-Leaves : (id msg : String) → Leaves id Final (mark_post_failed id msg)
unfolding mark_post_failed set_failed
mark_post_failed-Leaves id msg = record {
  at = λ env s nf.
      (updated-Leaves id Final (set_failed msg (env.clock s.tick)) (λ p. inr refl)).at env (bump s)
        nf;
}

mark_post_published-Leaves : (id pid : String) → Leaves id Final (mark_post_published id pid)
unfolding mark_post_published set_published
mark_post_published-Leaves id pid = record {
  at = λ env s nf.
      (updated-Leaves id Final (set_published pid (env.clock s.tick)) (λ p. inl refl)).at env
        (bump s) nf;
}

spent-Leaves :
    (p : ScheduledPost) (n : ℕ) (e : Error) (msg : String)
    → 4 ≤ n
    → Leaves p.id Final (after_failure p n e msg)
unfolding after_failure
spent-Leaves p n e msg h =
    let spent : leb (length retry_delays + 1) (n + 1) ≡ true = grind tests in
    elim (Bool-cases (is_terminal e)) [
      | inl t ↦ rw t (record { at = (mark_post_failed-Leaves p.id msg).at })
      | inr t ↦ rw t (rw spent (record { at = (mark_post_failed-Leaves p.id msg).at }))
    ]

settle-Leaves :
    (p : ScheduledPost) (n : ℕ) (r : Result String) → 4 ≤ n → Leaves p.id Final (settle p n r)
unfolding settle
settle-Leaves p n (ok pid) h = record {
  at = λ env s nf.
      (mark_post_published-Leaves p.id pid).at env
        (log_delivery_attempt p.id (n + 1) 200 "" env s).1 nf;
}
settle-Leaves p n (err e) h = record { at = λ env s nf. (spent-Leaves p n e _ h).at env _ nf }

-- A method that always returns leaves the rest to decide.
then-Leaves :
    {A : Type 0} {id : String} {P : ScheduledPost → Type 0} {k : ℕ} {m : M A} {f : A → M (Unit {0})}
    → Runs k m
    → ((a : A) → Leaves id P (f a))
    → Leaves id P (m >>= f)
then-Leaves {id = id} {P} {m = m} {f} r l = record {
  at = λ env s nf.
      let o = r.at env s in
      let (res, s') = m env s in
      subst (λ x. All (λ p. has_id id p ≡ true → P p) (and_then x f env s').1.db.posts)
        (sym o.returned) ((l o.value).at env s' nf);
}

attempt_with-Leaves :
    (p : ScheduledPost) (n : ℕ) (r : Result PlatformCredential)
    → 4 ≤ n
    → Leaves p.id Final (attempt_with p n r)
unfolding attempt_with
attempt_with-Leaves p n (err e) h = record {
  at = λ env s nf. (mark_post_failed-Leaves p.id _).at env s nf;
}
attempt_with-Leaves p n (ok cred) h = then-Leaves (refresh-Runs cred) (λ fresh. record {
  at = λ env s nf.
      let (r, s') = call_platform_publish p fresh env s in (settle-Leaves p n r h).at env s' nf;
})

-- The attempt that follows four logged ones is the last: without database faults, the post is
-- published or failed after it, whatever the platform answers.
pub publish_with_retry-IsFinal :
    (p : ScheduledPost) (env : Env) (s : Sys)
    → NoFaults env
    → 4 ≤ count (logs_post p.id) s.db.delivery_log
    → All (λ q. has_id p.id q ≡ true → IsFinal q.status) (publish_with_retry p env s).1.db.posts
unfolding publish_with_retry delivery_attempt_count
publish_with_retry-IsFinal p env s nf h =
    let n = count (logs_post p.id) s.db.delivery_log in
    let (r, s') = get_credential p.credential_id env (bump s) in
    rw (nf s.tick) ((attempt_with-Leaves p n r h).at env s' nf)

-- The delay that the comment of retryDelays promises after so many earlier attempts.
abbrev pub seconds_before_retry : ℕ → ℕ
seconds_before_retry zero = 30
seconds_before_retry (suc zero) = 120
seconds_before_retry (suc (suc zero)) = 600
seconds_before_retry (suc (suc (suc n))) = 3600

-- The post keeps its status, its time is set, and a scheduled post is due from then on, not before.
abbrev pub RetriedAt : Time → ScheduledPost → ScheduledPost → Type 0
RetriedAt t p q =
    (q.status ≡ p.status)
    × (q.scheduled_at ≡ some t)
    × ((at : Time) → IsDue at q ↔ ((p.status ≡ scheduled) × (t ≤ at)))

IsDue-from :
    (t : Time) (p q : ScheduledPost)
    → q.status ≡ p.status
    → q.scheduled_at ≡ some t
    → (at : Time) → IsDue at q ↔ ((p.status ≡ scheduled) × (t ≤ at))
IsDue-from t p q e f at = (
  (λ (d, (u, (g, le))).
      let same : t ≡ u = let k : some t ≡ some u = sym f ∙ g in cc in
      (sym e ∙ d, omega (arith, same, le))),
  (λ (d, le). (e ∙ d, (t, (f, le)))),
)

delay_lem : (n : ℕ) → n < 4 → delay_or n none ≡ pos (seconds_before_retry n * 1000000000)
unfolding delay_or
delay_lem zero h = refl
delay_lem (suc zero) h = refl
delay_lem (suc (suc zero)) h = refl
delay_lem (suc (suc (suc zero))) h = refl
delay_lem (suc (suc (suc (suc n)))) h = absurd (omega arith)

reschedule-Leaves :
    (p : ScheduledPost) (n : ℕ) (e : Error) (env : Env) (s : Sys)
    → NoFaults env
    → All
        (λ q.
          has_id p.id q ≡ true
          → RetriedAt (add_time (env.clock s.tick) (delay_or n (as_rate_limit_error e))) p q)
        (reschedule p n e env s).1.db.posts
unfolding reschedule update_post set_mutable
reschedule-Leaves p n e env s nf =
    let at = add_time (env.clock s.tick) (delay_or n (as_rate_limit_error e)) in
    let moved : ScheduledPost = record p { scheduled_at = some at } in
    let f = set_mutable moved (env.clock (suc s.tick)) in
    (updated-Leaves p.id (RetriedAt at p) f (λ q. (refl, refl, IsDue-from at p (f q) refl refl))).at
      env (bump (bump s)) nf

-- After a failure that is neither terminal nor a rate limit, with fewer than four attempts logged
-- before it and without database faults, the post keeps its status, and its scheduled time is 30
-- seconds, 2 minutes, 10 minutes or 1 hour later, by the number of the attempt: a scheduled post is
-- due from then on and not before, and a post of another status, a queued one too, is not due at all.
pub after_failure-RetriedAt :
    (p : ScheduledPost) (n : ℕ) (e : Error) (msg : String) (env : Env) (s : Sys)
    → NoFaults env
    → is_terminal e ≡ false
    → as_rate_limit_error e ≡ none
    → n < 4
    → All
        (λ q.
          has_id p.id q ≡ true
          → RetriedAt (env.clock s.tick + seconds_before_retry n * 1000000000) p q)
        (after_failure p n e msg env s).1.db.posts
unfolding after_failure add_time
after_failure-RetriedAt p n e msg env s nf t limit h =
    let more : leb (length retry_delays + 1) (n + 1) ≡ false = grind tests in
    let at = env.clock s.tick in
    let due : add_time at (delay_or n (as_rate_limit_error e))
        ≡ at + seconds_before_retry n * 1000000000 =
      rw limit (ap (add_time at) (delay_lem n h)) in
    rw t (
      rw more (
        subst
          (λ x.
            All (λ q. has_id p.id q ≡ true → RetriedAt x p q) (reschedule p n e env s).1.db.posts)
          due (reschedule-Leaves p n e env s nf)))
