-- ===== src/Tools/Statuses.antt =====
-- What the operations on posts and the attempts of the scheduler do to the statuses in the table.
use social.Credential.References.{update_credential_row-frame, insert_credential_row-frame}
use social.Prelude.{
  Option, none, some, String, Bool, true, false, ◌&&◌, ltb, ◌==◌, [], ◌∷◌, ◌≡◌, inl, inr, refl,
  Bool-cases, All, All-append,
}
use social.Table.{count, All-update}
use social.Model.{DeliveryAttempt, Time, ScheduledPost, PostStatus, other_status, Db}
use social.Model.Errors.{not_found}
use social.Exec.{Env, M}
use social.Exec.Yields.{Yields, Yields-fail, Yields-pure}
use social.Exec.Keeps.{Keeps-pure, Keeps-exec, Keeps-bind, Keeps, StatementKeeps, keeps_rules}
use social.Post.{insert_post, update_post, mark_post_published, mark_post_failed, or_not_found}
use social.Post.Statements.{
  same_attempt, is_credential, has_id, insert_post_row, update_post_row, insert_log_row,
  set_mutable, set_published, set_failed,
}
use social.Scheduler.Marks.{Marks}

-- One of the six statuses of post.go.
unfoldable pub is_known : PostStatus → Bool
is_known (other_status v) = false
is_known _ = true

-- Every post of the table has one of the six.
abbrev pub KnownStatuses : Db → Type 0
KnownStatuses db = All (λ p. is_known p.status ≡ true) db.posts

abbrev pub Kept : Env → {A : Type 0} → (A → Type 0) → M A → Type 0
Kept env P m = Yields env KnownStatuses P m

pub or_not_found-Kept :
    {env : Env} (row : Option ScheduledPost)
    → ((p : ScheduledPost) → row ≡ some p → is_known p.status ≡ true)
    → Kept env (λ p. is_known p.status ≡ true) (or_not_found row)
or_not_found-Kept none h = Yields-fail not_found
or_not_found-Kept (some p) h = Yields-pure p (h p refl)

insert_row-Keeps :
    (enforce : Bool) (p : ScheduledPost)
    → is_known p.status ≡ true
    → StatementKeeps KnownStatuses enforce (insert_post_row p)
unfolding insert_post_row
insert_row-Keeps enforce p k db h = elim (Bool-cases (ltb 0 (count (has_id p.id) db.posts))) [
  | inl e ↦ rw e tt
  | inr e ↦
      elim (Bool-cases (enforce && count (is_credential p.credential_id) db.credentials == 0)) [
        | inl f ↦ rw e (rw f tt)
        | inr f ↦
            rw e (rw f (All-append (λ q. is_known q.status ≡ true) db.posts (p ∷ []) h (k, tt)))
      ]
]

update_row-Keeps :
    (enforce : Bool) (id : String) (f : ScheduledPost → ScheduledPost)
    → ((p : ScheduledPost) → is_known (f p).status ≡ true)
    → StatementKeeps KnownStatuses enforce (update_post_row id f)
unfolding update_post_row
update_row-Keeps enforce id f k db h =
    All-update (λ p. is_known p.status ≡ true) (has_id id) f db.posts (λ p _ _. k p) h

insert_log_row-Keeps :
    (enforce : Bool) (a : DeliveryAttempt) → StatementKeeps KnownStatuses enforce (insert_log_row a)
unfolding insert_log_row
insert_log_row-Keeps enforce a db h =
    elim (Bool-cases (ltb 0 (count (same_attempt a.id) db.delivery_log))) [
      | inl e ↦ rw e tt
      | inr e ↦ elim (Bool-cases (enforce && count (has_id a.post_id) db.posts == 0)) [
        | inl f ↦ rw e (rw f tt)
        | inr f ↦ rw e (rw f h)
      ]
    ]

module _ {enforce : Bool} where
  pub insert_post-Keeps :
      (p : ScheduledPost) → is_known p.status ≡ true → Keeps enforce KnownStatuses (insert_post p)
  unfolding insert_post
  insert_post-Keeps p k =
      Keeps-bind (Keeps-exec (insert_post_row p) (insert_row-Keeps enforce p k))
        (λ n. Keeps-pure tt)

  pub update_post-Keeps :
      (p : ScheduledPost) → is_known p.status ≡ true → Keeps enforce KnownStatuses (update_post p)
  unfolding update_post set_mutable
  update_post-Keeps p k =
      let row = λ (at : Time). update_row-Keeps enforce p.id (set_mutable p at) (λ q. k) in
      search (keeps_rules, row)

  mark_post_published-Keeps :
      (id platform_id : String) → Keeps enforce KnownStatuses (mark_post_published id platform_id)
  unfolding mark_post_published set_published is_known
  mark_post_published-Keeps id platform_id =
      let row =
        λ (at : Time). update_row-Keeps enforce id (set_published platform_id at) (λ q. refl) in
      search (keeps_rules, row)

  mark_post_failed-Keeps : (id msg : String) → Keeps enforce KnownStatuses (mark_post_failed id msg)
  unfolding mark_post_failed set_failed is_known
  mark_post_failed-Keeps id msg =
      let row = λ (at : Time). update_row-Keeps enforce id (set_failed msg at) (λ q. refl) in
      search (keeps_rules, row)

pub known-Marks : (enforce : Bool) → Marks enforce KnownStatuses (λ p. is_known p.status ≡ true)
known-Marks enforce = record {
  published = λ p platform_id k. mark_post_published-Keeps p.id platform_id;
  failed = λ p msg k. mark_post_failed-Keeps p.id msg;
  changed = λ p t k. update_post-Keeps (record p { scheduled_at = t }) k;
  logged = insert_log_row-Keeps enforce;
  updated =
      update_credential_row-frame enforce (λ posts log. All (λ p. is_known p.status ≡ true) posts);
  inserted =
      insert_credential_row-frame enforce (λ posts log. All (λ p. is_known p.status ≡ true) posts);
}
