-- ===== src/Tools/Vocabulary.antt =====
-- The statuses of the posts in the table, after the tools and after a tick of the scheduler.
use social.Prelude.{
  String, Bool, true, false, Option, none, some, ◌≡◌, inl, inr, refl, Bool-cases, All-mem,
}
use social.Table.{find?, find?-mem}
use social.Model.{
  Time, ScheduledPost, PostStatus, draft, scheduled, published, failed, archived, queued,
  other_status,
}
use social.Model.Status.{is_settable, is_draft, post_status}
use social.Model.Errors.{Error}
use social.Exec.{Env, Sys, M, ◌>>=◌, pure}
use social.Exec.Keeps.{Keeps, keeps_rules}
use social.Exec.Yields.{
  Yields-if, Yields-pure, Yields-fail, Yields-query, Yields-bind, Yields-then, Yields-clock,
  Yields-fresh, Yields-of_Keeps,
}
use social.Post.{insert_post, update_post, get_post}
use social.Post.Statements.{has_id}
use social.Scheduler.{publish_now}
use social.Scheduler.Queue.{process_due}
use social.Scheduler.Marks.{publish_now-Keeps, publish_with_retry-Keeps}
use social.Scheduler.Selection.{Selects, process_due-Yields}
use social.Tools.{
  Fields, reject_if, time_field, parsed_time, status_field, promoted, mcp_create, mcp_update,
  update_fields, mcp_publish, mcp_schedule, mcp_archive,
}
use social.Tools.Statuses.{
  or_not_found-Kept, Kept, is_known, KnownStatuses, insert_post-Keeps, update_post-Keeps,
  known-Marks,
}

settable-known : (status : PostStatus) → is_settable status ≡ true → is_known status ≡ true
unfolding is_settable is_known
settable-known draft h = refl
settable-known scheduled h = refl
settable-known published h = refl
settable-known failed h = refl
settable-known archived h = refl
settable-known queued h = refl
settable-known (other_status v) h = h

promoted-known :
    (t : Option Time) (status : PostStatus)
    → is_known status ≡ true
    → is_known (promoted t status) ≡ true
unfolding promoted is_known
promoted-known none status h = h
promoted-known (some t) status h = elim (Bool-cases (is_draft status)) [
  | inl e ↦ rw e refl
  | inr e ↦ rw e h
]

known_draft : is_known draft ≡ true
unfolding is_known
known_draft = refl

parsed_time-Keeps : (enforce : Bool) (t : Option Time) → Keeps enforce KnownStatuses (parsed_time t)
unfolding parsed_time
parsed_time-Keeps enforce none = search keeps_rules
parsed_time-Keeps enforce (some t) = search keeps_rules

time_field-Keeps :
    (enforce : Bool) (old : Option Time) (v : Option String)
    → Keeps enforce KnownStatuses (time_field old v)
unfolding time_field
time_field-Keeps enforce old none = search keeps_rules
time_field-Keeps enforce old (some v) = search (keeps_rules, parsed_time-Keeps)

module _ {env : Env} where
  guarded-Kept :
      {B : Type 0} {Q : B → Type 0} (b : Bool) (e : Error) {f : Unit {0} → M B}
      → ((u : Unit {0}) → Kept env Q (f u))
      → Kept env Q (reject_if b e >>= f)
  unfolding reject_if
  guarded-Kept true e k = Yields-then (Yields-fail e) k
  guarded-Kept false e k = Yields-then (Yields-pure tt tt) k

  time_field-Kept :
      {B : Type 0} {Q : B → Type 0} (old : Option Time) (v : Option String) {f : Option Time → M B}
      → ((t : Option Time) → Kept env Q (f t))
      → Kept env Q (time_field old v >>= f)
  time_field-Kept old v k =
      Yields-then (Yields-of_Keeps env (λ enforce. time_field-Keeps enforce old v)) k

  status_field-Yields :
      (old : PostStatus) (v : Option String)
      → is_known old ≡ true
      → Kept env (λ status. is_known status ≡ true) (status_field old v)
  unfolding status_field
  status_field-Yields old none h = Yields-pure old h
  status_field-Yields old (some v) h =
      Yields-if (is_settable (post_status v))
        (λ e. Yields-pure (post_status v) (settable-known (post_status v) e)) (λ e. Yields-fail _)

  status_field-Kept :
      {B : Type 0} {Q : B → Type 0} (old : PostStatus) (v : Option String) {f : PostStatus → M B}
      → is_known old ≡ true
      → ((status : PostStatus) → is_known status ≡ true → Kept env Q (f status))
      → Kept env Q (status_field old v >>= f)
  status_field-Kept old v h k = Yields-bind (status_field-Yields old v h) k

  inserted-Kept :
      (p : ScheduledPost)
      → is_known p.status ≡ true
      → Kept env (λ _. Unit {0}) (insert_post p >>= λ _. pure p)
  inserted-Kept p k =
      Yields-then (Yields-of_Keeps env (λ enforce. insert_post-Keeps p k)) (λ _. Yields-pure p tt)

  updated-Kept :
      (p : ScheduledPost)
      → is_known p.status ≡ true
      → Kept env (λ _. Unit {0}) (update_post p >>= λ _. pure p)
  updated-Kept p k =
      Yields-then (Yields-of_Keeps env (λ enforce. update_post-Keeps p k)) (λ _. Yields-pure p tt)

  get_post-Yields : (id : String) → Kept env (λ p. is_known p.status ≡ true) (get_post id)
  unfolding get_post
  get_post-Yields id =
      Yields-bind
        (Yields-query (λ db. find? (has_id id) db.posts)
          (λ db h p e.
            All-mem (λ q. is_known q.status ≡ true) db.posts h
              (find?-mem (has_id id) db.posts p e)))
        (λ row h. or_not_found-Kept row h)

  found-Kept :
      {B : Type 0} {Q : B → Type 0} (id : String) {f : ScheduledPost → M B}
      → ((p : ScheduledPost) → is_known p.status ≡ true → Kept env Q (f p))
      → Kept env Q (get_post id >>= f)
  found-Kept id k = Yields-bind (get_post-Yields id) k

  mcp_create-Kept : (fields : Fields) → Kept env (λ _. Unit {0}) (mcp_create fields)
  unfolding mcp_create
  mcp_create-Kept fields =
      let fresh : is_known draft ≡ true = known_draft in
      search
        (
          guarded-Kept, Yields-clock, Yields-fresh, time_field-Kept, status_field-Kept,
          inserted-Kept, promoted-known, fresh,
        )
        depth 30

  mcp_update-Kept :
      (slug : String) (fields : Fields) → Kept env (λ _. Unit {0}) (mcp_update slug fields)
  unfolding mcp_update update_fields
  mcp_update-Kept slug fields =
      search
        (found-Kept, guarded-Kept, time_field-Kept, status_field-Kept, updated-Kept, promoted-known)
        depth 30

  constant-Kept :
      (p : ScheduledPost) → is_known p.status ≡ true → Kept env (λ _. Unit {0}) (update_post p)
  constant-Kept p k = Yields-of_Keeps env (λ enforce. update_post-Keeps p k)

  now-Kept :
      (p : ScheduledPost) → is_known p.status ≡ true → Kept env (λ _. Unit {0}) (publish_now p)
  now-Kept p k = Yields-of_Keeps env (λ enforce. publish_now-Keeps (known-Marks enforce) p k)

  mcp_publish-Kept : (slug : String) → Kept env (λ _. Unit {0}) (mcp_publish slug)
  unfolding mcp_publish
  mcp_publish-Kept slug = search (found-Kept, guarded-Kept, now-Kept) depth 30

  mcp_schedule-Kept : (slug : String) (at : Time) → Kept env (λ _. Unit {0}) (mcp_schedule slug at)
  unfolding mcp_schedule is_known
  mcp_schedule-Kept slug at =
      Yields-bind (get_post-Yields slug) (λ p h. guarded-Kept _ _ (λ u. constant-Kept _ refl))

  mcp_archive-Kept : (slug : String) → Kept env (λ _. Unit {0}) (mcp_archive slug)
  unfolding mcp_archive is_known
  mcp_archive-Kept slug =
      Yields-bind (get_post-Yields slug) (λ p h. guarded-Kept _ _ (λ u. constant-Kept _ refl))

statuses_kept : Selects KnownStatuses (λ p. is_known p.status ≡ true)
statuses_kept = record {
  attempt = λ enforce p k. publish_with_retry-Keeps (known-Marks enforce) p k;
  pick = λ db p h m e. All-mem (λ q. is_known q.status ≡ true) db.posts h m;
  elsewhere = λ db schedules states h. h;
}

-- If every stored post has one of the six statuses of post.go, then so it is after any tool that
-- changes a post and after a tick of the scheduler, whether they succeed or fail.
pub changed_post-KnownStatuses :
    (slug : String) (fields : Fields) (at : Time) (env : Env) (s : Sys)
    → KnownStatuses s.db
    → KnownStatuses (mcp_create fields env s).1.db
      × KnownStatuses (mcp_update slug fields env s).1.db
      × KnownStatuses (mcp_publish slug env s).1.db
      × KnownStatuses (mcp_schedule slug at env s).1.db
      × KnownStatuses (mcp_archive slug env s).1.db
      × KnownStatuses (process_due env s).1.db
changed_post-KnownStatuses slug fields at env s h = (
  ((mcp_create-Kept fields).at s h).0,
  ((mcp_update-Kept slug fields).at s h).0,
  ((mcp_publish-Kept slug).at s h).0,
  ((mcp_schedule-Kept slug at).at s h).0,
  ((mcp_archive-Kept slug).at s h).0,
  ((process_due-Yields statuses_kept).at s h).0,
)
