-- ===== src/Tools/Target.antt =====
-- The columns that the tools on existing posts leave as they are.
use social.Scheduler.Marks.{Marks, publish_now-Keeps, publish_with_retry-Keeps}
use social.Scheduler.Selection.{Selects, process_due-Yields}
use social.Scheduler.Queue.{process_due}
use social.Service.Laws.{After-guard}
use social.Credential.{Tokens, insert_credential_row, update_credential_row}
use social.Prelude.{
  ap, inl, inr, Bool-cases, ltb, ◌==◌, ◌&&◌, String, Bool, true, false, Option, none, some, List,
  [], ◌∷◌, ◌≡◌, refl, ◌∙◌, map,
}
use social.Table.{update, count}
use social.Model.{Platform, Db, Time, ScheduledPost, PostStatus, DeliveryAttempt, CredentialRow}
use social.Model.Errors.{Error}
use social.Exec.{Env, Sys}
use social.Exec.Keeps.{Keeps, StatementKeeps, keeps_rules, Keeps-pure, Keeps-fail}
use social.Post.{get_post, update_post, mark_post_published, mark_post_failed}
use social.Post.Statements.{
  has_id, update_post_row, set_mutable, set_published, set_failed, insert_log_row, same_attempt,
  is_credential, unique_failed, reference_failed,
}
use social.Tools.{
  Fields, mcp_update, mcp_publish, mcp_schedule, mcp_archive, reject_if, update_fields, time_field,
  status_field, parsed_time,
}
use social.Credential.References.{or_not_found-Keeps}

-- The columns that say where a post goes: its identifier, platform and credential.
abbrev pub target : ScheduledPost → String × (Platform × String)
target p = (p.id, (p.platform, p.credential_id))

-- The posts go where the posts of a list go.
abbrev pub SameTargets : List ScheduledPost → Db → Type 0
SameTargets posts db = map target db.posts ≡ map target posts

targets-update :
    (test : ScheduledPost → Bool) (f : ScheduledPost → ScheduledPost) (posts : List ScheduledPost)
    → ((q : ScheduledPost) → target (f q) ≡ target q)
    → map target (update test f posts) ≡ map target posts
unfolding update
targets-update test f [] k = refl
targets-update test f (q ∷ qs) k = elim (Bool-cases (test q)) [
  | inl e ↦ rw e (
      ap (λ t. t ∷ map target (update test f qs)) (k q)
      ∙ ap (λ ts. target q ∷ ts) (targets-update test f qs k))
  | inr e ↦ rw e (ap (λ ts. target q ∷ ts) (targets-update test f qs k))
]

update_row-Keeps :
    (posts : List ScheduledPost) (enforce : Bool) (id : String) (f : ScheduledPost → ScheduledPost)
    → ((q : ScheduledPost) → target (f q) ≡ target q)
    → StatementKeeps (SameTargets posts) enforce (update_post_row id f)
unfolding update_post_row
update_row-Keeps posts enforce id f k db h = targets-update (has_id id) f db.posts k ∙ h

module _ (posts : List ScheduledPost) (enforce : Bool) where
  insert_log_row-Keeps :
      (a : DeliveryAttempt) → StatementKeeps (SameTargets posts) enforce (insert_log_row a)
  unfolding insert_log_row
  insert_log_row-Keeps a db h =
      After-guard (SameTargets posts) (ltb 0 (count (same_attempt a.id) db.delivery_log))
        unique_failed _
        (After-guard (SameTargets posts) (enforce && count (has_id a.post_id) db.posts == 0)
          reference_failed _ h)

  insert_credential_row-Keeps :
      (c : CredentialRow) → StatementKeeps (SameTargets posts) enforce (insert_credential_row c)
  unfolding insert_credential_row
  insert_credential_row-Keeps c db h =
      After-guard (SameTargets posts) (ltb 0 (count (is_credential c.id) db.credentials))
        unique_failed _ h

  update_credential_row-Keeps :
      (id : String) (t : Tokens) (at : Time)
      → StatementKeeps (SameTargets posts) enforce (update_credential_row id t at)
  unfolding update_credential_row
  update_credential_row-Keeps id t at db h = h

module _ (posts : List ScheduledPost) {enforce : Bool} where
  update_post-Keeps : (p : ScheduledPost) → Keeps enforce (SameTargets posts) (update_post p)
  unfolding update_post set_mutable
  update_post-Keeps p =
      let row = λ (at : Time). update_row-Keeps posts enforce p.id (set_mutable p at) (λ q. refl) in
      search (keeps_rules, row)

  mark_post_published-Keeps :
      (id pid : String) → Keeps enforce (SameTargets posts) (mark_post_published id pid)
  unfolding mark_post_published set_published
  mark_post_published-Keeps id pid =
      let row =
        λ (at : Time). update_row-Keeps posts enforce id (set_published pid at) (λ q. refl) in
      search (keeps_rules, row)

  mark_post_failed-Keeps :
      (id msg : String) → Keeps enforce (SameTargets posts) (mark_post_failed id msg)
  unfolding mark_post_failed set_failed
  mark_post_failed-Keeps id msg =
      let row = λ (at : Time). update_row-Keeps posts enforce id (set_failed msg at) (λ q. refl) in
      search (keeps_rules, row)

  marks-SameTargets : Marks enforce (SameTargets posts) (λ p. Unit {0})
  marks-SameTargets = record {
    published = λ p pid k. mark_post_published-Keeps p.id pid;
    failed = λ p msg k. mark_post_failed-Keeps p.id msg;
    changed = λ p t k. update_post-Keeps (record p { scheduled_at = t });
    logged = insert_log_row-Keeps posts enforce;
    updated = update_credential_row-Keeps posts enforce;
    inserted = insert_credential_row-Keeps posts enforce;
  }

  get_post-Keeps : (id : String) → Keeps enforce (SameTargets posts) (get_post id)
  unfolding get_post
  get_post-Keeps id = search (keeps_rules, or_not_found-Keeps)

  reject_if-Keeps : (b : Bool) (e : Error) → Keeps enforce (SameTargets posts) (reject_if b e)
  unfolding reject_if
  reject_if-Keeps true e = Keeps-fail e
  reject_if-Keeps false e = Keeps-pure tt

  parsed_time-Keeps : (t : Option Time) → Keeps enforce (SameTargets posts) (parsed_time t)
  unfolding parsed_time
  parsed_time-Keeps none = search keeps_rules
  parsed_time-Keeps (some t) = search keeps_rules

  time_field-Keeps :
      (old : Option Time) (v : Option String) → Keeps enforce (SameTargets posts) (time_field old v)
  unfolding time_field
  time_field-Keeps old none = search keeps_rules
  time_field-Keeps old (some v) = search (keeps_rules, parsed_time-Keeps)

  status_field-Keeps :
      (old : PostStatus) (v : Option String)
      → Keeps enforce (SameTargets posts) (status_field old v)
  unfolding status_field
  status_field-Keeps old none = search keeps_rules
  status_field-Keeps old (some v) = search keeps_rules

  update_fields-Keeps :
      (fields : Fields) (p : ScheduledPost)
      → Keeps enforce (SameTargets posts) (update_fields fields p)
  unfolding update_fields
  update_fields-Keeps fields p =
      search (keeps_rules, time_field-Keeps, status_field-Keeps, reject_if-Keeps, update_post-Keeps)
        depth 12

  update-Keeps :
      (id : String) (fields : Fields) → Keeps enforce (SameTargets posts) (mcp_update id fields)
  unfolding mcp_update
  update-Keeps id fields =
      search (keeps_rules, get_post-Keeps, reject_if-Keeps, update_fields-Keeps) depth 10

  schedule-Keeps :
      (id : String) (at : Time) → Keeps enforce (SameTargets posts) (mcp_schedule id at)
  unfolding mcp_schedule
  schedule-Keeps id at =
      search (keeps_rules, get_post-Keeps, reject_if-Keeps, update_post-Keeps) depth 10

  archive-Keeps : (id : String) → Keeps enforce (SameTargets posts) (mcp_archive id)
  unfolding mcp_archive
  archive-Keeps id =
      search (keeps_rules, get_post-Keeps, reject_if-Keeps, update_post-Keeps) depth 10

  publish-Keeps : (id : String) → Keeps enforce (SameTargets posts) (mcp_publish id)
  unfolding mcp_publish
  publish-Keeps id =
      let publishing = λ (p : ScheduledPost). publish_now-Keeps marks-SameTargets p tt in
      search (keeps_rules, get_post-Keeps, reject_if-Keeps, publishing) depth 10

selects-SameTargets : (posts : List ScheduledPost) → Selects (SameTargets posts) (λ p. Unit {0})
selects-SameTargets posts = record {
  attempt = λ enforce p k. publish_with_retry-Keeps (marks-SameTargets posts) p k;
  pick = λ db p h m e. tt;
  elsewhere = λ db schedules states h. h;
}

-- Neither the tools that change posts, which update, publish, schedule or archive them, nor a tick
-- of the scheduler change where any post goes: the identifiers, the platforms and the credentials in
-- the table stay as they are, also when an update names another credential.
pub changed_post-SameTargets :
    (id : String) (fields : Fields) (at : Time) (env : Env) (s : Sys)
    → SameTargets s.db.posts (mcp_update id fields env s).1.db
      × SameTargets s.db.posts (mcp_publish id env s).1.db
      × SameTargets s.db.posts (mcp_schedule id at env s).1.db
      × SameTargets s.db.posts (mcp_archive id env s).1.db
      × SameTargets s.db.posts (process_due env s).1.db
changed_post-SameTargets id fields at env s = (
  (update-Keeps s.db.posts id fields).at env s refl refl,
  (publish-Keeps s.db.posts id).at env s refl refl,
  (schedule-Keeps s.db.posts id at).at env s refl refl,
  (archive-Keeps s.db.posts id).at env s refl refl,
  ((process_due-Yields (selects-SameTargets s.db.posts)).at s refl).0,
)
