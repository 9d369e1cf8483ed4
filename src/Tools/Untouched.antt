-- ===== src/Tools/Untouched.antt =====
-- The tools, the scheduler and a POST leave a published post as it is.
use social.Service.Entry.{
  ToolCall, call, create_scheduled_post, update_scheduled_post, publish_scheduled_post,
  schedule_scheduled_post, archive_scheduled_post, delete_scheduled_post, create_credential,
  delete_credential, create_schedule, update_schedule, delete_schedule, create_platform_config,
  read, change_credential, move_schedule, change_platform_config,
}
use social.Service.Accounts.{
  mcp_create_credential-Keeps, mcp_create_config-Keeps, mcp_delete_schedule-Keeps,
}
use social.Service.Stored.{delete_credential-Keeps}
use social.Service.Reads.{look_up-Keeps}
use social.Service.Sound.{ended-Keeps}
use social.Tools.{mcp_delete}
use social.Tools.Credentials.{mcp_change_credential, mcp_delete_credential}
use social.Tools.Schedules.{mcp_move_schedule}
use social.Config.Clients.{mcp_change_config}
use social.Tools.Elsewhere.{
  aside-Stays, create_schedule-Stays, update_schedule-Stays, delete_post-Stays,
}
use social.Prelude.{
  ◌≢◌, sym, str_eq, eq_iff, String, Bool, true, false, ◌||◌, Option, none, some, ◌≡◌, inl, inr,
  refl, ap, ◌∙◌, arith, Bool-cases, All-mem,
}
use social.Exec.{Sys, ◌>>=◌, M, Env}
use social.Model.{scheduled, archived, Time, published, ScheduledPost}
use social.Post.{update_post, or_not_found, get_post}
use social.Post.Statements.{has_id}
use social.Model.Status.{is_archived, is_failed, is_published}
use social.Tools.{
  cannot, update_fields, mcp_update, mcp_schedule, mcp_publish, mcp_create, mcp_archive, Fields,
  reject_if,
}
use social.Model.Errors.{invalid_field, not_found, Error}
use social.Exec.Yields.{
  Yields-pure, Yields-of_Keeps, Yields-then, Yields-query, Yields-fail, Yields-bind, Yields,
}
use social.Tools.Lasting.{
  Stays-Selects, IsOther-Marks, insert_post-Stays, update_post-Stays, Stays, IsOther,
}
use social.Exec.Keeps.{Keeps-bind, keeps_rules, Keeps}
use social.Table.{find?-mem, find?}
use social.PostHttp.{PostBody, handle_post_create, decoded_create, create_post}
use social.Service.Requests.{reject_if-Keeps, field_rules}
use social.Scheduler.Marks.{publish_now-Keeps}
use social.Scheduler.Queue.{process_due}
use social.Scheduler.Selection.{process_due-Yields}

-- A found post that is not published is another one.
is_other :
    (post p : ScheduledPost)
    → post.status ≡ published
    → (has_id post.id p ≡ true → p ≡ post)
    → is_published p.status ≡ false
    → IsOther post p
unfolding is_published
is_other post p done found open_yet = elim (Bool-cases (has_id post.id p)) [
  | inl e ↦
      absurd
        (let status : p.status ≡ published = ap (λ q. q.status) (found e) ∙ done in ground arith)
  | inr e ↦ e
]

module _ (post : ScheduledPost) where
  update_fields-Stays :
      {enforce : Bool} (fields : Fields) (p : ScheduledPost)
      → IsOther post p
      → Keeps enforce (Stays post) (update_fields fields p)
  unfolding update_fields
  update_fields-Stays {enforce} fields p other =
      let write : (q : ScheduledPost) → q.id ≡ p.id → Keeps enforce (Stays post) (update_post q) =
        λ q e. update_post-Stays post p q other e in
      search (keeps_rules, field_rules, write) depth 12

  mcp_create-Stays :
      {enforce : Bool} (fields : Fields) → Keeps enforce (Stays post) (mcp_create fields)
  unfolding mcp_create
  mcp_create-Stays fields = search (keeps_rules, field_rules, insert_post-Stays post) depth 20

  create_post-Stays : {enforce : Bool} (b : PostBody) → Keeps enforce (Stays post) (create_post b)
  unfolding create_post
  create_post-Stays b = search (keeps_rules, insert_post-Stays post) depth 9

  decoded_create-Stays :
      {enforce : Bool} (body : Option PostBody) → Keeps enforce (Stays post) (decoded_create body)
  unfolding decoded_create
  decoded_create-Stays none = search keeps_rules
  decoded_create-Stays (some b) = create_post-Stays b

  handle_post_create-Stays :
      {enforce : Bool} (token : String) (body : Option PostBody)
      → Keeps enforce (Stays post) (handle_post_create token body)
  unfolding handle_post_create
  handle_post_create-Stays token body =
      search (keeps_rules, field_rules, decoded_create-Stays) depth 8

module _ {env : Env} (post : ScheduledPost) where
  found-Yields :
      (row : Option ScheduledPost)
      → ((p : ScheduledPost) → row ≡ some p → has_id post.id p ≡ true → p ≡ post)
      → Yields env (Stays post) (λ p. has_id post.id p ≡ true → p ≡ post) (or_not_found row)
  found-Yields none h = Yields-fail not_found
  found-Yields (some p) h = Yields-pure p (h p refl)

  get_post-Yields :
      (slug : String)
      → Yields env (Stays post) (λ p. has_id post.id p ≡ true → p ≡ post) (get_post slug)
  unfolding get_post
  get_post-Yields slug =
      Yields-bind
        (Yields-query (λ db. find? (has_id slug) db.posts)
          (λ db h p e.
            All-mem (λ q. has_id post.id q ≡ true → q ≡ post) db.posts h.same
              (find?-mem (has_id slug) db.posts p e)))
        found-Yields

  -- A tool that finds a post, and refuses it where it is published.
  guarded-Yields :
      {B : Type 0} (slug : String) (refused : ScheduledPost → Bool) (e : ScheduledPost → Error)
      {f : ScheduledPost → M B}
      → post.status ≡ published
      → ((p : ScheduledPost) → refused p ≡ false → is_published p.status ≡ false)
      → ((p : ScheduledPost) → IsOther post p → (enforce : Bool) → Keeps enforce (Stays post) (f p))
      → Yields env
          (Stays post)
          (λ b. Unit {0})
          (get_post slug >>= λ p. reject_if (refused p) (e p) >>= λ u. f p)
  unfolding reject_if
  guarded-Yields slug refused e {f} done implied k =
      Yields-bind (get_post-Yields slug) (λ p found. passed p found (refused p) refl)
    where
      passed :
          (p : ScheduledPost)
          → (has_id post.id p ≡ true → p ≡ post)
          → (b : Bool) → refused p ≡ b
          → Yields env (Stays post) (λ x. Unit {0}) (reject_if b (e p) >>= λ u. f p)
      passed p found true g =
          Yields-bind {A = Unit {0}} {P = λ u. ⊥} {f = λ u. f p} (Yields-fail (e p))
            (λ u h. absurd h)
      passed p found false g =
          Yields-then {A = Unit {0}} {f = λ u. f p} (Yields-pure tt tt)
            (λ u. Yields-of_Keeps env (k p (is_other post p done found (implied p g))))

  mcp_update-Yields :
      (slug : String) (fields : Fields)
      → post.status ≡ published
      → Yields env (Stays post) (λ q. Unit {0}) (mcp_update slug fields)
  unfolding mcp_update
  mcp_update-Yields slug fields done =
      guarded-Yields slug (λ p. is_published p.status || is_failed p.status)
        (λ p. cannot "update" p.status) done (λ p e. ground arith)
        (λ p other enforce. update_fields-Stays post fields p other)

  mcp_publish-Yields :
      (slug : String)
      → post.status ≡ published
      → Yields env (Stays post) (λ u. Unit {0}) (mcp_publish slug)
  unfolding mcp_publish
  mcp_publish-Yields slug done =
      guarded-Yields slug (λ p. is_published p.status)
        (λ p. invalid_field "status" "post is already published") done (λ p e. e)
        (λ p other enforce.
          Keeps-bind
            (reject_if-Keeps (is_archived p.status)
              (invalid_field "status" "archived posts cannot be published"))
            (λ u. publish_now-Keeps (IsOther-Marks post enforce) p other))

  mcp_schedule-Yields :
      (slug : String) (at : Time)
      → post.status ≡ published
      → Yields env (Stays post) (λ u. Unit {0}) (mcp_schedule slug at)
  unfolding mcp_schedule
  mcp_schedule-Yields slug at done =
      guarded-Yields slug (λ p. is_published p.status || is_archived p.status)
        (λ p. cannot "schedule" p.status) done (λ p e. ground arith)
        (λ p other enforce.
          update_post-Stays post p (record p { scheduled_at = some at; status = scheduled }) other
            refl)

  mcp_archive-Yields :
      (slug : String)
      → post.status ≡ published
      → Yields env (Stays post) (λ u. Unit {0}) (mcp_archive slug)
  unfolding mcp_archive
  mcp_archive-Yields slug done =
      guarded-Yields slug (λ p. is_published p.status)
        (λ p. invalid_field "status" "published posts cannot be archived via this tool") done
        (λ p e. e)
        (λ p other enforce. update_post-Stays post p (record p { status = archived }) other refl)

module _ (post : ScheduledPost) (env : Env) where
  deletion_cases :
      (slug : String)
      → ToolCall.delete_scheduled_post slug ≢ ToolCall.delete_scheduled_post post.id
      → Keeps env.enforce_refs (Stays post) (mcp_delete slug)
  unfolding mcp_delete
  deletion_cases slug n = elim (Bool-cases (str_eq post.id slug)) [
    | inl e ↦ absurd (n (ap ToolCall.delete_scheduled_post (sym ((eq_iff post.id slug).0 e))))
    | inr e ↦ delete_post-Stays post env.enforce_refs slug e
  ]

  call-Stays :
      (c : ToolCall) (s : Sys)
      → post.status ≡ published
      → c ≢ ToolCall.delete_scheduled_post post.id
      → Stays post s.db
      → Stays post (call c env s).1.db
  unfolding call mcp_change_credential mcp_move_schedule mcp_change_config mcp_delete_credential
  call-Stays (create_scheduled_post fields) s d n h =
      (ended-Keeps _ (mcp_create-Stays post fields)).at env s refl h
  call-Stays (update_scheduled_post slug fields) s d n h =
      ((Yields-then {Q = λ u. Unit {0}} (mcp_update-Yields post slug fields d)
          (λ a. Yields-pure tt tt)).at
        s h).0
  call-Stays (publish_scheduled_post slug) s d n h = ((mcp_publish-Yields post slug d).at s h).0
  call-Stays (schedule_scheduled_post slug at) s d n h =
      ((mcp_schedule-Yields post slug at d).at s h).0
  call-Stays (archive_scheduled_post slug) s d n h = ((mcp_archive-Yields post slug d).at s h).0
  call-Stays (delete_scheduled_post slug) s d n h = (deletion_cases slug n).at env s refl h
  call-Stays (create_credential fields) s d n h =
      (ended-Keeps _ (mcp_create_credential-Keeps (aside-Stays post _) fields)).at env s refl h
  call-Stays (delete_credential slug) s d n h =
      (delete_credential-Keeps (aside-Stays post _) slug).at env s refl h
  call-Stays (create_schedule fields) s d n h =
      (ended-Keeps _ (create_schedule-Stays post _ fields)).at env s refl h
  call-Stays (update_schedule slug fields) s d n h =
      (ended-Keeps _ (update_schedule-Stays post _ slug fields)).at env s refl h
  call-Stays (delete_schedule slug) s d n h =
      (mcp_delete_schedule-Keeps (aside-Stays post _) slug).at env s refl h
  call-Stays (create_platform_config fields) s d n h =
      (ended-Keeps _ (mcp_create_config-Keeps (aside-Stays post _) fields)).at env s refl h
  call-Stays (read r) s d n h = (look_up-Keeps {P = Stays post} r).at env s refl h
  call-Stays (change_credential slug) s d n h = h
  call-Stays (move_schedule slug) s d n h = h
  call-Stays (change_platform_config op) s d n h = h

-- A published post of the table, the only one with its identifier, keeps every field under each tool
-- of the four modules but its own deletion, under a POST, and under a tick of the scheduler,
-- whatever the platforms answer and whichever calls fail.
pub changed_post-Stays :
    (post : ScheduledPost) (c : ToolCall) (token : String) (body : Option PostBody) (env : Env)
    (s : Sys)
    → post.status ≡ published
    → c ≢ ToolCall.delete_scheduled_post post.id
    → Stays post s.db
    → Stays post (call c env s).1.db
      × Stays post (handle_post_create token body env s).1.db
      × Stays post (process_due env s).1.db
changed_post-Stays post c token body env s done other h = (
  call-Stays post env c s done other h,
  (handle_post_create-Stays post token body).at env s refl h,
  ((process_due-Yields (Stays-Selects post done)).at s h).0,
)
