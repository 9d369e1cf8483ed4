-- ===== src/Tools/Lasting.antt =====
-- A published post stays as it is.
use social.Table.Single.{Single-append, Single-update, same_key}
use social.Prelude.{
  ◌<◌, String, Bool, true, false, ◌&&◌, ltb, ◌==◌, [], ◌∷◌, ◌++◌, ◌≡◌, inl, inr, refl, ap, ◌∙◌,
  arith, Bool-cases, All, All-mem,
}
use social.Model.{published, Time, DeliveryAttempt, CredentialRow, Db, ScheduledPost}
use social.Post.Statements.{
  set_published, set_mutable, set_failed, unique_failed, same_attempt, reference_failed,
  is_credential, insert_log_row, update_post_row, insert_post_row, has_id,
}
use social.Post.References.{
  KeepsKeys-set_published, KeepsKeys-set_mutable, KeepsKeys-set_failed, KeepsKeys,
}
use social.Exec.Keeps.{keeps_rules, Keeps, StatementKeeps}
use social.Table.{count}
use social.Service.Laws.{After-guard}
use social.Scheduler.Marks.{publish_with_retry-Keeps, Marks}
use social.Credential.{Tokens, update_credential_row, insert_credential_row}
use social.Post.{update_post, mark_post_published, mark_post_failed, insert_post}
use social.Model.Status.{is_queued, is_scheduled}
use social.Scheduler.Selection.{Selects}
use social.Model.Errors.{ok}

-- The row of a post is there, and every row with its identifier is that row.
pub record Stays (post : ScheduledPost) (db : Db) : Type 0 where
  pub there : 0 < count (has_id post.id) db.posts
  pub same : All (λ p. has_id post.id p ≡ true → p ≡ post) db.posts

-- Another post.
abbrev pub IsOther : ScheduledPost → ScheduledPost → Type 0
IsOther post p = has_id post.id p ≡ false

same_id : (post p q : ScheduledPost) → q.id ≡ p.id → has_id post.id q ≡ has_id post.id p
unfolding has_id
same_id = same_key (λ r. r.id)

module _ (post : ScheduledPost) where
  insert_row-Stays :
      (enforce : Bool) (p : ScheduledPost) → StatementKeeps (Stays post) enforce (insert_post_row p)
  unfolding insert_post_row has_id
  insert_row-Stays enforce p db h = elim (Bool-cases (ltb 0 (count (has_id p.id) db.posts))) [
    | inl e ↦ rw e tt
    | inr e ↦ rw e (
        After-guard (Stays post)
          (enforce && count (is_credential p.credential_id) db.credentials == 0) reference_failed
          (ok (record db { posts = db.posts ++ p ∷ [] }, 1)) (added (ground arith)))
  ]
    where
      added :
          count (has_id p.id) db.posts ≡ 0 → Stays post (record db { posts = db.posts ++ p ∷ [] })
      added new =
          let one = Single-append (λ r. r.id) post p db.posts new (h.there, h.same) in
          record { there = one.0; same = one.1 }

  -- An update of another post.
  update_row-Stays :
      (enforce : Bool) (p : ScheduledPost) (f : ScheduledPost → ScheduledPost)
      → IsOther post p
      → KeepsKeys f
      → StatementKeeps (Stays post) enforce (update_post_row p.id f)
  unfolding update_post_row has_id
  update_row-Stays enforce p f other keys db h =
      let one = Single-update (λ r. r.id) post p f db.posts other keys.same_id (h.there, h.same) in
      record { there = one.0; same = one.1 }

  pub insert_post-Stays :
      {enforce : Bool} (p : ScheduledPost) → Keeps enforce (Stays post) (insert_post p)
  unfolding insert_post
  insert_post-Stays p = search (keeps_rules, insert_row-Stays)

  pub update_post-Stays :
      {enforce : Bool} (p q : ScheduledPost)
      → IsOther post p
      → q.id ≡ p.id
      → Keeps enforce (Stays post) (update_post q)
  unfolding update_post
  update_post-Stays {enforce} p q other e =
      let other_too : IsOther post q = same_id post p q e ∙ other in
      let row = λ (at : Time).
        update_row-Stays enforce q (set_mutable q at) other_too (KeepsKeys-set_mutable q at) in
      search (keeps_rules, row)

  mark_post_published-Stays :
      {enforce : Bool} (p : ScheduledPost) (pid : String)
      → IsOther post p
      → Keeps enforce (Stays post) (mark_post_published p.id pid)
  unfolding mark_post_published
  mark_post_published-Stays {enforce} p pid other =
      let row = λ (at : Time).
        update_row-Stays enforce p (set_published pid at) other (KeepsKeys-set_published pid at) in
      search (keeps_rules, row)

  mark_post_failed-Stays :
      {enforce : Bool} (p : ScheduledPost) (msg : String)
      → IsOther post p
      → Keeps enforce (Stays post) (mark_post_failed p.id msg)
  unfolding mark_post_failed
  mark_post_failed-Stays {enforce} p msg other =
      let row = λ (at : Time).
        update_row-Stays enforce p (set_failed msg at) other (KeepsKeys-set_failed msg at) in
      search (keeps_rules, row)

  insert_log_row-Stays :
      (enforce : Bool) (a : DeliveryAttempt)
      → StatementKeeps (Stays post) enforce (insert_log_row a)
  unfolding insert_log_row
  insert_log_row-Stays enforce a db h =
      let kept : Stays post (record db { delivery_log = db.delivery_log ++ a ∷ [] }) = record {
        there = h.there;
        same = h.same;
      } in
      After-guard (Stays post) (ltb 0 (count (same_attempt a.id) db.delivery_log)) unique_failed _ (
        After-guard (Stays post) (enforce && count (has_id a.post_id) db.posts == 0)
          reference_failed _ kept)

  pub insert_credential_row-Stays :
      (enforce : Bool) (c : CredentialRow)
      → StatementKeeps (Stays post) enforce (insert_credential_row c)
  unfolding insert_credential_row
  insert_credential_row-Stays enforce c db h =
      let kept : Stays post (record db { credentials = db.credentials ++ c ∷ [] }) = record {
        there = h.there;
        same = h.same;
      } in
      After-guard (Stays post) (ltb 0 (count (is_credential c.id) db.credentials)) unique_failed _
        kept

  pub update_credential_row-Stays :
      (enforce : Bool) (id : String) (t : Tokens) (at : Time)
      → StatementKeeps (Stays post) enforce (update_credential_row id t at)
  unfolding update_credential_row
  update_credential_row-Stays enforce id t at db h = record { there = h.there; same = h.same }

  pub IsOther-Marks : (enforce : Bool) → Marks enforce (Stays post) (IsOther post)
  IsOther-Marks enforce = record {
    published = mark_post_published-Stays;
    failed = mark_post_failed-Stays;
    changed = λ p t other. update_post-Stays p (record p { scheduled_at = t }) other refl;
    logged = insert_log_row-Stays enforce;
    updated = update_credential_row-Stays enforce;
    inserted = insert_credential_row-Stays enforce;
  }

  -- Where the post is published, what is neither scheduled nor queued.
  pub Stays-Selects : post.status ≡ published → Selects (Stays post) (IsOther post)
  unfolding is_scheduled is_queued
  Stays-Selects done = record {
    attempt = λ enforce p other. publish_with_retry-Keeps (IsOther-Marks enforce) p other;
    pick = λ db p h m e. elim (Bool-cases (has_id post.id p)) [
      | inl f ↦
          let same = All-mem (λ q. has_id post.id q ≡ true → q ≡ post) db.posts h.same m f in
          absurd
            (let status : p.status ≡ published = ap (λ q. q.status) same ∙ done in ground arith)
      | inr f ↦ f
    ];
    elsewhere = λ db schedules states h. record { there = h.there; same = h.same };
  }
