-- ===== src/Post.antt =====
-- post.go: the operations on scheduled posts and on their delivery log.
pub mod Statements
pub mod Delete
pub mod Due
pub mod Listing
pub mod Transaction
pub mod References
use social.Prelude.{
  ℕ, suc, String, Bool, true, false, ◌&&◌, ◌||◌, not, ◌==◌, if◌then◌else◌, Option, none, some, List,
  [], ◌∷◌, str_eq,
}
use social.Table.{select, find?, count}
use social.Table.Order.{order_by}
use social.Model.{Time, ScheduledPost, DeliveryAttempt, Db, PostStatus}
use social.Model.Status.{is_scheduled, is_queued, status_text}
use social.Model.Errors.{Error, not_found, database, wrapped, Result, ok, err}
use social.Exec.{Sys, M, and_then, ◌>>=◌, ◌>>◌, pure, fail, now, new_id, query, exec, ignore, bump}
use Statements.{
  has_id, logs_post, insert_post_row, set_mutable, set_published, set_failed, update_post_row,
  delete_post_row, delete_log_rows, insert_log_row, is_due, scheduled_first, created_last,
  soonest_first, min_scheduled_at,
}

unfoldable pub insert_post : ScheduledPost → M (Unit {0})
insert_post p = exec (insert_post_row p) >> pure tt

unfoldable pub update_post : ScheduledPost → M (Unit {0})
update_post p = do at ← now; exec (update_post_row p.id (set_mutable p at)) >> pure tt

unfoldable pub mark_post_published : String → String → M (Unit {0})
mark_post_published id platform_post_id = do
  at ← now
  exec (update_post_row id (set_published platform_post_id at)) >> pure tt

unfoldable pub mark_post_failed : String → String → M (Unit {0})
mark_post_failed id msg = do at ← now; exec (update_post_row id (set_failed msg at)) >> pure tt

-- sql.ErrNoRows becomes smeldr.ErrNotFound.
abbrev pub or_not_found : {A : Type 0} → Option A → M A
or_not_found none = fail not_found
or_not_found (some a) = pure a

unfoldable pub get_post : String → M ScheduledPost
get_post id = do row ← query (λ db. find? (has_id id) db.posts); or_not_found row

pub data PostOrder : Type 0 where
  newest_created soonest_scheduled : PostOrder

-- Whether every requested status is scheduled or queued.
unfoldable pub all_forward : List PostStatus → Bool
unfolding is_scheduled is_queued
all_forward [] = true
all_forward (s ∷ ss) = (is_scheduled s || is_queued s) && all_forward ss

unfoldable pub order_clause_for_statuses : List PostStatus → PostOrder
unfolding all_forward
order_clause_for_statuses [] = newest_created
order_clause_for_statuses (s ∷ ss) =
    if all_forward (s ∷ ss) then soonest_scheduled else newest_created

unfoldable pub comparison : PostOrder → ScheduledPost → ScheduledPost → Bool
unfolding created_last soonest_first
comparison newest_created = created_last
comparison soonest_scheduled = soonest_first

-- status IN ($1, …)
unfoldable pub status_in : List PostStatus → ScheduledPost → Bool
unfolding status_text
status_in [] p = false
status_in (s ∷ ss) p = str_eq (status_text p.status) (status_text s) || status_in ss p

unfoldable pub wanted : List PostStatus → ScheduledPost → Bool
unfolding status_in
wanted [] p = true
wanted (s ∷ ss) p = status_in (s ∷ ss) p

unfoldable pub list_posts : List PostStatus → M (List ScheduledPost)
list_posts statuses = query (λ db.
    order_by (comparison (order_clause_for_statuses statuses)) (select (wanted statuses) db.posts))

-- The end of a transaction: an error rolls it back and is returned, and so does a failed commit.
abbrev pub end_tx : {A : Type 0} → Option String → Db → Result A → Sys → Result A × Sys
end_tx fault before (err e) s = (err e, record s { db = before; tick = suc s.tick })
end_tx (some m) before (ok a) s = (err (database m), record s { db = before; tick = suc s.tick })
end_tx none before (ok a) s = (ok a, bump s)

abbrev pub begin_tx : {A : Type 0} → Option String → M A → M A
begin_tx (some m) fn env s = (err (wrapped "social: begin" (database m)), bump s)
begin_tx none fn env s = let (r, s') = fn env (bump s) in end_tx (env.db_fault s'.tick) s.db r s'

unfoldable pub in_tx : {A : Type 0} → M A → M A
in_tx fn env s = if env.transactions then begin_tx (env.db_fault s.tick) fn env s else fn env s

unfoldable pub delete_post_steps : String → M (Unit {0})
delete_post_steps id = do
  exec (delete_log_rows id)
  n ← exec (delete_post_row id)
  if n == 0 then fail not_found else pure tt

unfoldable pub delete_post : String → M (Unit {0})
unfolding in_tx delete_post_steps
delete_post id = in_tx (delete_post_steps id)

unfoldable pub due_posts : M (List ScheduledPost)
due_posts = do at ← now; query (λ db. order_by scheduled_first (select (is_due at) db.posts))

unfoldable pub next_scheduled_at : M (Option Time)
next_scheduled_at = query (λ db. min_scheduled_at db.posts)

unfoldable pub log_delivery_attempt : String → ℕ → ℕ → String → M (Unit {0})
log_delivery_attempt post_id attempt status_code msg = do
  id ← new_id
  at ← now
  let row : DeliveryAttempt = record {
    id = id;
    post_id = post_id;
    attempt = attempt;
    status_code = status_code;
    error = msg;
    attempted_at = at;
  }
  exec (insert_log_row row) >> pure tt

unfoldable pub delivery_attempt_count : String → M ℕ
delivery_attempt_count post_id = query (λ db. count (logs_post post_id) db.delivery_log)
