-- ===== src/Schedule.antt =====
-- schedule.go: the operations on publication schedules, and the queue of a credential.
pub mod Statements
pub mod TimeOfDay
pub mod Fired
pub mod Line
pub mod Walk
pub mod Unique
use Prim.Native.String.{◌++◌ as concat}
use social.Prelude.{
  ℕ, String, Bool, true, false, ◌&&◌, ◌==◌, if◌then◌else◌, Option, none, some, List, [], ◌∷◌,
}
use social.Table.{select, find?}
use social.Table.Order.{order_by}
use social.Model.{Time, ScheduledPost, PublicationSchedule}
use social.Model.Status.{is_queued}
use social.Model.Errors.{Error, not_found, conflict, Result, ok, err}
use social.Exec.{M, and_then, ◌>>=◌, ◌>>◌, pure, fail, try, now, query, exec}
use social.Post.{or_not_found}
use social.Post.Statements.{created_first}
use social.Credential.{uses_credential}
use Statements.{
  is_schedule, schedules_credential, insert_schedule_row, set_slots, set_last_tick,
  update_schedule_row, delete_schedule_row, is_active, older_schedule,
}

unfoldable pub insert_schedule : PublicationSchedule → M (Unit {0})
insert_schedule s = exec (insert_schedule_row s) >> pure tt

unfoldable pub update_schedule : PublicationSchedule → M (Unit {0})
update_schedule s = do at ← now; exec (update_schedule_row s.id (set_slots s at)) >> pure tt

unfoldable pub update_schedule_last_tick : String → Time → M (Unit {0})
update_schedule_last_tick id t = exec (update_schedule_row id (set_last_tick t)) >> pure tt

unfoldable pub already_scheduled : (credential_id id : String) → Error
already_scheduled credential_id id = conflict (
    concat "credential " (
      concat credential_id (
        concat " already has publication schedule "
          (concat id "; change it with update_publication_schedule"))))

-- The second lookup may fail or find nothing: then the insert's own error stands.
unfoldable pub explain : String → Error → Result (Option PublicationSchedule) → Error
unfolding already_scheduled
explain credential_id insert_err (ok (some s)) = already_scheduled credential_id s.id
explain credential_id insert_err _ = insert_err

unfoldable pub schedule_insert_error : String → Error → M Error
unfolding explain
schedule_insert_error credential_id insert_err = do
  found ← try (query (λ db. find? (schedules_credential credential_id) db.schedules))
  pure (explain credential_id insert_err found)

unfoldable pub get_schedule : String → M PublicationSchedule
get_schedule id = do row ← query (λ db. find? (is_schedule id) db.schedules); or_not_found row

unfoldable pub list_schedules : M (List PublicationSchedule)
list_schedules = query (λ db. order_by older_schedule db.schedules)

unfoldable pub list_active_schedules : M (List PublicationSchedule)
list_active_schedules = query (λ db. order_by older_schedule (select is_active db.schedules))

unfoldable pub delete_schedule : String → M (Unit {0})
delete_schedule id = do
  n ← exec (delete_schedule_row id)
  if n == 0 then fail not_found else pure tt

-- WHERE credential_id=$1 AND status='queued'
unfoldable pub waits_for : String → ScheduledPost → Bool
unfolding uses_credential is_queued
waits_for credential_id p = uses_credential credential_id p && is_queued p.status

-- ORDER BY … LIMIT 1
abbrev pub first_row : {A : Type 0} → List A → Option A
first_row [] = none
first_row (a ∷ rest) = some a

unfoldable pub dequeue_oldest_queued : String → M ScheduledPost
dequeue_oldest_queued credential_id = do
  row ← query (λ db. first_row (order_by created_first (select (waits_for credential_id) db.posts)))
  or_not_found row
