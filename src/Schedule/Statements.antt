-- ===== src/Schedule/Statements.antt =====
-- The SQL statements of schedule.go on smeldr_social_publication_schedules.
use social.Prelude.{
  leb, ltb, ◌||◌, String, Bool, true, false, if◌then◌else◌, some, [], ◌∷◌, ◌++◌, str_eq,
}
use social.Table.{count, update, delete}
use social.Model.{Time, active, paused, PublicationSchedule}
use social.Model.Errors.{ok, err}
use social.Exec.{Statement}
use social.Post.Statements.{unique_failed}

unfoldable pub is_schedule : String → PublicationSchedule → Bool
is_schedule id s = str_eq s.id id

-- WHERE credential_id=$1
unfoldable pub schedules_credential : String → PublicationSchedule → Bool
schedules_credential id s = str_eq s.credential_id id

-- INSERT: `id` is the primary key and `credential_id` is UNIQUE.
unfoldable pub insert_schedule_row : PublicationSchedule → Statement
insert_schedule_row s enforce db =
    if ltb 0 (count (is_schedule s.id) db.schedules)
      || ltb 0 (count (schedules_credential s.credential_id) db.schedules)
    then err unique_failed
    else ok (record db { schedules = db.schedules ++ s ∷ [] }, 1)

unfoldable pub set_slots : PublicationSchedule → Time → PublicationSchedule → PublicationSchedule
set_slots s at row = record row { slots = s.slots; status = s.status; updated_at = at }

unfoldable pub set_last_tick : Time → PublicationSchedule → PublicationSchedule
set_last_tick at row = record row { last_tick_at = some at; updated_at = at }

unfoldable pub update_schedule_row :
    String → (PublicationSchedule → PublicationSchedule) → Statement
update_schedule_row id f enforce db = ok (
  record db { schedules = update (is_schedule id) f db.schedules },
  count (is_schedule id) db.schedules,
)

unfoldable pub delete_schedule_row : String → Statement
delete_schedule_row id enforce db = ok (
  record db { schedules = delete (is_schedule id) db.schedules },
  count (is_schedule id) db.schedules,
)

unfoldable pub is_active : PublicationSchedule → Bool
is_active s = elim s.status [ active ↦ true | paused ↦ false ]

unfoldable pub older_schedule : PublicationSchedule → PublicationSchedule → Bool
older_schedule s t = leb s.created_at t.created_at
