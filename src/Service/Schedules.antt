-- ===== src/Service/Schedules.antt =====
-- The tools that store slots, under laws on the two statements that do so.
use social.Prelude.{String, Bool, Option, none, some, List, ◌⊎◌, inl, inr}
use social.Model.{Time, Slot, ScheduleStatus, PublicationSchedule, Db}
use social.Tools.Schedules.{
  mcp_update_schedule, mcp_create_schedule, validate_slots, read_slots, or_fault, new_status,
  new_slots, inserted, decoded_slots,
}
use social.Schedule.{update_schedule, insert_schedule, schedule_insert_error, get_schedule}
use social.Exec.Keeps.{keeps_rules, StatementKeeps, Keeps}
use social.Model.Errors.{err, ok, Result, Error}
use social.Schedule.Statements.{set_slots, update_schedule_row, insert_schedule_row}
use social.Credential.References.{or_not_found-Keeps}
use social.Tools.{Fields}
use social.Service.Requests.{reject_if-Keeps}

module _ {enforce : Bool} {P : Db → Type 0} where
  or_fault-Keeps : (slots : List Slot) (o : Option Error) → Keeps enforce P (or_fault slots o)
  unfolding or_fault
  or_fault-Keeps slots none = search keeps_rules
  or_fault-Keeps slots (some e) = search keeps_rules

  decoded_slots-Keeps : (r : List Slot ⊎ String) → Keeps enforce P (decoded_slots r)
  unfolding decoded_slots validate_slots
  decoded_slots-Keeps (inl slots) = search (keeps_rules, or_fault-Keeps)
  decoded_slots-Keeps (inr e) = search keeps_rules

  read_slots-Keeps : (raw : String) → Keeps enforce P (read_slots raw)
  unfolding read_slots
  read_slots-Keeps raw = search (keeps_rules, decoded_slots-Keeps)

  new_slots-Keeps : (old : List Slot) (o : Option String) → Keeps enforce P (new_slots old o)
  unfolding new_slots
  new_slots-Keeps old none = search keeps_rules
  new_slots-Keeps old (some raw) = read_slots-Keeps raw

  new_status-Keeps : (old : ScheduleStatus) (o : Option String) → Keeps enforce P (new_status old o)
  unfolding new_status
  new_status-Keeps old none = search keeps_rules
  new_status-Keeps old (some v) = search keeps_rules

  inserted-Keeps :
      (s : PublicationSchedule) (r : Result (Unit {0})) → Keeps enforce P (inserted s r)
  unfolding inserted schedule_insert_error
  inserted-Keeps s (ok u) = search keeps_rules
  inserted-Keeps s (err e) = search keeps_rules depth 8

  pub get_schedule-Keeps : (id : String) → Keeps enforce P (get_schedule id)
  unfolding get_schedule
  get_schedule-Keeps id = search (keeps_rules, or_not_found-Keeps)

module _ {enforce : Bool} {P : Db → Type 0}
    (insertion : (s : PublicationSchedule) → StatementKeeps P enforce (insert_schedule_row s))
    (update : (s : PublicationSchedule) (at : Time)
      → StatementKeeps P enforce (update_schedule_row s.id (set_slots s at))) where
  insert_schedule-Keeps : (s : PublicationSchedule) → Keeps enforce P (insert_schedule s)
  unfolding insert_schedule
  insert_schedule-Keeps s = search (keeps_rules, insertion)

  update_schedule-Keeps : (s : PublicationSchedule) → Keeps enforce P (update_schedule s)
  unfolding update_schedule
  update_schedule-Keeps s = search (keeps_rules, update)

  pub mcp_create_schedule-Keeps : (fields : Fields) → Keeps enforce P (mcp_create_schedule fields)
  unfolding mcp_create_schedule
  mcp_create_schedule-Keeps fields =
      search (keeps_rules, reject_if-Keeps, read_slots-Keeps, insert_schedule-Keeps, inserted-Keeps)
        depth 20

  pub mcp_update_schedule-Keeps :
      (slug : String) (fields : Fields) → Keeps enforce P (mcp_update_schedule slug fields)
  unfolding mcp_update_schedule
  mcp_update_schedule-Keeps slug fields =
      search
        (keeps_rules, get_schedule-Keeps, new_slots-Keeps, new_status-Keeps, update_schedule-Keeps)
        depth 12
