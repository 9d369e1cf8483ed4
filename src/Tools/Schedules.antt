-- ===== src/Tools/Schedules.antt =====
-- schedule_mcp.go: the tools on publication schedules.
use social.Prelude.{
  ℕ, suc, String, Bool, true, false, not, ◌&&◌, leb, if◌then◌else◌, Option, none, some, List, [],
  ◌∷◌, ◌⊎◌, inl, inr, str_eq,
}
use Prim.Native.String.{◌++◌ as concat}
use social.Prelude.Int.{ℤ, pos, negsuc}
use social.Model.{Slot, ScheduleStatus, active, paused, PublicationSchedule}
use social.Model.Zone.{Zone}
use social.Model.Errors.{Error, bad_request, invalid_field, Result, ok, err, itoa}
use social.Exec.{M, ◌>>=◌, ◌>>◌, pure, fail, try, ask, now, new_id}
use social.Schedule.{
  insert_schedule, update_schedule, get_schedule, list_schedules, delete_schedule,
  schedule_insert_error,
}
use social.Schedule.TimeOfDay.{scan_time}
use social.Tools.{Fields, reject_if, string_field}

-- `n < 0 || n > max`, negated.
unfoldable pub within : ℕ → ℤ → Bool
within max (pos n) = leb n max
within max (negsuc n) = false

unfoldable pub is_clock : Option (ℤ × ℤ) → Bool
unfolding within
is_clock none = false
is_clock (some (h, m)) = within 23 h && within 59 m

unfoldable pub is_known : Option Zone → Bool
is_known none = false
is_known (some z) = true

abbrev slot_error : ℕ → String → Error
slot_error i msg = invalid_field "slots" (concat "slot " (concat (itoa i) (concat ": " msg)))

-- The body of the loop of validateSlots, for the slot at index i.
unfoldable pub slot_fault : (String → Option Zone) → (String → String) → ℕ → Slot → Option Error
unfolding within is_clock is_known scan_time itoa
slot_fault load quote i slot =
    if str_eq slot.timezone ""
    then some (slot_error i "timezone is required (IANA name, e.g. \"Europe/Copenhagen\")")
    else if not (within 6 slot.weekday)
    then some (slot_error i "weekday must be 0–6 (0=Sunday)")
    else if not (is_clock (scan_time slot.time))
    then some (slot_error i (concat "time must be HH:MM (24-hour), got " (quote slot.time)))
    else if not (is_known (load slot.timezone))
    then some (
        slot_error i
          (concat "timezone " (concat (quote slot.timezone) " is not a valid IANA name")))
    else none

-- The first fault stands.
abbrev first_fault : Option Error → Option Error → Option Error
first_fault none later = later
first_fault (some e) later = some e

unfoldable pub slots_fault :
    (String → Option Zone) → (String → String) → ℕ → List Slot → Option Error
unfolding slot_fault
slots_fault load quote i [] = none
slots_fault load quote i (slot ∷ slots) =
    first_fault (slot_fault load quote i slot) (slots_fault load quote (suc i) slots)

unfoldable pub or_fault : List Slot → Option Error → M (List Slot)
or_fault slots none = pure slots
or_fault slots (some e) = fail e

-- validateSlots, which gives back the slots here.
unfoldable pub validate_slots : List Slot → M (List Slot)
unfolding slots_fault or_fault
validate_slots slots = do
  fault ← ask (λ env. slots_fault env.load_location env.quote 0 slots)
  or_fault slots fault

unfoldable pub decoded_slots : List Slot ⊎ String → M (List Slot)
unfolding validate_slots
decoded_slots (inl slots) = validate_slots slots
decoded_slots (inr e) = fail (invalid_field "slots" (concat "must be a valid JSON array: " e))

-- json.Unmarshal and validateSlots
unfoldable pub read_slots : String → M (List Slot)
unfolding decoded_slots
read_slots raw = do parsed ← ask (λ env. env.parse_slots raw); decoded_slots parsed

unfoldable pub inserted : PublicationSchedule → Result (Unit {0}) → M PublicationSchedule
unfolding schedule_insert_error
inserted s (ok u) = pure s
inserted s (err e) = do explained ← schedule_insert_error s.credential_id e; fail explained

unfoldable pub initial_status : String → ScheduleStatus
initial_status v = if str_eq v "paused" then paused else active

unfoldable pub mcp_create_schedule : Fields → M PublicationSchedule
unfolding reject_if string_field read_slots initial_status inserted
mcp_create_schedule fields = do
  reject_if (str_eq (string_field fields "credential_id") "")
      (invalid_field "credential_id" "required")
  reject_if (str_eq (string_field fields "slots") "")
      (invalid_field "slots" "required — JSON array of slot objects")
  slots ← read_slots (string_field fields "slots")
  at ← now
  id ← new_id
  let s : PublicationSchedule = record {
    id = id;
    credential_id = string_field fields "credential_id";
    slots = slots;
    status = initial_status (string_field fields "status");
    last_tick_at = none;
    created_at = at;
    updated_at = at;
  }
  outcome ← try (insert_schedule s)
  inserted s outcome

unfoldable pub new_slots : List Slot → Option String → M (List Slot)
unfolding read_slots
new_slots old none = pure old
new_slots old (some raw) = read_slots raw

unfoldable pub new_status : ScheduleStatus → Option String → M ScheduleStatus
new_status old none = pure old
new_status old (some v) =
    if str_eq v "active"
    then pure active
    else if str_eq v "paused"
    then pure paused
    else fail (invalid_field "status" "must be 'active' or 'paused'")

unfoldable pub mcp_update_schedule : String → Fields → M PublicationSchedule
unfolding new_slots new_status
mcp_update_schedule slug fields = do
  s ← get_schedule slug
  slots ← new_slots s.slots (fields "slots")
  status ← new_status s.status (fields "status")
  let changed : PublicationSchedule = record s { slots = slots; status = status }
  update_schedule changed
  pure changed

-- MCPList, MCPGet and MCPDelete.
unfoldable pub mcp_list_schedules : M (List PublicationSchedule)
mcp_list_schedules = list_schedules

unfoldable pub mcp_get_schedule : String → M PublicationSchedule
mcp_get_schedule slug = get_schedule slug

unfoldable pub mcp_delete_schedule : String → M (Unit {0})
mcp_delete_schedule slug = delete_schedule slug

-- MCPPublish, MCPSchedule and MCPArchive: a schedule has no lifecycle.
unfoldable pub mcp_move_schedule : String → M (Unit {0})
mcp_move_schedule slug = fail bad_request
