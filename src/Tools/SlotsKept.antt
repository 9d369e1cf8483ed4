-- ===== src/Tools/SlotsKept.antt =====
-- The tools on schedules, and the tick that a schedule records, keep the slots valid.
use social.Prelude.{
  String, Bool, true, false, ◌||◌, ltb, Option, none, some, List, [], ◌∷◌, ◌≡◌, inl, inr, refl,
  Bool-cases, All, All-append, All-mem, str_eq,
}
use social.Table.{find?, find?-mem, All-update, All-delete, count}
use social.Model.{Time, Slot, PublicationSchedule, Db, ScheduleStatus}
use social.Model.Zone.{Zone}
use social.Model.Errors.{Error, Result, ok, err, not_found}
use social.Exec.{pure, ◌>>=◌, try, Env, Sys, M, exec}
use social.Exec.Keeps.{After}
use social.Exec.Yields.{
  Yields-fresh, Yields-clock, Yields-read, Yields-attempt, Yields, Yields-pure, Yields-fail,
  Yields-now, Yields-query, Yields-exec, Yields-if, Yields-bind, Yields-then,
}
use social.Post.{or_not_found}
use social.Schedule.{
  insert_schedule, update_schedule, update_schedule_last_tick, get_schedule, delete_schedule,
  schedule_insert_error,
}
use social.Schedule.Statements.{
  is_schedule, schedules_credential, insert_schedule_row, update_schedule_row, delete_schedule_row,
  set_slots, set_last_tick,
}
use social.Tools.{Fields, reject_if}
use social.Tools.Schedules.{
  read_slots, new_slots, new_status, inserted, mcp_create_schedule, mcp_update_schedule,
  mcp_delete_schedule,
}
use social.Tools.Slots.{IsValidSlot, HasValidSlots, ValidSlots, read_slots-Yields}

module _ (load : String → Option Zone) where
  insert_row_kept :
      (enforce : Bool) (s : PublicationSchedule)
      → HasValidSlots load s
      → (db : Db) → ValidSlots load db
      → After (ValidSlots load) (insert_schedule_row s enforce db)
  unfolding insert_schedule_row
  insert_row_kept enforce s v db h =
      elim (Bool-cases (
        ltb 0 (count (is_schedule s.id) db.schedules)
        || ltb 0 (count (schedules_credential s.credential_id) db.schedules))) [
          | inl e ↦ rw e tt
          | inr e ↦ rw e (All-append (HasValidSlots load) db.schedules (s ∷ []) h (v, tt))
        ]

  pub update_row_kept :
      (enforce : Bool) (id : String) (f : PublicationSchedule → PublicationSchedule)
      → ((s : PublicationSchedule) → HasValidSlots load s → HasValidSlots load (f s))
      → (db : Db) → ValidSlots load db
      → After (ValidSlots load) (update_schedule_row id f enforce db)
  unfolding update_schedule_row
  update_row_kept enforce id f k db h =
      All-update (HasValidSlots load) (is_schedule id) f db.schedules (λ s _ v. k s v) h

  pub delete_row_kept :
      (enforce : Bool) (id : String) (db : Db)
      → ValidSlots load db
      → After (ValidSlots load) (delete_schedule_row id enforce db)
  unfolding delete_schedule_row
  delete_row_kept enforce id db h = All-delete (HasValidSlots load) (is_schedule id) db.schedules h

abbrev Kept : Env → {A : Type 0} → (A → Type 0) → M A → Type 0
Kept env P m = Yields env (ValidSlots env.load_location) P m

module _ {env : Env} where
  reject_if-Kept : (b : Bool) (e : Error) → Kept env (λ _. Unit {0}) (reject_if b e)
  unfolding reject_if
  reject_if-Kept true e = Yields-fail e
  reject_if-Kept false e = Yields-pure tt tt

  insert_schedule-Kept :
      (s : PublicationSchedule)
      → HasValidSlots env.load_location s
      → Kept env (λ _. Unit {0}) (insert_schedule s)
  unfolding insert_schedule
  insert_schedule-Kept s v =
      Yields-then
        (Yields-exec (insert_schedule_row s)
          (insert_row_kept env.load_location env.enforce_refs s v) (λ n. tt))
        (λ n. Yields-pure tt tt)

  schedule_insert_error-Kept :
      (id : String) (e : Error) → Kept env (λ _. Unit {0}) (schedule_insert_error id e)
  unfolding schedule_insert_error
  schedule_insert_error-Kept id e = search (Yields-then, Yields-attempt, Yields-read, Yields-pure)

  inserted-Kept :
      (s : PublicationSchedule) (r : Result (Unit {0})) → Kept env (λ _. Unit {0}) (inserted s r)
  unfolding inserted
  inserted-Kept s (ok u) = Yields-pure s tt
  inserted-Kept s (err e) =
      Yields-then (schedule_insert_error-Kept s.credential_id e) (λ x. Yields-fail x)

  read_slots-Kept :
      {B : Type 0} {Q : B → Type 0} (raw : String) {f : List Slot → M B}
      → ((slots : List Slot) → All (IsValidSlot env.load_location) slots → Kept env Q (f slots))
      → Kept env Q (read_slots raw >>= f)
  read_slots-Kept raw k = Yields-bind (read_slots-Yields raw) k

  guarded-Kept :
      {B : Type 0} {Q : B → Type 0} (b : Bool) (e : Error) {f : Unit {0} → M B}
      → ((u : Unit {0}) → Kept env Q (f u))
      → Kept env Q (reject_if b e >>= f)
  guarded-Kept b e k = Yields-then (reject_if-Kept b e) k

  stored-Kept :
      (s : PublicationSchedule)
      → HasValidSlots env.load_location s
      → Kept env (λ _. Unit {0}) (try (insert_schedule s) >>= inserted s)
  stored-Kept s v = Yields-then (Yields-attempt (insert_schedule-Kept s v)) (λ r. inserted-Kept s r)

  mcp_create_schedule-Kept :
      (fields : Fields) → Kept env (λ _. Unit {0}) (mcp_create_schedule fields)
  unfolding mcp_create_schedule
  mcp_create_schedule-Kept fields =
      search (guarded-Kept, read_slots-Kept, Yields-clock, Yields-fresh, stored-Kept) depth 30

  or_not_found-Kept :
      (row : Option PublicationSchedule)
      → ((s : PublicationSchedule) → row ≡ some s → HasValidSlots env.load_location s)
      → Kept env (HasValidSlots env.load_location) (or_not_found row)
  or_not_found-Kept none h = Yields-fail not_found
  or_not_found-Kept (some s) h = Yields-pure s (h s refl)

  get_schedule-Kept : (id : String) → Kept env (HasValidSlots env.load_location) (get_schedule id)
  unfolding get_schedule
  get_schedule-Kept id =
      Yields-bind
        (Yields-query (λ db. find? (is_schedule id) db.schedules)
          (λ db h s e.
            All-mem (HasValidSlots env.load_location) db.schedules h
              (find?-mem (is_schedule id) db.schedules s e)))
        (λ row h. or_not_found-Kept row h)

  new_slots-Kept :
      (old : List Slot) (v : Option String)
      → All (IsValidSlot env.load_location) old
      → Kept env (All (IsValidSlot env.load_location)) (new_slots old v)
  unfolding new_slots
  new_slots-Kept old none h = Yields-pure old h
  new_slots-Kept old (some raw) h = read_slots-Yields raw

  new_status-Kept :
      (old : ScheduleStatus) (v : Option String) → Kept env (λ _. Unit {0}) (new_status old v)
  unfolding new_status
  new_status-Kept old none = Yields-pure old tt
  new_status-Kept old (some v) =
      Yields-if (str_eq v "active") (λ _. Yields-pure _ tt)
        (λ _. Yields-if (str_eq v "paused") (λ _. Yields-pure _ tt) (λ _. Yields-fail _))

  update_row-Kept :
      (id : String) (f : PublicationSchedule → PublicationSchedule)
      → ((s : PublicationSchedule)
          → HasValidSlots env.load_location s
          → HasValidSlots env.load_location (f s))
      → Kept env (λ _. Unit {0}) (exec (update_schedule_row id f))
  update_row-Kept id f k =
      Yields-exec (update_schedule_row id f)
        (update_row_kept env.load_location env.enforce_refs id f k) (λ n. tt)

  update_schedule-Kept :
      (s : PublicationSchedule)
      → HasValidSlots env.load_location s
      → Kept env (λ _. Unit {0}) (update_schedule s)
  unfolding update_schedule set_slots
  update_schedule-Kept s v = Yields-then (Yields-now (λ _. tt)) (λ at.
      Yields-then (update_row-Kept s.id (set_slots s at) (λ row _. v)) (λ n. Yields-pure tt tt))

  found-Kept :
      {B : Type 0} {Q : B → Type 0} (id : String) {f : PublicationSchedule → M B}
      → ((s : PublicationSchedule) → HasValidSlots env.load_location s → Kept env Q (f s))
      → Kept env Q (get_schedule id >>= f)
  found-Kept id k = Yields-bind (get_schedule-Kept id) k

  changed_slots-Kept :
      {B : Type 0} {Q : B → Type 0} (old : List Slot) (v : Option String) {f : List Slot → M B}
      → All (IsValidSlot env.load_location) old
      → ((slots : List Slot) → All (IsValidSlot env.load_location) slots → Kept env Q (f slots))
      → Kept env Q (new_slots old v >>= f)
  changed_slots-Kept old v h k = Yields-bind (new_slots-Kept old v h) k

  changed_status-Kept :
      {B : Type 0} {Q : B → Type 0} (old : ScheduleStatus) (v : Option String)
      {f : ScheduleStatus → M B}
      → ((status : ScheduleStatus) → Kept env Q (f status))
      → Kept env Q (new_status old v >>= f)
  changed_status-Kept old v k = Yields-then (new_status-Kept old v) k

  updated-Kept :
      (s : PublicationSchedule)
      → HasValidSlots env.load_location s
      → Kept env (λ _. Unit {0}) (update_schedule s >>= λ _. pure s)
  updated-Kept s v = Yields-then (update_schedule-Kept s v) (λ _. Yields-pure s tt)

  mcp_update_schedule-Kept :
      (slug : String) (fields : Fields) → Kept env (λ _. Unit {0}) (mcp_update_schedule slug fields)
  unfolding mcp_update_schedule
  mcp_update_schedule-Kept slug fields =
      search (found-Kept, changed_slots-Kept, changed_status-Kept, updated-Kept) depth 30

  mcp_delete_schedule-Kept : (slug : String) → Kept env (λ _. Unit {0}) (mcp_delete_schedule slug)
  unfolding mcp_delete_schedule delete_schedule
  mcp_delete_schedule-Kept slug =
      Yields-then
        (Yields-exec (delete_schedule_row slug)
          (delete_row_kept env.load_location env.enforce_refs slug) (λ n. tt))
        (λ n. Yields-if _ (λ _. Yields-fail not_found) (λ _. Yields-pure tt tt))

  last_tick-Kept :
      (id : String) (t : Time) → Kept env (λ _. Unit {0}) (update_schedule_last_tick id t)
  unfolding update_schedule_last_tick set_last_tick
  last_tick-Kept id t =
      Yields-then (update_row-Kept id (set_last_tick t) (λ row v. v)) (λ n. Yields-pure tt tt)

-- If every slot of every stored schedule has a day of the week, a time of the day and a zone that
-- can be loaded, then so it is after any tool on schedules, and after a tick is recorded, whether
-- they succeed or fail.
pub schedule_tools-ValidSlots :
    (slug : String) (fields : Fields) (at : Time) (env : Env) (s : Sys)
    → ValidSlots env.load_location s.db
    → ValidSlots env.load_location (mcp_create_schedule fields env s).1.db
      × ValidSlots env.load_location (mcp_update_schedule slug fields env s).1.db
      × ValidSlots env.load_location (mcp_delete_schedule slug env s).1.db
      × ValidSlots env.load_location (update_schedule_last_tick slug at env s).1.db
schedule_tools-ValidSlots slug fields at env s h = (
  ((mcp_create_schedule-Kept fields).at s h).0,
  ((mcp_update_schedule-Kept slug fields).at s h).0,
  ((mcp_delete_schedule-Kept slug).at s h).0,
  ((last_tick-Kept slug at).at s h).0,
)
