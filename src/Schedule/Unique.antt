-- ===== src/Schedule/Unique.antt =====
-- A credential has at most one publication schedule.
use social.Prelude.{
  ◌≤◌, String, Bool, ◌||◌, ltb, [], ◌∷◌, ◌≡◌, inl, inr, refl, ap, subst, arith, Bool-cases, eq_iff,
  str_eq, tests,
}
use social.Table.{count-one, count-delete_le, count, count-append, count-update}
use social.Model.{Time, PublicationSchedule, Db}
use social.Exec.Keeps.{StatementKeeps}
use social.Schedule.Statements.{
  is_schedule, schedules_credential, insert_schedule_row, update_schedule_row, delete_schedule_row,
  set_slots, set_last_tick,
}

-- No credential has two schedules.
abbrev pub OnePerCredential : Db → Type 0
OnePerCredential db = (id : String) → count (schedules_credential id) db.schedules ≤ 1

pub insert_schedule_row-Keeps :
    (enforce : Bool) (s : PublicationSchedule)
    → StatementKeeps OnePerCredential enforce (insert_schedule_row s)
unfolding insert_schedule_row schedules_credential
insert_schedule_row-Keeps enforce s db h =
    elim (Bool-cases (
      ltb 0 (count (is_schedule s.id) db.schedules)
      || ltb 0 (count (schedules_credential s.credential_id) db.schedules))) [
        | inl e ↦ rw e tt
        | inr e ↦ rw e (λ id.
            let new : count (schedules_credential s.credential_id) db.schedules ≡ 0 = grind tests in
            let old = h id in
            let sum = count-append (schedules_credential id) db.schedules (s ∷ []) in
            let one = count-one (schedules_credential id) s in
            elim (Bool-cases (str_eq s.credential_id id)) [
              | inl f ↦
                  let same : s.credential_id ≡ id = (eq_iff s.credential_id id).0 f in
                  let new' : count (schedules_credential id) db.schedules ≡ 0 =
                    subst (λ c. count (schedules_credential c) db.schedules ≡ 0) same new in
                  ground (arith, sum, new', one, f)
              | inr f ↦ ground (arith, sum, old, one, f)
            ])
      ]

pub update_schedule_row-Keeps :
    (enforce : Bool) (id : String) (f : PublicationSchedule → PublicationSchedule)
    → ((s : PublicationSchedule) → (f s).credential_id ≡ s.credential_id)
    → StatementKeeps OnePerCredential enforce (update_schedule_row id f)
unfolding update_schedule_row schedules_credential
update_schedule_row-Keeps enforce id f same db h = λ c.
    rw
      (count-update (is_schedule id) (schedules_credential c) f db.schedules
        (λ s _. ap (λ x. str_eq x c) (same s)))
      (h c)

pub set_slots-Keeps :
    (enforce : Bool) (s : PublicationSchedule) (t : Time)
    → StatementKeeps OnePerCredential enforce (update_schedule_row s.id (set_slots s t))
unfolding set_slots
set_slots-Keeps enforce s t = update_schedule_row-Keeps enforce s.id (set_slots s t) (λ row. refl)

set_last_tick-Keeps :
    (enforce : Bool) (id : String) (t : Time)
    → StatementKeeps OnePerCredential enforce (update_schedule_row id (set_last_tick t))
unfolding set_last_tick
set_last_tick-Keeps enforce id t =
    update_schedule_row-Keeps enforce id (set_last_tick t) (λ row. refl)

pub delete_schedule_row-Keeps :
    (enforce : Bool) (id : String)
    → StatementKeeps OnePerCredential enforce (delete_schedule_row id)
unfolding delete_schedule_row
delete_schedule_row-Keeps enforce id db h =
    λ c. omega (arith, h c, count-delete_le (schedules_credential c) (is_schedule id) db.schedules)
