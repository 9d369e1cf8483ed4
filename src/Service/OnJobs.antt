-- ===== src/Service/OnJobs.antt =====
-- What looks at the jobs alone is kept by the program, where it is by a new job and by a round.
use social.Service.{Social, Reach}
use social.Service.Laws.{Lawful}
use social.Service.Tables.{Lawful-OnSchedulesAndJobs}
use social.Service.Schedules.{mcp_create_schedule-Keeps, mcp_update_schedule-Keeps}
use social.Service.Sound.{KeepsRest, Reach-Holds}
use social.Router.Worker.{worker_round}
use social.Prelude.{String, ltb, ◌||◌, List, ◌≡◌, refl}
use social.Model.{Db, Time, PublicationSchedule, RouteJob}
use social.Exec.{Env, Sys}
use social.Exec.Keeps.{StatementKeeps}
use social.Router.Statements.{insert_job_row}
use social.Post.Statements.{unique_failed}
use social.Schedule.Statements.{
  insert_schedule_row, update_schedule_row, delete_schedule_row, set_slots, is_schedule,
  schedules_credential,
}
use social.Service.Laws.{After-guard}
use social.Table.{count}

module _ (env : Env) (Q : List RouteJob → Type 0) where
  abbrev OnJobs : Db → Type 0
  OnJobs db = Q db.route_jobs

  insert_schedule_row-OnJobs :
      (s : PublicationSchedule) → StatementKeeps OnJobs env.enforce_refs (insert_schedule_row s)
  unfolding insert_schedule_row
  insert_schedule_row-OnJobs s db h =
      After-guard OnJobs
        (ltb 0 (count (is_schedule s.id) db.schedules)
          || ltb 0 (count (schedules_credential s.credential_id) db.schedules))
        unique_failed _ h

  update_schedule_row-OnJobs :
      (id : String) (f : PublicationSchedule → PublicationSchedule)
      → StatementKeeps OnJobs env.enforce_refs (update_schedule_row id f)
  unfolding update_schedule_row
  update_schedule_row-OnJobs id f db h = h

  delete_schedule_row-OnJobs :
      (id : String) → StatementKeeps OnJobs env.enforce_refs (delete_schedule_row id)
  unfolding delete_schedule_row
  delete_schedule_row-OnJobs id db h = h

  set_slots-OnJobs :
      (s : PublicationSchedule) (at : Time)
      → StatementKeeps OnJobs env.enforce_refs (update_schedule_row s.id (set_slots s at))
  set_slots-OnJobs s at = update_schedule_row-OnJobs s.id (set_slots s at)

  module _
      (insertion : (j : RouteJob)
        → j.attempts ≡ 0
        → StatementKeeps OnJobs env.enforce_refs (insert_job_row j))
      (round : (s : Sys) → OnJobs s.db → OnJobs (worker_round env s).1.db) where
    laws-OnJobs : Lawful env.enforce_refs OnJobs
    laws-OnJobs =
        Lawful-OnSchedulesAndJobs env.enforce_refs (λ schedules jobs. Q jobs)
          (λ id f k. update_schedule_row-OnJobs id f) delete_schedule_row-OnJobs insertion

    rest-OnJobs : KeepsRest env OnJobs
    rest-OnJobs = record {
      create = λ fields s h.
          (mcp_create_schedule-Keeps insert_schedule_row-OnJobs set_slots-OnJobs fields).at env s
            refl h;
      update = λ slug fields s h.
          (mcp_update_schedule-Keeps insert_schedule_row-OnJobs set_slots-OnJobs slug fields).at env
            s refl h;
      round = round;
    }

    pub Reach-OnJobs :
        {a b : Social} → Reach env a b → Q a.sys.db.route_jobs → Q b.sys.db.route_jobs
    Reach-OnJobs r h = Reach-Holds laws-OnJobs rest-OnJobs r h
