-- ===== src/Service/Sound.antt =====
-- What holds of the tables in every state that the program can reach.
use social.Service.Requests.{
  handle_post_delete-Keeps, handle_post_update-Keeps, handle_post_get-Keeps, handle_post_list-Keeps,
  mcp_archive-Keeps, handle_post_create-Keeps, mcp_schedule-Keeps, mcp_publish-Keeps,
  mcp_update-Keeps, mcp_create-Keeps,
}
use social.Service.Schedules.{mcp_create_schedule-Keeps, mcp_update_schedule-Keeps}
use social.Service.Stored.{delete_post-Keeps, delete_credential-Keeps}
use social.Service.Accounts.{
  mcp_create_config-Keeps, mcp_create_credential-Keeps, x_callback-Keeps, linkedin_callback-Keeps,
  mastodon_callback-Keeps, mcp_delete_schedule-Keeps,
}
use social.Schedule.Unique.{OnePerCredential, insert_schedule_row-Keeps, set_slots-Keeps}
use social.Service.{
  Work, Step, Run, Reach, Loop, Actor, Social, begin, next, plan, cancel, elapse, process, poll,
  halt, tick, register, add, request, use_tool, signal, run, work, work_on, stop, scheduler_joined,
  worker_joined,
}
use social.Service.Entry.{
  no_route, ToolCall, Mounts, serve, call, HttpRequest, mastodon_callback, linkedin_callback,
  x_callback, create_post, list_posts, get_post, update_post, delete_post, create_scheduled_post,
  update_scheduled_post, publish_scheduled_post, schedule_scheduled_post, archive_scheduled_post,
  delete_scheduled_post, create_credential, delete_credential, create_schedule, update_schedule,
  delete_schedule, create_platform_config, read, change_credential, move_schedule,
  change_platform_config,
}
use social.Prelude.{String, Bool, true, Option, ◌≡◌, refl, sym, subst}
use social.Model.{Time, PublicationSchedule, Db}
use social.Exec.{pure, ◌>>=◌, Sys, M, Env}
use social.Model.Zone.{Zone}
use social.Tools.{mcp_delete, Fields}
use social.Service.Laws.{aside, Lawful}
use social.Post.References.{References}
use social.Tools.Slots.{ValidSlots}
use social.Exec.Keeps.{StatementKeeps, Keeps-and_then, Keeps-pure, Keeps-if, Keeps-bind, Keeps}
use social.Service.Tables.{
  References-unseen, Lawful-ValidSlots, Lawful-OnePerCredential, update_schedule_row-References,
  Lawful-References, insert_schedule_row-References,
}
use social.Tools.SlotsKept.{schedule_tools-ValidSlots}
use social.Tools.Schedules.{mcp_move_schedule, mcp_update_schedule, mcp_create_schedule}
use social.Service.Deliveries.{worker_round-Holds, handle-Keeps}
use social.Tools.Credentials.{mcp_change_credential, mcp_delete_credential}
use social.Schedule.Statements.{update_schedule_row, set_slots}
use social.Service.Ticks.{process_due-Keeps, next_interval-Keeps}
use social.Service.Keys.{
  DistinctKeys-unseen, update_schedule_row-DistinctKeys, insert_schedule_row-DistinctKeys,
  Lawful-DistinctKeys, DistinctKeys,
}
use social.Config.Clients.{mcp_change_config}
use social.Service.Reads.{look_up-Keeps}
use social.Router.Worker.{worker_round}

-- In one world, the tools that store slots and a round of the route worker keep the property.
pub record KeepsRest (env : Env) (P : Db → Type 0) : Type 0 where
  pub create : (fields : Fields) (s : Sys) → P s.db → P (mcp_create_schedule fields env s).1.db
  pub update :
      (slug : String) (fields : Fields) (s : Sys)
      → P s.db
      → P (mcp_update_schedule slug fields env s).1.db
  pub round : (s : Sys) → P s.db → P (worker_round env s).1.db

pub ended-Keeps :
    {enforce : Bool} {P : Db → Type 0} {A B : Type 0} (f : A → B) {m : M A}
    → Keeps enforce P m
    → Keeps enforce P (m >>= λ a. pure (f a))
ended-Keeps f k = Keeps-bind k (λ a. Keeps-pure (f a))

module _ {env : Env} {P : Db → Type 0} (laws : Lawful env.enforce_refs P)
    (rest : KeepsRest env P) where
  serve-Keeps : (mounts : Mounts) (r : HttpRequest) → Keeps env.enforce_refs P (serve mounts r)
  unfolding serve
  serve-Keeps mounts (mastodon_callback q) = ended-Keeps _ (mastodon_callback-Keeps (aside laws) q)
  serve-Keeps mounts (linkedin_callback q) =
      Keeps-if mounts.linkedin (ended-Keeps _ (linkedin_callback-Keeps (aside laws) q))
        (Keeps-pure no_route)
  serve-Keeps mounts (x_callback q) = ended-Keeps _ (x_callback-Keeps (aside laws) q)
  serve-Keeps mounts (create_post token body) =
      ended-Keeps _ (handle_post_create-Keeps laws token body)
  serve-Keeps mounts (list_posts token status) = ended-Keeps _ (handle_post_list-Keeps token status)
  serve-Keeps mounts (get_post token id) = ended-Keeps _ (handle_post_get-Keeps token id)
  serve-Keeps mounts (update_post token id body) =
      ended-Keeps _ (handle_post_update-Keeps laws token id body)
  serve-Keeps mounts (delete_post token id) = ended-Keeps _ (handle_post_delete-Keeps laws token id)

  call-Holds : (c : ToolCall) (s : Sys) → P s.db → P (call c env s).1.db
  unfolding call mcp_delete mcp_delete_credential mcp_change_credential mcp_move_schedule
      mcp_change_config
  call-Holds (create_scheduled_post fields) s h =
      (ended-Keeps _ (mcp_create-Keeps laws fields)).at env s refl h
  call-Holds (update_scheduled_post slug fields) s h =
      (ended-Keeps _ (mcp_update-Keeps laws slug fields)).at env s refl h
  call-Holds (publish_scheduled_post slug) s h = (mcp_publish-Keeps laws slug).at env s refl h
  call-Holds (schedule_scheduled_post slug at) s h =
      (mcp_schedule-Keeps laws slug at).at env s refl h
  call-Holds (archive_scheduled_post slug) s h = (mcp_archive-Keeps laws slug).at env s refl h
  call-Holds (delete_scheduled_post slug) s h = (delete_post-Keeps laws slug).at env s refl h
  call-Holds (create_credential fields) s h =
      (ended-Keeps _ (mcp_create_credential-Keeps (aside laws) fields)).at env s refl h
  call-Holds (delete_credential slug) s h =
      (delete_credential-Keeps (aside laws) slug).at env s refl h
  call-Holds (create_schedule fields) s h =
      let (r, t) = mcp_create_schedule fields env s in
      (Keeps-and_then {P = P} r (λ a. Keeps-pure tt)).at env t refl (rest.create fields s h)
  call-Holds (update_schedule slug fields) s h =
      let (r, t) = mcp_update_schedule slug fields env s in
      (Keeps-and_then {P = P} r (λ a. Keeps-pure tt)).at env t refl (rest.update slug fields s h)
  call-Holds (delete_schedule slug) s h =
      (mcp_delete_schedule-Keeps (aside laws) slug).at env s refl h
  call-Holds (create_platform_config fields) s h =
      (ended-Keeps _ (mcp_create_config-Keeps (aside laws) fields)).at env s refl h
  call-Holds (read r) s h = (look_up-Keeps {P = P} r).at env s refl h
  call-Holds (change_credential slug) s h = h
  call-Holds (move_schedule slug) s h = h
  call-Holds (change_platform_config op) s h = h

  Run-Holds : {l m : Loop} {s t : Sys} → Run env l s m t → P s.db → P t.db
  Run-Holds {s = s} (plan e) h = (next_interval-Keeps {P = P}).at env s refl h
  Run-Holds (cancel e f) h = h
  Run-Holds (elapse e) h = h
  Run-Holds {s = s} (process e) h = (process_due-Keeps laws).at env s refl h

  Work-Holds : {l m : Loop} {s t : Sys} → Work env l s m t → P s.db → P t.db
  Work-Holds {s = s} (poll e) h = rest.round s h
  Work-Holds (halt e f) h = h
  Work-Holds (tick e) h = h

  Step-Holds : {a b : Social} {actor : Actor} → Step env a actor b → P a.sys.db → P b.sys.db
  Step-Holds (register e f) h = h
  Step-Holds (add routes m e n g) h = h
  Step-Holds {a = a} (request mounts r e) h = (serve-Keeps mounts r).at env a.sys refl h
  Step-Holds {a = a} (use_tool c) h = call-Holds c a.sys h
  Step-Holds {a = a} (signal m sig ev k) h = (handle-Keeps laws m sig ev).at env a.sys refl h
  Step-Holds (run r) h = Run-Holds r h
  Step-Holds (work w) h = Work-Holds w h
  Step-Holds (work_on before after e w) h = Work-Holds w h
  Step-Holds (stop e) h = h
  Step-Holds (scheduler_joined e f) h = h
  Step-Holds (worker_joined e f) h = h

  pub Reach-Holds : {a b : Social} → Reach env a b → P a.sys.db → P b.sys.db
  Reach-Holds begin h = h
  Reach-Holds (next r st) h = Step-Holds st (Reach-Holds r h)

-- No two rows have one key; every post names a stored credential and every logged attempt a stored
-- post; no credential has two schedules; and every slot has a day of the week, a time of the day
-- and a zone that loads.
pub record Sound (load : String → Option Zone) (db : Db) : Type 0 where
  pub keys : DistinctKeys db
  pub references : References db
  pub schedules : OnePerCredential db
  pub slots : ValidSlots load db

rest-References : {env : Env} → env.enforce_refs ≡ true → KeepsRest env References
rest-References e = record {
  create = λ fields s h.
      (mcp_create_schedule-Keeps {enforce = true} (insert_schedule_row-References true)
          (λ p at. update_schedule_row-References true p.id (set_slots p at)) fields).at
        _ s e h;
  update = λ slug fields s h.
      (mcp_update_schedule-Keeps {enforce = true} (insert_schedule_row-References true)
          (λ p at. update_schedule_row-References true p.id (set_slots p at)) slug fields).at
        _ s e h;
  round = λ s h.
      worker_round-Holds _ (subst (λ x. Lawful x References) (sym e) Lawful-References)
        References-unseen s h;
}

rest-OnePerCredential : (env : Env) → KeepsRest env OnePerCredential
rest-OnePerCredential env = record {
  create = λ fields s h.
      (mcp_create_schedule-Keeps (insert_schedule_row-Keeps env.enforce_refs)
          (set_slots-Keeps env.enforce_refs) fields).at
        env s refl h;
  update = λ slug fields s h.
      (mcp_update_schedule-Keeps (insert_schedule_row-Keeps env.enforce_refs)
          (set_slots-Keeps env.enforce_refs) slug fields).at
        env s refl h;
  round =
      λ s h. worker_round-Holds _ (Lawful-OnePerCredential env.enforce_refs) (λ db jobs k. k) s h;
}

set_slots-DistinctKeys :
    (enforce : Bool) (p : PublicationSchedule) (at : Time)
    → StatementKeeps DistinctKeys enforce (update_schedule_row p.id (set_slots p at))
unfolding set_slots
set_slots-DistinctKeys enforce p at =
    update_schedule_row-DistinctKeys enforce p.id (set_slots p at) (λ s. refl)

rest-DistinctKeys : (env : Env) → KeepsRest env DistinctKeys
rest-DistinctKeys env = record {
  create = λ fields s h.
      (mcp_create_schedule-Keeps (insert_schedule_row-DistinctKeys env.enforce_refs)
          (set_slots-DistinctKeys env.enforce_refs) fields).at
        env s refl h;
  update = λ slug fields s h.
      (mcp_update_schedule-Keeps (insert_schedule_row-DistinctKeys env.enforce_refs)
          (set_slots-DistinctKeys env.enforce_refs) slug fields).at
        env s refl h;
  round =
      λ s h. worker_round-Holds _ (Lawful-DistinctKeys env.enforce_refs) DistinctKeys-unseen s h;
}

rest-ValidSlots : (env : Env) → KeepsRest env (ValidSlots env.load_location)
rest-ValidSlots env = record {
  create = λ fields s h. (schedule_tools-ValidSlots "" fields 0 env s h).0;
  update = λ slug fields s h. (schedule_tools-ValidSlots slug fields 0 env s h).1;
  round = λ s h.
      worker_round-Holds _ (Lawful-ValidSlots env.enforce_refs env.load_location) (λ db jobs k. k) s
        h;
}

-- Where the database enforces references: in every state that the program reaches, by any steps of
-- its host, of HTTP requests, tools and events, of the scheduler and of the route worker, in any
-- order and whichever of them fail, no two posts, attempts, credentials or schedules have one
-- identifier, every post names a stored credential and every logged attempt a stored post, no
-- credential has two schedules, and every slot has a day of the week, a time of the day and a zone
-- that loads, if so it was at the start.
pub Reach-Sound :
    {env : Env} {a b : Social}
    → env.enforce_refs ≡ true
    → Sound env.load_location a.sys.db
    → Reach env a b
    → Sound env.load_location b.sys.db
Reach-Sound {env} e h r = record {
  keys = Reach-Holds (Lawful-DistinctKeys env.enforce_refs) (rest-DistinctKeys env) r h.keys;
  references =
      Reach-Holds (subst (λ x. Lawful x References) (sym e) Lawful-References) (rest-References e) r
        h.references;
  schedules =
      Reach-Holds (Lawful-OnePerCredential env.enforce_refs) (rest-OnePerCredential env) r
        h.schedules;
  slots =
      Reach-Holds (Lawful-ValidSlots env.enforce_refs env.load_location) (rest-ValidSlots env) r
        h.slots;
}
