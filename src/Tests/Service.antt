-- ===== src/Tests/Service.antt =====
-- The theorems on the program as a whole.
use social.Service
use social.Service.{
  no_loop, launched, is_over, tell, Social, Reach, Loop, Actor, serving, joining_scheduler, stopped,
  outside, begin, next, register, add, work, poll, run, plan, elapse, process, request, use_tool,
  stop, scheduler_joined, worker_joined,
}
use social.Tests.Routes.{event}
use social.Router.Worker.{worker_round}
use social.Router.{handle, add_all, RouteMap}
use social.Service.Settled.{Settled}
use social.Model.{RouteJob, delivered}
use social.Service.Stop.{at_once}
use social.Service.{joining_worker, host, cancel, halt, Step, returned}
use social.Prelude.{true, some, [], ◌∷◌, ◌≡◌, refl, arith}
use social.Service.Joined.{stop-Ends, Ends}
use social.Service.Entry.{ToolCall, serve, mounted, Mounts, HttpRequest}
use social.Service.Sound.{Reach-Sound, Sound}
use social.Exec.{Sys}
use social.Table.{count}
use social.Service.Keys.{DistinctKeys}
use social.Post.Statements.{is_credential, has_id}
use social.Scheduler.{next_interval}
use social.Scheduler.Queue.{process_due}
use social.Schedule.Statements.{schedules_credential}
use social.Service.Stop.{stopped-quiet}
use social.Tests.Configs.{daily-ValidSlots, zoned, hook, resolving, hook_added}
use social.Schedule.Unique.{OnePerCredential}
use social.Tests.{job, start, attempt_of, post_with, tables}
use social.Post.References.{References}
use social.Model.{scheduled}

-- One due post with one attempt behind it.
abbrev few : Sys
few = record start {
  db = record tables {
    posts = post_with "p1" scheduled 10 ∷ [];
    delivery_log = attempt_of "a1" "p1" 1 ∷ [];
  };
}

few-DistinctKeys : DistinctKeys few.db
unfolding count
few-DistinctKeys = record {
  posts = λ id. ground arith;
  attempts = λ id. ground arith;
  credentials = λ id. ground arith;
  schedules = λ id. ground arith;
}

few-References : References few.db
unfolding count has_id is_credential
few-References = record { posts = (omega arith, tt); attempts = (omega arith, tt) }

few-OnePerCredential : OnePerCredential few.db
unfolding count schedules_credential
few-OnePerCredential id = ground arith

few-Sound : Sound zoned.load_location few.db
few-Sound = record {
  keys = few-DistinctKeys;
  references = few-References;
  schedules = few-OnePerCredential;
  slots = daily-ValidSlots;
}

-- The scheduler plans, sleeps and carries out a tick.
abbrev planned : Sys
planned = (next_interval zoned few).1

abbrev ticked : Sys
ticked = (process_due zoned planned).1

abbrev mounts : Mounts
mounts = mounted few.clients

abbrev requested : HttpRequest
requested = HttpRequest.delete_post "token" "p1"

abbrev planning_loop : Loop
planning_loop = Service.start no_loop

-- The state behind a tick and a request, and the one behind Stop as well.
abbrev busy : Social
busy = record {
  sys = (serve mounts requested zoned ticked).1;
  mounts = some mounts;
  routes = [];
  scheduler = planning_loop;
  worker = no_loop;
  replaced = [];
  stage = serving;
}

busy-Reach : Reach zoned (launched few) busy
unfolding Service.start Service.is_free
busy-Reach =
    let r0 : Reach zoned (launched few) _ = next begin (register refl refl) in
    let r1 : Reach zoned (launched few) _ = next r0 (run (plan refl)) in
    let r2 : Reach zoned (launched few) _ = next r1 (run (elapse refl)) in
    let r3 : Reach zoned (launched few) _ = next r2 (run (process refl)) in
    next r3 (request mounts requested refl)

Reach-Sound_example : Sound zoned.load_location (serve mounts requested zoned ticked).1.db
Reach-Sound_example = Reach-Sound {a = launched few} refl few-Sound busy-Reach

abbrev stopping : Social
stopping = record busy { stage = joining_scheduler; scheduler = tell planning_loop }

stopping-Reach : Reach zoned (launched few) stopping
stopping-Reach = next busy-Reach (stop refl)

stop-Ends_example : Ends zoned 7 stopping
stop-Ends_example = stop-Ends stopping-Reach (λ e. absurd (cc))

abbrev routed : RouteMap
routed = add_all [] (hook ∷ [])

-- Both goroutines are started, and Stop waits for them; the last step of Stop is still to come.
abbrev joined : Social
joined = record {
  sys = (worker_round resolving (next_interval resolving start).1).1;
  mounts = some (mounted start.clients);
  routes = routed ∷ [];
  scheduler = record { phase = returned; told = true };
  worker = record { phase = returned; told = true };
  replaced = [];
  stage = joining_worker;
}

joined-Reach : Reach resolving (launched start) joined
unfolding Service.start Service.start_worker Service.replace tell is_over Service.is_free
joined-Reach =
    let r0 : Reach resolving (launched start) _ = next begin (register refl refl) in
    let r1 : Reach resolving (launched start) _ =
      next r0 (add (hook ∷ []) routed refl (λ e. absurd (cc)) hook_added) in
    let r2 : Reach resolving (launched start) _ = next r1 (stop refl) in
    let r3 : Reach resolving (launched start) _ = next r2 (run (plan refl)) in
    let r4 : Reach resolving (launched start) _ = next r3 (run (cancel refl refl)) in
    let r5 : Reach resolving (launched start) _ = next r4 (scheduler_joined refl refl) in
    let r6 : Reach resolving (launched start) _ = next r5 (work (poll refl)) in
    next r6 (work (halt refl refl))

last-Step : Step resolving joined host (record joined { stage = stopped })
unfolding is_over
last-Step = worker_joined refl refl

stopped-quiet_example : ◌≡◌ {A = Actor} outside outside
stopped-quiet_example =
    stopped-quiet joined-Reach refl refl last-Step at_once
      (use_tool (ToolCall.delete_scheduled_post "p1")) (λ e. absurd (cc))

-- The route of the test, an event for it, and the first round of the worker.
abbrev rounded : Sys → Sys
rounded s = (worker_round resolving (handle routed "published" event resolving s).1).1

-- A job that is delivered, beside one that is due.
abbrev done_job : RouteJob
done_job = record job { id = "j0"; status = delivered }

abbrev half_done : Sys
half_done = record start { db = record tables { route_jobs = done_job ∷ job ∷ [] } }
