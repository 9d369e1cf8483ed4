-- ===== src/Service.antt =====
-- social.go with the loops of scheduler.go and route_worker.go: the program as steps of its parts,
-- in any order. The calls of the host do not overlap, and it calls Register and Stop at most once
-- each, but AddRoutes as often as it likes, behind Stop as well; a step carries out one call,
-- request, event, tick or round as a whole.
pub mod Laws
pub mod Stored
pub mod Ticks
pub mod Requests
pub mod Accounts
pub mod Reads
pub mod Deliveries
pub mod Entry
pub mod Flow
pub mod Stop
pub mod Joined
pub mod Tables
pub mod Keys
pub mod Schedules
pub mod Sound
pub mod OnJobs
pub mod Attempts
pub mod Settled
use social.Prelude.{
  ℕ, zero, suc, ◌+◌, ◌-◌, ◌*◌, ◌≤◌, ◌<◌, String, Bool, true, false, not, ◌&&◌, ◌||◌, ltb, leb, ◌==◌,
  if◌then◌else◌, Option, none, some, List, [], ◌∷◌, ◌++◌, ◌≡◌, ◌≢◌, ◌↔◌, ◌⊎◌, inl, inr, refl, sym,
  ap, subst, ◌∙◌, arith, Bool-cases, Option-cases, All, All-append, All-map, All-map₂, All-always,
  All-mem, Mem, here, there, mem-cons, eq_iff, str_eq, length, length-append, take, get_or, tests,
  map,
}
use social.Exec.{Sys, Env}
use Entry.{call, ToolCall, serve, HttpRequest, mounted, Mounts}
use social.Scheduler.{next_interval}
use social.Router.Worker.{worker_round}
use social.Router.{handle, SignalEvent, RouteMap, Route}
use social.Scheduler.Queue.{process_due}
use social.Router.Validate.{add_routes}
use social.Model.Errors.{ok}

-- Where a goroutine stands. `returned` is behind `defer close(done)`.
pub data Phase : Type 0 where
  absent : Phase
  planning : Phase
  waiting : Phase
  working : Phase
  returned : Phase

-- A goroutine, and whether its context is cancelled or its stop channel closed.
pub record Loop : Type 0 where
  pub phase : Phase
  pub told : Bool

abbrev pub no_loop : Loop
no_loop = record { phase = absent; told = false }

-- start: the goroutine begins with nextInterval.
unfoldable pub start : Loop → Loop
start l = record { phase = planning; told = false }

-- `go router.runWorker()`: it begins with a round.
unfoldable pub start_worker : Loop → Loop
start_worker l = record { phase = working; told = false }

-- The first half of stop and of stopWorker: nothing where the goroutine was not started.
unfoldable pub tell : Loop → Loop
tell l = elim l.phase as (λ p. Loop) [
  | absent ↦ l
  | planning ↦ record l { told = true }
  | waiting ↦ record l { told = true }
  | working ↦ record l { told = true }
  | returned ↦ record l { told = true }
]

-- Whether the wait of stop and of stopWorker is over.
unfoldable pub is_over : Phase → Bool
is_over absent = true
is_over returned = true
is_over _ = false

-- run: nextInterval, the select, which may take either case when both are ready, and processDue.
pub data Run (env : Env) (l : Loop) (s : Sys) : Loop → Sys → Type 0 where
  plan : l.phase ≡ planning → Run env l s (record l { phase = waiting }) (next_interval env s).1
  cancel : l.phase ≡ waiting → l.told ≡ true → Run env l s (record l { phase = returned }) s
  elapse : l.phase ≡ waiting → Run env l s (record l { phase = working }) s
  process : l.phase ≡ working → Run env l s (record l { phase = planning }) (process_due env s).1

-- runWorker
pub data Work (env : Env) (l : Loop) (s : Sys) : Loop → Sys → Type 0 where
  poll : l.phase ≡ working → Work env l s (record l { phase = waiting }) (worker_round env s).1
  halt : l.phase ≡ waiting → l.told ≡ true → Work env l s (record l { phase = returned }) s
  tick : l.phase ≡ waiting → Work env l s (record l { phase = working }) s

-- How far Stop has come.
pub data Stage : Type 0 where
  serving : Stage
  joining_scheduler : Stage
  joining_worker : Stage
  stopped : Stage

-- Whether the host is not waiting in Stop.
unfoldable pub is_free : Stage → Bool
is_free serving = true
is_free stopped = true
is_free _ = false

pub record Social : Type 0 where
  pub sys : Sys
  pub mounts : Option Mounts
  -- the maps of the routers, whose handlers the application holds
  pub routes : List RouteMap
  pub scheduler : Loop
  -- the worker of `router`
  pub worker : Loop
  -- the workers of the routers that a later call of AddRoutes has replaced
  pub replaced : List Loop
  pub stage : Stage

-- Before Register and AddRoutes.
abbrev pub launched : Sys → Social
launched s = record {
  sys = s;
  mounts = none;
  routes = [];
  scheduler = no_loop;
  worker = no_loop;
  replaced = [];
  stage = serving;
}

-- `s.router = router`: the worker of the router that was there goes on.
unfoldable pub replace : Loop → List Loop → List Loop
replace l ls = elim l.phase as (λ p. List Loop) [
  | absent ↦ ls
  | planning ↦ l ∷ ls
  | waiting ↦ l ∷ ls
  | working ↦ l ∷ ls
  | returned ↦ l ∷ ls
]

-- Who takes a step: the host application, the outside, or a goroutine of the program.
pub data Actor : Type 0 where
  host : Actor
  outside : Actor
  scheduler_goroutine : Actor
  worker_goroutine : Actor

pub data Step (env : Env) (a : Social) : Actor → Social → Type 0 where
  register :
      is_free a.stage ≡ true
      → a.scheduler.phase ≡ absent
      → Step env a host
          (record a { mounts = some (mounted a.sys.clients); scheduler = start a.scheduler })
  add :
      (routes : List Route) (m : RouteMap)
      → is_free a.stage ≡ true
      → routes ≢ []
      → add_routes env routes ≡ ok m
      → Step env a host (record a {
        routes = m ∷ a.routes;
        worker = start_worker a.worker;
        replaced = replace a.worker a.replaced;
      })
  request :
      (mounts : Mounts) (r : HttpRequest)
      → a.mounts ≡ some mounts
      → Step env a outside (record a { sys = (serve mounts r env a.sys).1 })
  use_tool : (c : ToolCall) → Step env a outside (record a { sys = (call c env a.sys).1 })
  signal :
      (m : RouteMap) (sig : String) (ev : SignalEvent)
      → Mem m a.routes
      → Step env a outside (record a { sys = (handle m sig ev env a.sys).1 })
  run :
      {l : Loop} {s : Sys}
      → Run env a.scheduler a.sys l s
      → Step env a scheduler_goroutine (record a { scheduler = l; sys = s })
  work :
      {l : Loop} {s : Sys}
      → Work env a.worker a.sys l s
      → Step env a worker_goroutine (record a { worker = l; sys = s })
  work_on :
      {w l : Loop} {s : Sys} (before after : List Loop)
      → a.replaced ≡ before ++ w ∷ after
      → Work env w a.sys l s
      → Step env a worker_goroutine (record a { replaced = before ++ l ∷ after; sys = s })
  -- Stop, in three steps
  stop :
      a.stage ≡ serving
      → Step env a host (record a { stage = joining_scheduler; scheduler = tell a.scheduler })
  scheduler_joined :
      a.stage ≡ joining_scheduler
      → is_over a.scheduler.phase ≡ true
      → Step env a host (record a { stage = joining_worker; worker = tell a.worker })
  worker_joined :
      a.stage ≡ joining_worker
      → is_over a.worker.phase ≡ true
      → Step env a host (record a { stage = stopped })

pub data Reach (env : Env) (a : Social) : Social → Type 0 where
  begin : Reach env a a
  next : {b c : Social} {actor : Actor} → Reach env a b → Step env b actor c → Reach env a c
