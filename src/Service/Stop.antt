-- ===== src/Service/Stop.antt =====
-- Stop of social.go: what runs after it, and that it can return.
use social.Service.{
  start_worker, joining_worker, begin, next, planning, outside, plan, cancel, elapse, process, poll,
  halt, tick, register, add, request, use_tool, signal, run, work, work_on, stop, scheduler_joined,
  worker_joined,
}
use social.Prelude.{
  false, Bool, true, ◌||◌, List, [], ◌∷◌, ◌++◌, ◌≡◌, ◌≢◌, refl, sym, ap, ◌∙◌, arith,
}
use social.Exec.{Sys, Env}
use social.Service.{
  worker_joined, scheduler_joined, stop, work, run, signal, use_tool, process, tick, request,
  outside, elapse, next, halt, cancel, add, register, poll, plan, launched, Work, Step, Run, Reach,
  Actor, tell, is_over, Stage, Social, Loop, joining_scheduler, host, is_free,
}

-- A goroutine that Stop waits for has been told to end.
abbrev pub is_told : Loop → Bool
is_told l = is_over l.phase || l.told

-- What each stage of Stop has settled.
pub record Settled (a : Social) : Type 0 where
  pub scheduler_told : a.stage ≡ joining_scheduler → is_told a.scheduler ≡ true
  pub scheduler_over : a.stage ≡ joining_worker → is_over a.scheduler.phase ≡ true
  pub worker_told : a.stage ≡ joining_worker → is_told a.worker ≡ true
  -- The worker has no plan to make.
  pub worker_phase : a.worker.phase ≢ planning

pub tell-is_told : (l : Loop) → is_told (tell l) ≡ true
unfolding tell is_over
tell-is_told l = ground arith

Run-is_told :
    {env : Env} {l m : Loop} {s t : Sys} → Run env l s m t → is_told l ≡ true → is_told m ≡ true
unfolding is_over
Run-is_told (plan e) h = ground arith
Run-is_told (cancel e f) h = refl
Run-is_told (elapse e) h = ground arith
Run-is_told (process e) h = ground arith

Run-is_over : {env : Env} {l m : Loop} {s t : Sys} → Run env l s m t → is_over l.phase ≡ false
unfolding is_over
Run-is_over (plan e) = ground arith
Run-is_over (cancel e f) = ground arith
Run-is_over (elapse e) = ground arith
Run-is_over (process e) = ground arith

Work-is_told :
    {env : Env} {l m : Loop} {s t : Sys} → Work env l s m t → is_told l ≡ true → is_told m ≡ true
unfolding is_over
Work-is_told (poll e) h = ground arith
Work-is_told (halt e f) h = refl
Work-is_told (tick e) h = ground arith

Work-is_over : {env : Env} {l m : Loop} {s t : Sys} → Work env l s m t → is_over l.phase ≡ false
unfolding is_over
Work-is_over (poll e) = ground arith
Work-is_over (halt e f) = ground arith
Work-is_over (tick e) = ground arith

start_worker-phase : (l : Loop) → (start_worker l).phase ≢ planning
unfolding start_worker
start_worker-phase l k = absurd (cc)

pub tell-phase : (l : Loop) → (tell l).phase ≡ l.phase
unfolding tell
tell-phase l = ground arith

Work-phase :
    {env : Env} {l m : Loop} {s t : Sys}
    → Work env l s m t
    → l.phase ≢ planning
    → m.phase ≢ planning
Work-phase (poll e) h k = absurd (cc)
Work-phase (halt e f) h k = absurd (cc)
Work-phase (tick e) h k = absurd (cc)

joining : (g : Stage) → is_free g ≡ true → (g ≢ joining_scheduler) × (g ≢ joining_worker)
unfolding is_free
joining g h =
    ((λ e. let k = ap is_free e in absurd (cc)), (λ e. let k = ap is_free e in absurd (cc)))

-- A step of the other parts.
same-Settled :
    {a : Social} (b : Social)
    → b.stage ≡ a.stage
    → b.scheduler ≡ a.scheduler
    → b.worker ≡ a.worker
    → Settled a
    → Settled b
same-Settled b e f g h = record {
  scheduler_told = λ k. ap is_told f ∙ h.scheduler_told (sym e ∙ k);
  scheduler_over = λ k. ap (λ l. is_over l.phase) f ∙ h.scheduler_over (sym e ∙ k);
  worker_told = λ k. ap is_told g ∙ h.worker_told (sym e ∙ k);
  worker_phase = λ k. h.worker_phase (sym (ap (λ l. l.phase) g) ∙ k);
}

Step-Settled :
    {env : Env} {a b : Social} {actor : Actor} → Step env a actor b → Settled a → Settled b
Step-Settled {a = a} (register e f) h = record {
  scheduler_told = λ k. absurd ((joining a.stage e).0 k);
  scheduler_over = λ k. absurd ((joining a.stage e).1 k);
  worker_told = h.worker_told;
  worker_phase = h.worker_phase;
}
Step-Settled {a = a} (add routes m e n g) h = record {
  scheduler_told = h.scheduler_told;
  scheduler_over = h.scheduler_over;
  worker_told = λ k. absurd ((joining a.stage e).1 k);
  worker_phase = start_worker-phase _;
}
Step-Settled (request mounts r e) h = same-Settled _ refl refl refl h
Step-Settled (use_tool c) h = same-Settled _ refl refl refl h
Step-Settled (signal m sig ev k) h = same-Settled _ refl refl refl h
Step-Settled (work_on before after e w) h = same-Settled _ refl refl refl h
Step-Settled (run r) h = record {
  scheduler_told = λ k. Run-is_told r (h.scheduler_told k);
  scheduler_over = λ k. let e = h.scheduler_over k in let f = Run-is_over r in absurd (cc);
  worker_told = h.worker_told;
  worker_phase = h.worker_phase;
}
Step-Settled (work w) h = record {
  scheduler_told = h.scheduler_told;
  scheduler_over = h.scheduler_over;
  worker_told = λ k. Work-is_told w (h.worker_told k);
  worker_phase = Work-phase w h.worker_phase;
}
Step-Settled {a = a} (stop e) h = record {
  scheduler_told = λ k. tell-is_told a.scheduler;
  scheduler_over = λ k. absurd (cc);
  worker_told = λ k. absurd (cc);
  worker_phase = h.worker_phase;
}
Step-Settled {a = a} (scheduler_joined e f) h = record {
  scheduler_told = λ k. absurd (cc);
  scheduler_over = λ k. f;
  worker_told = λ k. tell-is_told a.worker;
  worker_phase = λ k. h.worker_phase (sym (tell-phase a.worker) ∙ k);
}
Step-Settled (worker_joined e f) h = record {
  scheduler_told = λ k. absurd (cc);
  scheduler_over = λ k. absurd (cc);
  worker_told = λ k. absurd (cc);
  worker_phase = h.worker_phase;
}

pub Reach-Settled : {env : Env} {s : Sys} {a : Social} → Reach env (launched s) a → Settled a
Reach-Settled begin = record {
  scheduler_told = λ k. absurd (cc);
  scheduler_over = λ k. absurd (cc);
  worker_told = λ k. absurd (cc);
  worker_phase = λ k. absurd (cc);
}
Reach-Settled (next r st) = Step-Settled st (Reach-Settled r)

-- Steps during which the host calls nothing.
pub data Later (env : Env) (a : Social) : Social → Type 0 where
  at_once : Later env a a
  later :
      {b c : Social} {actor : Actor}
      → Later env a b
      → Step env b actor c
      → actor ≢ host
      → Later env a c

-- Every goroutine that was ever started has returned.
record Still (a : Social) : Type 0 where
  scheduler : is_over a.scheduler.phase ≡ true
  worker : is_over a.worker.phase ≡ true
  replaced : a.replaced ≡ []

not_split : (before after : List Loop) (w : Loop) → [] ≡ before ++ w ∷ after → ⊥
not_split [] after w e = absurd (cc)
not_split (x ∷ before) after w e = absurd (cc)

Step-Still :
    {env : Env} {a b : Social} {actor : Actor}
    → Step env a actor b
    → actor ≢ host
    → Still a
    → (actor ≡ outside) × Still b
Step-Still (register e f) n h = absurd (n refl)
Step-Still (add routes m e k g) n h = absurd (n refl)
Step-Still (stop e) n h = absurd (n refl)
Step-Still (scheduler_joined e f) n h = absurd (n refl)
Step-Still (worker_joined e f) n h = absurd (n refl)
Step-Still (request mounts q e) n h =
    (refl, record { scheduler = h.scheduler; worker = h.worker; replaced = h.replaced })
Step-Still (use_tool c) n h =
    (refl, record { scheduler = h.scheduler; worker = h.worker; replaced = h.replaced })
Step-Still (signal m sig ev k) n h =
    (refl, record { scheduler = h.scheduler; worker = h.worker; replaced = h.replaced })
Step-Still (run r) n h = let e = h.scheduler in let f = Run-is_over r in absurd (cc)
Step-Still (work w) n h = let e = h.worker in let f = Work-is_over w in absurd (cc)
Step-Still (work_on {w = w} before after e r) n h =
    absurd (not_split before after w (sym h.replaced ∙ e))

Later-Still : {env : Env} {a b : Social} → Later env a b → Still a → Still b
Later-Still at_once h = h
Later-Still (later r st n) h = (Step-Still st n (Later-Still r h)).1

-- The step with which Stop returns.
return-Still :
    {env : Env} {a b : Social} {actor : Actor}
    → Step env a actor b
    → actor ≡ host
    → a.stage ≡ joining_worker
    → a.replaced ≡ []
    → Settled a
    → Still b
return-Still {a = a} (register e f) o g k h = absurd ((joining a.stage e).1 g)
return-Still {a = a} (add routes m e n f) o g k h = absurd ((joining a.stage e).1 g)
return-Still (request mounts q e) o g k h = absurd (cc)
return-Still (use_tool c) o g k h = absurd (cc)
return-Still (signal m sig ev f) o g k h = absurd (cc)
return-Still (run r) o g k h = absurd (cc)
return-Still (work w) o g k h = absurd (cc)
return-Still (work_on before after e w) o g k h = absurd (cc)
return-Still (stop e) o g k h = absurd (cc)
return-Still (scheduler_joined e f) o g k h = absurd (cc)
return-Still (worker_joined e f) o g k h = record {
  scheduler = h.scheduler_over g;
  worker = f;
  replaced = k;
}

-- Where AddRoutes has replaced no router: once the host has taken the last step of Stop, whatever
-- changes the state comes from outside, as long as the host calls nothing more. The scheduler and
-- the worker take no step.
pub stopped-quiet :
    {env : Env} {s : Sys} {a b c d : Social} {actor : Actor}
    → Reach env (launched s) a
    → a.stage ≡ joining_worker
    → a.replaced ≡ []
    → Step env a host b
    → Later env b c
    → Step env c actor d
    → actor ≢ host
    → actor ≡ outside
stopped-quiet r e k last after st n =
    (Step-Still st n (Later-Still after (return-Still last refl e k (Reach-Settled r)))).0
