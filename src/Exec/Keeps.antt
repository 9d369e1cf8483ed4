-- ===== src/Exec/Keeps.antt =====
-- Invariants of the tables, with one rule for each way to build a method.
use social.Prelude.{
  ℕ, suc, String, ◌∷◌, Bool, true, false, if◌then◌else◌, Option, none, some, ◌≡◌, refl,
}
use social.Model.{Db}
use social.Model.Http.{Request, Reply, unreachable, reply}
use social.Model.Errors.{Error, Result, ok, err}
use social.Exec.{
  Env, Sys, M, Statement, and_then, ◌>>=◌, pure, fail, lift, try, ignore, on_error, ask, gets, now,
  new_id, cancelled, query, exec, commit_result, answer, send, receive,
}

-- The tables that a statement leaves, if it is carried out, have the property.
abbrev pub After : (Db → Type 0) → Result (Db × ℕ) → Type 0
After P (ok (db, n)) = P db
After P (err e) = Unit

abbrev pub StatementKeeps : (Db → Type 0) → Bool → Statement → Type 0
StatementKeeps P enforce stmt = (db : Db) → P db → After P (stmt enforce db)

-- The method keeps the property, whether it returns or fails, where references are enforced or
-- not as `enforce` says.
pub record Keeps (enforce : Bool) (P : Db → Type 0) {A : Type 0} (m : M A) : Type 0 where
  pub at : (env : Env) (s : Sys) → env.enforce_refs ≡ enforce → P s.db → P (m env s).1.db

module _ (P : Db → Type 0) where
  pub commit_result-keeps :
      (f : Option String) (r : Result (Db × ℕ)) (s : Sys)
      → After P r
      → P s.db
      → P (commit_result f r s).1.db
  commit_result-keeps (some m) r s a h = h
  commit_result-keeps none (ok (db, n)) s a h = a
  commit_result-keeps none (err e) s a h = h

  answer-keeps : {A : Type 0} (f : Option String) (a : A) (s : Sys) → P s.db → P (answer f a s).1.db
  answer-keeps (some m) a s h = h
  answer-keeps none a s h = h

  receive-keeps : (r : Reply) (env : Env) (s : Sys) → P s.db → P (receive r env s).1.db
  receive-keeps (unreachable m) env s h = h
  receive-keeps (reply r) env s h = h

module _ {enforce : Bool} {P : Db → Type 0} where
  pub Keeps-exec : (stmt : Statement) → StatementKeeps P enforce stmt → Keeps enforce P (exec stmt)
  Keeps-exec stmt k = record {
    at = λ env s e h.
        commit_result-keeps P (env.db_fault s.tick) (stmt env.enforce_refs s.db) s (rw e (k s.db h))
          h;
  }

  pub Keeps-query : {A : Type 0} (f : Db → A) → Keeps enforce P (query f)
  Keeps-query f = record { at = λ env s e h. answer-keeps P (env.db_fault s.tick) (f s.db) s h }

  pub Keeps-pure : {A : Type 0} (a : A) → Keeps enforce P (pure a)
  Keeps-pure a = record { at = λ env s e h. h }

  pub Keeps-fail : {A : Type 0} (e : Error) → Keeps enforce P (fail {A = A} e)
  Keeps-fail e = record { at = λ env s _ h. h }

  pub Keeps-lift : {A : Type 0} (r : Result A) → Keeps enforce P (lift r)
  Keeps-lift r = record { at = λ env s _ h. h }

  pub Keeps-ask : {A : Type 0} (f : Env → A) → Keeps enforce P (ask f)
  Keeps-ask f = record { at = λ env s _ h. h }

  pub Keeps-gets : {A : Type 0} (f : Sys → A) → Keeps enforce P (gets f)
  Keeps-gets f = record { at = λ env s _ h. h }

  pub Keeps-now : Keeps enforce P now
  Keeps-now = record { at = λ env s _ h. h }

  pub Keeps-new_id : Keeps enforce P new_id
  Keeps-new_id = record { at = λ env s _ h. h }

  pub Keeps-cancelled : Keeps enforce P cancelled
  Keeps-cancelled = record { at = λ env s _ h. h }

  pub Keeps-send : (req : Request) → Keeps enforce P (send req)
  Keeps-send req = record {
    at = λ env s _ h.
        receive-keeps P (env.http s.tick req) env
          (record s { sent = req ∷ s.sent; tick = suc s.tick }) h;
  }

  pub Keeps-if :
      {A : Type 0} (b : Bool) {m n : M A}
      → Keeps enforce P m
      → Keeps enforce P n
      → Keeps enforce P (if b then m else n)
  Keeps-if true km kn = km
  Keeps-if false km kn = kn

  -- The same where a branch needs its test.
  pub Keeps-cases :
      {A : Type 0} (b : Bool) {m n : M A}
      → (b ≡ true → Keeps enforce P m)
      → (b ≡ false → Keeps enforce P n)
      → Keeps enforce P (if b then m else n)
  Keeps-cases true km kn = km refl
  Keeps-cases false km kn = kn refl

  pub Keeps-try : {A : Type 0} {m : M A} → Keeps enforce P m → Keeps enforce P (try m)
  Keeps-try km = record { at = km.at }

  pub Keeps-ignore : {A : Type 0} {m : M A} → Keeps enforce P m → Keeps enforce P (ignore m)
  Keeps-ignore km = record { at = km.at }

  pub Keeps-on_error :
      {A : Type 0} (f : Error → Error) {m : M A}
      → Keeps enforce P m
      → Keeps enforce P (on_error f m)
  Keeps-on_error f km = record { at = km.at }

  pub Keeps-and_then :
      {A B : Type 0} (r : Result A) {f : A → M B}
      → ((a : A) → Keeps enforce P (f a))
      → Keeps enforce P (and_then r f)
  Keeps-and_then (ok a) kf = kf a
  Keeps-and_then (err e) kf = Keeps-fail e

  pub Keeps-bind :
      {A B : Type 0} {m : M A} {f : A → M B}
      → Keeps enforce P m
      → ((a : A) → Keeps enforce P (f a))
      → Keeps enforce P (m >>= f)
  Keeps-bind {m = m} km kf = record {
    at = λ env s e h. let (r, s') = m env s in (Keeps-and_then r kf).at env s' e (km.at env s e h);
  }

pub ruleset keeps_rules = (
  Keeps-exec, Keeps-query, Keeps-pure, Keeps-fail, Keeps-lift, Keeps-ask, Keeps-gets, Keeps-now,
  Keeps-new_id, Keeps-cancelled, Keeps-send, Keeps-if, Keeps-try, Keeps-ignore, Keeps-on_error,
  Keeps-bind,
)
