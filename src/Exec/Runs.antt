-- ===== src/Exec/Runs.antt =====
-- Methods that always return, and add a bounded number of rows to the delivery log.
use social.Prelude.{ℕ, ◌+◌, ◌≤◌, Bool, true, false, if◌then◌else◌, ◌≡◌, refl, arith, length}
use social.Model.Errors.{Result, ok, err}
use social.Exec.{Env, Sys, M, and_then, ◌>>=◌, pure, try, ignore, ask, gets, now, cancelled}
use social.Exec.Keeps.{Keeps}

abbrev pub logged : Sys → ℕ
logged s = length s.db.delivery_log

-- At most `n` rows are added, whether the method returns or fails.
pub record Adds (n : ℕ) {A : Type 0} (m : M A) : Type 0 where
  pub at : (env : Env) (s : Sys) → logged (m env s).1 ≤ logged s + n

-- What a method that returns gives.
pub record Outcome (n : ℕ) {A : Type 0} (s : Sys) (out : Result A × Sys) : Type 0 where
  pub value : A
  pub returned : out.0 ≡ ok value
  pub bounded : logged out.1 ≤ logged s + n

-- The method returns, and adds at most `n` rows.
pub record Runs (n : ℕ) {A : Type 0} (m : M A) : Type 0 where
  pub at : (env : Env) (s : Sys) → Outcome n s (m env s)

-- No row is added by a method that keeps every bound on the log.
pub Adds-of_Keeps :
    {A : Type 0} {m : M A}
    → ((enforce : Bool) (k : ℕ) → Keeps enforce (λ db. length db.delivery_log ≤ k) m)
    → Adds 0 m
Adds-of_Keeps {m = m} k = record {
  at = λ env s. omega (arith, (k env.enforce_refs (logged s)).at env s refl (omega arith));
}

module _ {A : Type 0} where
  pub Runs-pure : (a : A) → Runs 0 (pure a)
  Runs-pure a = record {
    at = λ env s. record { value = a; returned = refl; bounded = omega arith };
  }

  pub Runs-ask : (f : Env → A) → Runs 0 (ask f)
  Runs-ask f = record {
    at = λ env s. record { value = f env; returned = refl; bounded = omega arith };
  }

  pub Runs-gets : (f : Sys → A) → Runs 0 (gets f)
  Runs-gets f = record {
    at = λ env s. record { value = f s; returned = refl; bounded = omega arith };
  }

  pub Runs-try : {n : ℕ} {m : M A} → Adds n m → Runs n (try m)
  Runs-try {m = m} a = record {
    at = λ env s. record { value = (m env s).0; returned = refl; bounded = a.at env s };
  }

  pub Runs-ignore : {n : ℕ} {m : M A} → Adds n m → Runs n (ignore m)
  Runs-ignore a = record {
    at = λ env s. record { value = tt; returned = refl; bounded = a.at env s };
  }

  pub Runs-if : {n : ℕ} (b : Bool) {m k : M A} → Runs n m → Runs n k → Runs n (if b then m else k)
  Runs-if true r q = r
  Runs-if false r q = q

  pub Runs-le : {k n : ℕ} {m : M A} → k ≤ n → Runs k m → Runs n m
  Runs-le h r = record {
    at = λ env s.
        let o = r.at env s in
        record { value = o.value; returned = o.returned; bounded = omega (arith, o.bounded) };
  }

pub Runs-now : Runs 0 now
Runs-now = record {
  at = λ env s. record { value = env.clock s.tick; returned = refl; bounded = omega arith };
}

pub Runs-cancelled : Runs 0 cancelled
Runs-cancelled = record {
  at = λ env s. record { value = env.cancelled s.tick; returned = refl; bounded = omega arith };
}

module _ {A B : Type 0} where
  after :
      (k n : ℕ) (r : Result A) (f : A → M B) (a : A) (env : Env) (s s' : Sys)
      → r ≡ ok a
      → logged s' ≤ logged s + k
      → Outcome n s' (f a env s')
      → Outcome (k + n) s (and_then r f env s')
  after k n (ok b) f a env s s' e h o =
      let e' : b ≡ a = cc in
      rw e' (record { value = o.value; returned = o.returned; bounded = omega (arith, o.bounded) })
  after k n (err x) f a env s s' e h o = absurd (cc)

  pub Runs-bind_sum :
      (k n : ℕ) {m : M A} {f : A → M B}
      → Runs k m
      → ((a : A) → Runs n (f a))
      → Runs (k + n) (m >>= f)
  Runs-bind_sum k n {m} {f} r q = record {
    at = λ env s.
        let (res, s') = m env s in
        let o = r.at env s in
        after k n res f o.value env s s' o.returned o.bounded ((q o.value).at env s');
  }

  pub Runs-then :
      {n : ℕ} {m : M A} {f : A → M B} → Runs 0 m → ((a : A) → Runs n (f a)) → Runs n (m >>= f)
  Runs-then {n} r q = Runs-le (omega arith) (Runs-bind_sum 0 n r q)

  pub Runs-before :
      {n : ℕ} {m : M A} {f : A → M B} → Runs n m → ((a : A) → Runs 0 (f a)) → Runs n (m >>= f)
  Runs-before {n} r q = Runs-le (omega arith) (Runs-bind_sum n 0 r q)

pub ruleset runs_rules = (
  Runs-pure, Runs-ask, Runs-gets, Runs-try, Runs-ignore, Runs-if, Runs-now, Runs-cancelled,
  Runs-then,
)
