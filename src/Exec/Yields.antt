-- ===== src/Exec/Yields.antt =====
-- Invariants of the tables together with what holds of the value that a method returns, in one
-- environment.
use social.Prelude.{
  Bool, ℕ, String, Bool, true, false, if◌then◌else◌, Option, none, some, ◌≡◌, refl, subst, ◌∙◌,
}
use social.Model.{Time, Db}
use social.Model.Errors.{Error, Result, ok, err}
use social.Exec.{
  Env, Sys, M, Statement, and_then, ◌>>=◌, pure, fail, try, ask, now, new_id, query, exec, answer,
}
use social.Exec.Keeps.{Keeps, After, commit_result-keeps}

-- The method keeps the invariant, and a value that it returns has the property.
pub record Yields (env : Env) (I : Db → Type 0) {A : Type 0} (P : A → Type 0) (m : M A)
    : Type 0 where
  pub at : (s : Sys) → I s.db → I (m env s).1.db × ((a : A) → (m env s).0 ≡ ok a → P a)

queried :
    (I : Db → Type 0) {A : Type 0} {P : A → Type 0} (fault : Option String) (a : A) (s : Sys)
    → P a
    → I s.db
    → I (answer fault a s).1.db × ((b : A) → (answer fault a s).0 ≡ ok b → P b)
queried I (some m) a s p i = (i, λ b e. absurd (cc))
queried I {P = P} none a s p i = (i, λ b e. let same : a ≡ b = cc in subst P same p)

module _ {env : Env} {I : Db → Type 0} where
  pub Yields-pure : {A : Type 0} {P : A → Type 0} (a : A) → P a → Yields env I P (pure a)
  Yields-pure {P = P} a p = record {
    at = λ s i. (i, λ b e. let same : a ≡ b = cc in subst P same p);
  }

  pub Yields-fail : {A : Type 0} {P : A → Type 0} (e : Error) → Yields env I P (fail e)
  Yields-fail e = record { at = λ s i. (i, λ a h. absurd (cc)) }

  pub Yields-ask : {A : Type 0} {P : A → Type 0} (f : Env → A) → P (f env) → Yields env I P (ask f)
  Yields-ask {P = P} f p = record {
    at = λ s i. (i, λ b e. let same : f env ≡ b = cc in subst P same p);
  }

  pub Yields-now : {P : Time → Type 0} → ((t : Time) → P t) → Yields env I P now
  Yields-now p = record { at = λ s i. (i, λ t e. p t) }

  pub Yields-new_id : {P : String → Type 0} → ((t : String) → P t) → Yields env I P new_id
  Yields-new_id p = record { at = λ s i. (i, λ t e. p t) }

  pub Yields-query :
      {A : Type 0} {P : A → Type 0} (f : Db → A)
      → ((db : Db) → I db → P (f db))
      → Yields env I P (query f)
  Yields-query f p = record { at = λ s i. queried I (env.db_fault s.tick) (f s.db) s (p s.db i) i }

  pub Yields-exec :
      {P : ℕ → Type 0} (stmt : Statement)
      → ((db : Db) → I db → After I (stmt env.enforce_refs db))
      → ((n : ℕ) → P n)
      → Yields env I P (exec stmt)
  Yields-exec stmt k p = record {
    at = λ s i. (
      commit_result-keeps I (env.db_fault s.tick) (stmt env.enforce_refs s.db) s (k s.db i) i,
      λ n e. p n,
    );
  }

  pub Yields-if :
      {A : Type 0} {P : A → Type 0} (b : Bool) {m n : M A}
      → (b ≡ true → Yields env I P m)
      → (b ≡ false → Yields env I P n)
      → Yields env I P (if b then m else n)
  Yields-if true y z = y refl
  Yields-if false y z = z refl

  pub Yields-try :
      {A : Type 0} {P : A → Type 0} {m : M A}
      → Yields env I P m
      → Yields env I (λ r. (a : A) → r ≡ ok a → P a) (try m)
  Yields-try {P = P} {m = m} y = record {
    at = λ s i.
        ((y.at s i).0, λ r e a h. (y.at s i).1 a (let back : (m env s).0 ≡ r = cc in back ∙ h));
  }

  continued :
      {A B : Type 0} {P : A → Type 0} {Q : B → Type 0} (r : Result A) (f : A → M B) (s : Sys)
      → I s.db
      → ((a : A) → r ≡ ok a → P a)
      → ((a : A) → P a → Yields env I Q (f a))
      → I (and_then r f env s).1.db × ((b : B) → (and_then r f env s).0 ≡ ok b → Q b)
  continued (ok a) f s i p y = (y a (p a refl)).at s i
  continued (err e) f s i p y = (i, λ b h. absurd (cc))

  pub Yields-bind :
      {A B : Type 0} {P : A → Type 0} {Q : B → Type 0} {m : M A} {f : A → M B}
      → Yields env I P m
      → ((a : A) → P a → Yields env I Q (f a))
      → Yields env I Q (m >>= f)
  Yields-bind {m = m} {f = f} y k = record {
    at = λ s i. let (r, s') = m env s in continued r f s' (y.at s i).0 (y.at s i).1 k;
  }

  pub Yields-map :
      {A : Type 0} {P Q : A → Type 0} {m : M A}
      → ((a : A) → P a → Q a)
      → Yields env I P m
      → Yields env I Q m
  Yields-map f y = record { at = λ s i. ((y.at s i).0, λ a e. f a ((y.at s i).1 a e)) }

  -- Where nothing is said of the value.
  pub Yields-then :
      {A B : Type 0} {Q : B → Type 0} {m : M A} {f : A → M B}
      → Yields env I (λ _. Unit {0}) m
      → ((a : A) → Yields env I Q (f a))
      → Yields env I Q (m >>= f)
  Yields-then y k = Yields-bind y (λ a _. k a)

  pub Yields-read : {A : Type 0} (f : Db → A) → Yields env I (λ _. Unit {0}) (query f)
  Yields-read f = Yields-query f (λ db i. tt)

  pub Yields-attempt :
      {A : Type 0} {m : M A} → Yields env I (λ _. Unit {0}) m → Yields env I (λ _. Unit {0}) (try m)
  Yields-attempt y = record { at = λ s i. ((y.at s i).0, λ r e. tt) }

  pub Yields-clock :
      {B : Type 0} {Q : B → Type 0} {f : Time → M B}
      → ((t : Time) → Yields env I Q (f t))
      → Yields env I Q (now >>= f)
  Yields-clock k = Yields-then (Yields-now (λ _. tt)) k

  pub Yields-fresh :
      {B : Type 0} {Q : B → Type 0} {f : String → M B}
      → ((id : String) → Yields env I Q (f id))
      → Yields env I Q (new_id >>= f)
  Yields-fresh k = Yields-then (Yields-new_id (λ _. tt)) k

-- A method that keeps the invariant, of whose value nothing is said.
pub Yields-of_Keeps :
    {I : Db → Type 0} {A : Type 0} {m : M A} (env : Env)
    → ((enforce : Bool) → Keeps enforce I m)
    → Yields env I (λ _. Unit {0}) m
Yields-of_Keeps env k = record { at = λ s i. ((k env.enforce_refs).at env s refl i, λ a e. tt) }
