-- ===== src/Exec/Returns.antt =====
-- What holds of the value and of the state of a method that returns, from one state.
use social.Prelude.{ℕ, String, ◌≡◌, refl}
use social.Model.Errors.{Result, ok, err}
use social.Exec.{Env, Sys, M, and_then, ◌>>=◌, ask, now, new_id, bump}

pub record Returns (env : Env) (s : Sys) {A : Type 0} (Q : A → Sys → Type 0) (m : M A)
    : Type 0 where
  pub at : (a : A) → (m env s).0 ≡ ok a → Q a (m env s).1

module _ {env : Env} {A B : Type 0} {Q : B → Sys → Type 0} where
  after :
      (P : A → Sys → Type 0) (r : Result A) (s : Sys) (f : A → M B)
      → ((a : A) → r ≡ ok a → P a s)
      → ((a : A) → P a s → Returns env s Q (f a))
      → (b : B) → (and_then r f env s).0 ≡ ok b
      → Q b (and_then r f env s).1
  after P (ok a) s f p k b h = (k a (p a refl)).at b h
  after P (err e) s f p k b h = absurd (cc)

  -- The second step starts where the first one ends.
  pub Returns-bind :
      {s : Sys} {P : A → Sys → Type 0} {m : M A} {f : A → M B}
      → Returns env s P m
      → ((a : A) → P a (m env s).1 → Returns env (m env s).1 Q (f a))
      → Returns env s Q (m >>= f)
  Returns-bind {s} {P} {m = m} {f = f} p k = record {
    at = λ b h. let (r, s') = m env s in after P r s' f p.at k b h;
  }

module _ {env : Env} {s : Sys} {B : Type 0} {Q : B → Sys → Type 0} where
  pub Returns-ask :
      {A : Type 0} (g : Env → A) (f : A → M B)
      → Returns env s Q (f (g env))
      → Returns env s Q (ask g >>= f)
  Returns-ask g f k = record { at = k.at }

  pub Returns-now :
      (f : ℕ → M B) → Returns env (bump s) Q (f (env.clock s.tick)) → Returns env s Q (now >>= f)
  Returns-now f k = record { at = k.at }

  pub Returns-new_id :
      (f : String → M B)
      → Returns env (bump s) Q (f (env.fresh_id s.tick))
      → Returns env s Q (new_id >>= f)
  Returns-new_id f k = record { at = k.at }

  pub Returns-map :
      {P : B → Sys → Type 0} {m : M B}
      → ((b : B) (t : Sys) → P b t → Q b t)
      → Returns env s P m
      → Returns env s Q m
  Returns-map {m = m} g r = record { at = λ b h. g b (m env s).1 (r.at b h) }
