-- ===== src/Post/Transaction.antt =====
-- inTx of post.go: what holds before a transaction and is kept by its body holds afterwards, whether
-- it is committed or rolled back.
use social.Prelude.{String, Bool, true, false, if◌then◌else◌, Option, none, some, ◌≡◌}
use social.Model.{Db}
use social.Post.{end_tx, begin_tx, in_tx}
use social.Exec.{bump, Sys, Env, M}
use social.Exec.Keeps.{Keeps}
use social.Model.Errors.{err, ok, Result}

module _ (P : Db → Type 0) {A : Type 0} where
  end_tx-keeps :
      (f : Option String) (before : Db) (r : Result A) (s : Sys)
      → P before
      → P s.db
      → P (end_tx f before r s).1.db
  end_tx-keeps (some m) before (ok a) s b h = b
  end_tx-keeps none before (ok a) s b h = h
  end_tx-keeps (some m) before (err e) s b h = b
  end_tx-keeps none before (err e) s b h = b

module _ (enforce : Bool) (P : Db → Type 0) {A : Type 0} where
  begin_tx-Keeps :
      (f : Option String) (m : M A) (env : Env) (s : Sys)
      → Keeps enforce P m
      → env.enforce_refs ≡ enforce
      → P s.db
      → P (begin_tx f m env s).1.db
  begin_tx-Keeps (some msg) m env s k e h = h
  begin_tx-Keeps none m env s k e h =
      let (r, s') = m env (bump s) in
      end_tx-keeps P (env.db_fault s'.tick) s.db r s' h (k.at env (bump s) e h)

  pub in_tx-Keeps : (m : M A) → Keeps enforce P m → Keeps enforce P (in_tx m)
  unfolding in_tx
  in_tx-Keeps m k = record {
    at = λ env s e h.
        elim env.transactions
          as (λ b. P (if b then begin_tx (env.db_fault s.tick) m env s else m env s).1.db) [
            | true ↦ begin_tx-Keeps (env.db_fault s.tick) m env s k e h
            | false ↦ k.at env s e h
          ];
  }
