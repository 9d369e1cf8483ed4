-- ===== src/Config/View.antt =====
-- What the summaries of the configurations depend on.
use social.Prelude.{
  ℕ, String, false, ◌||◌, none, some, List, [], ◌∷◌, ◌≡◌, inl, inr, refl, sym, ap, ◌∙◌,
  Option-cases, str_eq, map,
}
use social.Table.Mapped.{map-order_by, map-select}
use social.Table.{select}
use social.Table.Order.{order_by}
use social.Model.{Time, ConfigRow, Db}
use social.Model.Http.{PlatformConfig}
use social.Model.Errors.{Result, ok, err}
use social.Exec.{Env, Sys, and_then}
use social.Config.{
  is_config, summary, summary_of, read_config, empty_summary, wanted, platform_first, summaries,
  PlatformConfigSummary,
}
use social.Config.Clients.{first_summary}

-- Every text can be sealed, and read again.
abbrev pub Seals : Env → Type 0
Seals env =
    (k : ℕ) (text : String)
    → (enc : String) × ((env.seal k text ≡ some enc) × (env.unseal enc ≡ some text))

abbrev pub Survives : Env → PlatformConfig → Type 0
Survives env cfg = env.decode_config (env.encode_config cfg) ≡ some cfg

abbrev pub view : Env → Db → List PlatformConfigSummary
view env db = map (summary env) db.platform_configs

abbrev pub with_secret : PlatformConfig → String → PlatformConfig
with_secret cfg secret = record cfg { client_secret = secret }

-- Two rows whose configurations differ in a secret that is set have the same summary.
pub same_summary :
    (env : Env) (cfg : PlatformConfig) (a b enc enc' : String) (platform : String) (at : Time)
    → str_eq a "" ≡ false
    → str_eq b "" ≡ false
    → Survives env (with_secret cfg a)
    → Survives env (with_secret cfg b)
    → env.unseal enc ≡ some (env.encode_config (with_secret cfg a))
    → env.unseal enc' ≡ some (env.encode_config (with_secret cfg b))
    → summary env (record { platform = platform; config = enc; updated_at = at })
      ≡ summary env (record { platform = platform; config = enc'; updated_at = at })
unfolding summary summary_of read_config empty_summary
same_summary env cfg a b enc enc' platform at ha hb da db ua ub =
    rw ua (rw ub (rw da (rw db (rw ha (rw hb refl)))))

summary-platform : (env : Env) (row : ConfigRow) → (summary env row).platform ≡ row.platform
unfolding summary summary_of empty_summary
summary-platform env row = elim (Option-cases (read_config env (env.unseal row.config))) [
  | inl e ↦ rw e refl
  | inr (cfg, e) ↦ rw e refl
]

-- The summaries depend on the rows only through their own summaries.
summaries-view :
    (platform : String) (env : Env) (s : Sys)
    → env.db_fault s.tick ≡ none
    → (summaries platform env s).0
      ≡ ok (
          order_by
            (λ a b. env.collates a.platform b.platform)
            (select (λ x. str_eq platform "" || str_eq x.platform platform) (view env s.db)))
unfolding summaries platform_first wanted is_config
summaries-view platform env s nf = rw nf (
    ap ok (
      map-order_by (summary env) (platform_first env.collates)
        (λ a b. env.collates a.platform b.platform) _
        (λ a b. rw (summary-platform env a) (rw (summary-platform env b) refl))
      ∙ ap (order_by (λ a b. env.collates a.platform b.platform)) (
          map-select (summary env) (wanted platform)
            (λ x. str_eq platform "" || str_eq x.platform platform) s.db.platform_configs
            (λ a. rw (summary-platform env a) refl))))

pub summaries_same :
    (platform : String) (env : Env) (t u : Sys)
    → env.db_fault t.tick ≡ none
    → env.db_fault u.tick ≡ none
    → view env t.db ≡ view env u.db
    → (summaries platform env t).0 ≡ (summaries platform env u).0
summaries_same platform env t u nt nu e =
    summaries-view platform env t nt
    ∙ ap
        (λ rows. ok (
          order_by (λ a b. env.collates a.platform b.platform)
            (select (λ x. str_eq platform "" || str_eq x.platform platform) rows)))
        e
    ∙ sym (summaries-view platform env u nu)

pub first_summary-same :
    (env : Env) (r q : Result (List PlatformConfigSummary)) (t u : Sys)
    → r ≡ q
    → (and_then r first_summary env t).0 ≡ (and_then q first_summary env u).0
unfolding first_summary
first_summary-same env (ok []) q t u e = rw (sym e) refl
first_summary-same env (ok (x ∷ xs)) q t u e = rw (sym e) refl
first_summary-same env (err x) q t u e = rw (sym e) refl
