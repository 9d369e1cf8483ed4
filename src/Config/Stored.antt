-- ===== src/Config/Stored.antt =====
-- What the store of the configurations keeps: a saved row can be loaded.
use social.Prelude.{
  ℕ, suc, ◌<◌, String, Bool, true, none, some, List, [], ◌∷◌, ◌≡◌, inl, inr, refl, arith,
  Option-cases, eq_iff,
}
use social.Table.{find?, count, find?-update_self, find?-append, count-none}
use social.Model.{ConfigRow, Db}
use social.Model.Http.{PlatformConfig}
use social.Model.Errors.{Result, ok, err}
use social.Exec.{exec, Statement, Env, Sys, and_then, ◌>>◌, pure, bump, commit_result}
use social.Config.{
  set_config, is_config, upsert_config_row, save, load, load_row, encrypt, decrypt, parsed_config,
}

-- What is stored under the application's key can be read again with it.
abbrev pub Unseals : Env → Type 0
Unseals env = (k : ℕ) (text enc : String) → env.seal k text ≡ some enc → env.unseal enc ≡ some text

-- The configuration of a platform is stored, in a row that decrypts to a text.
abbrev pub Stored : Env → Db → (platform text : String) → Type 0
Stored env db platform text =
    (row : ConfigRow) × ((find? (is_config platform) db.platform_configs ≡ some row)
      × (env.unseal row.config ≡ some text))

is_config_self : (row : ConfigRow) → is_config row.platform row ≡ true
unfolding is_config
is_config_self row = (eq_iff row.platform row.platform).1 refl

positive :
    (test : ConfigRow → Bool) (rows : List ConfigRow) (row : ConfigRow)
    → find? test rows ≡ some row
    → 0 < count test rows
unfolding find? count
positive test [] row e = absurd (cc)
positive test (x ∷ xs) row e = ground (arith, positive test xs row)

upsert_config_row-Stored :
    (env : Env) (row : ConfigRow) (db : Db) (text : String) (out : Db × ℕ)
    → env.unseal row.config ≡ some text
    → upsert_config_row row env.enforce_refs db ≡ ok out
    → Stored env out.0 row.platform text
unfolding upsert_config_row
upsert_config_row-Stored env row db text out u h =
    elim (Option-cases (find? (is_config row.platform) db.platform_configs)) [
      | inl e ↦
          let none_left = count-none (is_config row.platform) db.platform_configs e in
          let new = find?-append (is_config row.platform) db.platform_configs row in
          (row, (ground (arith, h, none_left, new, e, is_config_self row), u))
      | inr (old, e) ↦
          let found =
            find?-update_self (is_config row.platform) (set_config row) db.platform_configs
              (λ x k. k) in
          let some_left : 0 < count (is_config row.platform) db.platform_configs =
            positive (is_config row.platform) db.platform_configs old e in
          (set_config row old, (ground (arith, h, found, some_left, e), u))
    ]

-- A statement that is carried out leaves the tables that it gives.
committed :
    (env : Env) (r : Result (Db × ℕ)) (s : Sys)
    → (and_then (commit_result none r s).0 (λ _. pure tt) env (commit_result none r s).1).0 ≡ ok tt
    → (out : Db × ℕ) × ((r ≡ ok out)
        × ((and_then (commit_result none r s).0 (λ _. pure tt) env (commit_result none r s).1).1.db
            ≡ out.0))
committed env (ok (db, n)) s h = ((db, n), (refl, refl))
committed env (err e) s h = absurd (cc)

exec_done :
    (stmt : Statement) (env : Env) (s : Sys)
    → ((exec stmt >> pure tt) env s).0 ≡ ok tt
    → (out : Db × ℕ) × ((stmt env.enforce_refs s.db ≡ ok out)
        × (((exec stmt >> pure tt) env s).1.db ≡ out.0))
exec_done stmt env s h = elim (Option-cases (env.db_fault s.tick)) [
  | inr (m, f) ↦ absurd (ground (arith, h, f))
  | inl f ↦ rw f (committed env (stmt env.enforce_refs s.db) s (rw f at h))
]

pub save-Stored :
    (platform : String) (cfg : PlatformConfig) (env : Env) (s : Sys)
    → Unseals env
    → (save platform cfg env s).0 ≡ ok tt
    → Stored env (save platform cfg env s).1.db platform (env.encode_config cfg)
unfolding save encrypt
save-Stored platform cfg env s v h = elim (Option-cases (env.seal s.tick (env.encode_config cfg))) [
  | inl e ↦ absurd (ground (arith, h, e))
  | inr (enc, e) ↦ rw e (
      let k = rw e at h in
      let row : ConfigRow = record {
        platform = platform;
        config = enc;
        updated_at = env.clock (suc s.tick);
      } in
      let (out, (done, left)) = exec_done (upsert_config_row row) env (bump (bump s)) k in
      rw left (
        upsert_config_row-Stored env row s.db (env.encode_config cfg) out
          (v s.tick (env.encode_config cfg) enc e) done))
]

-- What a load without database faults gives: it reads the tables and changes nothing.
pub load-Stored :
    (platform : String) (cfg : PlatformConfig) (env : Env) (s : Sys)
    → env.db_fault s.tick ≡ none
    → env.decode_config (env.encode_config cfg) ≡ some cfg
    → Stored env s.db platform (env.encode_config cfg)
    → (load platform env s).0 ≡ ok (some cfg)
unfolding load load_row decrypt parsed_config
load-Stored platform cfg env s nf d (row, (e, u)) = rw nf (rw e (rw u (rw d refl)))

pub load-kept : (platform : String) (env : Env) (s : Sys) → (load platform env s).1.db ≡ s.db
unfolding load load_row decrypt parsed_config
load-kept platform env s = ground arith
