-- ===== src/Config/Secret.antt =====
-- The summaries of the configurations do not tell the client secret.
use social.Prelude.{
  suc, String, Bool, true, false, ltb, if◌then◌else◌, none, some, List, [], ◌≡◌, inl, inr, refl,
  sym, ap, subst, ◌∙◌, Bool-cases, str_eq,
}
use social.Table.Mapped.{map-update, map-snoc}
use social.Table.{count}
use social.Model.{Time}
use social.Model.Http.{PlatformConfig}
use social.Model.Errors.{Error}
use social.Exec.{M, Env, Sys, ◌>>=◌, pure}
use social.Post.Delete.{NoFaults}
use social.Tools.{Fields, reject_if, string_field}
use social.Config.{is_config, upsert_config_row, save, encrypt, summary}
use social.Config.Clients.{
  reload_platform_client, scopes_field, config_of, mcp_create_config, mcp_list_configs,
  mcp_get_config, create_config,
}
use social.Config.View.{
  Seals, Survives, view, with_secret, same_summary, summaries_same, first_summary-same,
}
use social.Config.Restart.{requested_scopes, requested}

-- Two methods that, from one state, end alike: but for the running clients.
record SameEnd (env : Env) (s : Sys) {A : Type 0} (m n : M A) : Type 0 where
  result : (m env s).0 ≡ (n env s).0
  tables : view env (m env s).1.db ≡ view env (n env s).1.db

module _ {env : Env} {s : Sys} {A : Type 0} where
  guarded-SameEnd :
      (b : Bool) (e : Error) (f g : Unit {0} → M A)
      → SameEnd env s (f tt) (g tt)
      → SameEnd env s (reject_if b e >>= f) (reject_if b e >>= g)
  unfolding reject_if
  guarded-SameEnd true e f g k = record { result = refl; tables = refl }
  guarded-SameEnd false e f g k = record { result = k.result; tables = k.tables }

  scopes-SameEnd :
      (scope : String) (f g : List String → M A)
      → SameEnd env s
          (f (if str_eq scope "" then [] else env.split_fields scope))
          (g (if str_eq scope "" then [] else env.split_fields scope))
      → SameEnd env s (scopes_field scope >>= f) (scopes_field scope >>= g)
  unfolding scopes_field
  scopes-SameEnd scope f g k = elim (Bool-cases (str_eq scope "")) [
    | inl e ↦ let h = rw e at k in rw e (record { result = h.result; tables = h.tables })
    | inr e ↦ let h = rw e at k in rw e (record { result = h.result; tables = h.tables })
  ]

saved-SameEnd :
    (platform msg : String) (cfg : PlatformConfig) (a b : String) (env : Env) (s : Sys)
    → NoFaults env
    → Seals env
    → str_eq a "" ≡ false
    → str_eq b "" ≡ false
    → Survives env (with_secret cfg a)
    → Survives env (with_secret cfg b)
    → SameEnd env s
        (save platform (with_secret cfg a) >>= λ _.
          reload_platform_client platform (with_secret cfg a) >>= λ _. pure msg)
        (save platform (with_secret cfg b) >>= λ _.
          reload_platform_client platform (with_secret cfg b) >>= λ _. pure msg)
unfolding save encrypt reload_platform_client upsert_config_row
saved-SameEnd platform msg cfg a b env s nf seals ha hb da db =
    let (enc, (ea, ua)) = seals s.tick (env.encode_config (with_secret cfg a)) in
    let (enc', (eb, ub)) = seals s.tick (env.encode_config (with_secret cfg b)) in
    let same =
      λ (p : String) (at : Time). same_summary env cfg a b enc enc' p at ha hb da db ua ub in
    let fault = nf (suc (suc s.tick)) in
    elim (Bool-cases (ltb 0 (count (is_config platform) s.db.platform_configs))) [
      | inl e ↦ record {
        result = rw ea (rw eb (rw fault (rw e refl)));
        tables = rw ea (
            rw eb (
              rw fault (
                rw e (
                  map-update (summary env) (is_config platform) _ _ s.db.platform_configs
                    (λ x. same x.platform (env.clock (suc s.tick)))))));
      }
      | inr e ↦ record {
        result = rw ea (rw eb (rw fault (rw e refl)));
        tables = rw ea (
            rw eb (
              rw fault (
                rw e (
                  map-snoc (summary env) s.db.platform_configs _ _
                    (same platform (env.clock (suc s.tick)))))));
      }
    ]

create_config-SameEnd :
    (platform scope a b : String) (cfg : PlatformConfig) (env : Env) (s : Sys)
    → NoFaults env
    → Seals env
    → str_eq a "" ≡ false
    → str_eq b "" ≡ false
    → Survives env (record cfg {
      client_secret = a;
      scopes = if str_eq scope "" then [] else env.split_fields scope;
    })
    → Survives env (record cfg {
      client_secret = b;
      scopes = if str_eq scope "" then [] else env.split_fields scope;
    })
    → SameEnd env s
        (create_config platform scope (with_secret cfg a))
        (create_config platform scope (with_secret cfg b))
unfolding create_config
create_config-SameEnd platform scope a b cfg env s nf seals ha hb da db =
    let scopes : List String = if str_eq scope "" then [] else env.split_fields scope in
    let tail = λ (msg : String).
      saved-SameEnd platform msg (record cfg { scopes = scopes }) a b env s nf seals ha hb da db in
    rw ha (rw hb (search (guarded-SameEnd, scopes-SameEnd, tail) depth 30))

-- A request's texts, but for its secret.
same_field : (f g : Fields) (key : String) → f key ≡ g key → string_field f key ≡ string_field g key
unfolding string_field
same_field f g key e = ap (λ o. elim o [ none ↦ "" | some v ↦ v ]) e

-- The two requests ask for the same but for the secret.
abbrev pub SameButSecret : Fields → Fields → Type 0
SameButSecret f g = (key : String) → str_eq key "client_secret" ≡ false → f key ≡ g key

config_of-same :
    (f g : Fields)
    → SameButSecret f g
    → config_of f ≡ with_secret (config_of g) (string_field f "client_secret")
unfolding config_of
config_of-same f g agree =
    let k =
      λ (key : String) (e : str_eq key "client_secret" ≡ false). same_field f g key (agree key e) in
    rw (k "client_id" refl)
      (rw (k "redirect_url" refl) (rw (k "instance_url" refl) (rw (k "success_url" refl) refl)))

mcp_create_config-SameEnd :
    (f g : Fields) (env : Env) (s : Sys)
    → NoFaults env
    → Seals env
    → Survives env (requested env f)
    → Survives env (requested env g)
    → SameButSecret f g
    → str_eq (string_field f "client_secret") "" ≡ false
    → str_eq (string_field g "client_secret") "" ≡ false
    → SameEnd env s (mcp_create_config f) (mcp_create_config g)
unfolding mcp_create_config
mcp_create_config-SameEnd f g env s nf seals df dg agree hf hg =
    let same = config_of-same f g agree in
    let scopes = same_field f g "scope" (agree "scope" refl) in
    let d =
      subst
        (λ c.
          let texts : PlatformConfig = c in
          Survives env (record texts { scopes = requested_scopes env f }))
        same df in
    let d' =
      subst
        (λ x. Survives env (record (config_of g) {
          client_secret = string_field f "client_secret";
          scopes = if str_eq x "" then [] else env.split_fields x;
        }))
        scopes d in
    let moved : mcp_create_config f
        ≡ create_config (string_field g "platform") (string_field g "scope")
            (with_secret (config_of g) (string_field f "client_secret")) =
      ap (λ p. create_config p (string_field f "scope") (config_of f))
        (same_field f g "platform" (agree "platform" refl))
      ∙ (ap (λ x. create_config (string_field g "platform") x (config_of f))
            (same_field f g "scope" (agree "scope" refl))
          ∙ ap (λ c. create_config (string_field g "platform") (string_field g "scope") c) same) in
    subst (λ m. SameEnd env s m (mcp_create_config g)) (sym moved)
      (create_config-SameEnd (string_field g "platform") (string_field g "scope")
        (string_field f "client_secret") (string_field g "client_secret") (config_of g) env s nf
        seals hf hg d' dg)

-- The answers of list_platform_configs and get_platform_config do not depend on a stored client
-- secret: after two requests that differ in their secrets alone, both secrets not empty, these
-- tools answer the same; if the database has no faults, every text can be sealed and read again,
-- and the configurations survive their JSON.
pub listed_config-mcp_create_config :
    (f g : Fields) (slug : String) (env : Env) (s : Sys)
    → NoFaults env
    → Seals env
    → Survives env (requested env f)
    → Survives env (requested env g)
    → SameButSecret f g
    → str_eq (string_field f "client_secret") "" ≡ false
    → str_eq (string_field g "client_secret") "" ≡ false
    → ((mcp_list_configs env (mcp_create_config f env s).1).0
        ≡ (mcp_list_configs env (mcp_create_config g env s).1).0)
      × ((mcp_get_config slug env (mcp_create_config f env s).1).0
          ≡ (mcp_get_config slug env (mcp_create_config g env s).1).0)
unfolding mcp_list_configs mcp_get_config
listed_config-mcp_create_config f g slug env s nf seals df dg agree hf hg =
    let alike = mcp_create_config-SameEnd f g env s nf seals df dg agree hf hg in
    let t : Sys = (mcp_create_config f env s).1 in
    let u : Sys = (mcp_create_config g env s).1 in
    let same =
      λ (platform : String). summaries_same platform env t u (nf t.tick) (nf u.tick) alike.tables in
    (same "", first_summary-same env _ _ _ _ (same slug))
