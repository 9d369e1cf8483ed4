-- ===== src/Config/Restart.antt =====
-- A configuration that is stored is the one that a restart loads.
use social.Prelude.{
  ◌⊎◌, ◌∙◌, Option, Bool-cases, false, not, str_eq, if◌then◌else◌, String, Bool, true, some, List,
  [], ◌≡◌, inl, inr, refl, arith, eq_iff,
}
use social.Model.Http.{ClientConfig, Clients, PlatformConfig}
use social.Model.Errors.{Error, ok}
use social.Exec.{◌>>=◌, M, Env, Sys, pure}
use social.Config.{save, load}
use social.Tools.{string_field, reject_if, known_platform, Fields}
use social.Config.Clients.{
  create_config, stored_client, chosen_client, new_clients, reloaded, reload_platform_client,
  scopes_field, config_of, mcp_create_config,
}
use social.Exec.Returns.{Returns-bind, Returns}
use social.Post.Delete.{NoFaults}
use social.Config.Stored.{Unseals, Stored, save-Stored, load-Stored, load-kept}

-- The scopes that a request asks for.
abbrev pub requested_scopes : Env → Fields → List String
requested_scopes env fields =
    if str_eq (string_field fields "scope") ""
    then []
    else env.split_fields (string_field fields "scope")

abbrev pub requested : Env → Fields → PlatformConfig
requested env fields =
    let texts : PlatformConfig = config_of fields in
    record texts { scopes = requested_scopes env fields }

-- A request that succeeds has saved its configuration and then replaced the client.
record Configured (platform : String) (cfg : PlatformConfig) (env : Env) (s t : Sys) : Type 0 where
  known : known_platform platform ≡ true
  saved : (save platform cfg env s).0 ≡ ok tt
  tables : t.db ≡ (save platform cfg env s).1.db
  clients : t.clients ≡ reloaded platform cfg (save platform cfg env s).1.clients

module _ {env : Env} {s : Sys} {Q : String → Sys → Type 0} where
  guarded-Returns :
      (b : Bool) (e : Error) (f : Unit {0} → M String)
      → (b ≡ false → Returns env s Q (f tt))
      → Returns env s Q (reject_if b e >>= f)
  unfolding reject_if
  guarded-Returns true e f k = record { at = λ a h. absurd (cc) }
  guarded-Returns false e f k = record { at = (k refl).at }

  scopes-Returns :
      (scope : String) (f : List String → M String)
      → Returns env s Q (f (if str_eq scope "" then [] else env.split_fields scope))
      → Returns env s Q (scopes_field scope >>= f)
  unfolding scopes_field
  scopes-Returns scope f k = elim (Bool-cases (str_eq scope "")) [
    | inl e ↦ rw e (record { at = (rw e at k).at })
    | inr e ↦ rw e (record { at = (rw e at k).at })
  ]

saved-Returns :
    (platform msg : String) (cfg : PlatformConfig) (env : Env) (s : Sys)
    → not (known_platform platform) ≡ false
    → Returns env s
        (λ _ t. Configured platform cfg env s t)
        (save platform cfg >>= λ _. reload_platform_client platform cfg >>= λ _. pure msg)
unfolding reload_platform_client
saved-Returns platform msg cfg env s k =
    Returns-bind {P = λ _ t. (save platform cfg env s).0 ≡ ok tt} {m = save platform cfg}
      {f = λ _. reload_platform_client platform cfg >>= λ _. pure msg} (record { at = λ a h. h })
      (λ a h. record {
        at = λ b e. record { known = ground (arith, k); saved = h; tables = refl; clients = refl };
      })

mcp_create_config-Configured :
    (fields : Fields) (env : Env) (s : Sys)
    → Returns env s
        (λ _ t. Configured (string_field fields "platform") (requested env fields) env s t)
        (mcp_create_config fields)
unfolding mcp_create_config create_config
mcp_create_config-Configured fields env s =
    search (guarded-Returns, scopes-Returns, saved-Returns) depth 30

abbrev pub client_for : String → Clients → Option ClientConfig
client_for platform clients =
    if str_eq platform "mastodon"
    then clients.mastodon
    else if str_eq platform "linkedin"
    then clients.linkedin
    else clients.twitter

platform_cases :
    (platform : String)
    → known_platform platform ≡ true
    → (platform ≡ "mastodon") ⊎ ((platform ≡ "linkedin") ⊎ (platform ≡ "x"))
unfolding known_platform
platform_cases platform k = elim (Bool-cases (str_eq platform "mastodon")) [
  | inl e ↦ inl ((eq_iff platform "mastodon").0 e)
  | inr e ↦ elim (Bool-cases (str_eq platform "linkedin")) [
    | inl f ↦ inr (inl ((eq_iff platform "linkedin").0 f))
    | inr f ↦ inr (inr ((eq_iff platform "x").0 (ground arith)))
  ]
]

-- The client that a restart makes for a platform whose stored configuration can be loaded.
restarted_client :
    (m l : ClientConfig) (platform : String) (cfg : PlatformConfig) (env : Env) (s : Sys)
    (old : Clients)
    → NoFaults env
    → env.decode_config (env.encode_config cfg) ≡ some cfg
    → known_platform platform ≡ true
    → Stored env s.db platform (env.encode_config cfg)
    → (c : Clients) × (((new_clients m l env s).0 ≡ ok c)
        × (client_for platform c ≡ client_for platform (reloaded platform cfg old)))
unfolding new_clients reloaded known_platform chosen_client stored_client
restarted_client m l platform cfg env s old nf d k stored =
    let t : Sys = (load "mastodon" env s).1 in
    let u : Sys = (load "linkedin" env t).1 in
    let kept : t.db ≡ s.db = load-kept "mastodon" env s in
    let still : u.db ≡ s.db = load-kept "linkedin" env t ∙ kept in
    (
      _,
      (
        refl,
        elim (platform_cases platform k) [
          | inl p ↦ rw p (rw (load-Stored "mastodon" cfg env s (nf s.tick) d (rw p at stored)) refl)
          | inr (inl p) ↦
              rw p (
                rw (load-Stored "linkedin" cfg env t (nf t.tick) d (rw kept (rw p at stored))) refl)
          | inr (inr p) ↦
              rw p (rw (load-Stored "x" cfg env u (nf u.tick) d (rw still (rw p at stored))) refl)
        ],
      ),
    )

-- After create_platform_config succeeds, a restart makes the same client for that platform as the
-- one that the running process uses, whatever the program's Config says, if the database has no
-- faults, what was sealed can be unsealed, and the configuration survives its JSON.
pub new_clients-mcp_create_config :
    (fields : Fields) (m l : ClientConfig) (env : Env) (s : Sys) (msg : String)
    → NoFaults env
    → Unseals env
    → env.decode_config (env.encode_config (requested env fields)) ≡ some (requested env fields)
    → (mcp_create_config fields env s).0 ≡ ok msg
    → (c : Clients) × (((new_clients m l env (mcp_create_config fields env s).1).0 ≡ ok c)
        × (client_for (string_field fields "platform") c
            ≡ client_for
                (string_field fields "platform")
                (mcp_create_config fields env s).1.clients))
new_clients-mcp_create_config fields m l env s msg nf v d h =
    let platform : String = string_field fields "platform" in
    let cfg : PlatformConfig = requested env fields in
    let t : Sys = (mcp_create_config fields env s).1 in
    let done = (mcp_create_config-Configured fields env s).at msg h in
    let stored : Stored env t.db platform (env.encode_config cfg) =
      rw done.tables (save-Stored platform cfg env s v done.saved) in
    let old : Clients = (save platform cfg env s).1.clients in
    let (c, (made, same)) = restarted_client m l platform cfg env t old nf d done.known stored in
    (c, (made, rw done.clients same))
