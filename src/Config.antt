-- ===== src/Config.antt =====
-- platform_config.go: the encrypted store of the platforms' OAuth apps.
pub mod Clients
pub mod Stored
pub mod Restart
pub mod View
pub mod Secret
use social.Prelude.{
  ℕ, zero, suc, ◌+◌, ◌-◌, ◌*◌, ◌≤◌, ◌<◌, String, Bool, true, false, not, ◌&&◌, ◌||◌, ltb, leb, ◌==◌,
  if◌then◌else◌, Option, none, some, List, [], ◌∷◌, ◌++◌, ◌≡◌, ◌≢◌, ◌↔◌, ◌⊎◌, inl, inr, refl, sym,
  ap, subst, ◌∙◌, arith, Bool-cases, Option-cases, All, All-append, All-map, All-map₂, All-always,
  All-mem, Mem, here, there, mem-cons, eq_iff, str_eq, length, length-append, take, get_or, tests,
  map,
}
use social.Table.{find?, count, select, update}
use social.Table.Order.{order_by}
use social.Model.{Time, ConfigRow}
use social.Model.Http.{PlatformConfig}
use social.Model.Errors.{Error, Result, ok, err, plain, wrapped}
use social.Exec.{
  M, Env, Statement, and_then, ◌>>=◌, ◌>>◌, pure, fail, lift, on_error, ask, now, query, exec, bump,
}

abbrev sealed : Option String → Result String
sealed none = err (plain "social: no random nonce")
sealed (some c) = ok c

abbrev unsealed : Option String → Result String
unsealed none = err (plain "social: platform config decrypt")
unsealed (some t) = ok t

-- It fails only where no random nonce can be read.
unfoldable pub encrypt : String → M String
encrypt text env s = (sealed (env.seal s.tick text), bump s)

-- One error stands for those of base64, of a short text and of the authentication.
unfoldable pub decrypt : String → M String
decrypt enc env s = (unsealed (env.unseal enc), s)

unfoldable pub is_config : String → ConfigRow → Bool
is_config platform row = str_eq row.platform platform

abbrev pub set_config : ConfigRow → ConfigRow → ConfigRow
set_config new row = record row { config = new.config; updated_at = new.updated_at }

-- INSERT … ON CONFLICT(platform) DO UPDATE
unfoldable pub upsert_config_row : ConfigRow → Statement
unfolding is_config
upsert_config_row row enforce db =
    if ltb 0 (count (is_config row.platform) db.platform_configs)
    then ok (
      record db {
        platform_configs = update (is_config row.platform) (set_config row) db.platform_configs;
      },
      1,
    )
    else ok (record db { platform_configs = db.platform_configs ++ row ∷ [] }, 1)

-- json.Marshal does not fail on texts.
unfoldable pub save : String → PlatformConfig → M (Unit {0})
unfolding encrypt upsert_config_row
save platform cfg = do
  b ← ask (λ env. env.encode_config cfg)
  enc ← on_error (wrapped "social: encrypt platform config") (encrypt b)
  at ← now
  exec (upsert_config_row (record { platform = platform; config = enc; updated_at = at }))
  pure tt

unfoldable pub parsed_config : Option PlatformConfig → M (Option PlatformConfig)
parsed_config none = fail (plain "social: unmarshal platform config")
parsed_config (some cfg) = pure (some cfg)

unfoldable pub load_row : Option ConfigRow → M (Option PlatformConfig)
unfolding decrypt parsed_config
load_row none = pure none
load_row (some row) = do
  text ← decrypt row.config
  cfg ← ask (λ env. env.decode_config text)
  parsed_config cfg

-- `none` where no configuration is stored.
unfoldable pub load : String → M (Option PlatformConfig)
unfolding load_row is_config
load platform = do row ← query (λ db. find? (is_config platform) db.platform_configs); load_row row

pub record PlatformConfigSummary : Type 0 where
  pub platform : String
  pub client_id : String
  pub client_secret_set : Bool
  pub redirect_url : String
  pub instance_url : String
  pub success_url : String
  pub scopes : List String
  pub updated_at : Time
  pub error : String

unfoldable pub empty_summary : ConfigRow → PlatformConfigSummary
empty_summary row = record {
  platform = row.platform;
  client_id = "";
  client_secret_set = false;
  redirect_url = "";
  instance_url = "";
  success_url = "";
  scopes = [];
  updated_at = row.updated_at;
  error = "";
}

unfoldable pub summary_of : ConfigRow → Option PlatformConfig → PlatformConfigSummary
unfolding empty_summary
summary_of row none =
    let sum : PlatformConfigSummary = empty_summary row in
    record sum { error = "cannot decrypt; configure it again with create_platform_config" }
summary_of row (some cfg) =
    let sum : PlatformConfigSummary = empty_summary row in
    record sum {
      client_id = cfg.client_id;
      client_secret_set = not (str_eq cfg.client_secret "");
      redirect_url = cfg.redirect_url;
      instance_url = cfg.instance_url;
      success_url = cfg.success_url;
      scopes = cfg.scopes;
    }

unfoldable pub read_config : Env → Option String → Option PlatformConfig
read_config env none = none
read_config env (some text) = env.decode_config text

-- The body of the loop over the rows.
unfoldable pub summary : Env → ConfigRow → PlatformConfigSummary
unfolding summary_of read_config
summary env row = summary_of row (read_config env (env.unseal row.config))

unfoldable pub wanted : String → ConfigRow → Bool
unfolding is_config
wanted platform row = str_eq platform "" || is_config platform row

unfoldable pub platform_first : (String → String → Bool) → ConfigRow → ConfigRow → Bool
platform_first collates a b = collates a.platform b.platform

unfoldable pub summaries : String → M (List PlatformConfigSummary)
unfolding summary wanted platform_first
summaries platform = do
  collates ← ask (λ env. env.collates)
  rows ←
      query
        (λ db. order_by (platform_first collates) (select (wanted platform) db.platform_configs))
  ask (λ env. map (summary env) rows)
