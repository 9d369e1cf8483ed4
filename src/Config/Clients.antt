-- ===== src/Config/Clients.antt =====
-- The clients that a configuration gives: reloadPlatformClient and New of social.go, and the tools
-- of config_mcp.go.
use social.Prelude.{String, not, ◌&&◌, if◌then◌else◌, Option, none, some, List, [], ◌∷◌, str_eq}
use Prim.Native.String.{◌++◌ as concat}
use social.Model.Http.{PlatformConfig, ClientConfig, Clients}
use social.Model.Errors.{Error, Result, ok, err, bad_request, not_found, invalid_field, suffixed}
use social.Exec.{M, ◌>>=◌, ◌>>◌, pure, fail, try, ask}
use social.Tools.{Fields, reject_if, string_field, known_platform}
use social.Config.{save, load, summaries, PlatformConfigSummary}

-- newMastodonClient(MastodonConfig{…})
unfoldable pub mastodon_client : PlatformConfig → ClientConfig
mastodon_client cfg = record {
  client_id = cfg.client_id;
  client_secret = cfg.client_secret;
  instance_url = cfg.instance_url;
  redirect_url = cfg.redirect_url;
  success_url = cfg.success_url;
  scopes = cfg.scopes;
}

-- newLinkedinClient(LinkedInConfig{…})
unfoldable pub linkedin_client : PlatformConfig → ClientConfig
linkedin_client cfg = record {
  client_id = cfg.client_id;
  client_secret = cfg.client_secret;
  instance_url = "";
  redirect_url = cfg.redirect_url;
  success_url = cfg.success_url;
  scopes = [];
}

-- newTwitterClient(xConfig{…})
unfoldable pub twitter_client : PlatformConfig → ClientConfig
twitter_client cfg = record {
  client_id = cfg.client_id;
  client_secret = cfg.client_secret;
  instance_url = "";
  redirect_url = cfg.redirect_url;
  success_url = cfg.success_url;
  scopes = cfg.scopes;
}

unfoldable pub reloaded : String → PlatformConfig → Clients → Clients
unfolding mastodon_client linkedin_client twitter_client
reloaded platform cfg clients =
    if str_eq platform "mastodon"
    then record clients { mastodon = some (mastodon_client cfg) }
    else if str_eq platform "linkedin"
    then record clients { linkedin = some (linkedin_client cfg) }
    else if str_eq platform "x"
    then record clients { twitter = some (twitter_client cfg) }
    else clients

unfoldable pub reload_platform_client : String → PlatformConfig → M (Unit {0})
unfolding reloaded
reload_platform_client platform cfg env s =
    (ok tt, record s { clients = reloaded platform cfg s.clients })

-- The stored configuration, else that of the program's Config, else no client; an error of the
-- store gives no client either.
unfoldable pub chosen_client :
    (PlatformConfig → ClientConfig)
    → ClientConfig
    → Result (Option PlatformConfig)
    → Option ClientConfig
chosen_client make fallback (ok (some cfg)) = some (make cfg)
chosen_client make fallback (ok none) = if str_eq fallback.client_id "" then none else some fallback
chosen_client make fallback (err e) = none

-- X has no fallback.
unfoldable pub stored_client : Result (Option PlatformConfig) → Option ClientConfig
unfolding twitter_client
stored_client (ok (some cfg)) = some (twitter_client cfg)
stored_client _ = none

-- The part of New that makes the clients. The arguments are the Mastodon and LinkedIn of Config.
unfoldable pub new_clients : (mastodon linkedin : ClientConfig) → M Clients
unfolding chosen_client stored_client mastodon_client linkedin_client
new_clients mastodon linkedin = do
  m ← try (load "mastodon")
  l ← try (load "linkedin")
  x ← try (load "x")
  pure (record {
    mastodon = chosen_client mastodon_client mastodon m;
    linkedin = chosen_client linkedin_client linkedin l;
    twitter = stored_client x;
  })

-- MCPList
unfoldable pub mcp_list_configs : M (List PlatformConfigSummary)
mcp_list_configs = summaries ""

unfoldable pub first_summary : List PlatformConfigSummary → M PlatformConfigSummary
first_summary [] = fail not_found
first_summary (sum ∷ sums) = pure sum

-- MCPGet
unfoldable pub mcp_get_config : String → M PlatformConfigSummary
unfolding first_summary
mcp_get_config slug = do sums ← summaries slug; first_summary sums

unfoldable pub scopes_field : String → M (List String)
scopes_field scope = if str_eq scope "" then pure [] else ask (λ env. env.split_fields scope)

-- The texts of a request; its scopes are not split yet.
unfoldable pub config_of : Fields → PlatformConfig
unfolding string_field
config_of fields = record {
  client_id = string_field fields "client_id";
  client_secret = string_field fields "client_secret";
  redirect_url = string_field fields "redirect_url";
  instance_url = string_field fields "instance_url";
  success_url = string_field fields "success_url";
  scopes = [];
}

-- MCPCreate on the texts of a request: the guards, the scopes, the store and the client.
unfoldable pub create_config : (platform scope : String) → PlatformConfig → M String
unfolding reject_if known_platform scopes_field
create_config platform scope texts = do
  reject_if (not (known_platform platform))
      (invalid_field "platform" "must be 'mastodon', 'linkedin', or 'x'")
  reject_if (str_eq platform "x" && not (str_eq texts.instance_url "")) (
      invalid_field "instance_url"
        "not applicable for platform 'x' — X has a single fixed API endpoint")
  reject_if (str_eq texts.client_id "") (invalid_field "client_id" "required")
  reject_if (str_eq texts.client_secret "") (invalid_field "client_secret" "required")
  reject_if (str_eq texts.redirect_url "") (invalid_field "redirect_url" "required")
  reject_if (str_eq platform "mastodon" && str_eq texts.instance_url "")
      (invalid_field "instance_url" "required for platform='mastodon'")
  scopes ← scopes_field scope
  let cfg : PlatformConfig = record texts { scopes = scopes }
  save platform cfg
  reload_platform_client platform cfg
  pure (concat "Platform '" (concat platform "' configured successfully."))

-- MCPCreate; the value is its message.
unfoldable pub mcp_create_config : Fields → M String
unfolding string_field config_of create_config
mcp_create_config fields =
    create_config (string_field fields "platform") (string_field fields "scope") (config_of fields)

-- The refusal of the tools that have no meaning on a configuration.
unfoldable pub unsupported_config_op : String → Error
unsupported_config_op op = suffixed bad_request (
    concat "platform config has no "
      (concat op "; call create_platform_config again to replace it"))

-- MCPUpdate, MCPPublish, MCPSchedule, MCPArchive and MCPDelete, by the word for what they refuse.
unfoldable pub mcp_change_config : (op : String) → M (Unit {0})
mcp_change_config op = fail (unsupported_config_op op)
