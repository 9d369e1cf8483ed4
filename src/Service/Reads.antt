-- ===== src/Service/Reads.antt =====
-- The tools that only read keep what holds of the tables.
use social.Service.Entry.{
  ToolRead, look_up, list_scheduled_posts, get_scheduled_post, list_platform_credentials,
  get_platform_credential, list_publication_schedules, get_publication_schedule,
  list_platform_configs, get_platform_config,
}
use social.Prelude.{Bool, String, List, [], ◌∷◌, str_eq}
use social.Model.{PlatformCredential, Db}
use social.Exec.Keeps.{keeps_rules, Keeps, Keeps-if, Keeps-pure}
use social.Service.Requests.{get_post-Keeps}
use social.Service.Schedules.{get_schedule-Keeps}
use social.Credential.{list_credentials}
use social.Schedule.{list_schedules}
use social.Post.{list_posts}
use social.Tools.{mcp_list, mcp_get}
use social.Tools.Credentials.{mcp_list_credentials, mcp_get_credential, credential_with}
use social.Tools.Schedules.{mcp_list_schedules, mcp_get_schedule}
use social.Config.{PlatformConfigSummary, summaries}
use social.Config.Clients.{mcp_list_configs, mcp_get_config, first_summary}

module _ {enforce : Bool} {P : Db → Type 0} where
  summaries-Keeps : (platform : String) → Keeps enforce P (summaries platform)
  unfolding summaries
  summaries-Keeps platform = search keeps_rules

  first_summary-Keeps : (sums : List PlatformConfigSummary) → Keeps enforce P (first_summary sums)
  unfolding first_summary
  first_summary-Keeps [] = search keeps_rules
  first_summary-Keeps (sum ∷ sums) = search keeps_rules

  credential_with-Keeps :
      (slug : String) (creds : List PlatformCredential)
      → Keeps enforce P (credential_with slug creds)
  unfolding credential_with
  credential_with-Keeps slug [] = search keeps_rules
  credential_with-Keeps slug (c ∷ cs) =
      Keeps-if (str_eq c.id slug) (Keeps-pure c) (credential_with-Keeps slug cs)

  pub look_up-Keeps : (r : ToolRead) → Keeps enforce P (look_up r)
  unfolding look_up mcp_list list_posts mcp_get mcp_list_credentials mcp_get_credential
      list_credentials mcp_list_schedules list_schedules mcp_get_schedule mcp_list_configs
      mcp_get_config
  look_up-Keeps (list_scheduled_posts statuses) = search keeps_rules
  look_up-Keeps (get_scheduled_post slug) = search (keeps_rules, get_post-Keeps)
  look_up-Keeps list_platform_credentials = search keeps_rules
  look_up-Keeps (get_platform_credential slug) = search (keeps_rules, credential_with-Keeps)
  look_up-Keeps list_publication_schedules = search keeps_rules
  look_up-Keeps (get_publication_schedule slug) = search (keeps_rules, get_schedule-Keeps)
  look_up-Keeps list_platform_configs = search (keeps_rules, summaries-Keeps)
  look_up-Keeps (get_platform_config slug) =
      search (keeps_rules, summaries-Keeps, first_summary-Keeps)
