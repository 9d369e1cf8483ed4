-- ===== src/Tools/Credentials.antt =====
-- mcp.go: the tools on credentials. create_platform_credential begins an OAuth flow.
use social.Prelude.{String, if◌then◌else◌, Option, none, some, List, [], ◌∷◌, str_eq}
use social.Model.{mastodon, linkedin, x_twitter, PlatformCredential}
use social.Model.Http.{ClientConfig}
use social.Model.Errors.{bad_request, not_found, invalid_field}
use social.Exec.{M, ◌>>=◌, ◌>>◌, pure, fail, ask, gets, new_id}
use social.Credential.{list_credentials, delete_credential}
use social.Oauth.{insert_oauth_state}
use social.Platform.Twitter.Connect.{generate_pkce}
use social.Platform.Twitter.Connect as TwitterConnect
use social.Platform.Mastodon.Connect as MastodonConnect
use social.Platform.LinkedIn.Connect as LinkedInConnect
use social.Tools.{Fields, reject_if, string_field}

-- MCPList
unfoldable pub mcp_list_credentials : M (List PlatformCredential)
unfolding list_credentials
mcp_list_credentials = list_credentials

-- The first credential of the list with the identifier.
unfoldable pub credential_with : String → List PlatformCredential → M PlatformCredential
credential_with slug [] = fail not_found
credential_with slug (c ∷ cs) = if str_eq c.id slug then pure c else credential_with slug cs

-- MCPGet
unfoldable pub mcp_get_credential : String → M PlatformCredential
unfolding credential_with list_credentials
mcp_get_credential slug = do creds ← list_credentials; credential_with slug creds

-- The URL that the user must visit, and the name of the platform in the message.
pub record Connection : Type 0 where
  pub redirect_url : String
  pub platform_name : String

abbrev pub needed : String → Option ClientConfig → M ClientConfig
needed message none = fail (invalid_field "platform" message)
needed message (some cfg) = pure cfg

unfoldable pub connect_mastodon : Fields → M Connection
unfolding reject_if string_field generate_pkce insert_oauth_state
connect_mastodon fields = do
  client ← gets (λ s. s.clients.mastodon)
  cfg ← needed "Mastodon is not configured on this server" client
  reject_if (str_eq (string_field fields "instance_url") "")
      (invalid_field "instance_url" "required for platform='mastodon'")
  pkce ← generate_pkce
  state ← new_id
  insert_oauth_state state mastodon pkce.0
  url ← ask (λ env. MastodonConnect.auth_url env cfg state pkce.1)
  pure (record { redirect_url = url; platform_name = "Mastodon" })

unfoldable pub connect_linkedin : M Connection
unfolding insert_oauth_state
connect_linkedin = do
  client ← gets (λ s. s.clients.linkedin)
  cfg ← needed "LinkedIn is not configured on this server" client
  state ← new_id
  insert_oauth_state state linkedin ""
  url ← ask (λ env. LinkedInConnect.auth_url env cfg state)
  pure (record { redirect_url = url; platform_name = "LinkedIn" })

unfoldable pub connect_x : M Connection
unfolding generate_pkce insert_oauth_state
connect_x = do
  client ← gets (λ s. s.clients.twitter)
  cfg ← needed "X is not configured on this server — use configure_platform first" client
  pkce ← generate_pkce
  state ← new_id
  insert_oauth_state state x_twitter pkce.0
  url ← ask (λ env. TwitterConnect.auth_url env cfg state pkce.1)
  pure (record { redirect_url = url; platform_name = "X" })

-- MCPCreate
unfoldable pub mcp_create_credential : Fields → M Connection
unfolding string_field connect_mastodon connect_linkedin connect_x
mcp_create_credential fields =
    if str_eq (string_field fields "platform") "mastodon"
    then connect_mastodon fields
    else if str_eq (string_field fields "platform") "linkedin"
    then connect_linkedin
    else if str_eq (string_field fields "platform") "x"
    then connect_x
    else fail (invalid_field "platform" "must be 'mastodon', 'linkedin', or 'x'")

-- MCPDelete
unfoldable pub mcp_delete_credential : String → M (Unit {0})
mcp_delete_credential slug = delete_credential slug

-- MCPUpdate, MCPPublish, MCPSchedule and MCPArchive: a credential has no lifecycle.
unfoldable pub mcp_change_credential : String → M (Unit {0})
mcp_change_credential slug = fail bad_request
