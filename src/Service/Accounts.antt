-- ===== src/Service/Accounts.antt =====
-- The OAuth callbacks and the tools on credentials, schedules and platform configurations, under
-- laws on the statements.
use social.Platform.Twitter
use social.Platform.LinkedIn.Connect as LinkedInConnect
use social.Platform.Mastodon.Connect as MastodonConnect
use social.Prelude.{String, Bool, Option, none, some}
use social.Model.{Platform, OauthState, Db}
use social.Model.Http.{PlatformConfig, ClientConfig}
use social.Model.Errors.{err, ok, Result, Error}
use social.Service.Laws.{
  upsert_config_row-Keeps, insert_state_row-Keeps, delete_states-Keeps, Aside,
}
use social.Platform.LinkedIn.Connect.{userinfo_sub, fetch_person_urn}
use social.Platform.Twitter.Connect.{generate_pkce}
use social.Config.Clients.{
  config_of, mcp_create_config, create_config, scopes_field, reload_platform_client,
}
use social.Oauth.Callback.{
  Answer, bad_gateway, Query, x_exchanged, x_connect, matched, mastodon_exchanged, mastodon_connect,
  linkedin_identified, linkedin_exchanged, linkedin_connect, handle_x_callback,
  handle_mastodon_callback, handle_linkedin_callback, checked_callback, saved_answer,
}
use social.Exec.Keeps.{keeps_rules, Keeps}
use social.Tools.Credentials.{
  needed, mcp_create_credential, connect_x, connect_mastodon, connect_linkedin,
}
use social.Oauth.{insert_oauth_state, consume_row, consume_oauth_state}
use social.Config.{save, encrypt}
use social.Tools.Schedules.{mcp_delete_schedule}
use social.Tools.{string_field, Fields}
use social.Platform.Twitter.{TokenResponse}
use social.Schedule.{delete_schedule}
use social.Exec.{M}
use social.Service.Requests.{reject_if-Keeps}
use social.Platform.Frame.{expires_at-Keeps}
use social.Service.Stored.{upsert_credential-Keeps}

module _ {enforce : Bool} {P : Db → Type 0} where
  mastodon_exchange-Keeps :
      (cfg : ClientConfig) (code verifier : String)
      → Keeps enforce P (MastodonConnect.exchange_code cfg code verifier)
  unfolding MastodonConnect.exchange_code
  mastodon_exchange-Keeps cfg code verifier = search keeps_rules

  linkedin_exchange-Keeps :
      (cfg : ClientConfig) (code : String)
      → Keeps enforce P (LinkedInConnect.exchange_code cfg code)
  unfolding LinkedInConnect.exchange_code
  linkedin_exchange-Keeps cfg code = search keeps_rules

  x_exchange-Keeps :
      (cfg : ClientConfig) (code verifier : String)
      → Keeps enforce P (Twitter.exchange_code cfg code verifier)
  unfolding Twitter.exchange_code
  x_exchange-Keeps cfg code verifier = search keeps_rules

  fetch_person_urn-Keeps : (token : String) → Keeps enforce P (fetch_person_urn token)
  unfolding fetch_person_urn userinfo_sub
  fetch_person_urn-Keeps token = search keeps_rules depth 8

  saved_answer-Keeps :
      (platform url : String) (r : Result String) → Keeps enforce P (saved_answer platform url r)
  unfolding saved_answer
  saved_answer-Keeps platform url (ok id) = search keeps_rules
  saved_answer-Keeps platform url (err e) = search keeps_rules

  bad_gateway-Keeps : (what : String) (e : Error) → Keeps enforce P (bad_gateway what e)
  bad_gateway-Keeps what e = search keeps_rules

  needed-Keeps : (msg : String) (o : Option ClientConfig) → Keeps enforce P (needed msg o)
  needed-Keeps msg none = search keeps_rules
  needed-Keeps msg (some cfg) = search keeps_rules

  generate_pkce-Keeps : Keeps enforce P generate_pkce
  unfolding generate_pkce
  generate_pkce-Keeps = record { at = λ env s e h. h }

  scopes_field-Keeps : (scope : String) → Keeps enforce P (scopes_field scope)
  unfolding scopes_field
  scopes_field-Keeps scope = search keeps_rules

  reload-Keeps :
      (platform : String) (cfg : PlatformConfig)
      → Keeps enforce P (reload_platform_client platform cfg)
  unfolding reload_platform_client
  reload-Keeps platform cfg = record { at = λ env s e h. h }

module _ {enforce : Bool} {P : Db → Type 0} (laws : Aside enforce P) where
  mastodon_exchanged-Keeps :
      (cfg : ClientConfig) (r : Result TokenResponse) → Keeps enforce P (mastodon_exchanged cfg r)
  unfolding mastodon_exchanged
  mastodon_exchanged-Keeps cfg (err e) = bad_gateway-Keeps "token exchange failed: " e
  mastodon_exchanged-Keeps cfg (ok tr) =
      search (keeps_rules, expires_at-Keeps, upsert_credential-Keeps laws, saved_answer-Keeps)

  mastodon_connect-Keeps :
      (code verifier : String) (o : Option ClientConfig)
      → Keeps enforce P (mastodon_connect code verifier o)
  unfolding mastodon_connect
  mastodon_connect-Keeps code verifier none = search keeps_rules
  mastodon_connect-Keeps code verifier (some cfg) =
      search (keeps_rules, mastodon_exchange-Keeps, mastodon_exchanged-Keeps)

  linkedin_identified-Keeps :
      (cfg : ClientConfig) (tr : TokenResponse) (r : Result String)
      → Keeps enforce P (linkedin_identified cfg tr r)
  unfolding linkedin_identified
  linkedin_identified-Keeps cfg tr (err e) =
      bad_gateway-Keeps "failed to fetch LinkedIn person URN: " e
  linkedin_identified-Keeps cfg tr (ok id) =
      search (keeps_rules, expires_at-Keeps, upsert_credential-Keeps laws, saved_answer-Keeps)

  linkedin_exchanged-Keeps :
      (cfg : ClientConfig) (r : Result TokenResponse) → Keeps enforce P (linkedin_exchanged cfg r)
  unfolding linkedin_exchanged
  linkedin_exchanged-Keeps cfg (err e) = bad_gateway-Keeps "token exchange failed: " e
  linkedin_exchanged-Keeps cfg (ok tr) =
      search (keeps_rules, fetch_person_urn-Keeps, linkedin_identified-Keeps)

  linkedin_connect-Keeps :
      (code : String) (o : Option ClientConfig) → Keeps enforce P (linkedin_connect code o)
  unfolding linkedin_connect
  linkedin_connect-Keeps code none = search keeps_rules
  linkedin_connect-Keeps code (some cfg) =
      search (keeps_rules, linkedin_exchange-Keeps, linkedin_exchanged-Keeps)

  x_exchanged-Keeps :
      (cfg : ClientConfig) (r : Result TokenResponse) → Keeps enforce P (x_exchanged cfg r)
  unfolding x_exchanged
  x_exchanged-Keeps cfg (err e) = bad_gateway-Keeps "token exchange failed: " e
  x_exchanged-Keeps cfg (ok tr) =
      search (keeps_rules, expires_at-Keeps, upsert_credential-Keeps laws, saved_answer-Keeps)

  x_connect-Keeps :
      (code verifier : String) (o : Option ClientConfig)
      → Keeps enforce P (x_connect code verifier o)
  unfolding x_connect
  x_connect-Keeps code verifier none = search keeps_rules
  x_connect-Keeps code verifier (some cfg) =
      search (keeps_rules, x_exchange-Keeps, x_exchanged-Keeps)

  consume_row-Keeps :
      (state : String) (o : Option OauthState) → Keeps enforce P (consume_row state o)
  unfolding consume_row
  consume_row-Keeps state none = search keeps_rules
  consume_row-Keeps state (some o) = search (keeps_rules, delete_states-Keeps laws) depth 9

  consume-Keeps : (state : String) → Keeps enforce P (consume_oauth_state state)
  unfolding consume_oauth_state
  consume-Keeps state = search (keeps_rules, consume_row-Keeps)

  matched-Keeps :
      (expected : String) (r : Result (Platform × String)) {next : String → M Answer}
      → ((verifier : String) → Keeps enforce P (next verifier))
      → Keeps enforce P (matched expected r next)
  unfolding matched
  matched-Keeps expected (err e) k = search keeps_rules
  matched-Keeps expected (ok (platform, verifier)) k = search (keeps_rules, k)

  checked_callback-Keeps :
      (expected : String) (q : Query) {next : String → M Answer}
      → ((verifier : String) → Keeps enforce P (next verifier))
      → Keeps enforce P (checked_callback expected q next)
  unfolding checked_callback
  checked_callback-Keeps expected q k =
      search (keeps_rules, consume-Keeps, matched-Keeps, k) depth 8

  pub mastodon_callback-Keeps : (q : Query) → Keeps enforce P (handle_mastodon_callback q)
  unfolding handle_mastodon_callback
  mastodon_callback-Keeps q =
      checked_callback-Keeps "mastodon" q (λ v. search (keeps_rules, mastodon_connect-Keeps))

  pub linkedin_callback-Keeps : (q : Query) → Keeps enforce P (handle_linkedin_callback q)
  unfolding handle_linkedin_callback
  linkedin_callback-Keeps q =
      checked_callback-Keeps "linkedin" q (λ v. search (keeps_rules, linkedin_connect-Keeps))

  pub x_callback-Keeps : (q : Query) → Keeps enforce P (handle_x_callback q)
  unfolding handle_x_callback
  x_callback-Keeps q = checked_callback-Keeps "x" q (λ v. search (keeps_rules, x_connect-Keeps))

  insert_state-Keeps :
      (state : String) (platform : Platform) (verifier : String)
      → Keeps enforce P (insert_oauth_state state platform verifier)
  unfolding insert_oauth_state
  insert_state-Keeps state platform verifier =
      search (keeps_rules, insert_state_row-Keeps laws) depth 8

  connect_mastodon-Keeps : (fields : Fields) → Keeps enforce P (connect_mastodon fields)
  unfolding connect_mastodon
  connect_mastodon-Keeps fields =
      search (keeps_rules, needed-Keeps, reject_if-Keeps, generate_pkce-Keeps, insert_state-Keeps)
        depth 12

  connect_linkedin-Keeps : Keeps enforce P connect_linkedin
  unfolding connect_linkedin
  connect_linkedin-Keeps = search (keeps_rules, needed-Keeps, insert_state-Keeps) depth 12

  connect_x-Keeps : Keeps enforce P connect_x
  unfolding connect_x
  connect_x-Keeps =
      search (keeps_rules, needed-Keeps, generate_pkce-Keeps, insert_state-Keeps) depth 12

  pub mcp_create_credential-Keeps :
      (fields : Fields) → Keeps enforce P (mcp_create_credential fields)
  unfolding mcp_create_credential
  mcp_create_credential-Keeps fields =
      search (keeps_rules, connect_mastodon-Keeps, connect_linkedin-Keeps, connect_x-Keeps) depth 8

  pub mcp_delete_schedule-Keeps : (slug : String) → Keeps enforce P (mcp_delete_schedule slug)
  unfolding mcp_delete_schedule delete_schedule
  mcp_delete_schedule-Keeps slug = search (keeps_rules, laws.delete_schedule)

  encrypt_config-Keeps : (t : String) → Keeps enforce P (encrypt t)
  unfolding encrypt
  encrypt_config-Keeps t = record { at = λ env s e h. h }

  save-Keeps : (platform : String) (cfg : PlatformConfig) → Keeps enforce P (save platform cfg)
  unfolding save
  save-Keeps platform cfg =
      search (keeps_rules, encrypt_config-Keeps, upsert_config_row-Keeps laws) depth 9

  create_config-Keeps :
      (platform scope : String) (texts : PlatformConfig)
      → Keeps enforce P (create_config platform scope texts)
  unfolding create_config
  create_config-Keeps platform scope texts =
      search (keeps_rules, reject_if-Keeps, scopes_field-Keeps, save-Keeps, reload-Keeps) depth 20

  pub mcp_create_config-Keeps : (fields : Fields) → Keeps enforce P (mcp_create_config fields)
  unfolding mcp_create_config
  mcp_create_config-Keeps fields =
      create_config-Keeps (string_field fields "platform") (string_field fields "scope")
        (config_of fields)
