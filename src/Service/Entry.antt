-- ===== src/Service/Entry.antt =====
-- The ways into the program: the HTTP routes that Register mounts, and the tools of its modules.
use social.Service.Flow.{StateFlow, post_flow}
use social.Prelude.{List, String, Bool, true, false, if◌then◌else◌, Option, none, some}
use social.Oauth.Callback.{
  handle_x_callback, handle_linkedin_callback, handle_mastodon_callback, Query, Answer,
}
use social.Model.Http.{Clients, ClientConfig}
use social.Tools.{
  mcp_get, mcp_list, mcp_delete, mcp_archive, mcp_schedule, mcp_publish, mcp_update, mcp_create,
  Fields,
}
use social.Exec.{pure, ◌>>=◌, M}
use social.PostHttp.{
  handle_post_delete, handle_post_update, handle_post_get, handle_post_list, handle_post_create,
  Patch, Written, PostBody,
}
use social.Model.{Time}
use social.Tools.Credentials.{
  mcp_get_credential, mcp_list_credentials, mcp_change_credential, mcp_delete_credential,
  mcp_create_credential,
}
use social.Tools.Schedules.{
  mcp_get_schedule, mcp_list_schedules, mcp_move_schedule, mcp_delete_schedule, mcp_update_schedule,
  mcp_create_schedule,
}
use social.Config.Clients.{mcp_get_config, mcp_list_configs, mcp_change_config, mcp_create_config}

pub data HttpRequest : Type 0 where
  mastodon_callback : Query → HttpRequest
  linkedin_callback : Query → HttpRequest
  x_callback : Query → HttpRequest
  create_post : (token : String) → Option PostBody → HttpRequest
  list_posts : (token status : String) → HttpRequest
  get_post : (token id : String) → HttpRequest
  update_post : (token id : String) → Option Patch → HttpRequest
  delete_post : (token id : String) → HttpRequest

pub data Served : Type 0 where
  answered : Answer → Served
  written : Written → Served
  no_route : Served

-- What Register hands to the application: whether the LinkedIn callback is mounted, as the other
-- routes always are, and the state flow. An error of RegisterFlow is logged and no more.
pub record Mounts : Type 0 where
  pub linkedin : Bool
  pub flow : StateFlow

abbrev is_configured : Option ClientConfig → Bool
is_configured none = false
is_configured (some cfg) = true

-- RegisterFlow and app.Handle, with the clients at the time of Register
unfoldable pub mounted : Clients → Mounts
mounted clients = record { linkedin = is_configured clients.linkedin; flow = post_flow }

abbrev done : {A B : Type 0} → (A → B) → M A → M B
done f m = m >>= λ a. pure (f a)

-- A request as the mounted routes serve it.
unfoldable pub serve : Mounts → HttpRequest → M Served
serve mounts (mastodon_callback q) = done answered (handle_mastodon_callback q)
serve mounts (linkedin_callback q) =
    if mounts.linkedin then done answered (handle_linkedin_callback q) else pure no_route
serve mounts (x_callback q) = done answered (handle_x_callback q)
serve mounts (create_post token body) = done written (handle_post_create token body)
serve mounts (list_posts token status) = done written (handle_post_list token status)
serve mounts (get_post token id) = done written (handle_post_get token id)
serve mounts (update_post token id body) = done written (handle_post_update token id body)
serve mounts (delete_post token id) = done written (handle_post_delete token id)

-- A call of a tool that only reads.
pub data ToolRead : Type 0 where
  list_scheduled_posts : (statuses : List String) → ToolRead
  get_scheduled_post : String → ToolRead
  list_platform_credentials : ToolRead
  get_platform_credential : String → ToolRead
  list_publication_schedules : ToolRead
  get_publication_schedule : String → ToolRead
  list_platform_configs : ToolRead
  get_platform_config : String → ToolRead

-- A call of a tool. `change` and `move` are the tools that the modules have to offer and refuse.
pub data ToolCall : Type 0 where
  create_scheduled_post : Fields → ToolCall
  update_scheduled_post : String → Fields → ToolCall
  publish_scheduled_post : String → ToolCall
  schedule_scheduled_post : String → Time → ToolCall
  archive_scheduled_post : String → ToolCall
  delete_scheduled_post : String → ToolCall
  create_credential : Fields → ToolCall
  delete_credential : String → ToolCall
  create_schedule : Fields → ToolCall
  update_schedule : String → Fields → ToolCall
  delete_schedule : String → ToolCall
  create_platform_config : Fields → ToolCall
  read : ToolRead → ToolCall
  change_credential : String → ToolCall
  move_schedule : String → ToolCall
  change_platform_config : (op : String) → ToolCall

abbrev ended : {A : Type 0} → M A → M (Unit {0})
ended m = m >>= λ a. pure tt

-- The values are answers to the caller, and left out.
unfoldable pub look_up : ToolRead → M (Unit {0})
look_up (list_scheduled_posts statuses) = ended (mcp_list statuses)
look_up (get_scheduled_post slug) = ended (mcp_get slug)
look_up list_platform_credentials = ended mcp_list_credentials
look_up (get_platform_credential slug) = ended (mcp_get_credential slug)
look_up list_publication_schedules = ended mcp_list_schedules
look_up (get_publication_schedule slug) = ended (mcp_get_schedule slug)
look_up list_platform_configs = ended mcp_list_configs
look_up (get_platform_config slug) = ended (mcp_get_config slug)

unfoldable pub call : ToolCall → M (Unit {0})
call (create_scheduled_post fields) = ended (mcp_create fields)
call (update_scheduled_post slug fields) = ended (mcp_update slug fields)
call (publish_scheduled_post slug) = mcp_publish slug
call (schedule_scheduled_post slug at) = mcp_schedule slug at
call (archive_scheduled_post slug) = mcp_archive slug
call (delete_scheduled_post slug) = mcp_delete slug
call (create_credential fields) = ended (mcp_create_credential fields)
call (delete_credential slug) = mcp_delete_credential slug
call (create_schedule fields) = ended (mcp_create_schedule fields)
call (update_schedule slug fields) = ended (mcp_update_schedule slug fields)
call (delete_schedule slug) = mcp_delete_schedule slug
call (create_platform_config fields) = ended (mcp_create_config fields)
call (read r) = look_up r
call (change_credential slug) = mcp_change_credential slug
call (move_schedule slug) = mcp_move_schedule slug
call (change_platform_config op) = mcp_change_config op
