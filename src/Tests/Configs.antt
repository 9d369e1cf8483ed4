-- ===== src/Tests/Configs.antt =====
-- The theorems on schedules' tools, platform configurations and routes, on concrete requests.
use social.Prelude.{
  ◌%◌, ◌/◌, ◌+◌, ◌*◌, String, true, if◌then◌else◌, none, some, [], ◌∷◌, ◌≡◌, refl, sym, arith, here,
  str_eq,
}
use social.Table.{count}
use social.Model.{Slot}
use social.Model.Zone.{Zone}
use social.Model.Http.{v4, PlatformConfig, Clients}
use social.Model.Errors.{ok}
use social.Exec.{Env}
use social.Schedule.{update_schedule_last_tick}
use social.Schedule.TimeOfDay.{scan_time}
use social.Tools.{Fields, string_field}
use social.Tools.Schedules.{mcp_create_schedule, mcp_update_schedule, mcp_delete_schedule}
use social.Tools.Slots.{IsValidSlot, ValidSlots}
use social.Tools.SlotsKept.{schedule_tools-ValidSlots}
use social.Config.Clients.{
  config_of, mcp_create_config, mcp_list_configs, mcp_get_config, new_clients,
}
use social.Config.Stored.{Unseals}
use social.Config.Restart.{requested, client_for, new_clients-mcp_create_config}
use social.Config.Secret.{listed_config-mcp_create_config}
use social.Router.{Route, add_all}
use social.Router.Validate.{add_routes, starts_upper}
use social.Router.Public.{LeadsOut, add_routes-IsPublic}
use social.Tests.{world, start, config}
use social.Prelude.Int.{pos}

abbrev utc : Zone
utc = record {
  local_day = λ t. t / 86400000000000;
  local_clock = λ t. t % 86400000000000;
  date = λ day hour min nsec. day * 86400000000000 + nsec;
}

abbrev pub zoned : Env
zoned = let w : Env = world 200 in record w { load_location = λ name. some utc }

daily_slot :
    (slot : Slot)
    → scan_time slot.time ≡ some (pos 9, pos 0)
    → slot.weekday ≡ pos 1
    → IsValidSlot zoned.load_location slot
daily_slot slot t d = record {
  zone = utc;
  loaded = refl;
  day = 1;
  hour = 9;
  minute = 0;
  weekly = (d, omega arith);
  scanned = t;
  daily = (omega arith, omega arith);
}

pub daily-ValidSlots : ValidSlots zoned.load_location start.db
unfolding scan_time
daily-ValidSlots = ((daily_slot _ refl refl, tt), tt)

abbrev slots_request : Fields
slots_request key =
    if str_eq key "credential_id" then some "c2" else if str_eq key "slots" then some "[]" else none

schedule_tools-ValidSlots_example :
    ValidSlots zoned.load_location (mcp_create_schedule slots_request zoned start).1.db
    × ValidSlots zoned.load_location (mcp_update_schedule "s1" slots_request zoned start).1.db
    × ValidSlots zoned.load_location (mcp_delete_schedule "s1" zoned start).1.db
    × ValidSlots zoned.load_location (update_schedule_last_tick "s1" 9 zoned start).1.db
schedule_tools-ValidSlots_example =
    schedule_tools-ValidSlots "s1" slots_request 9 zoned start daily-ValidSlots

abbrev app_texts : Fields
app_texts key =
    if str_eq key "platform"
    then some "mastodon"
    else if str_eq key "client_id"
    then some "id"
    else if str_eq key "redirect_url"
    then some "https://app.example/callback"
    else if str_eq key "instance_url"
    then some "https://social.example"
    else none

abbrev app_with : String → Fields
app_with secret key = if str_eq key "client_secret" then some secret else app_texts key

abbrev app_config : String → PlatformConfig
app_config secret = record {
  client_id = "id";
  client_secret = secret;
  redirect_url = "https://app.example/callback";
  instance_url = "https://social.example";
  success_url = "";
  scopes = [];
}

-- A JSON that keeps the secret alone, which tells the two configurations apart.
abbrev coded : Env
coded =
    let w : Env = world 200 in
    record w {
      encode_config = λ cfg. cfg.client_secret;
      decode_config = λ text. some (app_config text);
    }

coded-Unseals : Unseals coded
coded-Unseals k text enc h = sym h

app_requested : (secret : String) → requested coded (app_with secret) ≡ app_config secret
unfolding config_of string_field
app_requested secret = refl

app_survives :
    (secret : String)
    → coded.decode_config (coded.encode_config (requested coded (app_with secret)))
      ≡ some (requested coded (app_with secret))
unfolding config_of string_field
app_survives secret = refl

app_created :
    (mcp_create_config (app_with "s1") coded start).0
    ≡ ok "Platform 'mastodon' configured successfully."
unfolding mcp_create_config social.Config.save count social.Config.Clients.reload_platform_client
app_created = refl

new_clients-mcp_create_config_example :
    (c : Clients) × (((new_clients config config coded
          (mcp_create_config (app_with "s1") coded start).1).0
        ≡ ok c)
      × (client_for (string_field (app_with "s1") "platform") c
          ≡ client_for
              (string_field (app_with "s1") "platform")
              (mcp_create_config (app_with "s1") coded start).1.clients))
new_clients-mcp_create_config_example =
    new_clients-mcp_create_config (app_with "s1") config config coded start
      "Platform 'mastodon' configured successfully." (λ k. refl) coded-Unseals (app_survives "s1")
      app_created

listed_config-mcp_create_config_example :
    ((mcp_list_configs coded (mcp_create_config (app_with "s1") coded start).1).0
      ≡ (mcp_list_configs coded (mcp_create_config (app_with "s2") coded start).1).0)
    × ((mcp_get_config "mastodon" coded (mcp_create_config (app_with "s1") coded start).1).0
        ≡ (mcp_get_config "mastodon" coded (mcp_create_config (app_with "s2") coded start).1).0)
unfolding string_field
listed_config-mcp_create_config_example =
    listed_config-mcp_create_config (app_with "s1") (app_with "s2") "mastodon" coded start
      (λ k. refl) (λ k text. (text, (refl, refl))) (app_survives "s1") (app_survives "s2")
      (λ key e. rw e refl) refl refl

abbrev pub hook : Route
hook = record {
  signal = "published";
  content_type = "Post";
  agent_url = "https://agent.example/hook";
}

abbrev pub resolving : Env
resolving =
    let w : Env = world 200 in
    record w { lookup_host = λ host. some ("8.8.8.8" ∷ []); parse_ip = λ text. some (v4 134744072) }

pub hook_added : add_routes resolving (hook ∷ []) ≡ ok (add_all [] (hook ∷ []))
unfolding add_routes
hook_added = refl

-- A route whose host does not resolve.
abbrev unresolved : Env
unresolved = let w : Env = world 200 in record w { lookup_host = λ host. none }

unresolved_added : add_routes unresolved (hook ∷ []) ≡ ok (add_all [] (hook ∷ []))
unfolding add_routes
unresolved_added = refl

unresolved_route : (starts_upper "Post" ≡ true) × LeadsOut unresolved "https://agent.example/hook"
unresolved_route =
    add_routes-IsPublic unresolved (hook ∷ []) (add_all [] (hook ∷ [])) hook unresolved_added
      (here refl)
