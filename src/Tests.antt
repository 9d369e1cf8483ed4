-- ===== src/Tests.antt =====
-- Concrete inputs on which the theorems are applied, and tests of the definitions on them.
mod Posts
mod Ticks
mod Routes
mod Tools
mod Configs
mod Connect
mod Service
use social.Prelude.{
  ℕ, ◌+◌, ◌*◌, String, Bool, true, false, str_eq, Option, none, some, List, [], ◌∷◌, inl, ◌==◌,
  if◌then◌else◌,
}
use social.Prelude.Int.{pos, negsuc}
use social.Model.{
  ScheduledPost, DeliveryAttempt, Slot, PublicationSchedule, CredentialRow, OauthState, RouteJob,
  Db, PostStatus, Platform, mastodon, scheduled, queued, active, pending,
}
use social.Model.Http.{Response, reply, Clients, ClientConfig}
use social.Exec.{Env, Sys}

abbrev pub answer_of : ℕ → Response
answer_of code = record {
  status = code;
  retry_after = "";
  content_type = "application/json";
  body = "";
  readable = true;
  json = some (record { text = λ path. "1"; number = λ path. pos 1 });
}

abbrev pub daily : PublicationSchedule
daily = record {
  id = "s1";
  credential_id = "c1";
  slots = record { weekday = pos 1; time = "09:00"; timezone = "UTC" } ∷ [];
  status = active;
  last_tick_at = none;
  created_at = 1;
  updated_at = 1;
}

-- A world without faults, in which every request is answered with one code.
abbrev pub world : (code : ℕ) → Env
world code = record {
  clock = λ k. 1000000000000 + k;
  fresh_id = λ k. "new";
  db_fault = λ k. none;
  enforce_refs = true;
  transactions = true;
  cancelled = λ k. false;
  http = λ k request. reply (answer_of code);
  seal = λ k text. some text;
  unseal = λ text. some text;
  parse_rfc3339 = λ text. none;
  parse_http_time = λ text. none;
  load_location = λ name. none;
  url_fault = λ url. none;
  hmac = λ payload. "00";
  show_duration = λ d. "1m0s";
  core_text = λ e. "error";
  parse_slots = λ text. inl daily.slots;
  quote = λ text. text;
  split_fields = λ text. text ∷ [];
  encode_config = λ cfg. cfg.client_id;
  decode_config = λ text. none;
  collates = λ a b. true;
  authorized = λ k token. str_eq token "token";
  parse_url = λ url. inl ("https", "agent.example");
  lookup_host = λ host. none;
  parse_ip = λ text. none;
  verifier = λ k. some "verifier";
  challenge = λ text. text;
  encode_query = λ params. "query";
  rows_error = λ k. none;
}

abbrev pub post_with : (id : String) → PostStatus → (at : ℕ) → ScheduledPost
post_with id status at = record {
  id = id;
  platform = mastodon;
  credential_id = "c1";
  body = "hello";
  media_url = "";
  alt_text = "";
  scheduled_at = some at;
  status = status;
  platform_post_id = "";
  error_msg = "";
  created_at = at;
  updated_at = at;
}

abbrev pub attempt_of : (id post_id : String) → ℕ → DeliveryAttempt
attempt_of id post_id n = record {
  id = id;
  post_id = post_id;
  attempt = n;
  status_code = 500;
  error = "HTTP 500";
  attempted_at = n;
}

abbrev pub credential_row : CredentialRow
credential_row = record {
  id = "c1";
  platform = mastodon;
  name = "main";
  instance_url = "https://social.example";
  actor_id = "7";
  enc_access = "token";
  enc_refresh = "";
  expires_at = none;
  created_at = 1;
  updated_at = 1;
}

abbrev pub job : RouteJob
job = record {
  id = "j1";
  signal = "published";
  content_type = "Post";
  agent_url = "https://agent.example/hook";
  payload = "{}";
  status = pending;
  attempts = 2;
  next_attempt = some 5;
  last_error = "";
  created_at = 1;
}

abbrev pub token : OauthState
token = record {
  state = "abc";
  platform = mastodon;
  code_verifier = "v";
  created_at = 900000000000;
}

-- One post whose fifth attempt is due, one that waits in the queue, a schedule, a job and a token.
abbrev pub tables : Db
tables = record {
  posts = post_with "p1" scheduled 10 ∷ post_with "p2" queued 20 ∷ [];
  delivery_log =
      attempt_of "a1" "p1" 1
      ∷ attempt_of "a2" "p1" 2
      ∷ attempt_of "a3" "p1" 3
      ∷ attempt_of "a4" "p1" 4
      ∷ [];
  schedules = daily ∷ [];
  credentials = credential_row ∷ [];
  oauth_states = token ∷ [];
  route_jobs = job ∷ [];
  route_log = [];
  platform_configs = [];
}

abbrev pub config : ClientConfig
config = record {
  client_id = "id";
  client_secret = "secret";
  instance_url = "https://social.example";
  redirect_url = "";
  success_url = "";
  scopes = [];
}

abbrev pub start : Sys
start = record {
  db = tables;
  clients = record { mastodon = some config; linkedin = none; twitter = some config };
  sent = [];
  tick = 0;
}
