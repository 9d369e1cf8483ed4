-- ===== src/Tests/Routes.antt =====
-- The theorems on the router and on the state tokens, on concrete inputs.
use social.Prelude.{some, ◌+◌, ◌≤◌, List, [], ◌∷◌, ◌≡◌, ◌↔◌, refl, arith, Mem}
use social.Table.{count, select}
use social.Model.{OauthState, pending, mastodon, linkedin}
use social.Model.Errors.{itoa, ok, err}
use social.Exec.{Env, ◌>>◌}
use social.Router.{handle, SignalEvent, Route, add_all}
use social.Router.Statements.{is_job}
use social.Router.Routes.{has_signal}
use social.Router.FanOut.{has_type, jobs_for, handle-add_all}
use social.Router.Verdict.{AllHave, verdict, deliver-verdict}
use social.Router.Worker.{deliver}
use social.Oauth.{
  is_state, insert_oauth_state, consume_oauth_state, purge_expired_oauth_states, unknown_state,
  oauth_state_ttl,
}
use social.Oauth.State.{
  consume_oauth_state-once, Vouches, consume_oauth_state-Vouches, consume-insert,
  purge_expired_oauth_states-exact,
}
use social.Tests.{world, start, tables, job, token, answer_of}

abbrev routes : List Route
routes =
    record { signal = "published"; content_type = "Post"; agent_url = "https://a.example" }
    ∷ record { signal = "deleted"; content_type = "Post"; agent_url = "https://b.example" }
    ∷ record { signal = "published"; content_type = "Page"; agent_url = "https://c.example" }
    ∷ []

-- A world with a new identifier at each use.
abbrev numbered : Env
numbered = record (world 200) { fresh_id = λ k. itoa k }

abbrev pub event : SignalEvent
event = record { type_name = "Post"; json = some "{}" }

handle-add_all_example :
    (handle (add_all [] routes) "published" event numbered start).1.db.route_jobs
    ≡ job
      ∷ jobs_for numbered "published" "{}" 0
          (select (has_type "Post") (select (has_signal "published") routes))
unfolding itoa count is_job jobs_for select has_type has_signal
handle-add_all_example =
    handle-add_all routes "published" "{}" event numbered start refl (λ k. refl) (refl, tt)

all_pending : AllHave "j1" pending tables.route_jobs
all_pending = ((λ e. refl), tt)

deliver-verdict_example :
    AllHave "j1" (verdict 503 3) (deliver job (world 503) start).1.db.route_jobs
deliver-verdict_example =
    deliver-verdict job (world 503) start (answer_of 503) (λ k. refl) refl (λ request. refl)
      all_pending

retried_job : verdict 503 3 ≡ pending
unfolding verdict
retried_job = refl

consume_oauth_state-once_example :
    (consume_oauth_state "abc" (world 200) (consume_oauth_state "abc" (world 200) start).1).0
    ≡ err unknown_state
consume_oauth_state-once_example = consume_oauth_state-once "abc" (world 200) start (λ k. refl)

consumed : (consume_oauth_state "abc" (world 200) start).0 ≡ ok (mastodon, "v")
unfolding consume_oauth_state social.Table.find? is_state
consumed = refl

consume_oauth_state-Vouches_example :
    (o : OauthState) × (Mem o tables.oauth_states × Vouches "abc" (mastodon, "v") 1000000000002 o)
consume_oauth_state-Vouches_example =
    consume_oauth_state-Vouches "abc" (world 200) start (mastodon, "v") consumed

new_token : count (is_state "xyz") tables.oauth_states ≡ 0
unfolding count is_state
new_token = refl

consume-insert_example :
    ((insert_oauth_state "xyz" linkedin "w" >> consume_oauth_state "xyz") (world 200) start).0
    ≡ ok (linkedin, "w")
consume-insert_example =
    consume-insert "xyz" linkedin "w" (world 200) start (λ k. refl) new_token (omega arith)

purged : (purge_expired_oauth_states (world 200) start).0 ≡ ok tt
unfolding purge_expired_oauth_states
purged = refl

purge_expired_oauth_states-exact_example :
    Mem token (purge_expired_oauth_states (world 200) start).1.db.oauth_states
    ↔ (Mem token tables.oauth_states × (1000000000000 ≤ 900000000000 + oauth_state_ttl))
purge_expired_oauth_states-exact_example =
    purge_expired_oauth_states-exact (world 200) start token purged
