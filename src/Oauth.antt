-- ===== src/Oauth.antt =====
-- oauth.go: the OAuth state tokens. The callbacks that use them are HTTP handlers.
pub mod State
pub mod Callback
pub mod Guards
pub mod Guarded
pub mod Refused
use social.Prelude.{
  ℕ, ◌+◌, ◌-◌, String, Bool, ltb, if◌then◌else◌, Option, none, some, [], ◌∷◌, ◌++◌, str_eq,
}
use social.Table.{find?, count, delete}
use social.Model.{Time, OauthState, Platform}
use social.Model.Errors.{plain, Error, ok, err}
use social.Exec.{M, Statement, ◌>>=◌, ◌>>◌, pure, fail, ignore, now, query, exec}
use social.Post.Statements.{unique_failed}

-- Ten minutes.
abbrev pub oauth_state_ttl : ℕ
oauth_state_ttl = 600000000000

unfoldable pub is_state : String → OauthState → Bool
is_state state o = str_eq o.state state

-- INSERT INTO smeldr_social_oauth_states
unfoldable pub insert_state_row : OauthState → Statement
insert_state_row o enforce db =
    if ltb 0 (count (is_state o.state) db.oauth_states)
    then err unique_failed
    else ok (record db { oauth_states = db.oauth_states ++ o ∷ [] }, 1)

unfoldable pub delete_states : (OauthState → Bool) → Statement
delete_states test enforce db =
    ok (record db { oauth_states = delete test db.oauth_states }, count test db.oauth_states)

unfoldable pub insert_oauth_state :
    (state : String) → Platform → (code_verifier : String) → M (Unit {0})
insert_oauth_state state platform code_verifier = do
  at ← now
  let row : OauthState = record {
    state = state;
    platform = platform;
    code_verifier = code_verifier;
    created_at = at;
  }
  exec (insert_state_row row) >> pure tt

abbrev pub unknown_state : Error
unknown_state = plain "social: unknown OAuth state"

abbrev pub expired_state : Error
expired_state = plain "social: OAuth state expired"

-- The row is deleted before its age is looked at; an error of the deletion is ignored.
unfoldable pub consume_row : String → Option OauthState → M (Platform × String)
unfolding delete_states
consume_row state none = fail unknown_state
consume_row state (some o) = do
  ignore (exec (delete_states (is_state state)))
  at ← now
  if ltb (o.created_at + oauth_state_ttl) at
      then fail expired_state
      else pure (o.platform, o.code_verifier)

unfoldable pub consume_oauth_state : String → M (Platform × String)
unfolding consume_row
consume_oauth_state state = do
  row ← query (λ db. find? (is_state state) db.oauth_states)
  consume_row state row

-- WHERE created_at < $1
unfoldable pub created_before : Time → OauthState → Bool
created_before cutoff o = ltb o.created_at cutoff

unfoldable pub purge_expired_oauth_states : M (Unit {0})
unfolding created_before delete_states
purge_expired_oauth_states = do
  at ← now
  exec (delete_states (created_before (at - oauth_state_ttl))) >> pure tt
