-- ===== src/Credential.antt =====
-- credential.go: the credential store. The tokens are encrypted with AES-256-GCM, which the
-- environment stands for (`seal`, `unseal`).
pub mod References
pub mod Readback
use Prim.Native.String.{◌++◌ as concat}
use social.Prelude.{
  ℕ, String, Bool, ltb, ◌==◌, ◌&&◌, if◌then◌else◌, Option, none, some, List, [], ◌∷◌, ◌++◌, str_eq,
  leb, map,
}
use social.Table.{find?, count, update, delete}
use social.Table.Order.{order_by}
use social.Model.{Time, ScheduledPost, CredentialRow, PlatformCredential, Platform}
use social.Model.Status.{platform_text}
use social.Model.Errors.{Result, Error, not_found, conflict, plain, wrapped, itoa, ok, err}
use social.Exec.{M, Statement, ◌>>=◌, ◌>>◌, pure, fail, on_error, now, new_id, query, exec, bump}
use social.Post.Statements.{is_credential, unique_failed, reference_failed}
use social.Post.{or_not_found}

abbrev sealed : Option String → Result String
sealed none = err (plain "social: no random nonce")
sealed (some c) = ok c

abbrev unsealed : Option String → Result String
unsealed none = err (plain "social: token decrypt")
unsealed (some t) = ok t

-- encryptToken: it fails only where no random nonce can be read.
unfoldable pub encrypt_token : String → M String
encrypt_token text env s = (sealed (env.seal s.tick text), bump s)

-- decryptToken; one error stands for those of base64, of a short text and of the authentication.
unfoldable pub decrypt_token : String → M String
decrypt_token enc env s = (unsealed (env.unseal enc), s)

unfoldable pub at_instance : Platform → String → CredentialRow → Bool
unfolding platform_text
at_instance platform instance_url c =
    str_eq (platform_text c.platform) (platform_text platform) && str_eq c.instance_url instance_url

-- The tokens and times that an update or an insert writes.
pub record Tokens : Type 0 where
  pub name : String
  pub actor_id : String
  pub enc_access : String
  pub enc_refresh : String
  pub expires_at : Option Time

unfoldable pub set_tokens : Tokens → Time → CredentialRow → CredentialRow
set_tokens t at row = record row {
  name = t.name;
  actor_id = t.actor_id;
  enc_access = t.enc_access;
  enc_refresh = t.enc_refresh;
  expires_at = t.expires_at;
  updated_at = at;
}

-- UPDATE smeldr_social_credentials SET … WHERE id=$7
unfoldable pub update_credential_row : String → Tokens → Time → Statement
update_credential_row id t at enforce db = ok (
  record db { credentials = update (is_credential id) (set_tokens t at) db.credentials },
  count (is_credential id) db.credentials,
)

-- INSERT INTO smeldr_social_credentials
unfoldable pub insert_credential_row : CredentialRow → Statement
insert_credential_row c enforce db =
    if ltb 0 (count (is_credential c.id) db.credentials)
    then err unique_failed
    else ok (record db { credentials = db.credentials ++ c ∷ [] }, 1)

unfoldable pub uses_credential : String → ScheduledPost → Bool
uses_credential id p = str_eq p.credential_id id

-- DELETE FROM smeldr_social_credentials WHERE id=$1
unfoldable pub delete_credential_row : String → Statement
delete_credential_row id enforce db =
    if enforce
      && (ltb 0 (count (is_credential id) db.credentials)
          && ltb 0 (count (uses_credential id) db.posts))
    then err reference_failed
    else ok (
      record db { credentials = delete (is_credential id) db.credentials },
      count (is_credential id) db.credentials,
    )

-- The row of an existing credential is updated; otherwise one is inserted.
unfoldable pub write_credential :
    Platform → String → Tokens → Time → Option CredentialRow → M String
write_credential platform instance_url t at (some row) =
    exec (update_credential_row row.id t at) >> pure row.id
write_credential platform instance_url t at none = do
  id ← new_id
  let row : CredentialRow = record {
    id = id;
    platform = platform;
    name = t.name;
    instance_url = instance_url;
    actor_id = t.actor_id;
    enc_access = t.enc_access;
    enc_refresh = t.enc_refresh;
    expires_at = t.expires_at;
    created_at = at;
    updated_at = at;
  }
  exec (insert_credential_row row)
  pure id

-- upsertCredentialByInstance. An empty id in the row found counts as no row.
unfoldable pub non_empty : Option CredentialRow → Option CredentialRow
non_empty none = none
non_empty (some c) = if str_eq c.id "" then none else some c

unfoldable pub upsert_credential_by_instance :
    Platform
    → (instance_url name access_token refresh_token actor_id : String) → Option Time
    → M String
unfolding non_empty
upsert_credential_by_instance platform instance_url name access refresh actor_id expires_at = do
  enc_access ← on_error (wrapped "social: encrypt access token") (encrypt_token access)
  enc_refresh ← on_error (wrapped "social: encrypt refresh token") (encrypt_token refresh)
  at ← now
  found ← query (λ db. find? (at_instance platform instance_url) db.credentials)
  let t : Tokens = record {
    name = name;
    actor_id = actor_id;
    enc_access = enc_access;
    enc_refresh = enc_refresh;
    expires_at = expires_at;
  }
  write_credential platform instance_url t at (non_empty found)

-- The struct that a scan fills, with empty tokens.
unfoldable pub without_tokens : CredentialRow → PlatformCredential
without_tokens c = record {
  id = c.id;
  platform = c.platform;
  name = c.name;
  instance_url = c.instance_url;
  actor_id = c.actor_id;
  expires_at = c.expires_at;
  created_at = c.created_at;
  updated_at = c.updated_at;
  access_token = "";
  refresh_token = "";
}

unfoldable pub get_credential : String → M PlatformCredential
get_credential id = do
  found ← query (λ db. find? (is_credential id) db.credentials)
  row ← or_not_found found
  access ← decrypt_token row.enc_access
  refresh ← decrypt_token row.enc_refresh
  let c : PlatformCredential = without_tokens row
  pure (record c { access_token = access; refresh_token = refresh })

unfoldable pub older_credential : CredentialRow → CredentialRow → Bool
older_credential c d = leb c.created_at d.created_at

unfoldable pub list_credentials : M (List PlatformCredential)
list_credentials = query (λ db. map without_tokens (order_by older_credential db.credentials))

unfoldable pub in_use : String → ℕ → Error
in_use id n = conflict (
    concat "credential " (
      concat id (
        concat " is used by "
          (concat (itoa n) " post(s); delete them or move them to another credential first"))))

-- What follows the count of the posts that use the credential.
unfoldable pub delete_counted : String → ℕ → M (Unit {0})
delete_counted id posts =
    if ltb 0 posts
    then fail (in_use id posts)
    else do n ← exec (delete_credential_row id); if n == 0 then fail not_found else pure tt

unfoldable pub delete_credential : String → M (Unit {0})
delete_credential id = do
  posts ← query (λ db. count (uses_credential id) db.posts)
  delete_counted id posts
