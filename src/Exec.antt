-- ===== src/Exec.antt =====
-- Methods that use the database, the clock, random identifiers and the network, and that may
-- return an error. What a method wrote before it failed stays written.

pub mod Keeps
pub mod Runs
pub mod Yields
pub mod Returns
use social.Prelude.{ℕ, suc, String, Bool, Option, none, some, List, ◌∷◌, ◌⊎◌}
use social.Prelude.Int.{ℤ}
use social.Model.{Time, Db, Slot}
use social.Model.Errors.{Error, database, plain, Result, ok, err, error_text}
use social.Model.Zone.{Zone}
use social.Model.Http.{Ip, Request, Response, Reply, unreachable, reply, Clients, PlatformConfig}

-- The outside world. Each use of it has a number, and the answer may depend on that number.
pub record Env : Type 0 where
  -- time.Now()
  pub clock : ℕ → Time
  -- smeldr.NewID()
  pub fresh_id : ℕ → String
  -- the error of a database call, if it fails
  pub db_fault : ℕ → Option String
  -- whether the database enforces REFERENCES (Postgres does, SQLite by default does not)
  pub enforce_refs : Bool
  -- whether the database can begin a transaction
  pub transactions : Bool
  -- ctx.Err() != nil
  pub cancelled : ℕ → Bool
  pub http : ℕ → Request → Reply
  -- AES-256-GCM under the application's key, with the nonce that is drawn at this number
  pub seal : ℕ → String → Option String
  pub unseal : String → Option String
  -- time.Parse(time.RFC3339, v) and http.ParseTime(v)
  pub parse_rfc3339 : String → Option Time
  pub parse_http_time : String → Option Time
  -- time.LoadLocation
  pub load_location : String → Option Zone
  -- the error of http.NewRequestWithContext for a URL, if it is malformed
  pub url_fault : String → Option String
  -- hex(HMAC-SHA256(payload)) under the router's secret
  pub hmac : String → String
  -- Duration.String, and the texts of the core's errors
  pub show_duration : ℤ → String
  pub core_text : Error → String
  -- json.Unmarshal of the slots of a schedule: the slots, or the error's text
  pub parse_slots : String → List Slot ⊎ String
  -- `%q`, and strings.Fields
  pub quote : String → String
  pub split_fields : String → List String
  -- json.Marshal and json.Unmarshal of a platform configuration
  pub encode_config : PlatformConfig → String
  pub decode_config : String → Option PlatformConfig
  -- ORDER BY on texts, in the database's collation
  pub collates : String → String → Bool
  -- smeldr.VerifyBearerToken: whether the token is valid
  pub authorized : ℕ → String → Bool
  -- url.Parse, as far as it is used: the scheme and the host name, or the error's text
  pub parse_url : String → (String × String) ⊎ String
  -- net.LookupHost, and net.ParseIP
  pub lookup_host : String → Option (List String)
  pub parse_ip : String → Option Ip
  -- a fresh PKCE verifier, if random bytes can be read, and base64url(SHA-256(verifier))
  pub verifier : ℕ → Option String
  pub challenge : String → String
  -- url.Values.Encode
  pub encode_query : List (String × String) → String
  -- how many rows are read of a query's answer, and rows.Err(), where the reading breaks off
  pub rows_error : ℕ → Option (ℕ × String)

pub record Sys : Type 0 where
  pub db : Db
  pub clients : Clients
  -- the requests sent so far, the newest first
  pub sent : List Request
  -- how often the outside world was used
  pub tick : ℕ

abbrev pub M : Type 0 → Type 0
M A = Env → Sys → Result A × Sys

abbrev pub and_then : {A B : Type 0} → Result A → (A → M B) → M B
and_then (ok a) f = f a
and_then (err e) f = λ env s. (err e, s)

infixl 5 ◌>>=◌ ◌>>◌
abbrev pub ◌>>=◌ : {A B : Type 0} → M A → (A → M B) → M B
◌>>=◌ m f env s = let (r, s') = m env s in and_then r f env s'

abbrev pub ◌>>◌ : {A B : Type 0} → M A → M B → M B
m >> n = m >>= λ _. n

abbrev pub pure : {A : Type 0} → A → M A
pure a env s = (ok a, s)

abbrev pub fail : {A : Type 0} → Error → M A
fail e env s = (err e, s)

abbrev pub lift : {A : Type 0} → Result A → M A
lift r env s = (r, s)

-- `x, err := m`: the error becomes a value.
abbrev pub try : {A : Type 0} → M A → M (Result A)
try m env s = let (r, s') = m env s in (ok r, s')

-- `_ = m`
abbrev pub ignore : {A : Type 0} → M A → M (Unit {0})
ignore m env s = let (r, s') = m env s in (ok tt, s')

-- `fmt.Errorf("msg: %w", err)` around the error of m
abbrev pub relabel : {A : Type 0} → Result A → (Error → Error) → Result A
relabel (ok a) f = ok a
relabel (err e) f = err (f e)

abbrev pub on_error : {A : Type 0} → (Error → Error) → M A → M A
on_error f m env s = let (r, s') = m env s in (relabel r f, s')

abbrev pub ask : {A : Type 0} → (Env → A) → M A
ask f env s = (ok (f env), s)

abbrev pub gets : {A : Type 0} → (Sys → A) → M A
gets f env s = (ok (f s), s)

abbrev pub bump : Sys → Sys
bump s = record s { tick = suc s.tick }

-- time.Now().UTC()
abbrev pub now : M Time
now env s = (ok (env.clock s.tick), bump s)

-- smeldr.NewID()
abbrev pub new_id : M String
new_id env s = (ok (env.fresh_id s.tick), bump s)

-- ctx.Err() != nil
abbrev pub cancelled : M Bool
cancelled env s = (ok (env.cancelled s.tick), bump s)

abbrev pub answer : {A : Type 0} → Option String → A → Sys → Result A × Sys
answer (some m) a s = (err (database m), bump s)
answer none a s = (ok a, bump s)

-- A query: an answer read off the tables, or a fault.
abbrev pub query : {A : Type 0} → (Db → A) → M A
query f env s = answer (env.db_fault s.tick) (f s.db) s

-- A statement gives the new tables and the number of rows that it affected, or is refused by a
-- constraint; the argument says whether references are enforced.
abbrev pub Statement : Type 0
Statement = Bool → Db → Result (Db × ℕ)

abbrev pub commit_result : Option String → Result (Db × ℕ) → Sys → Result ℕ × Sys
commit_result (some m) r s = (err (database m), bump s)
commit_result none (ok (db, n)) s = (ok n, record s { db = db; tick = suc s.tick })
commit_result none (err e) s = (err e, bump s)

-- A statement that fails writes nothing.
abbrev pub exec : Statement → M ℕ
exec stmt env s = commit_result (env.db_fault s.tick) (stmt env.enforce_refs s.db) s

abbrev pub receive : Reply → M Response
receive (unreachable m) = fail (plain m)
receive (reply r) = pure r

-- client.Do(req)
abbrev pub send : Request → M Response
send req env s =
    receive (env.http s.tick req) env (record s { sent = req ∷ s.sent; tick = suc s.tick })

-- `err.Error()`
abbrev pub text_of : Error → M String
text_of e = ask (λ env. error_text env.core_text env.show_duration e)
