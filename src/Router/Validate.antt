-- ===== src/Router/Validate.antt =====
-- route.go: the routes that AddRoutes of router.go accepts. A panic is an error here.
use social.Prelude.{
  ℕ, ◌+◌, ◌-◌, ◌*◌, String, Bool, false, not, ◌&&◌, ◌||◌, ltb, leb, ◌==◌, if◌then◌else◌, Option,
  none, some, List, [], ◌∷◌, ◌⊎◌, inl, inr, str_eq,
}
use Prim.Native.Char.{code}
use Prim.Native.String.{◌++◌}
use social.Prelude.{◌/◌, ◌^◌}
use social.Model.Http.{Ip, v4, v6}
use social.Model.Errors.{Error, plain, Result, ok, err}
use social.Exec.{Env}
use social.Router.{Route, RouteMap, add_all}

-- OnPublish, OnSchedule, OnArchive and OnDelete, for their signals.
unfoldable pub on_signal : (signal content_type agent_url : String) → Route
on_signal signal content_type agent_url = record {
  signal = signal;
  content_type = content_type;
  agent_url = agent_url;
}

-- The first byte of the UTF-8 of a rune.
unfoldable pub lead_byte : ℕ → ℕ
lead_byte c =
    if ltb c 128
    then c
    else if ltb c 2048
    then 192 + c / 64
    else if ltb c 65536
    then 224 + c / 4096
    else 240 + c / 262144

-- unicode.IsUpper below 256.
unfoldable pub is_upper_byte : ℕ → Bool
is_upper_byte b = (leb 65 b && leb b 90) || (leb 192 b && leb b 222 && not (b == 215))

-- unicode.IsUpper(rune(s[0])) for a text that is not empty.
unfoldable pub starts_upper : String → Bool
unfolding lead_byte is_upper_byte
starts_upper String.[] = false
starts_upper (String.◌∷◌ c s) = is_upper_byte (lead_byte (code c))

-- A CIDR block: a network and the length of its prefix.
pub data Cidr : Type 0 where
  net4 net6 : (network prefix : ℕ) → Cidr

abbrev ipv4 : (a b c d : ℕ) → ℕ
ipv4 a b c d = ((a * 256 + b) * 256 + c) * 256 + d

abbrev pub private_ranges : List Cidr
private_ranges =
    net4 (ipv4 127 0 0 0) 8
    ∷ net6 1 128
    ∷ net4 (ipv4 10 0 0 0) 8
    ∷ net4 (ipv4 172 16 0 0) 12
    ∷ net4 (ipv4 192 168 0 0) 16
    ∷ net4 (ipv4 169 254 0 0) 16
    ∷ net6 (64512 * 2 ^ 112) 7
    ∷ net6 (65152 * 2 ^ 112) 10
    ∷ []

-- IPNet.Contains: the prefixes agree, for addresses of the same length.
unfoldable pub contains : Cidr → Ip → Bool
contains (net4 network prefix) (v4 a) = a / 2 ^ (32 - prefix) == network / 2 ^ (32 - prefix)
contains (net6 network prefix) (v6 a) = a / 2 ^ (128 - prefix) == network / 2 ^ (128 - prefix)
contains _ _ = false

unfoldable pub in_some : List Cidr → Ip → Bool
unfolding contains
in_some [] ip = false
in_some (c ∷ cs) ip = contains c ip || in_some cs ip

abbrev url_error : Env → String → String → Error
url_error env raw msg = plain ("Route.AgentURL " ++ env.quote raw ++ ": " ++ msg)

unfoldable pub is_bad_ip : Option Ip → Bool
unfolding in_some
is_bad_ip none = false
is_bad_ip (some ip) = in_some private_ranges ip

-- The loop over the addresses that the host resolves to.
unfoldable pub addresses_fault : Env → String → List String → Option Error
unfolding is_bad_ip
addresses_fault env raw [] = none
addresses_fault env raw (addr ∷ addrs) =
    let rest = addresses_fault env raw addrs in
    if is_bad_ip (env.parse_ip addr)
    then some (url_error env raw ("resolves to private/loopback address " ++ addr))
    else rest

-- A host that cannot be resolved is accepted.
unfoldable pub resolved_fault : Env → String → Option (List String) → Option Error
unfolding addresses_fault
resolved_fault env raw none = none
resolved_fault env raw (some addrs) = addresses_fault env raw addrs

-- strings.HasSuffix(s, suffix)
unfoldable pub has_suffix : (suffix s : String) → Bool
has_suffix suffix String.[] = str_eq suffix ""
has_suffix suffix (String.◌∷◌ c s) =
    let rest = has_suffix suffix s in str_eq suffix (String.◌∷◌ c s) || rest

unfoldable pub is_local_host : String → Bool
unfolding has_suffix
is_local_host host = has_suffix ".local" host || str_eq host "localhost"

unfoldable pub parsed_fault : Env → String → (String × String) ⊎ String → Option Error
unfolding is_local_host resolved_fault
parsed_fault env raw (inr e) = some (url_error env raw ("invalid URL: " ++ e))
parsed_fault env raw (inl (scheme, host)) =
    if not (str_eq scheme "https")
    then some (url_error env raw "scheme must be https")
    else if str_eq host ""
    then some (url_error env raw "missing host")
    else if is_local_host host
    then some (url_error env raw "local hostnames are not allowed")
    else resolved_fault env raw (env.lookup_host host)

-- validateAgentURL: its error.
unfoldable pub agent_url_fault : Env → String → Option Error
unfolding parsed_fault
agent_url_fault env raw =
    if str_eq raw ""
    then some (plain "Route.AgentURL must not be empty")
    else parsed_fault env raw (env.parse_url raw)

-- validateRoute: its panic. The text suggests an upper-case initial, which is left out.
unfoldable pub route_fault : Env → Route → Option Error
unfolding starts_upper agent_url_fault
route_fault env r =
    if str_eq r.content_type ""
    then some (plain "social.AddRoutes: Route.ContentType must not be empty")
    else if not (starts_upper r.content_type)
    then some (
        plain (
          "social.AddRoutes: Route.ContentType "
          ++ env.quote r.content_type
          ++ " should be PascalCase"))
    else agent_url_fault env r.agent_url

abbrev first_fault : Option Error → Option Error → Option Error
first_fault none later = later
first_fault (some e) later = some e

unfoldable pub routes_fault : Env → List Route → Option Error
unfolding route_fault
routes_fault env [] = none
routes_fault env (r ∷ rs) = first_fault (route_fault env r) (routes_fault env rs)

abbrev mapped : List Route → Option Error → Result RouteMap
mapped routes none = ok (add_all [] routes)
mapped routes (some e) = err e

-- AddRoutes up to the map: every route is validated before any is added.
unfoldable pub add_routes : Env → List Route → Result RouteMap
unfolding routes_fault
add_routes env routes = mapped routes (routes_fault env routes)
