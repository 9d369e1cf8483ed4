-- ===== src/Router/Public.antt =====
-- The routes that AddRoutes accepts lead to public addresses.
use social.Prelude.{
  refl, All, Option, ℕ, ◌*◌, ◌≤◌, ◌<◌, String, true, false, none, some, List, [], ◌∷◌, ◌≡◌, ◌≢◌,
  ◌⊎◌, inl, inr, ap, ◌∙◌, arith, Bool-cases, Option-cases, Mem, mem-cons, eq_iff, str_eq,
}
use social.Prelude.{◌^◌}
use social.Model.Http.{Ip, v4, v6}
use social.Model.Errors.{ok}
use social.Exec.{Env}
use social.Router.{Route, RouteMap}
use social.Router.Validate.{
  starts_upper, contains, in_some, private_ranges, is_bad_ip, addresses_fault, resolved_fault,
  is_local_host, parsed_fault, agent_url_fault, route_fault, routes_fault, add_routes,
}

-- The number lies outside the interval from `low` to below `high`.
abbrev Outside : (low high a : ℕ) → Type 0
Outside low high a = (a < low) ⊎ (high ≤ a)

-- Neither loopback, nor link-local, nor private: 127.x, 10.x, 172.16.x to 172.31.x, 192.168.x,
-- 169.254.x; ::1, fc00:: to fdff:…, fe80:: to febf:….
unfoldable pub IsPublic : Ip → Type 0
IsPublic (v4 a) =
    Outside 2130706432 2147483648 a
    × Outside 167772160 184549376 a
    × Outside 2886729728 2887778304 a
    × Outside 3232235520 3232301056 a
    × Outside 2851995648 2852061184 a
IsPublic (v6 a) =
    (a ≢ 1)
    × Outside (64512 * 2 ^ 112) (65024 * 2 ^ 112) a
    × Outside (65152 * 2 ^ 112) (65216 * 2 ^ 112) a

in_some-IsPublic : (ip : Ip) → in_some private_ranges ip ≡ false → IsPublic ip
unfolding in_some contains IsPublic
in_some-IsPublic (v4 a) h = (ground arith, ground arith, ground arith, ground arith, ground arith)
in_some-IsPublic (v6 a) h = (ground arith, ground arith, ground arith)

routes_fault-mem :
    (env : Env) (routes : List Route) (r : Route)
    → routes_fault env routes ≡ none
    → Mem r routes
    → route_fault env r ≡ none
unfolding routes_fault
routes_fault-mem env [] r h m = elim m [ ]
routes_fault-mem env (x ∷ xs) r h m = elim (Option-cases (route_fault env x)) [
  | inl e ↦ elim (mem-cons m) [
    | inl p ↦ ap (route_fault env) p ∙ e
    | inr n ↦ routes_fault-mem env xs r (rw e at h) n
  ]
  | inr (x', e) ↦ absurd (let k = rw e at h in cc)
]

-- A text that is an address, is a public one.
abbrev pub IsPublicText : Option Ip → Type 0
IsPublicText none = Unit
IsPublicText (some ip) = IsPublic ip

-- The addresses that a host resolves to; none where it does not resolve.
abbrev pub addresses : Option (List String) → List String
addresses none = []
addresses (some addrs) = addrs

fine_address : (o : Option Ip) → is_bad_ip o ≡ false → IsPublicText o
unfolding is_bad_ip
fine_address none h = tt
fine_address (some ip) h = in_some-IsPublic ip h

fine_addresses :
    (env : Env) (raw : String) (addrs : List String)
    → addresses_fault env raw addrs ≡ none
    → All (λ addr. IsPublicText (env.parse_ip addr)) addrs
unfolding addresses_fault
fine_addresses env raw [] h = tt
fine_addresses env raw (x ∷ xs) h = elim (Bool-cases (is_bad_ip (env.parse_ip x))) [
  | inr e ↦ (fine_address (env.parse_ip x) e, fine_addresses env raw xs (rw e at h))
  | inl e ↦ absurd (let k = rw e at h in cc)
]

fine_host :
    (env : Env) (raw : String) (found : Option (List String))
    → resolved_fault env raw found ≡ none
    → All (λ addr. IsPublicText (env.parse_ip addr)) (addresses found)
unfolding resolved_fault
fine_host env raw none h = tt
fine_host env raw (some addrs) h = fine_addresses env raw addrs h

-- The URL is one of https with a host that is neither empty nor local, and whatever the host
-- resolves to is public.
abbrev pub LeadsOut : Env → String → Type 0
LeadsOut env raw =
    (host : String) × ((env.parse_url raw ≡ inl ("https", host))
      × (host ≢ "")
      × (is_local_host host ≡ false)
      × All (λ addr. IsPublicText (env.parse_ip addr)) (addresses (env.lookup_host host)))

accepted_url :
    (env : Env) (raw : String) (parsed : (String × String) ⊎ String)
    → env.parse_url raw ≡ parsed
    → parsed_fault env raw parsed ≡ none
    → LeadsOut env raw
unfolding parsed_fault
accepted_url env raw (inr e) p h = absurd (cc)
accepted_url env raw (inl (scheme, host)) p h =
    let https : str_eq scheme "https" ≡ true = ground arith in
    let filled : str_eq host "" ≡ false = ground arith in
    let same : scheme ≡ "https" = (eq_iff scheme "https").0 https in
    (
      host,
      (
        p ∙ ap (λ x. inl (x, host)) same,
        (λ e. let k = (eq_iff host "").1 e in cc),
        ground arith,
        fine_host env raw (env.lookup_host host) (ground arith),
      ),
    )

accepted_route :
    (env : Env) (r : Route)
    → route_fault env r ≡ none
    → (starts_upper r.content_type ≡ true)
      × (parsed_fault env r.agent_url (env.parse_url r.agent_url) ≡ none)
unfolding route_fault agent_url_fault
accepted_route env r h = (ground arith, ground arith)

pub add_routes-IsPublic :
    (env : Env) (routes : List Route) (m : RouteMap) (r : Route)
    → add_routes env routes ≡ ok m
    → Mem r routes
    → (starts_upper r.content_type ≡ true) × LeadsOut env r.agent_url
unfolding add_routes
add_routes-IsPublic env routes m r h i = elim (Option-cases (routes_fault env routes)) [
  | inr (e, f) ↦ absurd (let k = rw f at h in cc)
  | inl f ↦
      let (upper, url) = accepted_route env r (routes_fault-mem env routes r f i) in
      (upper, accepted_url env r.agent_url (env.parse_url r.agent_url) refl url)
]
