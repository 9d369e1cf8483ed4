-- ===== src/Router/Routes.antt =====
-- The routes that a signal meets, and the jobs that it puts into the store.
use social.Prelude.{
  String, Bool, if◌then◌else◌, List, [], ◌∷◌, ◌++◌, ◌≡◌, refl, sym, ap, arith, eq_iff, str_eq,
}
use social.Table.{select}
use social.Router.{Route, RouteMap, add_route, add_all, routes_for}

-- r.Signal == sig
unfoldable pub has_signal : String → Route → Bool
has_signal sig r = str_eq r.signal sig

pub append_assoc : {A : Type 0} (xs ys zs : List A) → (xs ++ ys) ++ zs ≡ xs ++ (ys ++ zs)
append_assoc [] ys zs = refl
append_assoc (x ∷ xs) ys zs = ap (λ l. x ∷ l) (append_assoc xs ys zs)

pub append_nil : {A : Type 0} (xs : List A) → xs ++ [] ≡ xs
append_nil [] = refl
append_nil (x ∷ xs) = ap (λ l. x ∷ l) (append_nil xs)

added-routes :
    (m : RouteMap) (r : Route) (sig : String)
    → routes_for (add_route m r) sig
      ≡ routes_for m sig ++ (if str_eq r.signal sig then r ∷ [] else [])
unfolding add_route routes_for
added-routes [] r sig = refl
added-routes ((s, rs) ∷ m) r sig = ground (
  arith,
  eq_iff s r.signal,
  eq_iff s sig,
  eq_iff r.signal sig,
  added-routes m r sig,
  append_nil rs,
  append_nil (routes_for m sig),
)

all-routes :
    (m : RouteMap) (rs : List Route) (sig : String)
    → routes_for (add_all m rs) sig ≡ routes_for m sig ++ select (has_signal sig) rs
unfolding add_all select has_signal
all-routes m [] sig = sym (append_nil (routes_for m sig))
all-routes m (r ∷ rs) sig = ground (
  arith,
  all-routes (add_route m r) rs sig,
  added-routes m r sig,
  append_assoc (routes_for m sig) (r ∷ []) (select (has_signal sig) rs),
  append_nil (routes_for m sig),
)

-- The map that AddRoutes builds answers every signal with the routes of that signal, in the order
-- in which they were given.
pub routes_for-add_all :
    (routes : List Route) (sig : String)
    → routes_for (add_all [] routes) sig ≡ select (has_signal sig) routes
unfolding routes_for
routes_for-add_all routes sig = all-routes [] routes sig
