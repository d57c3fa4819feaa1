-- ===== src/Transport/Routes/Unique.antt =====
-- internal/transport/http/router.go: the patterns of the routes against each other.
use cs320_cluster_process_ma.Base.{
  ℕ, suc, ◌≤◌, String, List, [], ◌∷◌, Bool, true, false, ◌&&◌, ◌||◌, not, ◌==◌, string_eq, Option,
  none, some, ◌≡◌, refl, arith, eq_iff, sym, ◌∙◌,
}
use cs320_cluster_process_ma.Transport.Routes.{
  Segment, lit, id, Route, Endpoint, routes, capture, found, serves_method, accept, accepted,
}

abbrev is_taken : Option (Endpoint × String) → Bool
is_taken none = false
is_taken (some _) = true

-- Whether a route takes a request.
abbrev takes : String → List String → Route → Bool
takes method path r = is_taken (accept method path r)

-- The number of routes that take a request.
abbrev pub takers : String → List String → List Route → ℕ
takers method path [] = 0
takers method path (r ∷ rs) =
    let rest = takers method path rs in
    elim (takes method path r) [ true ↦ suc rest | false ↦ rest ]

-- Whether two patterns can match one path, and two methods serve one request.
abbrev overlap : List Segment → List Segment → Bool
overlap [] [] = true
overlap (lit a ∷ p) (lit b ∷ q) = a == b && overlap p q
overlap (lit a ∷ p) (id ∷ q) = overlap p q
overlap (id ∷ p) (lit b ∷ q) = overlap p q
overlap (id ∷ p) (id ∷ q) = overlap p q
overlap _ _ = false

abbrev share : String → String → Bool
share a b = a == b || a == "HEAD" || b == "HEAD"

abbrev clash : Route → Route → Bool
clash r s = share r.method s.method && overlap r.pattern s.pattern

abbrev clashes : Route → List Route → Bool
clashes r [] = false
clashes r (s ∷ rs) = clash r s || clashes r rs

abbrev separate : List Route → Bool
separate [] = true
separate (r ∷ rs) = not (clashes r rs) && separate rs

abbrev is_found : Option String → Bool
is_found none = false
is_found (some _) = true

is_found-found : (segment : String) (o : Option String) → is_found (found segment o) ≡ is_found o
is_found-found segment none = refl
is_found-found segment (some _) = refl

both_overlap :
    (p q : List Segment) (path : List String)
    → is_found (capture p path) ≡ true
    → is_found (capture q path) ≡ true
    → overlap p q ≡ true
unfolding capture
both_overlap [] [] path h k = refl
both_overlap [] (lit b ∷ q) [] h k = cc
both_overlap [] (lit b ∷ q) (s ∷ path) h k = cc
both_overlap [] (id ∷ q) [] h k = cc
both_overlap [] (id ∷ q) (s ∷ path) h k = cc
both_overlap (lit a ∷ p) [] [] h k = cc
both_overlap (lit a ∷ p) [] (s ∷ path) h k = cc
both_overlap (id ∷ p) [] [] h k = cc
both_overlap (id ∷ p) [] (s ∷ path) h k = cc
both_overlap (lit a ∷ p) (lit b ∷ q) [] h k = cc
both_overlap (lit a ∷ p) (id ∷ q) [] h k = cc
both_overlap (id ∷ p) (lit b ∷ q) [] h k = cc
both_overlap (id ∷ p) (id ∷ q) [] h k = cc
both_overlap (lit a ∷ p) (lit b ∷ q) (s ∷ path) h k =
    ground (arith, both_overlap p q path, eq_iff s a, eq_iff s b, eq_iff a b)
both_overlap (lit a ∷ p) (id ∷ q) (s ∷ path) h k =
    ground (arith, both_overlap p q path, is_found-found s (capture q path))
both_overlap (id ∷ p) (lit b ∷ q) (s ∷ path) h k =
    ground (arith, both_overlap p q path, is_found-found s (capture p path))
both_overlap (id ∷ p) (id ∷ q) (s ∷ path) h k =
    both_overlap p q path (sym (is_found-found s (capture p path)) ∙ h)
      (sym (is_found-found s (capture q path)) ∙ k)

both_share :
    (a b method : String)
    → serves_method a method ≡ true
    → serves_method b method ≡ true
    → share a b ≡ true
unfolding serves_method
both_share a b method h k = ground (
  arith,
  eq_iff method a,
  eq_iff method b,
  eq_iff a b,
  eq_iff a "GET",
  eq_iff b "GET",
  eq_iff method "HEAD",
  eq_iff a "HEAD",
  eq_iff b "HEAD",
)

accepted_iff :
    (served : Bool) (endpoint : Endpoint) (o : Option String)
    → is_taken (accepted served endpoint o) ≡ true
    → (served ≡ true) × (is_found o ≡ true)
accepted_iff true endpoint (some value) h = (refl, refl)
accepted_iff true endpoint none h = cc
accepted_iff false endpoint o h = cc

takes_iff :
    (method : String) (path : List String) (r : Route)
    → takes method path r ≡ true
    → (serves_method r.method method ≡ true) × (is_found (capture r.pattern path) ≡ true)
unfolding accept
takes_iff method path r h =
    accepted_iff (serves_method r.method method) r.endpoint (capture r.pattern path) h

both_clash :
    (method : String) (path : List String) (r s : Route)
    → takes method path r ≡ true
    → takes method path s ≡ true
    → clash r s ≡ true
both_clash method path r s h k =
    let (m, p) = takes_iff method path r h in
    let (n, q) = takes_iff method path s k in
    rw (both_share r.method s.method method m n, both_overlap r.pattern s.pattern path p q) refl

no_takers :
    (method : String) (path : List String) (r : Route) (rs : List Route)
    → takes method path r ≡ true
    → clashes r rs ≡ false
    → takers method path rs ≡ 0
no_takers method path r [] h k = refl
no_takers method path r (s ∷ rs) h k =
    ground (arith, both_clash method path r s h, no_takers method path r rs h)

separate-takers :
    (method : String) (path : List String) (rs : List Route)
    → separate rs ≡ true
    → takers method path rs ≤ 1
separate-takers method path [] h = omega arith
separate-takers method path (r ∷ rs) h =
    ground (arith, no_takers method path r rs, separate-takers method path rs)

routes-separate : separate routes ≡ true
routes-separate = refl

-- At most one route of the API takes a request, whatever its method and path.
pub takers-routes : (method : String) (path : List String) → takers method path routes ≤ 1
takers-routes method path = separate-takers method path routes routes-separate
