-- ===== src/Routes/Picked.antt =====
-- One route at most for a request, and what stands in front of its handler.
use mini_control_public.Prelude.{
  ◌≡◌, refl, arith, inl, inr, Bool, true, false, ◌&&◌, ◌||◌, not, List, [], ◌∷◌, some, All, Any,
  and_both, find_if, sym, subst, ap, Bool-cases, if◌then◌else◌,
}
use mini_control_public.Text.{Text, codes, text_eq, text_eq_iff}
use mini_control_public.Strings.{split}
use mini_control_public.Routes.{
  Route, Endpoint, register_routes, route_matches, pick_route, any_host, browser_host, worker_host,
  no_credential, access_auth, worker_auth, enrollment_auth, admin_auth, install_script, health,
  proxy_web_socket, release_latest, release_download, worker_register, Side, Credential,
  is_wildcard, elements_match, method_matches, method_get,
}

-- Whether two patterns differ in an element that neither leaves open.
abbrev apart : List Text → List Text → Bool
apart [] [] = false
apart [] (q ∷ qs) = true
apart (p ∷ ps) [] = true
apart (p ∷ ps) (q ∷ qs) =
    let rest = apart ps qs in
    if is_wildcard p || is_wildcard q then rest else if text_eq p q then rest else true

apart-match :
    (ps qs ss : List Text)
    → apart ps qs ≡ true
    → elements_match ps ss ≡ true
    → elements_match qs ss ≡ false
unfolding elements_match
apart-match [] [] ss a m = cc a
apart-match [] (q ∷ qs) [] a m = refl
apart-match [] (q ∷ qs) (s ∷ ss) a m = cc m
apart-match (p ∷ ps) [] [] a m = cc m
apart-match (p ∷ ps) [] (s ∷ ss) a m = refl
apart-match (p ∷ ps) (q ∷ qs) [] a m = refl
apart-match (p ∷ ps) (q ∷ qs) (s ∷ ss) a m =
    ground (arith, a, m, text_eq_iff p s, text_eq_iff q s, text_eq_iff p q, apart-match ps qs ss)

abbrev other_methods : Text → Text → Bool
other_methods a b =
    not (text_eq a b) && (not (text_eq a (codes "HEAD")) && not (text_eq b (codes "HEAD")))

-- One of two different methods, neither of them HEAD, matches a method at most.
other-match :
    (a b m : Text)
    → other_methods a b ≡ true
    → method_matches a m ≡ true
    → method_matches b m ≡ false
other-match a b m o h = ground (
  arith,
  o,
  h,
  text_eq_iff a b,
  text_eq_iff a m,
  text_eq_iff b m,
  text_eq_iff a method_get,
  text_eq_iff b method_get,
  text_eq_iff m (codes "HEAD"),
  text_eq_iff a (codes "HEAD"),
  text_eq_iff b (codes "HEAD"),
)

-- Two routes that no request matches both of.
abbrev distinguished : Route → Route → Bool
distinguished r q =
    other_methods r.method q.method || apart (split b'/' r.pattern) (split b'/' q.pattern)

both-match :
    (method path : Text) (r q : Route)
    → distinguished r q ≡ true
    → route_matches method path r ≡ true
    → route_matches method path q ≡ false
unfolding route_matches
both-match method path r q d h =
    let m = and_both (method_matches r.method method) _ h in
    let other = other-match r.method q.method method in
    let away = apart-match (split b'/' r.pattern) (split b'/' q.pattern) (split b'/' path) in
    ground (arith, d, m.0, m.1, other, away)

-- A table of which no request matches two routes.
abbrev Unambiguous : List Route → Type 0
Unambiguous [] = Unit
Unambiguous (r ∷ rs) = All (λ q. distinguished r q ≡ true) rs × Unambiguous rs

abbrev every : (Route → Bool) → List Route → Bool
every p [] = true
every p (r ∷ rs) = p r && every p rs

All-every : (p : Route → Bool) (rs : List Route) → every p rs ≡ true → All (λ r. p r ≡ true) rs
All-every p [] e = tt
All-every p (r ∷ rs) e = let h = and_both (p r) (every p rs) e in (h.0, All-every p rs h.1)

abbrev unambiguous : List Route → Bool
unambiguous [] = true
unambiguous (r ∷ rs) = every (distinguished r) rs && unambiguous rs

unambiguous-Unambiguous : (rs : List Route) → unambiguous rs ≡ true → Unambiguous rs
unambiguous-Unambiguous [] e = tt
unambiguous-Unambiguous (r ∷ rs) e =
    let h = and_both (every (distinguished r) rs) (unambiguous rs) e in
    (All-every (distinguished r) rs h.0, unambiguous-Unambiguous rs h.1)

All-at : (P : Route → Type 0) (rs : List Route) (q : Route) → All P rs → Any (λ x. x ≡ q) rs → P q
All-at P [] q h i = elim i [ ]
All-at P (r ∷ rs) q h (inl e) = subst P e h.0
All-at P (r ∷ rs) q h (inr i) = All-at P rs q h.1 i

find_if-Unambiguous :
    (method path : Text) (rs : List Route) (q : Route)
    → Unambiguous rs
    → Any (λ x. x ≡ q) rs
    → route_matches method path q ≡ true
    → find_if (route_matches method path) rs ≡ some q
find_if-Unambiguous method path [] q u i h = elim i [ ]
find_if-Unambiguous method path (r ∷ rs) q u (inl e) h =
    let hit : route_matches method path r ≡ true =
      subst (λ x. route_matches method path x ≡ true) (sym e) h in
    rw hit (ap some e)
find_if-Unambiguous method path (r ∷ rs) q u (inr i) h =
    elim (Bool-cases (route_matches method path r)) [
      | inr miss ↦ rw miss (find_if-Unambiguous method path rs q u.1 i h)
      | inl hit ↦
          cc (h, both-match method path r q (All-at (λ x. distinguished r x ≡ true) rs q u.0 i) hit)
    ]

-- The endpoints that are open to anybody, registration among them, which checks its tokens itself.
abbrev pub is_open : Endpoint → Bool
is_open install_script = true
is_open health = true
is_open proxy_web_socket = true
is_open release_latest = true
is_open release_download = true
is_open worker_register = true
is_open e = false

abbrev is_browser : Side → Bool
is_browser browser_host = true
is_browser s = false

abbrev is_worker : Side → Bool
is_worker worker_host = true
is_worker s = false

-- Members come through the browser's host, workers and new hosts through the workers'.
abbrev right_side : Credential → Endpoint → Side → Bool
right_side no_credential e s = is_open e
right_side access_auth e s = is_browser s
right_side worker_auth e s = is_worker s
right_side enrollment_auth e s = is_worker s
right_side admin_auth e any_host = false
right_side admin_auth e s = true

abbrev pub IsGuarded : Route → Type 0
IsGuarded r = right_side r.credential r.endpoint r.side ≡ true

register_routes-IsGuarded : All IsGuarded register_routes
register_routes-IsGuarded =
    All-every (λ r. right_side r.credential r.endpoint r.side) register_routes refl

register_routes-Unambiguous : Unambiguous register_routes
unfolding text_eq split
register_routes-Unambiguous = unambiguous-Unambiguous register_routes refl

-- A request that matches a route gets that route and no other, so the order of the table plays no
-- part. Without credentials one reaches the install script, the health check, the proxy WebSocket,
-- the latest release, its download and the registration only; members are served under the
-- browser's host, workers and hosts that enroll under the workers', administrators under either.
pub pick_route-only :
    (method path : Text) (q : Route)
    → Any (λ x. x ≡ q) register_routes
    → route_matches method path q ≡ true
    → (pick_route method path ≡ some q) × IsGuarded q
unfolding pick_route
pick_route-only method path q i h = (
  find_if-Unambiguous method path register_routes q register_routes-Unambiguous i h,
  All-at IsGuarded register_routes q register_routes-IsGuarded i,
)
