-- ===== src/Middleware/Routes.antt =====
-- lsengine/internal/plugins/plugins.go: which requests the router answers, and with which parameters.
use lsengine_js.Base.{
  ℕ, ◌≤◌, ◌≡◌, ◌≢◌, refl, ◌⊎◌, inl, inr, true, false, none, some, List, [], ◌∷◌, ◌++◌, arith,
  length, ltb, Text, bytes, text_eq_refl, has_prefix, lookup, lookup-insert, Bool-cases,
  Option-cases,
}
use lsengine_js.Middleware.{Request, Written, chain_then}
use lsengine_js.Middleware.Router.{
  Router, RouteHandler, handle, entry, quote_meta, special, replace_all, route_regex, not_found,
  exact_route, param_route, serve_http,
}

exact_route-lookup :
    (path : Text) (routes : List (Text × RouteHandler))
    → exact_route path routes ≡ lookup path routes
unfolding exact_route lookup
exact_route-lookup path [] = refl
exact_route-lookup path (route ∷ routes) = rw (exact_route-lookup path routes) refl

module _ (find_submatch : Text → Text → List Text) where
  -- A request whose method and path are those of a route that was just registered is served by its handler,
  -- behind the middleware of the router, with no parameters.
  pub serve_http-handle :
      (r : Router) (handler : RouteHandler) (req : Request) (w : Written)
      → serve_http find_submatch (handle req.method req.path handler r) req w
        ≡ chain_then r.middleware (handler []) req w
  unfolding serve_http handle
  serve_http-handle r handler req w =
      rw
        (
          serve_http,
          handle,
          lookup-insert req.method req.method _ r.routes,
          text_eq_refl req.method,
          exact_route-lookup req.path _,
          lookup-insert req.path req.path handler (entry req.method r.routes),
          text_eq_refl req.path,
        )
        refl

-- No quoted text has a parenthesis that follows a colon.
has_prefix-quote_meta :
    (c : ℕ) (s : Text)
    → special c ≡ false
    → has_prefix (c ∷ quote_meta s) (bytes ":([^/]+)") ≡ false
unfolding has_prefix quote_meta
has_prefix-quote_meta c [] h = ground arith
has_prefix-quote_meta c (d ∷ s) h = elim (Bool-cases (special d)) [
  | inl e ↦ rw e (ground arith)
  | inr e ↦ rw e (ground arith)
]

has_prefix-other : (c : ℕ) (s : Text) → c ≢ b':' → has_prefix (c ∷ s) (bytes ":([^/]+)") ≡ false
unfolding has_prefix
has_prefix-other c s h = ground arith

special-colon : (c : ℕ) → special c ≡ true → c ≢ b':'
special-colon c h e = ground arith

replace_all-quote_meta :
    (s : Text) → replace_all (bytes ":([^/]+)") (bytes "([^/]+)") 0 (quote_meta s) ≡ quote_meta s
unfolding replace_all quote_meta
replace_all-quote_meta [] = refl
replace_all-quote_meta (c ∷ s) = elim (Bool-cases (special c)) [
  | inl e ↦
      rw
        (
          e,
          has_prefix-other b'\\' (c ∷ quote_meta s) (omega arith),
          has_prefix-other c (quote_meta s) (special-colon c e),
          replace_all-quote_meta s,
        )
        refl
  | inr e ↦ rw (e, has_prefix-quote_meta c s e, replace_all-quote_meta s) refl
]

route_regex-quote_meta : (s : Text) → route_regex s ≡ bytes "^" ++ (quote_meta s ++ bytes "$")
unfolding route_regex
route_regex-quote_meta s = rw (replace_all-quote_meta s) refl

-- What package regexp documents: a quoted text is an expression for that text. It has no groups, so a match
-- is a list of one text.
pub record IsRegexp (find_submatch : Text → Text → List Text) : Type 0 where
  pub quoted :
      (s path : Text) → length (find_submatch (bytes "^" ++ (quote_meta s ++ bytes "$")) path) ≤ 1

param_route-none :
    (find_submatch : Text → Text → List Text)
    → IsRegexp find_submatch
    → (path : Text) (params : List (Text × List Text)) (routes : List (Text × RouteHandler))
    → param_route find_submatch path params routes ≡ none
unfolding param_route
param_route-none f law path params [] = refl
param_route-none f law path params (route ∷ routes) = elim (Option-cases (lookup route.0 params)) [
  | inl e ↦ rw (param_route, e) (param_route-none f law path params routes)
  | inr (names, e) ↦
      (let few : ltb 1 (length (f (route_regex route.0) path)) ≡ false =
          rw (route_regex-quote_meta route.0) (ground (arith, law.quoted route.0 path)) in
        rw (param_route, e, few) (param_route-none f law path params routes))
]

lookup-none : (key : Text) → lookup {V = RouteHandler} key [] ≡ none
unfolding lookup
lookup-none key = refl

-- The router answers only a path that is the text of a pattern, and then without parameters; every other
-- request gets 404, whatever the patterns are. So a route with a `:name` never gets a value for it. This is
-- where `find_submatch` does what package regexp documents for a quoted text.
pub serve_http-exact :
    (find_submatch : Text → Text → List Text)
    → IsRegexp find_submatch
    → (r : Router) (req : Request) (w : Written)
    → ((h : RouteHandler) × (lookup req.path (entry req.method r.routes) ≡ some h)
        × (serve_http find_submatch r req w ≡ chain_then r.middleware (h []) req w))
      ⊎ ((lookup req.path (entry req.method r.routes) ≡ none)
          × (serve_http find_submatch r req w ≡ not_found req w))
unfolding serve_http
serve_http-exact f law r req w = elim (Option-cases (lookup req.method r.routes)) [
  | inl e ↦ inr (rw (entry, e) (lookup-none req.path), rw (serve_http, e) refl)
  | inr (routes, e) ↦ elim (Option-cases (lookup req.path routes)) [
    | inl k ↦ inr (
      rw (entry, e) k,
      rw
          (
            serve_http,
            e,
            exact_route-lookup req.path routes,
            k,
            param_route-none f law req.path (entry req.method r.params) routes,
          )
          refl,
    )
    | inr (h, k) ↦
        inl (h, rw (entry, e) k, rw (serve_http, e, exact_route-lookup req.path routes, k) refl)
  ]
]
