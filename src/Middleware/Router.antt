-- ===== src/Middleware/Router.antt =====
-- lsengine/internal/plugins/plugins.go, `Router`. The package regexp is a parameter: `find_submatch` is what
-- `MustCompile(pattern).FindStringSubmatch(path)` returns. `QuoteMeta` and `strings.ReplaceAll` are written out.
use lsengine_js.Base.{
  ℕ, zero, suc, ◌-◌, Bool, ◌||◌, Option, none, some, List, [], ◌∷◌, ◌++◌, if◌then◌else◌, ◌==◌,
  length, ltb, drop, Text, bytes, text_eq, has_prefix, lookup, insert,
}
use lsengine_js.Middleware.{Handler, Middleware, http_error, chain_then, chain_use}

-- A handler also gets the parameters that the context carries.
abbrev pub RouteHandler : Type 0
RouteHandler = List (Text × Text) → Handler

pub record Router : Type 0 where
  pub routes : List (Text × List (Text × RouteHandler))
  pub params : List (Text × List (Text × List Text))
  pub middleware : List Middleware

abbrev pub new_router : Router
new_router = record { routes = []; params = []; middleware = [] }

abbrev pub router_use : Middleware → Router → Router
unfolding chain_use
router_use m r = record r { middleware = chain_use r.middleware m }

-- The names that `:([^/]+)` finds, with the name that is being read: `none` outside of a name. A colon
-- inside a name belongs to it, and a colon that a slash or the end follows begins none.
unfoldable pub names_from : Option Text → Text → List Text
names_from none [] = []
names_from none (c ∷ s) = if c == b':' then names_from (some []) s else names_from none s
names_from (some []) [] = []
names_from (some (d ∷ name)) [] = (d ∷ name) ∷ []
names_from (some []) (c ∷ s) = if c == b'/' then names_from none s else names_from (some (c ∷ [])) s
names_from (some (d ∷ name)) (c ∷ s) =
    if c == b'/'
    then (d ∷ name) ∷ names_from none s
    else names_from (some ((d ∷ name) ++ (c ∷ []))) s

unfoldable pub param_names : Text → List Text
unfolding names_from
param_names pattern = names_from none pattern

-- The entry of a method, which `Handle` makes where there is none.
abbrev pub entry {ℓ} : {A : Type ℓ} → Text → List (Text × List A) → List A
entry method m = elim (lookup method m) [ none ↦ [] | some e ↦ e ]

unfoldable pub handle : Text → Text → RouteHandler → Router → Router
unfolding param_names
handle method pattern handler r =
    let names = param_names pattern in
    let known = entry method r.params in
    record r {
      routes = insert method (insert pattern handler (entry method r.routes)) r.routes;
      params =
          insert method (elim names [ [] ↦ known | n ∷ ns ↦ insert pattern (n ∷ ns) known ])
            r.params;
    }

-- The bytes that `regexp.QuoteMeta` puts a backslash before.
abbrev pub special : ℕ → Bool
special c =
    c == b'\\'
    || c == b'.'
    || c == b'+'
    || c == b'*'
    || c == b'?'
    || c == b'('
    || c == b')'
    || c == b'|'
    || c == b'['
    || c == b']'
    || c == b'{'
    || c == b'}'
    || c == b'^'
    || c == b'$'

unfoldable pub quote_meta : Text → Text
quote_meta [] = []
quote_meta (c ∷ s) = let rest = quote_meta s in if special c then b'\\' ∷ (c ∷ rest) else c ∷ rest

-- `strings.ReplaceAll(s, old, new)` for an `old` of `suc skip` bytes; `wait` bytes are left to pass over.
unfoldable pub replace_all : Text → Text → ℕ → Text → Text
replace_all old new wait [] = []
replace_all old new (suc wait) (c ∷ s) = replace_all old new wait s
replace_all old new zero (c ∷ s) =
    if has_prefix (c ∷ s) old
    then new ++ replace_all old new (length old - 1) s
    else c ∷ replace_all old new zero s

unfoldable pub route_regex : Text → Text
unfolding quote_meta replace_all
route_regex pattern =
    bytes "^"
    ++ (replace_all (bytes ":([^/]+)") (bytes "([^/]+)") 0 (quote_meta pattern) ++ bytes "$")

abbrev pub not_found : Handler
not_found r w = http_error (bytes "404 page not found") 404 w

-- The values of the parameters, by the index of their group.
unfoldable pub bind_params : List Text → List Text → List (Text × Text) → List (Text × Text)
bind_params [] groups params = params
bind_params (name ∷ names) [] params = params
bind_params (name ∷ names) (g ∷ groups) params = bind_params names groups (insert name g params)

-- the first loop: the pattern that equals the path
unfoldable pub exact_route : Text → List (Text × RouteHandler) → Option RouteHandler
exact_route path [] = none
exact_route path (route ∷ routes) =
    if text_eq route.0 path then some route.1 else exact_route path routes

module _ (find_submatch : Text → Text → List Text) where
  -- the second loop: the first pattern with names that matches, with the values of its names
  unfoldable pub param_route :
      Text
      → List (Text × List Text)
      → List (Text × RouteHandler)
      → Option (RouteHandler × List (Text × Text))
  unfolding bind_params route_regex
  param_route path params [] = none
  param_route path params (route ∷ routes) =
      let rest = param_route path params routes in
      elim (lookup route.0 params) [
        | none ↦ rest
        | some names ↦
            (let found = find_submatch (route_regex route.0) path in
              if ltb 1 (length found)
              then some (route.1, bind_params names (drop 1 found) [])
              else rest)
      ]

  unfoldable pub serve_http : Router → Handler
  unfolding exact_route param_route
  serve_http r req w = elim (lookup req.method r.routes) [
    | none ↦ not_found req w
    | some handlers ↦ elim (exact_route req.path handlers) [
      | some h ↦ chain_then r.middleware (h []) req w
      | none ↦ elim (param_route req.path (entry req.method r.params) handlers) [
        | some (h, values) ↦ chain_then r.middleware (h values) req w
        | none ↦ not_found req w
      ]
    ]
  ]
