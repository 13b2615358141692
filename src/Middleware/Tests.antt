-- ===== src/Middleware/Tests.antt =====
-- lsengine/internal/plugins/plugins.go: requests through the filters and the router, and the theorems applied.
use lsengine_js.Base.{
  NotByte, List, ℕ, zero, suc, ◌≢◌, Bool, has_prefix, if◌then◌else◌, ◌≡◌, refl, ◌⊎◌, ◌||◌, true,
  false, none, some, [], ◌∷◌, ◌++◌, Text, bytes, text_eq, lookup, insert, pos, arith, ltb_ℤ,
}
use lsengine_js.Middleware.{
  Request, Written, Handler, CorsConfig, allow_origin, cors_headers, cors_middleware,
  validation_middleware, sanitize, replace_byte, chain_then, chain_use, then_loop, join,
}
use lsengine_js.Hash.{fnv_loop, fnv_hash_ip}
use lsengine_js.Middleware.Limiter.{
  Limiters, Shards, before_last_colon, client_ip, limiter_of, allow_ip, rate_limit_middleware,
  allow_ip-limiter_of,
}
use lsengine_js.Middleware.Chain.{
  chain_then-use, cors_preflight, lookup-allow_origin, lists, validated,
}
use lsengine_js.Middleware.Router.{
  Router, RouteHandler, new_router, handle, entry, names_from, param_names, quote_meta, replace_all,
  route_regex, bind_params, exact_route, param_route, serve_http, not_found,
}
use lsengine_js.Middleware.Routes.{IsRegexp, serve_http-handle, serve_http-exact}

abbrev request : Request
request = record {
  method = bytes "OPTIONS";
  path = bytes "/api/a";
  raw_query = bytes "q=<b>";
  origin = bytes "x";
  content_length = pos 5;
}

abbrev unwritten : Written
unwritten = record { headers = []; status = 0; body = []; reached = [] }

abbrev serve : Handler
serve r w = record w { reached = r ∷ w.reached }

abbrev cors : CorsConfig
cors = record {
  enabled = true;
  allowed_origins = bytes "x" ∷ [];
  allowed_methods = bytes "GET" ∷ bytes "PUT" ∷ [];
  allowed_headers = [];
}

program : Unit {0}
unfolding chain_then chain_use then_loop cors_middleware cors_headers allow_origin join
    validation_middleware sanitize replace_byte text_eq insert lookup
program = tt

a_request_passes :
    ((chain_then
        (validation_middleware (pos 10) true ∷ cors_middleware none ∷ [])
        serve
        request
        unwritten).reached
      ≡ record request { raw_query = bytes "q=&lt;b&gt;" } ∷ [])
    × (lookup
          (bytes "Access-Control-Allow-Methods")
          (cors_middleware (some cors) serve request unwritten).headers
        ≡ some (bytes "GET, PUT"))
unfolding program
a_request_passes = (refl, refl)

chain_then-use_example :
    chain_then
      (chain_use (cors_middleware (some cors) ∷ []) (validation_middleware (pos 10) true))
      serve
    ≡ chain_then (cors_middleware (some cors) ∷ []) (validation_middleware (pos 10) true serve)
chain_then-use_example =
    chain_then-use (cors_middleware (some cors) ∷ []) (validation_middleware (pos 10) true) serve

cors_preflight_example :
    ((cors_middleware (some cors) serve request unwritten).status ≡ 200)
    × ((cors_middleware (some cors) serve request unwritten).reached ≡ [])
cors_preflight_example = cors_preflight cors serve request unwritten refl refl refl

lookup-allow_origin_example :
    (lookup
        (bytes "Access-Control-Allow-Origin")
        (allow_origin (bytes "x") (bytes "x" ∷ []) unwritten).headers
      ≡ none)
    ⊎ ((lookup
            (bytes "Access-Control-Allow-Origin")
            (allow_origin (bytes "x") (bytes "x" ∷ []) unwritten).headers
          ≡ some (bytes "x"))
        × (lists (bytes "x" ∷ []) (bytes "*") || lists (bytes "x" ∷ []) (bytes "x") ≡ true))
unfolding lookup
lookup-allow_origin_example = lookup-allow_origin (bytes "x") (bytes "x" ∷ []) unwritten refl

validated_example :
    ((ltb_ℤ (pos 4) (pos 5) ≡ true)
      × ((validation_middleware (pos 4) true serve request unwritten).status ≡ 413)
      × ((validation_middleware (pos 4) true serve request unwritten).reached ≡ []))
    ⊎ ((ltb_ℤ (pos 4) (pos 5) ≡ false)
        × (q : Text) × (validation_middleware (pos 4) true serve request unwritten
            ≡ serve (record request { raw_query = q }) unwritten)
        × NotByte b'<' q
        × NotByte b'>' q)
validated_example = validated (pos 4) serve request unwritten refl

router : Unit {0}
unfolding handle names_from param_names quote_meta replace_all route_regex bind_params exact_route
    param_route serve_http has_prefix
router = tt

-- An engine that matches only the quoted text, bytes without a backslash.
abbrev engine : Text → Text → List Text
engine regex path = if text_eq regex (bytes "^" ++ (path ++ bytes "$")) then path ∷ [] else []

abbrev show_user : RouteHandler
show_user params r w = record w { status = 200; body = bytes "user"; reached = r ∷ w.reached }

abbrev users : Router
unfolding handle
users =
    handle (bytes "GET") (bytes "/user/:id") show_user
      (handle (bytes "GET") (bytes "/health") show_user new_router)

abbrev get : Text → Request
get path = record {
  method = bytes "GET";
  path = path;
  raw_query = [];
  origin = [];
  content_length = pos 0;
}

-- The route has its name, and the path it describes is not found.
a_named_route_fails :
    (lookup (bytes "/user/:id") (entry (bytes "GET") users.params) ≡ some (bytes "id" ∷ []))
    × ((serve_http engine users (get (bytes "/user/7")) unwritten).status ≡ 404)
    × ((serve_http engine users (get (bytes "/health")) unwritten).status ≡ 200)
    × (bind_params (bytes "id" ∷ []) (bytes "7" ∷ []) [] ≡ (bytes "id", bytes "7") ∷ [])
unfolding program router
a_named_route_fails = (refl, refl, refl, refl)

serve_http-handle_example :
    serve_http engine
      (handle (bytes "GET") (bytes "/new") show_user users)
      (get (bytes "/new"))
      unwritten
    ≡ show_user [] (get (bytes "/new")) unwritten
unfolding chain_then then_loop users
serve_http-handle_example = serve_http-handle engine users show_user (get (bytes "/new")) unwritten

engine-IsRegexp : IsRegexp engine
engine-IsRegexp = record { quoted = λ s path. ground arith }

serve_http-exact_example :
    ((h : RouteHandler) × (lookup (bytes "/user/7") (entry (bytes "GET") users.routes) ≡ some h)
      × (serve_http engine users (get (bytes "/user/7")) unwritten
          ≡ chain_then [] (h []) (get (bytes "/user/7")) unwritten))
    ⊎ ((lookup (bytes "/user/7") (entry (bytes "GET") users.routes) ≡ none)
        × (serve_http engine users (get (bytes "/user/7")) unwritten
            ≡ not_found (get (bytes "/user/7")) unwritten))
unfolding users
serve_http-exact_example =
    serve_http-exact engine engine-IsRegexp users (get (bytes "/user/7")) unwritten

abbrev spend : ℕ → Bool × ℕ
spend zero = (false, zero)
spend (suc n) = (true, n)

-- Limiters that let so many requests pass as the burst is.
abbrev buckets : Limiters
buckets = record { Limiter = ℕ; new_limiter = λ rate burst. burst; allow = λ now n. spend n }

limits : Unit {0}
unfolding fnv_loop fnv_hash_ip before_last_colon client_ip lookup insert text_eq allow_ip
    rate_limit_middleware
limits = tt

-- The port is no part of the address.
addresses : (client_ip (bytes "[::1]:80") ≡ bytes "[::1]") × (client_ip (bytes "a") ≡ bytes "a")
unfolding limits
addresses = (refl, refl)

abbrev known : Shards buckets
known = [] ∷ ((bytes "04", 1) ∷ (bytes "b", 4) ∷ []) ∷ []

-- The address falls into the second of the shards.
allow_ip-limiter_of_example :
    (true ≡ (spend 1).0)
    × (limiter_of buckets (bytes "04") ([] ∷ ((bytes "04", 0) ∷ (bytes "b", 4) ∷ []) ∷ []) ≡ some 0)
    × ((other : Text)
        → other ≢ bytes "04"
        → limiter_of buckets other ([] ∷ ((bytes "04", 0) ∷ (bytes "b", 4) ∷ []) ∷ [])
          ≡ limiter_of buckets other known)
unfolding limits
allow_ip-limiter_of_example =
    allow_ip-limiter_of buckets 5 0 (bytes "04") known
      ([] ∷ ((bytes "04", 0) ∷ (bytes "b", 4) ∷ []) ∷ []) true refl
