-- ===== src/Middleware.antt =====
-- lsengine/internal/plugins/plugins.go (package middleware): the chain, and the filters for CORS, for
-- the size and the query of a request, and for the security headers. A handler takes a request and what
-- has been written so far, and returns what is written then.
mod Chain
mod Router
mod Routes
mod Limiter
mod Tests
use lsengine_js.Base.{
  ℕ, zero, suc, ◌+◌, ◌-◌, ◌≡◌, refl, Bool, true, false, ◌&&◌, ◌||◌, Option, none, some, List, [],
  ◌∷◌, ◌++◌, arith, if◌then◌else◌, ◌==◌, length, get_elem?, Text, bytes, text_eq, insert, ℤ, ltb_ℤ,
}

pub record Request : Type 0 where
  pub method : Text
  pub path : Text
  pub raw_query : Text
  pub origin : Text
  pub content_length : ℤ

-- `status` is 0 until a header is written; `reached` records the requests that handlers have served.
pub record Written : Type 0 where
  pub headers : List (Text × Text)
  pub status : ℕ
  pub body : Text
  pub reached : List Request

abbrev pub Handler : Type 0
Handler = Request → Written → Written

abbrev pub Middleware : Type 0
Middleware = Handler → Handler

-- `w.Header().Set(key, value)`
abbrev pub set_header : Text → Text → Written → Written
set_header key value w = record w { headers = insert key value w.headers }

-- `w.WriteHeader(code)`: the first one counts.
abbrev pub write_header : ℕ → Written → Written
write_header code w = if w.status == 0 then record w { status = code } else w

-- `http.Error(w, text, code)`
abbrev pub http_error : Text → ℕ → Written → Written
http_error text code w = let v = write_header code w in record v { body = v.body ++ text }

pub record CorsConfig : Type 0 where
  pub enabled : Bool
  pub allowed_origins : List Text
  pub allowed_methods : List Text
  pub allowed_headers : List Text

-- `strings.Join(parts, ", ")`
unfoldable pub join : List Text → Text
join [] = []
join (p ∷ []) = p
join (p ∷ q ∷ parts) = p ++ (bytes ", " ++ join (q ∷ parts))

-- the loop over `AllowedOrigins`
unfoldable pub allow_origin : Text → List Text → Written → Written
allow_origin origin [] w = w
allow_origin origin (allowed ∷ origins) w =
    if text_eq allowed (bytes "*") || text_eq allowed origin
    then set_header (bytes "Access-Control-Allow-Origin") origin w
    else allow_origin origin origins w

-- The headers that an enabled configuration sets.
unfoldable pub cors_headers : CorsConfig → Request → Written → Written
unfolding join allow_origin
cors_headers cors r w =
    set_header (bytes "Access-Control-Allow-Headers") (join cors.allowed_headers) (
      set_header (bytes "Access-Control-Allow-Methods") (join cors.allowed_methods)
        (allow_origin r.origin cors.allowed_origins w))

unfoldable pub cors_middleware : Option CorsConfig → Middleware
unfolding cors_headers
cors_middleware none next r w = next r w
cors_middleware (some cors) next r w =
    if cors.enabled
    then (if text_eq r.method (bytes "OPTIONS")
        then write_header 200 (cors_headers cors r w)
        else next r (cors_headers cors r w))
    else next r w

-- `strings.ReplaceAll(s, c, text)` for one byte `c`
unfoldable pub replace_byte : ℕ → Text → Text → Text
replace_byte c text [] = []
replace_byte c text (x ∷ s) =
    let rest = replace_byte c text s in if x == c then text ++ rest else x ∷ rest

unfoldable pub sanitize : Text → Text
unfolding replace_byte
sanitize q = replace_byte b'>' (bytes "&gt;") (replace_byte b'<' (bytes "&lt;") q)

-- `sec != nil && sec.InputSanitize` is the second argument.
unfoldable pub validation_middleware : ℤ → Bool → Middleware
unfolding sanitize
validation_middleware max_upload_size input_sanitize next r w =
    if ltb_ℤ max_upload_size r.content_length
    then http_error (bytes "Request entity too large") 413 w
    else next (if input_sanitize then record r { raw_query = sanitize r.raw_query } else r) w

pub record SecurityConfig : Type 0 where
  pub csp : Text
  pub hsts : Bool
  pub x_frame_options : Text

abbrev set_unless_empty : Text → Text → Written → Written
set_unless_empty key [] w = w
set_unless_empty key (c ∷ value) w = set_header key (c ∷ value) w

unfoldable pub security_middleware : Option SecurityConfig → Middleware
security_middleware none next r w = next r w
security_middleware (some sec) next r w =
    let csp = set_unless_empty (bytes "Content-Security-Policy") sec.csp w in
    let hsts : Written =
      if sec.hsts
      then set_header (bytes "Strict-Transport-Security")
          (bytes "max-age=31536000; includeSubDomains") csp
      else csp in
    let frame = set_unless_empty (bytes "X-Frame-Options") sec.x_frame_options hsts in
    let sniff = set_header (bytes "X-Content-Type-Options") (bytes "nosniff") frame in
    let xss = set_header (bytes "X-XSS-Protection") (bytes "1; mode=block") sniff in
    let referrer =
      set_header (bytes "Referrer-Policy") (bytes "strict-origin-when-cross-origin") xss in
    next r (
      set_header (bytes "Permissions-Policy") (bytes "geolocation=(), microphone=(), camera=()")
        referrer)

-- `Then`: the loop over `i` from the last middleware down, with `i + 1` rounds left.
unfoldable pub then_loop : ℕ → List Middleware → Handler → Handler
then_loop zero ms h = h
then_loop (suc i) ms h = then_loop i ms (elim (get_elem? ms i) [ none ↦ h | some m ↦ m h ])

unfoldable pub chain_then : List Middleware → Handler → Handler
unfolding then_loop
chain_then ms h = then_loop (length ms) ms h

-- `Use`
unfoldable pub chain_use : List Middleware → Middleware → List Middleware
chain_use ms m = ms ++ (m ∷ [])
