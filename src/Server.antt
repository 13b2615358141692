-- ===== src/Server.antt =====
-- lsengine/internal/server/server.go: what a handler writes, and the middlewares that wrap every handler. A
-- handler returns what it wrote, and whether it panicked.
pub mod Handlers
mod Static
mod Panics
mod Streams
mod Tests
use lsengine_js.Base.{
  ℕ, Bool, true, false, ◌&&◌, ◌||◌, Option, none, some, List, [], ◌∷◌, ◌++◌, if◌then◌else◌, ◌==◌,
  Text, bytes, text_eq, contains, insert, delete, join_with, ℤ,
}
use lsengine_js.Middleware.{CorsConfig, SecurityConfig}

-- `format` is the parameter of that name in the query.
pub record HttpRequest : Type 0 where
  pub method : Text
  pub path : Text
  pub origin : Text
  pub accept_encoding : Text
  pub format : Text

-- A piece of the body, and whether it went through the writer of package gzip; `footer` is what closing that
-- writer sends.
pub data BodyPiece : Type 0 where
  raw : Text → BodyPiece
  zipped : Text → BodyPiece
  footer : BodyPiece

-- What was written. `sent` is the headers that were there when the status was written, which is 0 before;
-- `zips` says that writes go through package gzip, and `flushes` that the writer is an `http.Flusher`;
-- `logged` is the status that the logging keeps.
pub record Response : Type 0 where
  pub headers : List (Text × Text)
  pub status : ℕ
  pub sent : List (Text × Text)
  pub body : List BodyPiece
  pub zips : Bool
  pub flushes : Bool
  pub logged : ℕ
  pub log : List (Text × Text × ℕ)
  pub created_files : List (Text × Text)

abbrev pub HttpHandler : Type 0
HttpHandler = HttpRequest → Response → Response × Bool

abbrev pub put_header : Text → Text → Response → Response
put_header key value w = record w { headers = insert key value w.headers }

-- The status that reaches the client is the first; `responseWriter.WriteHeader` keeps the last.
unfoldable pub write_status : ℕ → Response → Response
write_status code w =
    if w.status == 0
    then record w { status = code; sent = w.headers; logged = code }
    else record w { logged = code }

-- `Write`: it writes the status 200, if there is none, without `responseWriter.WriteHeader`.
unfoldable pub implicit_status : Response → Response
implicit_status w = if w.status == 0 then record w { status = 200; sent = w.headers } else w

abbrev pub write_piece : BodyPiece → Response → Response
write_piece p w = record w { body = w.body ++ (p ∷ []) }

abbrev pub write_text : Text → Response → Response
write_text text w = write_piece (if w.zips then zipped text else raw text) (implicit_status w)

-- `http.Error`
unfoldable pub error_page : Text → ℕ → Response → Response
unfolding write_status implicit_status
error_page text code w =
    let typed =
      put_header (bytes "Content-Type") (bytes "text/plain; charset=utf-8")
        (record w { headers = delete (bytes "Content-Length") w.headers }) in
    write_text (text ++ bytes "\n")
      (write_status code (put_header (bytes "X-Content-Type-Options") (bytes "nosniff") typed))

-- The writer of the logging is no `http.Flusher`. A panic leaves no line in the log.
unfoldable pub logging_middleware : HttpHandler → HttpHandler
logging_middleware next r w =
    let done = next r (record w { flushes = false; logged = 200 }) in
    if done.1 then (record done.0 { flushes = w.flushes }, true) else (
      record done.0 {
        flushes = w.flushes;
        log = done.0.log ++ ((r.method, r.path, done.0.logged) ∷ []);
      },
      false,
    )

unfoldable pub recovery_middleware : HttpHandler → HttpHandler
unfolding error_page
recovery_middleware next r w =
    let done = next r w in
    if done.1
    then (error_page (bytes "Internal Server Error") 500 done.0, false)
    else (done.0, false)

abbrev pub put_unless_empty : Text → Text → Response → Response
put_unless_empty key [] w = w
put_unless_empty key (c ∷ value) w = put_header key (c ∷ value) w

abbrev pub put_if : Bool → Text → Text → Response → Response
put_if b key value w = if b then put_header key value w else w

unfoldable pub security_headers : SecurityConfig → Response → Response
security_headers sec w = put_header (bytes "X-XSS-Protection") (bytes "1; mode=block") (
    put_header (bytes "X-Content-Type-Options") (bytes "nosniff") (
      put_unless_empty (bytes "X-Frame-Options") sec.x_frame_options (
        put_if sec.hsts (bytes "Strict-Transport-Security")
          (bytes "max-age=31536000; includeSubDomains")
          (put_unless_empty (bytes "Content-Security-Policy") sec.csp w))))

unfoldable pub security_middleware : Option SecurityConfig → HttpHandler → HttpHandler
unfolding security_headers
security_middleware none next r w = next r w
security_middleware (some sec) next r w = next r (security_headers sec w)

-- the loop over `AllowedOrigins`
unfoldable pub put_origin : Text → List Text → Response → Response
put_origin origin [] w = w
put_origin origin (allowed ∷ origins) w =
    if text_eq allowed (bytes "*") || text_eq allowed origin
    then put_header (bytes "Access-Control-Allow-Origin") origin w
    else put_origin origin origins w

unfoldable pub put_cors : CorsConfig → HttpRequest → Response → Response
unfolding put_origin join_with
put_cors cors r w =
    put_header (bytes "Access-Control-Allow-Headers") (join_with (bytes ", ") cors.allowed_headers)
      (put_header (bytes "Access-Control-Allow-Methods")
        (join_with (bytes ", ") cors.allowed_methods) (put_origin r.origin cors.allowed_origins w))

unfoldable pub cors_middleware : CorsConfig → HttpHandler → HttpHandler
unfolding put_cors write_status
cors_middleware cors next r w =
    let done = next r (put_cors cors r w) in
    if text_eq r.method (bytes "OPTIONS")
    then (write_status 200 (put_cors cors r w), false)
    else done

-- `gz.Close()`, which is deferred: it writes the end of the stream also where nothing was written.
unfoldable pub close_gzip : Bool → Response → Response
unfolding implicit_status
close_gzip before w = record (write_piece footer (implicit_status w)) { zips = before }

-- The writer of package gzip is no `http.Flusher`.
unfoldable pub compression_middleware : HttpHandler → HttpHandler
unfolding close_gzip contains
compression_middleware next r w =
    let plain = next r w in
    let done = next r (record (put_header (bytes "Content-Encoding") (bytes "gzip") w) {
      zips = true;
      flushes = false;
    }) in
    if contains r.accept_encoding (bytes "gzip")
    then (record (close_gzip w.zips done.0) { flushes = w.flushes }, done.1)
    else plain

-- What the middlewares read of the settings.
pub record ServerConfig : Type 0 where
  pub name : Text
  pub version : Text
  pub author : Text
  pub license : Text
  pub environment : Text
  pub port : Text
  pub entry_point : Text
  pub max_upload_size : ℤ
  pub compression : Bool
  pub security : Option SecurityConfig
  pub cors : Option CorsConfig

abbrev pub cors_if_enabled : Option CorsConfig → HttpHandler → HttpHandler
cors_if_enabled none next = next
cors_if_enabled (some cors) next = if cors.enabled then cors_middleware cors next else next

unfoldable pub apply_middlewares : ServerConfig → HttpHandler → HttpHandler
unfolding logging_middleware recovery_middleware security_middleware cors_middleware
    compression_middleware
apply_middlewares cfg next =
    let compressed = if cfg.compression then compression_middleware next else next in
    let secured = security_middleware cfg.security compressed in
    recovery_middleware (logging_middleware (cors_if_enabled cfg.cors secured))
