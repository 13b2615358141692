-- ===== src/Server/Handlers.antt =====
-- lsengine/internal/server/server.go: the handlers and their routes.
use lsengine_js.Base.{
  ℕ, ◌-◌, Bool, false, ◌||◌, List, [], ◌∷◌, ◌++◌, if◌then◌else◌, Text, bytes, text_eq, has_prefix,
  has_suffix, contains, concat, ℤ,
}
use lsengine_js.Jsondb.Engine.{decimal}
use lsengine_js.Paths.{join_path, rel_path}
use lsengine_js.Security.{FileSystem}
use lsengine_js.Security.Reading.{exists_at}
use lsengine_js.Server.{
  HttpRequest, Response, HttpHandler, put_header, write_text, error_page, ServerConfig,
  apply_middlewares,
}

-- What `ParseMultipartForm` and `FormFile` find in a body of at most so many bytes.
pub data Form : Type 0 where
  too_large : Form
  no_file : Form
  form_file : Text → Text → Form

-- A value of a JSON object.
pub data Json : Type 0 where
  string : Text → Json
  number : ℕ → Json
  yes : Json

-- What the handlers call: the disk, `http.ServeFile`, the handler of Prometheus, the encoder of JSON, the
-- numbers of package runtime, the clock, `os.Create`, how much `io.Copy` copies, and the page of `serveUI`.
pub record Services : Type 0 where
  pub disk : FileSystem
  pub serve_file : Text → HttpHandler
  pub prometheus : HttpHandler
  pub encode : List (Text × Json) → Text
  pub runtime_stats : List (Text × Json)
  pub now : ℕ
  pub parse_form : ℤ → HttpRequest → Form
  pub can_create : Text → Bool
  pub copied : Text → Text → ℕ
  pub page : Text → Text

pub record HttpServer : Type 0 where
  pub config : ServerConfig
  pub project_root : Text
  pub start_time : ℕ

-- What the handler of static files answers with.
pub data Target : Type 0 where
  invalid_path : Target
  no_file_below : Target
  ui : Target
  file : Text → Target

unfoldable pub static_target : FileSystem → HttpServer → Text → Target
unfolding join_path rel_path contains has_prefix
static_target fs s path =
    if contains path (bytes "..")
    then invalid_path
    else if text_eq path (bytes "/")
    then (if exists_at fs (join_path s.project_root s.config.entry_point)
        then file (join_path s.project_root s.config.entry_point)
        else ui)
    else if has_prefix (rel_path s.project_root (join_path s.project_root path)) (bytes "..")
    then no_file_below
    else file (join_path s.project_root path)

abbrev pub is_cached : Text → Bool
is_cached path =
    has_suffix path (bytes ".js")
    || has_suffix path (bytes ".css")
    || has_suffix path (bytes ".png")
    || has_suffix path (bytes ".jpg")
    || has_suffix path (bytes ".ico")

-- A file gets the header of the cache where it is no entry point and ends in one of the suffixes.
abbrev cache_header : Text → Response → Response
cache_header path w =
    if text_eq path (bytes "/")
    then w
    else if is_cached path
    then put_header (bytes "Cache-Control") (bytes "public, max-age=86400") w
    else w

abbrev pub serve_ui : Services → HttpServer → Response → Response
serve_ui sv s w =
    write_text (sv.page s.config.name)
      (put_header (bytes "Content-Type") (bytes "text/html; charset=utf-8") w)

abbrev pub answer_target : Services → HttpServer → Target → HttpHandler
answer_target sv s invalid_path r w = (error_page (bytes "Invalid path") 400 w, false)
answer_target sv s no_file_below r w = (error_page (bytes "404 page not found") 404 w, false)
answer_target sv s ui r w = (serve_ui sv s w, false)
answer_target sv s (file name) r w = sv.serve_file name r (cache_header r.path w)

unfoldable pub static_handler : Services → HttpServer → HttpHandler
unfolding static_target error_page has_suffix
static_handler sv s r w = answer_target sv s (static_target sv.disk s r.path) r w

abbrev pub write_json : Services → List (Text × Json) → Response → Response
write_json sv fields w =
    write_text (sv.encode fields ++ bytes "\n")
      (put_header (bytes "Content-Type") (bytes "application/json") w)

unfoldable pub health_handler : Services → HttpServer → HttpHandler
health_handler sv s r w = (
  write_json sv
      ((bytes "status", string (bytes "ok"))
        ∷ (bytes "time", number sv.now)
        ∷ (bytes "uptime", number (sv.now - s.start_time))
        ∷ (bytes "version", string s.config.version)
        ∷ (bytes "app", string s.config.name)
        ∷ [])
      w,
  false,
)

unfoldable pub metrics_handler : Services → HttpServer → HttpHandler
metrics_handler sv s r w =
    let own =
      write_json sv
        (sv.runtime_stats ++ ((bytes "uptime_seconds", number (sv.now - s.start_time)) ∷ [])) w in
    if text_eq r.format (bytes "prometheus") then sv.prometheus r w else (own, false)

abbrev pub save_path : HttpServer → Text → Text
save_path s filename = join_path (join_path s.project_root (bytes "uploads")) filename

abbrev pub save_form : Services → HttpServer → Form → Response → Response
save_form sv s too_large w = error_page (bytes "File too large") 413 w
save_form sv s no_file w = error_page (bytes "Error reading file") 400 w
save_form sv s (form_file filename content) w =
    if sv.can_create (save_path s filename)
    then write_json sv
        ((bytes "success", yes)
          ∷ (bytes "filename", string filename)
          ∷ (bytes "size", number (sv.copied filename content))
          ∷ (bytes "path", string (bytes "/uploads/" ++ filename))
          ∷ [])
        (record w { created_files = w.created_files ++ ((save_path s filename, content) ∷ []) })
    else error_page (bytes "Error saving file") 500 w

unfoldable pub upload_handler : Services → HttpServer → HttpHandler
unfolding error_page join_path
upload_handler sv s r w =
    if text_eq r.method (bytes "POST")
    then (save_form sv s (sv.parse_form s.config.max_upload_size r) w, false)
    else (error_page (bytes "Method not allowed") 405 w, false)

-- the loop of `streamHandler`: a message at each tick, until the client is gone
unfoldable pub stream_loop : List ℕ → Response → Response
unfolding concat decimal
stream_loop [] w = w
stream_loop (now ∷ ticks) w = stream_loop ticks (
    write_text
      (concat
        (bytes "data: {\"type\":\"keepalive\",\"timestamp\":" ∷ decimal now ∷ bytes "}\n\n" ∷ []))
      w)

abbrev pub stream_headers : Response → Response
stream_headers w = put_header (bytes "Connection") (bytes "keep-alive") (
    put_header (bytes "Cache-Control") (bytes "no-cache")
      (put_header (bytes "Content-Type") (bytes "text/event-stream") w))

-- `ticks` is the times at which the ticker fires before the client is gone.
unfoldable pub stream_handler : List ℕ → HttpHandler
unfolding error_page stream_loop
stream_handler ticks r w =
    let done = stream_loop ticks (stream_headers w) in
    if w.flushes
    then (done, false)
    else (error_page (bytes "Streaming not supported") 500 (stream_headers w), false)

unfoldable pub info_handler : Services → HttpServer → HttpHandler
info_handler sv s r w = (
  write_json sv
      ((bytes "name", string s.config.name)
        ∷ (bytes "version", string s.config.version)
        ∷ (bytes "author", string s.config.author)
        ∷ (bytes "license", string s.config.license)
        ∷ (bytes "environment", string s.config.environment)
        ∷ (bytes "port", string s.config.port)
        ∷ [])
      w,
  false,
)

-- `mux` is `http.ServeMux` with these routes.
unfoldable pub register_routes : Services → HttpServer → List ℕ → List (Text × HttpHandler)
unfolding static_handler health_handler metrics_handler upload_handler stream_handler info_handler
register_routes sv s ticks =
    (bytes "/", static_handler sv s)
    ∷ (bytes "/health", health_handler sv s)
    ∷ (bytes "/metrics", metrics_handler sv s)
    ∷ (bytes "/upload", upload_handler sv s)
    ∷ (bytes "/stream", stream_handler ticks)
    ∷ (bytes "/api/info", info_handler sv s)
    ∷ []

unfoldable pub start :
    (mux : List (Text × HttpHandler) → HttpHandler) → Services → HttpServer → List ℕ → HttpHandler
unfolding register_routes apply_middlewares
start mux sv s ticks = apply_middlewares s.config (mux (register_routes sv s ticks))
