-- ===== src/Server/Tests.antt =====
-- lsengine/internal/server/server.go: requests to a small server, and the theorems applied.
use lsengine_js.Base.{
  ◌≡◌, ◌⊎◌, refl, true, false, none, some, List, [], ◌∷◌, arith, if◌then◌else◌, All, Text, bytes,
  text_eq, has_prefix, has_suffix, contains, insert, delete, lookup, join_with, concat, split, pos,
}
use lsengine_js.Jsondb.Engine.{decimal, digits_from}
use lsengine_js.Paths.{
  drop_last, last?, go_up, clean_part, clean_parts, join_slash, from_root, clean, join_path,
  drop_empty, parts_of, up_from, strip_common, rel_path,
}
use lsengine_js.Paths.Clean.{IsName}
use lsengine_js.Paths.Inside.{IsBelow}
use lsengine_js.Security.{FileSystem}
use lsengine_js.Security.Reading.{exists_at}
use lsengine_js.Server.{
  HttpRequest, zipped, footer, Response, HttpHandler, write_status, implicit_status, write_text,
  error_page, logging_middleware, recovery_middleware, security_headers, security_middleware,
  put_origin, put_cors, cors_middleware, close_gzip, compression_middleware, ServerConfig,
  apply_middlewares,
}
use lsengine_js.Server.Handlers.{
  no_file, Services, HttpServer, invalid_path, file, static_target, static_handler, health_handler,
  metrics_handler, upload_handler, stream_loop, stream_handler, info_handler, register_routes,
  start,
}
use lsengine_js.Server.Static.{static_target-IsBelow}
use lsengine_js.Server.Panics.{apply_middlewares-panic}
use lsengine_js.Server.Streams.{start-stream}

program : Unit {0}
unfolding drop_last last? go_up clean_part clean_parts join_slash from_root clean join_path
    drop_empty parts_of up_from strip_common rel_path split join_with has_prefix has_suffix contains
    text_eq insert delete lookup concat decimal digits_from write_status implicit_status error_page
    logging_middleware recovery_middleware security_headers security_middleware put_origin put_cors
    cors_middleware close_gzip compression_middleware apply_middlewares static_target static_handler
    health_handler metrics_handler upload_handler stream_loop stream_handler info_handler
    register_routes start
program = tt

abbrev settings : ServerConfig
settings = record {
  name = bytes "app";
  version = bytes "1";
  author = [];
  license = [];
  environment = [];
  port = bytes ":80";
  entry_point = bytes "index.html";
  max_upload_size = pos 10;
  compression = true;
  security = some (record { csp = []; hsts = false; x_frame_options = bytes "DENY" });
  cors = none;
}

abbrev server : HttpServer
server = record { config = settings; project_root = bytes "/a/b"; start_time = 0 }

abbrev disk : FileSystem
unfolding text_eq
disk = record {
  stat = λ path.
      if text_eq path (bytes "/a/b/index.html")
      then some (record { is_dir = false; size = 3 })
      else none;
  read_file = λ path. none;
}

abbrev services : Services
services = record {
  disk = disk;
  serve_file = λ name r w. (write_text name w, false);
  prometheus = λ r w. (w, false);
  encode = λ fields. bytes "{}";
  runtime_stats = [];
  now = 5;
  parse_form = λ n r. no_file;
  can_create = λ p. false;
  copied = λ n c. 0;
  page = λ n. n;
}

abbrev fresh : Response
fresh = record {
  headers = [];
  status = 0;
  sent = [];
  body = [];
  zips = false;
  flushes = true;
  logged = 0;
  log = [];
  created_files = [];
}

abbrev get : Text → Text → HttpRequest
get path encoding = record {
  method = bytes "GET";
  path = path;
  origin = [];
  accept_encoding = encoding;
  format = [];
}

abbrev project : List Text
project = bytes "a" ∷ bytes "b" ∷ []

project-IsName : All IsName project
unfolding text_eq
project-IsName = ((refl, omega arith, refl, refl), ((refl, omega arith, refl, refl), tt))

-- The settings of the application are served like every file of the project.
targets :
    (static_target disk server (bytes "/") ≡ file (bytes "/a/b/index.html"))
    × (static_target disk server (bytes "/app.json") ≡ file (bytes "/a/b/app.json"))
    × (static_target disk server (bytes "/x..y") ≡ invalid_path)
unfolding program
targets = (refl, refl, refl)

-- A page that is compressed, with its headers.
page_is_compressed :
    ((apply_middlewares settings
        (static_handler services server)
        (get (bytes "/a.js") (bytes "gzip, br"))
        fresh).0.body
      ≡ zipped (bytes "/a/b/a.js") ∷ footer ∷ [])
    × (lookup
          (bytes "Content-Encoding")
          (apply_middlewares settings
            (static_handler services server)
            (get (bytes "/a.js") (bytes "gzip, br"))
            fresh).0.sent
        ≡ some (bytes "gzip"))
    × (lookup
          (bytes "X-Frame-Options")
          (apply_middlewares settings
            (static_handler services server)
            (get (bytes "/a.js") (bytes "gzip, br"))
            fresh).0.sent
        ≡ some (bytes "DENY"))
unfolding program
page_is_compressed = (refl, refl, refl)

static_target-IsBelow_example :
    (contains (bytes "/a.js") (bytes "..") ≡ false)
    × (((bytes "/a.js" ≡ bytes "/")
          × (bytes "/a/b/a.js" ≡ join_path (bytes "/a/b") (bytes "index.html"))
          × (exists_at disk (bytes "/a/b/a.js") ≡ true))
        ⊎ (IsBelow project (bytes "/a/b/a.js")
            × (bytes "/a/b/a.js" ≡ join_path (bytes "/a/b") (bytes "/a.js"))))
unfolding program
static_target-IsBelow_example =
    static_target-IsBelow disk server project (bytes "/a.js") (bytes "/a/b/a.js") project-IsName
      refl refl

abbrev panicking : HttpHandler
panicking r w = (w, true)

apply_middlewares-panic_example :
    ((apply_middlewares settings panicking (get (bytes "/") (bytes "gzip")) fresh).0.status ≡ 200)
    × ((apply_middlewares settings panicking (get (bytes "/") (bytes "gzip")) fresh).0.log ≡ [])
    × ((apply_middlewares settings panicking (get (bytes "/") (bytes "gzip")) fresh).1 ≡ false)
unfolding program
apply_middlewares-panic_example =
    apply_middlewares-panic settings panicking (get (bytes "/") (bytes "gzip")) fresh (λ v. refl)
      refl refl

-- The handler of a path that is registered.
abbrev exact_mux : List (Text × HttpHandler) → HttpHandler
unfolding lookup
exact_mux routes r w = elim (lookup r.path routes) [
  | none ↦ (error_page (bytes "404 page not found") 404 w, false)
  | some h ↦ h r w
]

start-stream_example :
    (start exact_mux services server (1 ∷ 2 ∷ []) (get (bytes "/stream") []) fresh).0.status ≡ 500
unfolding register_routes lookup text_eq
start-stream_example =
    start-stream exact_mux services server (1 ∷ 2 ∷ []) (get (bytes "/stream") []) fresh (λ v. refl)
      refl refl
