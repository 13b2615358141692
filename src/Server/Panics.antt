-- ===== src/Server/Panics.antt =====
-- lsengine/internal/server/server.go: what the middlewares pass on, and what becomes of a panic.
use lsengine_js.Base.{
  ℕ, ◌≡◌, refl, sym, ◌∙◌, ap, subst, inl, inr, Bool, true, false, ◌&&◌, ◌||◌, Option, none, some,
  List, [], ◌∷◌, ◌++◌, arith, if◌then◌else◌, ◌==◌, Bool-cases, Text, bytes, text_eq, contains,
  delete, ◌<◌, if_true, if_false,
}
use lsengine_js.Middleware.{CorsConfig, SecurityConfig}
use lsengine_js.Server.{
  HttpRequest, Response, HttpHandler, write_status, implicit_status, error_page, logging_middleware,
  recovery_middleware, security_headers, put_unless_empty, put_if, put_header, security_middleware,
  put_origin, put_cors, cors_middleware, close_gzip, compression_middleware, ServerConfig,
  cors_if_enabled, apply_middlewares,
}

-- The second differs from the first in its headers at most.
abbrev pub Reheaded : Response → Response → Type 0
Reheaded w v = v ≡ record w { headers = v.headers }

-- The request is answered by `corsMiddleware` itself.
abbrev pub is_preflight : Option CorsConfig → HttpRequest → Bool
is_preflight none r = false
is_preflight (some cors) r = cors.enabled && text_eq r.method (bytes "OPTIONS")

Reheaded-trans : (w v u : Response) → Reheaded w v → Reheaded v u → Reheaded w u
Reheaded-trans w v u h k = k ∙ ap (λ (x : Response). record x { headers = u.headers }) h

unless-Reheaded : (key value : Text) (w : Response) → Reheaded w (put_unless_empty key value w)
unless-Reheaded key [] w = refl
unless-Reheaded key (c ∷ value) w = refl

if-Reheaded : (b : Bool) (key value : Text) (w : Response) → Reheaded w (put_if b key value w)
if-Reheaded true key value w = refl
if-Reheaded false key value w = refl

security_headers-Reheaded :
    (sec : SecurityConfig) (w : Response) → Reheaded w (security_headers sec w)
unfolding security_headers
security_headers-Reheaded sec w =
    (let csp = put_unless_empty (bytes "Content-Security-Policy") sec.csp w in
      let hsts =
        put_if sec.hsts (bytes "Strict-Transport-Security")
          (bytes "max-age=31536000; includeSubDomains") csp in
      let frame = put_unless_empty (bytes "X-Frame-Options") sec.x_frame_options hsts in
      Reheaded-trans w frame _
        (Reheaded-trans w hsts frame
          (Reheaded-trans w csp hsts (unless-Reheaded _ sec.csp w) (if-Reheaded sec.hsts _ _ csp))
          (unless-Reheaded _ sec.x_frame_options hsts))
        refl)

put_origin-Reheaded :
    (origin : Text) (origins : List Text) (w : Response) → Reheaded w (put_origin origin origins w)
unfolding put_origin
put_origin-Reheaded origin [] w = refl
put_origin-Reheaded origin (a ∷ origins) w =
    elim (Bool-cases (text_eq a (bytes "*") || text_eq a origin)) [
      | inl e ↦ subst (Reheaded w) (sym (if_true _ _ _ e)) refl
      | inr e ↦ subst (Reheaded w) (sym (if_false _ _ _ e)) (put_origin-Reheaded origin origins w)
    ]

put_cors-Reheaded :
    (cors : CorsConfig) (r : HttpRequest) (w : Response) → Reheaded w (put_cors cors r w)
unfolding put_cors
put_cors-Reheaded cors r w =
    Reheaded-trans w (put_origin r.origin cors.allowed_origins w) _
      (put_origin-Reheaded r.origin cors.allowed_origins w) refl

-- The handler is called, with nothing changed but headers.
abbrev pub Passes : HttpHandler → HttpHandler → HttpRequest → Response → Type 0
Passes outer next r w = (v : Response) × Reheaded w v × (outer r w ≡ next r v)

pub security_middleware-Passes :
    (sec : Option SecurityConfig) (next : HttpHandler) (r : HttpRequest) (w : Response)
    → Passes (security_middleware sec next) next r w
unfolding security_middleware
security_middleware-Passes none next r w = (w, refl, refl)
security_middleware-Passes (some sec) next r w =
    (security_headers sec w, security_headers-Reheaded sec w, refl)

pub cors-Passes :
    (cors : Option CorsConfig) (next : HttpHandler) (r : HttpRequest) (w : Response)
    → is_preflight cors r ≡ false
    → Passes (cors_if_enabled cors next) next r w
unfolding cors_middleware
cors-Passes none next r w h = (w, refl, refl)
cors-Passes (some cors) next r w h = elim (Bool-cases cors.enabled) [
  | inl e ↦ (
    put_cors cors r w,
    put_cors-Reheaded cors r w,
    ap (λ (g : HttpHandler). g r w) (if_true _ _ _ e)
        ∙ if_false (text_eq r.method (bytes "OPTIONS")) _ _ (ground (arith, h, e)),
  )
  | inr e ↦ (w, refl, ap (λ (g : HttpHandler). g r w) (if_false _ _ _ e))
]

-- The body goes through package gzip.
abbrev pub is_zipped : ServerConfig → HttpRequest → Bool
is_zipped cfg r = cfg.compression && contains r.accept_encoding (bytes "gzip")

abbrev pub zip_writer : Response → Response
zip_writer w = record (put_header (bytes "Content-Encoding") (bytes "gzip") w) {
  zips = true;
  flushes = false;
}

abbrev pub zip_end : Response → Response × Bool → Response × Bool
zip_end w done = (record (close_gzip w.zips done.0) { flushes = w.flushes }, done.1)

abbrev pub compressed : ServerConfig → HttpHandler → HttpHandler
compressed cfg next = if cfg.compression then compression_middleware next else next

pub compressed_zipped :
    (cfg : ServerConfig) (next : HttpHandler) (r : HttpRequest) (w : Response)
    → is_zipped cfg r ≡ true
    → compressed cfg next r w ≡ zip_end w (next r (zip_writer w))
unfolding compression_middleware
compressed_zipped cfg next r w h =
    ap (λ (g : HttpHandler). g r w) (if_true cfg.compression _ _ (ground (arith, h)))
    ∙ if_true (contains r.accept_encoding (bytes "gzip")) _ _ (ground (arith, h))

pub compressed_plain :
    (cfg : ServerConfig) (next : HttpHandler) (r : HttpRequest) (w : Response)
    → is_zipped cfg r ≡ false
    → compressed cfg next r w ≡ next r w
unfolding compression_middleware
compressed_plain cfg next r w h = elim (Bool-cases cfg.compression) [
  | inl e ↦
      ap (λ (g : HttpHandler). g r w) (if_true cfg.compression _ _ e)
      ∙ if_false (contains r.accept_encoding (bytes "gzip")) _ _ (ground (arith, h, e))
  | inr e ↦ ap (λ (g : HttpHandler). g r w) (if_false cfg.compression _ _ e)
]

-- Through the headers of the security and of CORS, the compressed handler is called.
pub wrapped-Passes :
    (cfg : ServerConfig) (next : HttpHandler) (r : HttpRequest) (w : Response)
    → is_preflight cfg.cors r ≡ false
    → Passes
        (cors_if_enabled cfg.cors (security_middleware cfg.security (compressed cfg next)))
        (compressed cfg next)
        r
        w
wrapped-Passes cfg next r w h =
    (let (v, hv, ev) =
        cors-Passes cfg.cors (security_middleware cfg.security (compressed cfg next)) r w h in
      let (u, hu, eu) = security_middleware-Passes cfg.security (compressed cfg next) r v in
      (u, Reheaded-trans w v u hv hu, ev ∙ eu))

-- The status, if none was written, and the log, which stays.
abbrev pub Answers : ℕ → Response → Response → Type 0
Answers code w v = (v.status ≡ (if w.status == 0 then code else w.status)) × (v.log ≡ w.log)

write_status-Answers : (code : ℕ) (w : Response) → Answers code w (write_status code w)
unfolding write_status
write_status-Answers code w = elim (Bool-cases (w.status == 0)) [
  | inl e ↦ subst (Answers code w) (sym (if_true _ _ _ e)) (sym (if_true _ _ _ e), refl)
  | inr e ↦ subst (Answers code w) (sym (if_false _ _ _ e)) (sym (if_false _ _ _ e), refl)
]

pub implicit_status-Answers : (w : Response) → Answers 200 w (implicit_status w)
unfolding implicit_status
implicit_status-Answers w = elim (Bool-cases (w.status == 0)) [
  | inl e ↦ subst (Answers 200 w) (sym (if_true _ _ _ e)) (sym (if_true _ _ _ e), refl)
  | inr e ↦ subst (Answers 200 w) (sym (if_false _ _ _ e)) (sym (if_false _ _ _ e), refl)
]

Answers-trans :
    (code other : ℕ) (w v u : Response)
    → 0 < code
    → Answers code w v
    → Answers other v u
    → Answers code w u
Answers-trans code other w v u some_code h k = (ground (arith, h.0, k.0), k.1 ∙ h.1)

pub error_page-Answers :
    (text : Text) (code : ℕ) (w : Response) → 0 < code → Answers code w (error_page text code w)
unfolding error_page
error_page-Answers text code w some_code =
    (let titled = put_header (bytes "X-Content-Type-Options") (bytes "nosniff") (
        put_header (bytes "Content-Type") (bytes "text/plain; charset=utf-8")
          (record w { headers = delete (bytes "Content-Length") w.headers })) in
      Answers-trans code 200 w (write_status code titled)
        (implicit_status (write_status code titled)) some_code (write_status-Answers code titled)
        (implicit_status-Answers (write_status code titled)))

abbrev pub log_writer : Response → Response
log_writer w = record w { flushes = false; logged = 200 }

-- The recovery and the logging around a handler that panics.
recovery_middleware-logging_middleware :
    (h : HttpHandler) (r : HttpRequest) (w y : Response)
    → h r (log_writer w) ≡ (y, true)
    → recovery_middleware (logging_middleware h) r w
      ≡ (error_page (bytes "Internal Server Error") 500 (record y { flushes = w.flushes }), false)
unfolding recovery_middleware logging_middleware
recovery_middleware-logging_middleware h r w y e = ap (λ (done : Response × Bool). shown done) e
  where
    logged_line : Response × Bool → Response × Bool
    logged_line done = if done.1 then (record done.0 { flushes = w.flushes }, true) else (
      record done.0 {
        flushes = w.flushes;
        log = done.0.log ++ ((r.method, r.path, done.0.logged) ∷ []);
      },
      false,
    )

    shown : Response × Bool → Response × Bool
    shown done =
        if (logged_line done).1
        then (error_page (bytes "Internal Server Error") 500 (logged_line done).0, false)
        else ((logged_line done).0, false)

pub close_gzip-Answers : (before : Bool) (w : Response) → Answers 200 w (close_gzip before w)
unfolding close_gzip
close_gzip-Answers before w = implicit_status-Answers w

-- What a panic becomes, by what was written before the recovery.
Recovered : ℕ → Response → Response × Bool → Type 0
Recovered status w out = (out.0.status ≡ status) × (out.0.log ≡ w.log) × (out.1 ≡ false)

error_page-Recovered :
    (status : ℕ) (w y : Response)
    → (if y.status == 0 then 500 else y.status) ≡ status
    → y.log ≡ w.log
    → Recovered status w
        (error_page (bytes "Internal Server Error") 500 (record y { flushes = w.flushes }), false)
unfolding Recovered
error_page-Recovered status w y e k =
    (let (s, l) =
        error_page-Answers (bytes "Internal Server Error") 500 (record y { flushes = w.flushes })
          (omega arith) in
      (s ∙ e, l ∙ k, refl))

-- A handler that panics before it writes is answered 500, and the request is not in the log; but where the
-- body goes through package gzip, the answer is 200. In either case no panic is left. Nothing was written
-- before, and the request is no preflight that CORS answers itself.
pub apply_middlewares-panic :
    (cfg : ServerConfig) (next : HttpHandler) (r : HttpRequest) (w : Response)
    → ((v : Response) → next r v ≡ (v, true))
    → is_preflight cfg.cors r ≡ false
    → w.status ≡ 0
    → ((apply_middlewares cfg next r w).0.status ≡ (if is_zipped cfg r then 200 else 500))
      × ((apply_middlewares cfg next r w).0.log ≡ w.log)
      × ((apply_middlewares cfg next r w).1 ≡ false)
unfolding apply_middlewares Recovered
apply_middlewares-panic cfg next r w panics plain fresh =
    (let (u, headed, called) = wrapped-Passes cfg next r (log_writer w) plain in
      let inner =
        cors_if_enabled cfg.cors (security_middleware cfg.security (compressed cfg next)) in
      let status : u.status ≡ 0 = ap (λ (x : Response). x.status) headed ∙ fresh in
      let log : u.log ≡ w.log = ap (λ (x : Response). x.log) headed in
      elim (Bool-cases (is_zipped cfg r)) [
        | inl e ↦
            (let y = record (close_gzip u.zips (zip_writer u)) { flushes = u.flushes } in
              let (s, l) = close_gzip-Answers u.zips (zip_writer u) in
              let ended : (if y.status == 0 then 500 else y.status)
                  ≡ (if is_zipped cfg r then 200 else 500) =
                ground (arith, s, status, e) in
              subst (Recovered (if is_zipped cfg r then 200 else 500) w)
                (sym (
                  recovery_middleware-logging_middleware inner r w y (
                    called
                    ∙ compressed_zipped cfg next r u e
                    ∙ ap (zip_end u) (panics (zip_writer u)))))
                (error_page-Recovered _ w y ended (l ∙ log)))
        | inr e ↦
            (let ended : (if u.status == 0 then 500 else u.status)
                  ≡ (if is_zipped cfg r then 200 else 500) =
                ground (arith, status, e) in
              subst (Recovered (if is_zipped cfg r then 200 else 500) w)
                (sym (
                  recovery_middleware-logging_middleware inner r w u
                    (called ∙ compressed_plain cfg next r u e ∙ panics u)))
                (error_page-Recovered _ w u ended log))
      ])
