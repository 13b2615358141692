-- ===== src/Server/Streams.antt =====
-- lsengine/internal/server/server.go, `streamHandler` behind the middlewares.
use lsengine_js.Base.{
  ℕ, ◌≡◌, refl, ◌∙◌, ap, inl, inr, Bool, true, false, List, [], ◌∷◌, ◌++◌, arith, if◌then◌else◌,
  Bool-cases, Text, bytes, if_false,
}
use lsengine_js.Server.{
  HttpRequest, Response, HttpHandler, error_page, logging_middleware, recovery_middleware,
  security_middleware, close_gzip, cors_if_enabled, apply_middlewares,
}
use lsengine_js.Server.Handlers.{
  Services, HttpServer, stream_headers, stream_handler, register_routes, start,
}
use lsengine_js.Server.Panics.{
  is_preflight, is_zipped, compressed, compressed_zipped, compressed_plain, zip_writer, zip_end,
  log_writer, wrapped-Passes, error_page-Answers, close_gzip-Answers,
}

-- The recovery and the logging around a handler that does not panic.
answered :
    (h : HttpHandler) (r : HttpRequest) (w y : Response)
    → h r (log_writer w) ≡ (y, false)
    → recovery_middleware (logging_middleware h) r w ≡ (
      record y { flushes = w.flushes; log = y.log ++ ((r.method, r.path, y.logged) ∷ []) },
      false,
    )
unfolding recovery_middleware logging_middleware
answered h r w y e = ap (λ (done : Response × Bool). shown done) e
  where
    logged_line : Response × Bool → Response × Bool
    logged_line done = if done.1 then (record done.0 { flushes = w.flushes }, true) else (
      record done.0 {
        flushes = w.flushes;
        log = done.0.log ++ ((r.method, r.path, done.0.logged) ∷ []);
      },
      false,
    )

    shown : Response × Bool → Response × Bool
    shown done =
        if (logged_line done).1
        then (error_page (bytes "Internal Server Error") 500 (logged_line done).0, false)
        else ((logged_line done).0, false)

abbrev not_streaming : Response → Response
not_streaming w = error_page (bytes "Streaming not supported") 500 (stream_headers w)

stream_refused :
    (ticks : List ℕ) (r : HttpRequest) (w : Response)
    → w.flushes ≡ false
    → stream_handler ticks r w ≡ (not_streaming w, false)
unfolding stream_handler
stream_refused ticks r w h = if_false _ _ _ h

-- The stream is never sent: the server answers every request for it with 500, whatever the settings are,
-- since the writer of the logging cannot flush. `ServeMux` passes the request on to the handler of the stream;
-- nothing was written before, and the request is no preflight that CORS answers itself.
pub start-stream :
    (mux : List (Text × HttpHandler) → HttpHandler) (sv : Services) (s : HttpServer)
    (ticks : List ℕ) (r : HttpRequest) (w : Response)
    → ((v : Response) → mux (register_routes sv s ticks) r v ≡ stream_handler ticks r v)
    → is_preflight s.config.cors r ≡ false
    → w.status ≡ 0
    → (start mux sv s ticks r w).0.status ≡ 500
unfolding start apply_middlewares
start-stream mux sv s ticks r w passes plain fresh =
    (let next = mux (register_routes sv s ticks) in
      let cfg = s.config in
      let (u, headed, called) = wrapped-Passes cfg next r (log_writer w) plain in
      let inner =
        cors_if_enabled cfg.cors (security_middleware cfg.security (compressed cfg next)) in
      let status : u.status ≡ 0 = ap (λ (x : Response). x.status) headed ∙ fresh in
      let shut : u.flushes ≡ false = ap (λ (x : Response). x.flushes) headed in
      elim (Bool-cases (is_zipped cfg r)) [
        | inl e ↦
            (let z = zip_writer u in
              let (m, l) =
                error_page-Answers (bytes "Streaming not supported") 500 (stream_headers z)
                  (omega arith) in
              let (n, k) = close_gzip-Answers u.zips (not_streaming z) in
              let ended : (close_gzip u.zips (not_streaming z)).status ≡ 500 =
                ground (arith, m, n, status) in
              ap (λ (out : Response × Bool). out.0.status)
                (answered inner r w _ (
                  called
                  ∙ compressed_zipped cfg next r u e
                  ∙ ap (zip_end u) (passes z ∙ stream_refused ticks r z refl)))
              ∙ ended)
        | inr e ↦
            (let (m, l) =
                error_page-Answers (bytes "Streaming not supported") 500 (stream_headers u)
                  (omega arith) in
              ap (λ (out : Response × Bool). out.0.status)
                (answered inner r w (not_streaming u) (
                  called
                  ∙ compressed_plain cfg next r u e
                  ∙ passes u
                  ∙ stream_refused ticks r u shut))
              ∙ ground (arith, m, status))
      ])
