-- ===== src/Middleware/Chain.antt =====
-- lsengine/internal/plugins/plugins.go: what the chain and the filters do to a request.
use lsengine_js.Base.{
  NotByte, length-append_end, ℕ, zero, suc, ◌<◌, ◌≡◌, ◌≢◌, refl, ◌⊎◌, inl, inr, Bool, true, false,
  ◌||◌, none, some, List, [], ◌∷◌, ◌++◌, arith, ◌==◌, length, All-append, Text, bytes, text_eq,
  text_eq_iff, text_eq_refl, get_elem?-append_left, get_elem?-append_end, lookup, lookup-insert, ℤ,
  ltb_ℤ, Bool-cases,
}
use lsengine_js.Middleware.{
  Request, Written, Handler, Middleware, CorsConfig, allow_origin, cors_middleware, replace_byte,
  sanitize, validation_middleware, then_loop, chain_then, chain_use,
}

then_loop-append :
    (n : ℕ) (ms : List Middleware) (m : Middleware) (h : Handler)
    → (n ≡ length ms) ⊎ (n < length ms)
    → then_loop n (ms ++ (m ∷ [])) h ≡ then_loop n ms h
unfolding then_loop
then_loop-append zero ms m h p = refl
then_loop-append (suc n) ms m h p =
    rw (get_elem?-append_left ms (m ∷ []) n (ground arith))
      (then_loop-append n ms m _ (inr (ground arith)))

-- The middleware that is used last is the innermost: it meets the request just before the handler.
pub chain_then-use :
    (ms : List Middleware) (m : Middleware) (h : Handler)
    → chain_then (chain_use ms m) h ≡ chain_then ms (m h)
unfolding chain_then chain_use then_loop
chain_then-use ms m h =
    rw (length-append_end ms m, then_loop, get_elem?-append_end ms m)
      (then_loop-append (length ms) ms m (m h) (inl refl))

allow_origin-status :
    (origin : Text) (origins : List Text) (w : Written)
    → ((allow_origin origin origins w).status ≡ w.status)
      × ((allow_origin origin origins w).reached ≡ w.reached)
unfolding allow_origin
allow_origin-status origin [] w = (refl, refl)
allow_origin-status origin (o ∷ origins) w = ground (arith, allow_origin-status origin origins w)

-- A preflight request to an enabled configuration is answered with status 200 and its headers, whatever
-- the handler is: it is not reached.
pub cors_preflight :
    (cors : CorsConfig) (next : Handler) (r : Request) (w : Written)
    → cors.enabled ≡ true
    → r.method ≡ bytes "OPTIONS"
    → w.status ≡ 0
    → ((cors_middleware (some cors) next r w).status ≡ 200)
      × ((cors_middleware (some cors) next r w).reached ≡ w.reached)
unfolding cors_middleware
cors_preflight cors next r w on m s = ground (
  arith,
  text_eq_iff r.method (bytes "OPTIONS"),
  allow_origin-status r.origin cors.allowed_origins w,
)

-- `origins` holds `s`.
abbrev pub lists : List Text → Text → Bool
lists [] s = false
lists (o ∷ origins) s = text_eq o s || lists origins s

-- The header that allows an origin, where it was not set before: it is not set, or it names the origin of
-- the request, and the configuration lists that origin or a star.
pub lookup-allow_origin :
    (origin : Text) (origins : List Text) (w : Written)
    → lookup (bytes "Access-Control-Allow-Origin") w.headers ≡ none
    → (lookup (bytes "Access-Control-Allow-Origin") (allow_origin origin origins w).headers ≡ none)
      ⊎ ((lookup (bytes "Access-Control-Allow-Origin") (allow_origin origin origins w).headers
            ≡ some origin)
          × (lists origins (bytes "*") || lists origins origin ≡ true))
unfolding allow_origin
lookup-allow_origin origin [] w h = inl h
lookup-allow_origin origin (o ∷ origins) w h = ground (
  arith,
  lookup-allow_origin origin origins w,
  lookup-insert (bytes "Access-Control-Allow-Origin") (bytes "Access-Control-Allow-Origin") origin
      w.headers,
  text_eq_refl (bytes "Access-Control-Allow-Origin"),
)

replace_byte-NotByte : (c : ℕ) (text s : Text) → NotByte c text → NotByte c (replace_byte c text s)
unfolding replace_byte
replace_byte-NotByte c text [] h = tt
replace_byte-NotByte c text (x ∷ s) h = elim (Bool-cases (x == c)) [
  | inl e ↦
      rw e
        (All-append (λ y. y ≢ c) text (replace_byte c text s) h (replace_byte-NotByte c text s h))
  | inr e ↦ rw e (ground arith, replace_byte-NotByte c text s h)
]

replace_byte-keeps :
    (c d : ℕ) (text s : Text) → NotByte d text → NotByte d s → NotByte d (replace_byte c text s)
unfolding replace_byte
replace_byte-keeps c d text [] h k = tt
replace_byte-keeps c d text (x ∷ s) h k = elim (Bool-cases (x == c)) [
  | inl e ↦
      rw e (
        All-append (λ y. y ≢ d) text (replace_byte c text s) h
          (replace_byte-keeps c d text s h k.1))
  | inr e ↦ rw e (k.0, replace_byte-keeps c d text s h k.1)
]

sanitize-NotByte : (q : Text) → NotByte b'<' (sanitize q) × NotByte b'>' (sanitize q)
unfolding sanitize
sanitize-NotByte q = (
  replace_byte-keeps b'>' b'<' (bytes "&gt;") _ (omega arith)
      (replace_byte-NotByte b'<' (bytes "&lt;") q (omega arith)),
  replace_byte-NotByte b'>' (bytes "&gt;") (replace_byte b'<' (bytes "&lt;") q) (omega arith),
)

-- A request that declares more than the limit is answered with status 413 and reaches no handler; any
-- other one is passed on as it is, but for its query, from which every angle bracket is gone. This is
-- with sanitising on and no header written yet.
pub validated :
    (limit : ℤ) (next : Handler) (r : Request) (w : Written)
    → w.status ≡ 0
    → ((ltb_ℤ limit r.content_length ≡ true)
        × ((validation_middleware limit true next r w).status ≡ 413)
        × ((validation_middleware limit true next r w).reached ≡ w.reached))
      ⊎ ((ltb_ℤ limit r.content_length ≡ false)
          × (q : Text) × (validation_middleware limit true next r w
              ≡ next (record r { raw_query = q }) w)
          × NotByte b'<' q
          × NotByte b'>' q)
unfolding validation_middleware
validated limit next r w s = elim (Bool-cases (ltb_ℤ limit r.content_length)) [
  | inl e ↦ inl (ground arith)
  | inr e ↦
      (let clean = sanitize-NotByte r.raw_query in
        inr (rw e (refl, sanitize r.raw_query, refl, clean.0, clean.1)))
]
