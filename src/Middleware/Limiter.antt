-- ===== src/Middleware/Limiter.antt =====
-- lsengine/internal/plugins/plugins.go: `RateLimitMiddleware`, and `LoggingMiddleware` with the metrics that it
-- counts. The limiter of golang.org/x/time/rate is an argument.
use mathlib.Core.Option.{some-injective}
use lsengine_js.Base.{
  ℕ, zero, suc, ◌*◌, ◌%◌, ◌≡◌, ◌≢◌, refl, sym, ◌∙◌, ap, inl, inr, Bool, true, Option, none, some,
  List, [], ◌∷◌, arith, if◌then◌else◌, ◌==◌, Bool-cases, Option-cases, get_elem?, Text, bytes,
  text_eq, text_eq_iff, text_eq_refl, lookup, insert, lookup-insert, if_true, if_false,
}
use lsengine_js.Hash.{fnv_hash_ip}
use lsengine_js.Middleware.{Request, Written, Handler, http_error}

-- `rate.NewLimiter(r, burst)`, and `Allow` at a time, which changes the limiter.
pub record Limiters : Type 1 where
  pub Limiter : Type 0
  pub new_limiter : ℕ → ℕ → Limiter
  pub allow : ℕ → Limiter → Bool × Limiter

-- What stands before the last colon, if there is one.
unfoldable pub before_last_colon : Text → Option Text
before_last_colon [] = none
before_last_colon (c ∷ s) = elim (before_last_colon s) [
  | some t ↦ some (c ∷ t)
  | none ↦ if c == b':' then some [] else none
]

unfoldable pub client_ip : Text → Text
unfolding before_last_colon
client_ip remote_addr = elim (before_last_colon remote_addr) [ some t ↦ t | none ↦ remote_addr ]

abbrev pub set_at {ℓ} : {A : Type ℓ} → List A → ℕ → A → List A
set_at [] i s = []
set_at (x ∷ xs) zero s = s ∷ xs
set_at (x ∷ xs) (suc i) s = x ∷ set_at xs i s

module _ (l : Limiters) where
  abbrev pub Shards : Type 0
  Shards = List (List (Text × l.Limiter))

  abbrev pub no_limiters : ℕ → Shards
  no_limiters zero = []
  no_limiters (suc n) = [] ∷ no_limiters n

  -- the shards of `RateLimitMiddleware`
  abbrev pub new_shards : Shards
  new_shards = no_limiters 256

  abbrev pub limiter_or_new : ℕ → Option l.Limiter → l.Limiter
  limiter_or_new rate_limit none = l.new_limiter rate_limit (rate_limit * 2)
  limiter_or_new rate_limit (some x) = x

  -- Whether the limiter of the address allows a request, and the shards then; `none` is an index that is out of
  -- range.
  unfoldable pub allow_ip : ℕ → ℕ → Text → Shards → Option (Bool × Shards)
  unfolding fnv_hash_ip
  allow_ip rate_limit now ip shards = elim (get_elem? shards (fnv_hash_ip ip % 256)) [
    | none ↦ none
    | some shard ↦
        (let (allowed, used) = l.allow now (limiter_or_new rate_limit (lookup ip shard)) in
          some (allowed, set_at shards (fnv_hash_ip ip % 256) (insert ip used shard)))
  ]

  unfoldable pub rate_limit_middleware :
      ℕ → ℕ → Text → Handler → Request → Written → Shards → Option (Written × Shards)
  unfolding allow_ip client_ip
  rate_limit_middleware rate_limit now remote_addr next r w shards =
      elim (allow_ip rate_limit now (client_ip remote_addr) shards) [
        | none ↦ none
        | some (allowed, after) ↦
            some
              (if allowed then next r w else http_error (bytes "Rate limit exceeded") 429 w, after)
      ]

  -- The limiter of an address, among all shards.
  abbrev pub limiter_of : Text → Shards → Option l.Limiter
  limiter_of ip shards = elim (get_elem? shards (fnv_hash_ip ip % 256)) [
    | none ↦ none
    | some shard ↦ lookup ip shard
  ]

equal_itself : (n : ℕ) → (n == n) ≡ true
equal_itself n = ground arith

equal_lem : (m n : ℕ) → (m == n) ≡ true → m ≡ n
equal_lem m n h = ground arith

get_elem?-set_at {ℓ} :
    {A : Type ℓ} (xs : List A) (i j : ℕ) (old new : A)
    → get_elem? xs i ≡ some old
    → get_elem? (set_at xs i new) j ≡ (if i == j then some new else get_elem? xs j)
get_elem?-set_at [] i j old new h = absurd (ground (arith, h))
get_elem?-set_at (x ∷ xs) zero zero old new h = refl
get_elem?-set_at (x ∷ xs) zero (suc j) old new h = ground arith
get_elem?-set_at (x ∷ xs) (suc i) zero old new h = ground arith
get_elem?-set_at (x ∷ xs) (suc i) (suc j) old new h =
    get_elem?-set_at xs i j old new h ∙ ground arith

module _ (l : Limiters) (rate_limit now : ℕ) (ip : Text) (shards : Shards l)
    (shard : List (Text × l.Limiter))
    (at : get_elem? shards (fnv_hash_ip ip % 256) ≡ some shard) where
  used : Bool × l.Limiter
  used = l.allow now (limiter_or_new l rate_limit (lookup ip shard))

  written_back : Shards l
  written_back = set_at shards (fnv_hash_ip ip % 256) (insert ip used.1 shard)

  allow_ip-found : allow_ip l rate_limit now ip shards ≡ some (used.0, written_back)
  unfolding allow_ip used written_back
  allow_ip-found = rw (allow_ip, at) refl

  shard_lem : limiter_of l ip shards ≡ lookup ip shard
  shard_lem = rw (limiter_of, at) refl

  limiter_of-same : limiter_of l ip written_back ≡ some used.1
  unfolding written_back
  limiter_of-same =
      rw
        (
          limiter_of,
          get_elem?-set_at shards (fnv_hash_ip ip % 256) (fnv_hash_ip ip % 256) shard
              (insert ip used.1 shard) at,
          equal_itself (fnv_hash_ip ip % 256),
        )
        (lookup-insert ip ip used.1 shard ∙ if_true _ _ _ (text_eq_refl ip))

  limiter_of-other :
      (other : Text) → other ≢ ip → limiter_of l other written_back ≡ limiter_of l other shards
  unfolding written_back
  limiter_of-other other ne = elim (Bool-cases (fnv_hash_ip ip % 256 == fnv_hash_ip other % 256)) [
    | inl k ↦
        (let place : get_elem? shards (fnv_hash_ip other % 256) ≡ some shard =
            ap (get_elem? shards) (sym (equal_lem _ _ k)) ∙ at in
          rw
            (
              limiter_of,
              get_elem?-set_at shards (fnv_hash_ip ip % 256) (fnv_hash_ip other % 256) shard
                  (insert ip used.1 shard) at,
              k,
              place,
            )
            (lookup-insert ip other used.1 shard
              ∙ if_false (text_eq ip other) _ _ (ground (arith, text_eq_iff ip other, ne))))
    | inr k ↦
        rw
          (
            limiter_of,
            get_elem?-set_at shards (fnv_hash_ip ip % 256) (fnv_hash_ip other % 256) shard
                (insert ip used.1 shard) at,
            k,
          )
          refl
  ]

-- The shards are one map from addresses to limiters: a request asks the limiter of its address alone, which is a
-- new one at the first request, and keeps what that limiter has become; the limiter of every other address is as
-- it was, also in the same shard.
pub allow_ip-limiter_of :
    (l : Limiters) (rate_limit now : ℕ) (ip : Text) (shards after : Shards l) (allowed : Bool)
    → allow_ip l rate_limit now ip shards ≡ some (allowed, after)
    → (allowed ≡ (l.allow now (limiter_or_new l rate_limit (limiter_of l ip shards))).0)
      × (limiter_of l ip after
          ≡ some (l.allow now (limiter_or_new l rate_limit (limiter_of l ip shards))).1)
      × ((other : Text) → other ≢ ip → limiter_of l other after ≡ limiter_of l other shards)
unfolding allow_ip used
allow_ip-limiter_of l rate_limit now ip shards after allowed h =
    elim (Option-cases (get_elem? shards (fnv_hash_ip ip % 256))) [
      | inl e ↦ absurd (ground (arith, e, h))
      | inr (shard, e) ↦
          (let same =
              some-injective _ _ (sym (allow_ip-found l rate_limit now ip shards shard e) ∙ h) in
            let found =
              ap (λ o. l.allow now (limiter_or_new l rate_limit o))
                (sym (shard_lem l rate_limit now ip shards shard e)) in
            (
              ap (λ (r : Bool × Shards l). r.0) (sym same)
                  ∙ ap (λ (u : Bool × l.Limiter). u.0) found,
              ap (λ (r : Bool × Shards l). limiter_of l ip r.1) (sym same)
                  ∙ limiter_of-same l rate_limit now ip shards shard e
                  ∙ ap (λ (u : Bool × l.Limiter). some u.1) found,
              (λ other ne.
                  ap (λ (r : Bool × Shards l). limiter_of l other r.1) (sym same)
                  ∙ limiter_of-other l rate_limit now ip shards shard e other ne),
            ))
    ]
