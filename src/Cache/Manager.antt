-- ===== src/Cache/Manager.antt =====
-- lsengine/internal/cache/cache.go: `CacheManager`, the local cache behind an optional Redis server.
-- The Redis client and encoding/json are parameters; a failed Redis call is `none`.
use lsengine_js.Base.{
  ℕ, ◌≡◌, ◌≢◌, Option-cases, refl, ◌⊎◌, inl, inr, Bool, true, false, Option, none, some, [], ◌∷◌,
  arith, if◌then◌else◌, Text, ℤ,
}
use lsengine_js.Cache.{
  Cache, expiry, is_expired, new_cache, cache_set, cache_get, cache_del, cache_clear, cache_close,
}
use lsengine_js.Cache.Reads.{get-set}

-- What the manager calls of go-redis, over the server's contents, and of encoding/json. The times of
-- the calls are arguments, since entries expire on the server.
pub record Backend (V : Type 0) : Type 1 where
  pub Server : Type 0
  pub fetch : ℕ → Server → Text → Option Text
  pub store : ℕ → Server → Text → Text → ℤ → Option Server
  pub remove : Server → Text → Server
  pub flush : Server → Server
  pub marshal : V → Text
  pub unmarshal : Text → V

-- What the manager relies on: after a SET that succeeded, a GET of the key gives the text that was set, or,
-- where it fails or the entry has expired, nothing.
pub record IsLawful {V : Type 0} (b : Backend V) : Type 0 where
  pub fetch-store :
      (now later : ℕ) (server after : b.Server) (key val : Text) (ttl : ℤ)
      → b.store now server key val ttl ≡ some after
      → (b.fetch later after key ≡ some val) ⊎ (b.fetch later after key ≡ none)

pub record CacheConfig : Type 0 where
  pub size : ℤ
  pub ttl : ℤ
  pub distributed : Bool
  pub redis_url : Text

pub record CacheManager {V : Type 0} (b : Backend V) : Type 0 where
  pub local : Cache V
  pub redis : Option b.Server
  pub config : CacheConfig

-- `cm.Config.Distributed && cm.Redis != nil`
abbrev pub remote : {V : Type 0} {b : Backend V} → CacheManager b → Option b.Server
remote m = if m.config.distributed then m.redis else none

-- `expiration := cm.Config.TTL`, or the optional argument of `Set`
abbrev pub lifetime : ℤ → Option ℤ → ℤ
lifetime ttl none = ttl
lifetime ttl (some given) = given

-- The server after a call whose error is ignored.
abbrev pub after_call : {S : Type 0} → S → Option S → S
after_call server none = server
after_call server (some after) = after

abbrev is_empty : Text → Bool
is_empty [] = true
is_empty (c ∷ s) = false

-- `cm.Local.Get(key)`
abbrev pub get_local :
    {V : Type 0} {b : Backend V} → ℕ → Text → CacheManager b → CacheManager b × Option V
get_local now key m =
    (record m { local = (cache_get now key m.local).0 }, (cache_get now key m.local).1)

module _ {V : Type 0} (b : Backend V) where
  -- The server that `redis.ParseURL` and `NewClient` give for the URL, if any.
  unfoldable pub new_cache_manager : CacheConfig → (Text → Option b.Server) → CacheManager b
  unfolding new_cache
  new_cache_manager cfg dial = record {
    local = new_cache cfg.size cfg.ttl;
    redis =
        if cfg.distributed
        then (if is_empty cfg.redis_url then none else dial cfg.redis_url)
        else none;
    config = cfg;
  }

  unfoldable pub manager_get : ℕ → ℕ → Text → CacheManager b → CacheManager b × Option V
  manager_get pick now key m = elim (remote m) [
    | none ↦ get_local now key m
    | some server ↦ elim (b.fetch now server key) [
      | none ↦ get_local now key m
      | some val ↦ (
        record m { local = cache_set pick now key (b.unmarshal val) none m.local },
        some (b.unmarshal val),
      )
    ]
  ]

  unfoldable pub manager_set : ℕ → ℕ → Text → V → Option ℤ → CacheManager b → CacheManager b
  manager_set pick now key value ttl m = record m {
    local = cache_set pick now key value ttl m.local;
    redis = elim (remote m) [
      | none ↦ m.redis
      | some server ↦
          some (
            after_call server
              (b.store now server key (b.marshal value) (lifetime m.config.ttl ttl)))
    ];
  }

  unfoldable pub manager_del : Text → CacheManager b → CacheManager b
  manager_del key m = record m {
    local = cache_del key m.local;
    redis = elim (remote m) [ none ↦ m.redis | some server ↦ some (b.remove server key) ];
  }

  unfoldable pub manager_clear : CacheManager b → CacheManager b
  manager_clear m = record m {
    local = cache_clear m.local;
    redis = elim (remote m) [ none ↦ m.redis | some server ↦ some (b.flush server) ];
  }

  -- `Close`: the local cache, then the client; `none` is the panic of a second call.
  unfoldable pub manager_close : CacheManager b → Option (CacheManager b)
  manager_close m = elim (cache_close m.local) [
    | none ↦ none
    | some c ↦ some (record m { local = c; redis = none })
  ]

  -- What Redis answers to the manager's read, if it is asked and does not fail.
  abbrev pub remote_read : ℕ → Text → CacheManager b → Option Text
  remote_read now key m = elim (remote m) [ none ↦ none | some server ↦ b.fetch now server key ]

  manager_get-remote_read :
      (pick now : ℕ) (key : Text) (m : CacheManager b)
      → (manager_get pick now key m).1 ≡ (elim (remote_read now key m) [
        | none ↦ (cache_get now key m.local).1
        | some val ↦ some (b.unmarshal val)
      ])
  unfolding manager_get
  manager_get-remote_read pick now key m = ground arith

  local_set :
      (pick now later : ℕ) (key : Text) (v : V) (ttl : Option ℤ) (m : CacheManager b)
      → (cache_get later key (manager_set pick now key v ttl m).local).1
        ≡ (if is_expired later (expiry now m.local.default_ttl ttl) then none else some v)
  unfolding manager_set
  local_set pick now later key v ttl m = get-set pick now later key v ttl m.local

  -- The server after a value was set, where the write does not fail.
  remote-manager_set :
      (pick now : ℕ) (key : Text) (v : V) (ttl : Option ℤ) (m : CacheManager b)
      (server after : b.Server)
      → remote m ≡ some server
      → b.store now server key (b.marshal v) (lifetime m.config.ttl ttl) ≡ some after
      → remote (manager_set pick now key v ttl m) ≡ some after
  unfolding manager_set
  remote-manager_set pick now key v ttl m server after h k = ground (arith, h, k)

  remote-manager_set-none :
      (pick now : ℕ) (key : Text) (v : V) (ttl : Option ℤ) (m : CacheManager b)
      → remote m ≡ none
      → remote (manager_set pick now key v ttl m) ≡ none
  unfolding manager_set
  remote-manager_set-none pick now key v ttl m h = ground (arith, h)

  -- What Redis answers after a value was set is that value's text, or nothing.
  remote_read-manager_set :
      IsLawful b
      → (pick now later : ℕ) (key : Text) (v : V) (ttl : Option ℤ) (m : CacheManager b)
      → ((server : b.Server)
          → remote m ≡ some server
          → b.store now server key (b.marshal v) (lifetime m.config.ttl ttl) ≢ none)
      → (remote_read later key (manager_set pick now key v ttl m) ≡ some (b.marshal v))
        ⊎ (remote_read later key (manager_set pick now key v ttl m) ≡ none)
  remote_read-manager_set law pick now later key v ttl m works = elim (Option-cases (remote m)) [
    | inl h ↦ inr (rw (remote_read, remote-manager_set-none pick now key v ttl m h) refl)
    | inr (server, h) ↦
        elim (Option-cases (b.store now server key (b.marshal v) (lifetime m.config.ttl ttl))) [
          | inl k ↦ absurd (works server h k)
          | inr (after, k) ↦
              rw (remote_read, remote-manager_set pick now key v ttl m server after h k)
                (law.fetch-store now later server after key (b.marshal v)
                  (lifetime m.config.ttl ttl) k)
        ]
  ]

  -- A value that was set is read back: from Redis if it is asked and answers, and else from the local cache,
  -- until the local entry expires. The value is one that its JSON text gives back, the write to Redis, if there
  -- is one, did not fail, and Redis answers with the text that was written, or not at all.
  pub manager_get-set :
      IsLawful b
      → (pick pick' now later : ℕ) (key : Text) (v : V) (ttl : Option ℤ) (m : CacheManager b)
      → b.unmarshal (b.marshal v) ≡ v
      → ((server : b.Server)
          → remote m ≡ some server
          → b.store now server key (b.marshal v) (lifetime m.config.ttl ttl) ≢ none)
      → ((remote_read later key (manager_set pick now key v ttl m) ≡ some (b.marshal v))
          × ((manager_get pick' later key (manager_set pick now key v ttl m)).1 ≡ some v))
        ⊎ ((remote_read later key (manager_set pick now key v ttl m) ≡ none)
            × ((manager_get pick' later key (manager_set pick now key v ttl m)).1
                ≡ (if is_expired later (expiry now m.local.default_ttl ttl) then none else some v)))
  manager_get-set law pick pick' now later key v ttl m json works =
      elim (remote_read-manager_set law pick now later key v ttl m works) [
        | inl answered ↦ inl (answered, rw (manager_get-remote_read, answered, json) refl)
        | inr silent ↦
            inr
              (silent, rw (manager_get-remote_read, silent) (local_set pick now later key v ttl m))
      ]
