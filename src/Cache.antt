-- ===== src/Cache.antt =====
-- lsengine/internal/cache/cache.go: the local cache. Times are nanoseconds, and each operation takes
-- the time that it reads from the clock. The iteration of `range` over the map starts anywhere, so an
-- operation that evicts takes the position of the entry that the iteration meets first.
pub mod Manager
pub mod Bounds
pub mod Reads
mod Tests
use lsengine_js.Base.{
  ℕ, ◌%◌, Bool, true, false, Option, none, some, List, [], ◌∷◌, if◌then◌else◌, length, get_elem?,
  Text, lookup, insert, delete, ℤ, pos, ◌+ℤ◌, ltb_ℤ, leb_ℤ,
}

pub record CacheItem {ℓ} (V : Type ℓ) : Type ℓ where
  pub value : V
  pub expiration : ℤ

pub record Cache {ℓ} (V : Type ℓ) : Type ℓ where
  pub items : List (Text × CacheItem V)
  pub max_size : ℤ
  pub default_ttl : ℤ
  pub stopped : Bool

-- `time.Now().Add(ttl).UnixNano()`, with the optional argument of `Set`. The result of UnixNano is defined for
-- times that an int64 holds, before the year 2262; the times here are taken to be such.
abbrev pub expiry : ℕ → ℤ → Option ℤ → ℤ
expiry now default_ttl none = pos now +ℤ default_ttl
expiry now default_ttl (some ttl) = pos now +ℤ ttl

-- `time.Now().UnixNano() > expiration`
abbrev pub is_expired : ℕ → ℤ → Bool
is_expired now expiration = ltb_ℤ expiration (pos now)

-- `Get` reads under the read lock, and deletes an expired entry under the write lock: two steps, and
-- another goroutine may run between them. This is what the first one finds.
pub data Read {ℓ} (V : Type ℓ) : Type ℓ where
  absent : Read V
  stale : Read V
  fresh : V → Read V

module _ {ℓ} {V : Type ℓ} where
  unfoldable pub new_cache : ℤ → ℤ → Cache V
  new_cache max_size default_ttl = record {
    items = [];
    max_size = max_size;
    default_ttl = default_ttl;
    stopped = false;
  }

  -- `for k := range c.items { delete(c.items, k); break }`
  unfoldable pub evict_one : ℕ → List (Text × CacheItem V) → List (Text × CacheItem V)
  evict_one pick items = elim (get_elem? items (pick % length items)) [
    | none ↦ items
    | some e ↦ delete e.0 items
  ]

  -- the items after the check of `Set` that the cache is full
  unfoldable pub make_room : ℕ → Cache V → List (Text × CacheItem V)
  unfolding evict_one
  make_room pick c =
      if leb_ℤ c.max_size (pos (length c.items)) then evict_one pick c.items else c.items

  unfoldable pub cache_set : ℕ → ℕ → Text → V → Option ℤ → Cache V → Cache V
  unfolding make_room
  cache_set pick now key value ttl c = record c {
    items =
        insert key (record { value = value; expiration = expiry now c.default_ttl ttl })
          (make_room pick c);
  }

  unfoldable pub get_read : ℕ → Text → Cache V → Read V
  get_read now key c = elim (lookup key c.items) [
    | none ↦ absent
    | some item ↦ if is_expired now item.expiration then stale else fresh item.value
  ]

  unfoldable pub cache_del : Text → Cache V → Cache V
  cache_del key c = record c { items = delete key c.items }

  unfoldable pub get_finish : Text → Read V → Cache V → Cache V × Option V
  unfolding cache_del
  get_finish key absent c = (c, none)
  get_finish key stale c = (cache_del key c, none)
  get_finish key (fresh v) c = (c, some v)

  unfoldable pub cache_get : ℕ → Text → Cache V → Cache V × Option V
  unfolding get_read get_finish
  cache_get now key c = get_finish key (get_read now key c) c

  unfoldable pub cache_clear : Cache V → Cache V
  cache_clear c = record c { items = [] }

  unfoldable pub cache_size : Cache V → ℕ
  cache_size c = length c.items

  -- the loop of `cleanup` over the map
  unfoldable pub live_items : ℕ → List (Text × CacheItem V) → List (Text × CacheItem V)
  live_items now [] = []
  live_items now ((k, item) ∷ items) =
      if is_expired now item.expiration
      then live_items now items
      else (k, item) ∷ live_items now items

  -- one tick of `cleanup`, which has returned once the cache is closed
  unfoldable pub cleanup_tick : ℕ → Cache V → Cache V
  unfolding live_items
  cleanup_tick now c = if c.stopped then c else record c { items = live_items now c.items }

  -- `Close`; a second call closes a closed channel and panics, which is `none`.
  unfoldable pub cache_close : Cache V → Option (Cache V)
  cache_close c = if c.stopped then none else some (record c { stopped = true })

-- The calls that change a cache, each with the time that it reads.
pub data Call {ℓ} (V : Type ℓ) : Type ℓ where
  set : ℕ → ℕ → Text → V → Option ℤ → Call V
  get : ℕ → Text → Call V
  del : Text → Call V
  clear : Call V
  cleanup : ℕ → Call V

unfoldable pub step {ℓ} : {V : Type ℓ} → Call V → Cache V → Cache V
unfolding cache_set cache_get cache_del cache_clear cleanup_tick
step (set pick now key value ttl) c = cache_set pick now key value ttl c
step (get now key) c = (cache_get now key c).0
step (del key) c = cache_del key c
step clear c = cache_clear c
step (cleanup now) c = cleanup_tick now c

unfoldable pub run {ℓ} : {V : Type ℓ} → List (Call V) → Cache V → Cache V
unfolding step
run [] c = c
run (call ∷ calls) c = run calls (step call c)
