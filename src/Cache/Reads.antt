-- ===== src/Cache/Reads.antt =====
-- lsengine/internal/cache/cache.go: what `Get` returns after the other operations.
use lsengine_js.Base.{
  ℕ, ◌%◌, ◌≤◌, ◌≡◌, ◌≢◌, refl, ◌⊎◌, inl, inr, Option, none, some, List, [], ◌∷◌, arith,
  if◌then◌else◌, length, get_elem?, Option-cases, Text, text_eq_iff, text_eq_refl, lookup,
  IsDistinct, lookup-insert, lookup-delete, ℤ, pos, leb_ℤ,
}
use lsengine_js.Cache.{
  Cache, CacheItem, stale, expiry, is_expired, evict_one, make_room, cache_set, get_read,
  get_finish, cache_get, live_items, cleanup_tick,
}

module _ {ℓ} {V : Type ℓ} where
  -- The value that a `Get` returns, from what the map holds.
  abbrev pub answer : ℕ → Option (CacheItem V) → Option V
  answer now none = none
  answer now (some item) = if is_expired now item.expiration then none else some item.value

  pub cache_get-answer :
      (now : ℕ) (key : Text) (c : Cache V)
      → (cache_get now key c).1 ≡ answer now (lookup key c.items)
  unfolding cache_get
  cache_get-answer now key c = ground arith

  pub get-set :
      (pick now later : ℕ) (key : Text) (v : V) (ttl : Option ℤ) (c : Cache V)
      → (cache_get later key (cache_set pick now key v ttl c)).1
        ≡ (if is_expired later (expiry now c.default_ttl ttl) then none else some v)
  unfolding cache_set
  get-set pick now later key v ttl c = rw (cache_get-answer, lookup-insert, text_eq_refl) refl

  -- The key that a `Set` evicts: the cache is full, whether the new key is in it or not.
  unfoldable pub victim : ℕ → Cache V → Option Text
  victim pick c =
      if leb_ℤ c.max_size (pos (length c.items))
      then elim (get_elem? c.items (pick % length c.items)) [ none ↦ none | some e ↦ some e.0 ]
      else none

  -- A `Set` leaves every other key as it was, but for the one that it evicts.
  pub lookup-set_ne :
      (pick now : ℕ) (key q : Text) (v : V) (ttl : Option ℤ) (c : Cache V)
      → key ≢ q
      → ((victim pick c ≢ some q)
          × (lookup q (cache_set pick now key v ttl c).items ≡ lookup q c.items))
        ⊎ ((victim pick c ≡ some q) × (lookup q (cache_set pick now key v ttl c).items ≡ none))
  unfolding cache_set victim
  lookup-set_ne pick now key q v ttl c ne =
      elim (Option-cases (get_elem? c.items (pick % length c.items))) [
        | inl e ↦
            rw (lookup-insert, e, make_room, evict_one, victim) (ground (arith, text_eq_iff key q))
        | inr (x, e) ↦
            rw (lookup-insert, e, make_room, evict_one, victim)
              (ground (arith, text_eq_iff key q, text_eq_iff x.0 q, lookup-delete x.0 q c.items))
      ]

  live-lookup :
      (now later : ℕ) (k : Text) (items : List (Text × CacheItem V))
      → now ≤ later
      → IsDistinct items
      → answer later (lookup k (live_items now items)) ≡ answer later (lookup k items)
  unfolding lookup live_items
  live-lookup now later k [] p d = refl
  live-lookup now later k ((j, item) ∷ items) p d =
      ground (arith, text_eq_iff j k, live-lookup now later k items p d.1)

  -- The periodic clean-up changes no answer: what it removes had expired.
  pub get-cleanup :
      (now later : ℕ) (key : Text) (c : Cache V)
      → now ≤ later
      → IsDistinct c.items
      → (cache_get later key (cleanup_tick now c)).1 ≡ (cache_get later key c).1
  unfolding cleanup_tick
  get-cleanup now later key c p d = ground (
    arith,
    cache_get-answer later key (cleanup_tick now c),
    cache_get-answer later key c,
    live-lookup now later key c.items p d,
  )

  -- A `Get` that found an expired entry deletes by key: when another goroutine sets the key between its
  -- two steps, the fresh value is deleted.
  pub get-set_race :
      (pick now later : ℕ) (key : Text) (v : V) (ttl : Option ℤ) (c : Cache V)
      → get_read now key c ≡ stale
      → (t : ℕ)
      → (cache_get t key
          (get_finish key (get_read now key c) (cache_set pick later key v ttl c)).0).1
        ≡ none
  unfolding get_finish
  get-set_race pick now later key v ttl c s t =
      rw (s, get_finish, cache_get-answer, lookup-delete, text_eq_refl) refl
