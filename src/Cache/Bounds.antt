-- ===== src/Cache/Bounds.antt =====
-- lsengine/internal/cache/cache.go: the cache keeps its bound and its keys distinct.
use lsengine_js.Base.{
  ℕ, zero, suc, ◌%◌, ◌≤◌, ◌<◌, ◌≡◌, refl, inl, inr, none, some, List, [], ◌∷◌, arith, length,
  get_elem?, get_elem?_beyond, Bool-cases, Option-cases, Text, text_eq_refl, lookup, delete,
  IsDistinct, insert-IsDistinct, delete-IsDistinct, length-insert, length-delete-le, pos,
}
use lsengine_js.Cache.{
  Cache, CacheItem, expiry, evict_one, make_room, cache_set, get_read, get_finish, live_items, Read,
  absent, stale, fresh, Call, set, get, del, clear, cleanup, step, run,
}

module _ {ℓ} {V : Type ℓ} where
  -- At most `n` entries, where `n` is the configured size, and no key twice.
  pub record IsBounded (n : ℕ) (c : Cache V) : Type ℓ where
    pub bound : c.max_size ≡ pos n
    pub within : length c.items ≤ n
    pub distinct : IsDistinct c.items

  lookup-live_items_absent :
      (now : ℕ) (k : Text) (items : List (Text × CacheItem V))
      → lookup k items ≡ none
      → lookup k (live_items now items) ≡ none
  unfolding lookup live_items
  lookup-live_items_absent now k [] h = refl
  lookup-live_items_absent now k ((j, item) ∷ items) h =
      ground (arith, lookup-live_items_absent now k items)

  pub live_items-IsDistinct :
      (now : ℕ) (items : List (Text × CacheItem V))
      → IsDistinct items
      → IsDistinct (live_items now items)
  unfolding live_items
  live_items-IsDistinct now [] d = tt
  live_items-IsDistinct now ((j, item) ∷ items) d =
      ground (arith, lookup-live_items_absent now j items, live_items-IsDistinct now items d.1)

  length-live_items-le :
      (now : ℕ) (items : List (Text × CacheItem V)) → length (live_items now items) ≤ length items
  unfolding live_items
  length-live_items-le now [] = omega arith
  length-live_items-le now ((j, item) ∷ items) = ground (arith, length-live_items-le now items)

  -- Deleting the key at a position leaves fewer entries.
  length-delete-lt :
      (i : ℕ) (items : List (Text × CacheItem V)) (e : Text × CacheItem V)
      → get_elem? items i ≡ some e
      → length (delete e.0 items) < length items
  unfolding delete
  length-delete-lt i [] e h = ground arith
  length-delete-lt zero ((j, item) ∷ items) e h =
      ground (arith, text_eq_refl j, length-delete-le j items)
  length-delete-lt (suc i) ((j, item) ∷ items) e h = ground (arith, length-delete-lt i items e)

  make_room-lt : (n pick : ℕ) (c : Cache V) → 0 < n → IsBounded n c → length (make_room pick c) < n
  unfolding make_room
  make_room-lt n pick c p b = elim (Option-cases (get_elem? c.items (pick % length c.items))) [
    | inl e ↦ rw (e, evict_one) (ground (arith, get_elem?_beyond c.items (pick % length c.items)))
    | inr (x, e) ↦
        rw (e, evict_one) (ground (arith, length-delete-lt (pick % length c.items) c.items x))
  ]

  make_room-IsDistinct :
      (pick : ℕ) (c : Cache V) → IsDistinct c.items → IsDistinct (make_room pick c)
  unfolding make_room
  make_room-IsDistinct pick c d = elim (Option-cases (get_elem? c.items (pick % length c.items))) [
    | inl e ↦ rw (e, evict_one) (ground arith)
    | inr (x, e) ↦ rw (e, evict_one) (ground (arith, delete-IsDistinct x.0 c.items d))
  ]

  set-IsBounded :
      (n pick now : ℕ) (key : Text) (v : V) (ttl : _) (c : Cache V)
      → 0 < n
      → IsBounded n c
      → IsBounded n (cache_set pick now key v ttl c)
  unfolding cache_set
  set-IsBounded n pick now key v ttl c p b = record {
    bound = b.bound;
    within = ground (
      arith,
      length-insert key (record { value = v; expiration = expiry now c.default_ttl ttl })
          (make_room pick c),
      make_room-lt n pick c p b,
    );
    distinct = insert-IsDistinct key _ (make_room pick c) (make_room-IsDistinct pick c b.distinct);
  }

  finish-IsBounded :
      (n : ℕ) (key : Text) (r : Read V) (c : Cache V)
      → IsBounded n c
      → IsBounded n (get_finish key r c).0
  unfolding get_finish
  finish-IsBounded n key absent c b = b
  finish-IsBounded n key stale c b = record {
    bound = b.bound;
    within = omega (arith, length-delete-le key c.items);
    distinct = delete-IsDistinct key c.items b.distinct;
  }
  finish-IsBounded n key (fresh v) c b = b

  step-IsBounded :
      (n : ℕ) (call : Call V) (c : Cache V) → 0 < n → IsBounded n c → IsBounded n (step call c)
  unfolding step
  step-IsBounded n (set pick now key v ttl) c p b = set-IsBounded n pick now key v ttl c p b
  step-IsBounded n (get now key) c p b = finish-IsBounded n key (get_read now key c) c b
  step-IsBounded n (del key) c p b = record {
    bound = b.bound;
    within = omega (arith, length-delete-le key c.items);
    distinct = delete-IsDistinct key c.items b.distinct;
  }
  step-IsBounded n clear c p b = record { bound = b.bound; within = omega arith; distinct = tt }
  step-IsBounded n (cleanup now) c p b = elim (Bool-cases c.stopped) [
    | inl e ↦ simp e b
    | inr e ↦ rw e (record {
      bound = b.bound;
      within = omega (arith, length-live_items-le now c.items);
      distinct = live_items-IsDistinct now c.items b.distinct;
    })
  ]

  -- Any sequence of calls keeps a cache with a configured size above zero within that size, with no
  -- key twice.
  pub run-IsBounded :
      (n : ℕ) (calls : List (Call V)) (c : Cache V)
      → 0 < n
      → IsBounded n c
      → IsBounded n (run calls c)
  unfolding run
  run-IsBounded n [] c p b = b
  run-IsBounded n (call ∷ calls) c p b =
      run-IsBounded n calls (step call c) p (step-IsBounded n call c p b)
