-- ===== src/Cache/Tests.antt =====
-- lsengine/internal/cache/cache.go: runs of the cache, and the theorems applied.
use lsengine_js.Base.{
  ℕ, ◌≡◌, ◌≢◌, refl, sym, ◌⊎◌, inl, true, false, none, some, [], ◌∷◌, arith, if◌then◌else◌, Text,
  bytes, text_eq, lookup, insert, delete, pos,
}
use lsengine_js.Cache.{
  Cache, expiry, is_expired, new_cache, cache_set, cache_get, get_read, get_finish, cleanup_tick,
  set, cleanup, run,
}
use lsengine_js.Cache.Bounds.{IsBounded, run-IsBounded}
use lsengine_js.Cache.Reads.{victim, lookup-set_ne, get-cleanup, get-set_race}
use lsengine_js.Cache.Manager.{
  Backend, IsLawful, CacheManager, remote_read, manager_set, manager_get, manager_get-set,
}

program : Unit {0}
unfolding new_cache cache_set cache_get cleanup_tick run lookup insert delete text_eq victim
program = tt

abbrev small : Cache ℕ
small = record { items = []; max_size = pos 1; default_ttl = pos 100; stopped = false }

abbrev one_item : Cache ℕ
one_item = record small { items = (bytes "a", record { value = 7; expiration = pos 150 }) ∷ [] }

-- A second key takes the place of the first; a read after its time finds nothing.
a_small_cache_evicts :
    (run (set 0 50 (bytes "a") 7 none ∷ []) small ≡ one_item)
    × ((cache_get 150 (bytes "a") one_item).1 ≡ some 7)
    × ((cache_get 151 (bytes "a") one_item).1 ≡ none)
    × ((cache_get 60 (bytes "a") (cache_set 3 55 (bytes "b") 8 (some (pos 9)) one_item)).1 ≡ none)
unfolding program
a_small_cache_evicts = (refl, refl, refl, refl)

small-IsBounded : IsBounded 1 small
small-IsBounded = record { bound = refl; within = omega arith; distinct = tt }

run-IsBounded_example :
    IsBounded 1
      (run (set 0 50 (bytes "a") 7 none ∷ set 2 60 (bytes "b") 8 none ∷ cleanup 170 ∷ []) small)
run-IsBounded_example =
    run-IsBounded 1 (set 0 50 (bytes "a") 7 none ∷ set 2 60 (bytes "b") 8 none ∷ cleanup 170 ∷ [])
      small (omega arith) small-IsBounded

a_not_b : bytes "b" ≢ bytes "a"
a_not_b = ground arith

lookup-set_ne_example :
    ((victim 0 one_item ≢ some (bytes "a"))
      × (lookup (bytes "a") (cache_set 0 120 (bytes "b") 8 none one_item).items
          ≡ lookup (bytes "a") one_item.items))
    ⊎ ((victim 0 one_item ≡ some (bytes "a"))
        × (lookup (bytes "a") (cache_set 0 120 (bytes "b") 8 none one_item).items ≡ none))
lookup-set_ne_example = lookup-set_ne 0 120 (bytes "b") (bytes "a") 8 none one_item a_not_b

get-cleanup_example :
    (cache_get 160 (bytes "a") (cleanup_tick 140 one_item)).1
    ≡ (cache_get 160 (bytes "a") one_item).1
unfolding program
get-cleanup_example = get-cleanup 140 160 (bytes "a") one_item (omega arith) (refl, tt)

get-set_race_example :
    (cache_get 210
      (bytes "a")
      (get_finish
        (bytes "a")
        (get_read 200 (bytes "a") one_item)
        (cache_set 0 205 (bytes "a") 9 none one_item)).0).1
    ≡ none
unfolding program
get-set_race_example = get-set_race 0 200 205 (bytes "a") 9 none one_item refl 210

-- A server that holds one text, and a value that is a text.
abbrev one_slot : Backend Text
one_slot = record {
  Server = Text;
  fetch = λ now server key. some server;
  store = λ now server key value ttl. some value;
  remove = λ server key. [];
  flush = λ server. [];
  marshal = λ v. v;
  unmarshal = λ t. t;
}

one_slot-IsLawful : IsLawful one_slot
one_slot-IsLawful = record { fetch-store = λ now later server after key val ttl h. inl (sym h) }

abbrev manager : CacheManager one_slot
manager = record {
  local = record { items = []; max_size = pos 1; default_ttl = pos 100; stopped = false };
  redis = some [];
  config = record { size = pos 1; ttl = pos 100; distributed = true; redis_url = bytes "redis://" };
}

manager_get-set_example :
    ((remote_read one_slot 60
          (bytes "k")
          (manager_set one_slot 0 50 (bytes "k") (bytes "v") none manager)
        ≡ some (bytes "v"))
      × ((manager_get one_slot 0 60
            (bytes "k")
            (manager_set one_slot 0 50 (bytes "k") (bytes "v") none manager)).1
          ≡ some (bytes "v")))
    ⊎ ((remote_read one_slot 60
            (bytes "k")
            (manager_set one_slot 0 50 (bytes "k") (bytes "v") none manager)
          ≡ none)
        × ((manager_get one_slot 0 60
              (bytes "k")
              (manager_set one_slot 0 50 (bytes "k") (bytes "v") none manager)).1
            ≡ (if is_expired 60 (expiry 50 (pos 100) none) then none else some (bytes "v"))))
unfolding manager_set
manager_get-set_example =
    manager_get-set one_slot one_slot-IsLawful 0 0 50 60 (bytes "k") (bytes "v") none manager refl
      (λ server h e. ground (arith, e))
