-- ===== src/Hash/Tests.antt =====
-- lsengine/internal/utils/utils.go: known values of FNV-1a, and the theorem applied.
use lsengine_js.Base.{◌≡◌, refl, bytes, true, false, [], ◌∷◌, text_eq}
use lsengine_js.Hash.{fnv_hash, fnv_hash_ip, contains, fnv_hash_ip-fnv_hash}

known_values :
    (fnv_hash (bytes "") ≡ 0x811c9dc5)
    × (fnv_hash (bytes "a") ≡ 0xe40c292c)
    × (fnv_hash (bytes "foobar") ≡ 0xbf9cf968)
unfolding fnv_hash
known_values = (refl, refl, refl)

contains_runs :
    (contains (bytes "a" ∷ bytes "b" ∷ []) (bytes "b") ≡ true) × (contains [] (bytes "b") ≡ false)
unfolding contains text_eq
contains_runs = (refl, refl)

fnv_hash_ip-fnv_hash_example : fnv_hash_ip (bytes "10.0.0.1") ≡ fnv_hash (bytes "10.0.0.1")
fnv_hash_ip-fnv_hash_example = fnv_hash_ip-fnv_hash (bytes "10.0.0.1")
