-- ===== src/Hash.antt =====
-- lsengine/internal/utils/utils.go and `fnvHash` of lsengine/internal/plugins/plugins.go: the small
-- helpers, and FNV-1a with its 32-bit arithmetic.
mod Tests
use Prim.Native.Nat.{bit_xor}
use lsengine_js.Base.{
  ℕ, zero, suc, ◌+◌, ◌*◌, ◌%◌, ◌^◌, ◌≤◌, ◌<◌, ◌≡◌, ◌↔◌, refl, Bool, true, false, Option, none, some,
  List, [], ◌∷◌, ◌++◌, arith, if◌then◌else◌, ltb, length, get_elem?, drop, Text, text_eq,
  text_eq_iff, ℤ, ltb_ℤ, ◌⊎◌, inl, inr,
}

-- hash/fnv: `New32a`, `Write` and `Sum32`.
unfoldable pub fnv_step : ℕ → ℕ → ℕ
fnv_step h c = bit_xor h c * 16777619 % 2 ^ 32

unfoldable pub fnv_write : ℕ → Text → ℕ
unfolding fnv_step
fnv_write h [] = h
fnv_write h (c ∷ s) = fnv_write (fnv_step h c) s

-- `FNVHash`
unfoldable pub fnv_hash : Text → ℕ
unfolding fnv_write
fnv_hash s = fnv_write 2166136261 s

-- The loop of `fnvHash` over the index `i`, with the rounds left: `h ^= …; h *= …`.
unfoldable pub fnv_loop : ℕ → ℕ → ℕ → Text → ℕ
fnv_loop zero i h s = h
fnv_loop (suc n) i h s = elim (get_elem? s i) [
  | none ↦ h
  | some c ↦ fnv_loop n (suc i) (bit_xor h c * 16777619 % 2 ^ 32) s
]

unfoldable pub fnv_hash_ip : Text → ℕ
unfolding fnv_loop
fnv_hash_ip s = fnv_loop (length s) 0 2166136261 s

-- `Contains`
unfoldable pub contains : List Text → Text → Bool
contains [] item = false
contains (s ∷ slice) item = if text_eq s item then true else contains slice item

unfoldable pub int_min : ℤ → ℤ → ℤ
int_min a b = if ltb_ℤ a b then a else b

unfoldable pub int_max : ℤ → ℤ → ℤ
int_max a b = if ltb_ℤ b a then a else b

get_elem?-drop {ℓ} :
    {A : Type ℓ} (s : List A) (i : ℕ) (c : A) (rest : List A)
    → drop i s ≡ c ∷ rest
    → (get_elem? s i ≡ some c) × (drop (suc i) s ≡ rest)
get_elem?-drop [] zero c rest e = ground arith
get_elem?-drop [] (suc i) c rest e = ground arith
get_elem?-drop (x ∷ s) zero c rest e = ground arith
get_elem?-drop (x ∷ s) (suc i) c rest e = get_elem?-drop s i c rest e

fnv_loop-fnv_write :
    (i h : ℕ) (s rest : Text) → drop i s ≡ rest → fnv_loop (length rest) i h s ≡ fnv_write h rest
unfolding fnv_loop fnv_write
fnv_loop-fnv_write i h s [] e = refl
fnv_loop-fnv_write i h s (c ∷ rest) e =
    let (found, next) = get_elem?-drop s i c rest e in
    rw (found, fnv_loop) (fnv_loop-fnv_write (suc i) (bit_xor h c * 16777619 % 2 ^ 32) s rest next)

-- The rate limiter's own loop computes the hash that hash/fnv computes, for every text.
pub fnv_hash_ip-fnv_hash : (s : Text) → fnv_hash_ip s ≡ fnv_hash s
unfolding fnv_hash_ip fnv_hash
fnv_hash_ip-fnv_hash s = fnv_loop-fnv_write 0 2166136261 s s refl

fnv_write-lt : (h : ℕ) (s : Text) → h < 2 ^ 32 → fnv_write h s < 2 ^ 32
unfolding fnv_write fnv_step
fnv_write-lt h [] p = p
fnv_write-lt h (c ∷ s) p = fnv_write-lt (fnv_step h c) s (omega arith)

pub fnv_hash-lt : (s : Text) → fnv_hash s < 2 ^ 32
unfolding fnv_hash
fnv_hash-lt s = fnv_write-lt 2166136261 s (omega arith)
