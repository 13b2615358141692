-- ===== src/Btree/Sort.antt =====
-- lsengine/internal/jsondb/btree.go: the binary search that it calls.
use lsengine_js.Base.{
  ℕ, zero, suc, ◌+◌, ◌/◌, ◌≤◌, ◌<◌, ◌≡◌, Bool, true, false, inl, inr, arith, ltb, if◌then◌else◌,
  Bool-cases,
}

-- `sort.Search` of Go's library: the loop halves [i, j), so `n` rounds are enough for `j - i ≤ n`.
unfoldable pub search_loop : ℕ → ℕ → ℕ → (ℕ → Bool) → ℕ
search_loop zero i j f = i
search_loop (suc n) i j f =
    let h = (i + j) / 2 in
    let left = search_loop n i h f in
    let right = search_loop n (h + 1) j f in if ltb i j then (if f h then left else right) else i

unfoldable pub sort_search : ℕ → (ℕ → Bool) → ℕ
unfolding search_loop
sort_search n f = search_loop n 0 n f

-- Once true, the test stays true below `n`.
abbrev pub IsMonotone : ℕ → (ℕ → Bool) → Type 0
IsMonotone n f = (a b : ℕ) → a ≤ b → b < n → f a ≡ true → f b ≡ true

-- `r` parts [0, n) into the indices where the test fails and those where it holds.
abbrev pub Splits : ℕ → (ℕ → Bool) → ℕ → Type 0
Splits n f r = (r ≤ n) × ((k : ℕ) → k < r → f k ≡ false) × ((k : ℕ) → r ≤ k → k < n → f k ≡ true)

still_false :
    (n : ℕ) (f : ℕ → Bool) → IsMonotone n f → (k m : ℕ) → k ≤ m → m < n → f m ≡ false → f k ≡ false
still_false n f mono k m p q fails = ground (arith, mono k m)

search_loop-Splits :
    (fuel i j n : ℕ) (f : ℕ → Bool)
    → IsMonotone n f
    → j ≤ i + fuel
    → i ≤ j
    → j ≤ n
    → ((k : ℕ) → k < i → f k ≡ false)
    → ((k : ℕ) → j ≤ k → k < n → f k ≡ true)
    → Splits n f (search_loop fuel i j f)
unfolding search_loop
search_loop-Splits zero i j n f mono enough ordered inside below above =
    (omega arith, below, λ k p. above k (omega arith))
search_loop-Splits (suc fuel) i j n f mono enough ordered inside below above =
    elim (Bool-cases (ltb i j)) [
      | inr stop ↦ rw stop (omega arith, below, λ k p. above k (ground arith))
      | inl go ↦ elim (Bool-cases (f ((i + j) / 2))) [
        | inl holds ↦
            rw (go, holds)
              (search_loop-Splits fuel i ((i + j) / 2) n f mono (ground arith) (ground arith)
                (ground arith) below (λ k p q. mono ((i + j) / 2) k p q holds))
        | inr fails ↦
            rw (go, fails)
              (search_loop-Splits fuel ((i + j) / 2 + 1) j n f mono (ground arith) (ground arith)
                inside
                (λ k p. still_false n f mono k ((i + j) / 2) (omega arith) (ground arith) fails)
                above)
      ]
    ]

-- Where the test is monotone the search finds the point at which it turns true.
pub sort_search-Splits : (n : ℕ) (f : ℕ → Bool) → IsMonotone n f → Splits n f (sort_search n f)
unfolding sort_search
sort_search-Splits n f mono =
    search_loop-Splits n 0 n n f mono (omega arith) (omega arith) (omega arith)
      (λ k p. absurd (omega arith)) (λ k p q. absurd (omega arith))

-- The same point, by a walk from the left.
abbrev pub first_true : ℕ → (ℕ → Bool) → ℕ
first_true zero f = 0
first_true (suc n) f = if f 0 then 0 else suc (first_true n (λ k. f (suc k)))

Splits-first_true : (n r : ℕ) (f : ℕ → Bool) → Splits n f r → r ≡ first_true n f
Splits-first_true zero r f s = omega arith
Splits-first_true (suc n) zero f s = ground (arith, s.2 0)
Splits-first_true (suc n) (suc r) f s = ground (
  arith,
  s.1 0,
  Splits-first_true n r (λ k. f (suc k))
      (
        omega arith,
        λ k p. s.1 (suc k) (omega arith),
        λ k p q. s.2 (suc k) (omega arith) (omega arith),
      ),
)

pub sort_search-first_true :
    (n : ℕ) (f : ℕ → Bool) → IsMonotone n f → sort_search n f ≡ first_true n f
sort_search-first_true n f mono =
    Splits-first_true n (sort_search n f) f (sort_search-Splits n f mono)
