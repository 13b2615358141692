-- ===== src/Metrics/Averages.antt =====
-- lsengine/internal/metrics/metrics.go, `GetQueryStats`: the average of the times.
use native.Mathlib.Nat.{le-div_iff_mul-le, div-lt_iff_lt-mul}
use lsengine_js.Base.{
  ℕ, zero, suc, ◌*◌, ◌≤◌, ◌<◌, ◌≡◌, sym, ap, subst, List, [], ◌∷◌, arith, ◌∙◌, length, length-take,
  take, All, All-append,
}
use lsengine_js.Metrics.{Metrics, sum, average, get_query_stats}
use lsengine_js.Metrics.Refinement.{
  Call, calls, observe, period, times, count_above, turned, length-turned, calls-observe,
}

module _ (lo hi : ℕ) where
  abbrev pub Between : ℕ → Type 0
  Between t = (lo ≤ t) × (t ≤ hi)

  sum-Between :
      (ts : List ℕ) → All Between ts → (lo * length ts ≤ sum ts) × (sum ts ≤ hi * length ts)
  sum-Between [] h = (omega arith, omega arith)
  sum-Between (t ∷ ts) h =
      (let (low, high) = sum-Between ts h.1 in
        (omega (arith, h.0.0, low), omega (arith, h.0.1, high)))

  average-Between : (ts : List ℕ) → 0 < length ts → All Between ts → Between (average ts)
  unfolding average
  average-Between [] some_time h = absurd (omega arith)
  average-Between (t ∷ ts) some_time h =
      (let (low, high) = sum-Between (t ∷ ts) h in
        (
          ((le-div_iff_mul-le (omega arith)).1 low),
          (let above =
                (div-lt_iff_lt-mul {k = suc (length ts)} {x = sum (t ∷ ts)} {y = suc hi}
                    (omega arith)).1
                  (omega (arith, high)) in
              omega (arith, above)),
        ))

  turned-Between :
      (n : ℕ) (ts : List ℕ) → All Between (take n ts) → All Between (turned (take n ts))
  turned-Between zero ts h = tt
  turned-Between (suc n) [] h = tt
  turned-Between (suc n) (t ∷ ts) h =
      All-append _ (turned (take n ts)) (t ∷ []) (turned-Between n ts h.1) (h.0, tt)

-- After any calls, the number of queries is that of all queries since the last reset, the slow ones are those
-- that took over 200 milliseconds, and the average of the times lies between two bounds that the times of
-- the last thousand queries keep to. There was a query since the last reset.
pub get_query_stats-Between :
    (start lo hi : ℕ) (history : List Call)
    → 0 < length (times (period start history).1)
    → All (Between lo hi) (take 1000 (times (period start history).1))
    → ((get_query_stats (calls start history)).0 ≡ length (times (period start history).1))
      × ((get_query_stats (calls start history)).1
          ≡ count_above (200 * 1000000) (times (period start history).1))
      × Between lo hi (get_query_stats (calls start history)).2
unfolding get_query_stats observe
get_query_stats-Between start lo hi history some_query h =
    (let ts = times (period start history).1 in
      let same = calls-observe start history in
      let enough : 0 < length (turned (take 1000 ts)) =
        subst (λ n. 0 < n) (sym (length-turned 1000 ts ∙ length-take 1000 ts))
          (omega (arith, some_query)) in
      (
        ap (λ m. m.total_queries) same,
        ap (λ m. m.slow_queries) same,
        subst (λ (m : Metrics). Between lo hi (average m.query_times)) (sym same)
            (average-Between lo hi (turned (take 1000 ts)) enough (turned-Between lo hi 1000 ts h)),
      ))
