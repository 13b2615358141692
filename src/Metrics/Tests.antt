-- ===== src/Metrics/Tests.antt =====
-- lsengine/internal/metrics/metrics.go: a run of the counters, and the theorems applied.
use lsengine_js.Base.{◌≡◌, refl, [], ◌∷◌, arith, bytes, text_eq, lookup, pos, negsuc, some}
use lsengine_js.Metrics.{
  push_time, add_query_time, reset, average, avg_http_duration, get_stats, get_query_stats,
}
use lsengine_js.Metrics.Refinement.{
  connected, disconnected, query, request, ws_sent, restarted, call, calls, observe, period, times,
  count, requests, last_queue, all_collected, calls-observe,
}
use lsengine_js.Metrics.Averages.{Between, get_query_stats-Between}

program : Unit {0}
unfolding push_time add_query_time reset average avg_http_duration get_stats get_query_stats call
    calls period times count requests last_queue all_collected observe text_eq lookup
program = tt

-- A connection that is open at a reset and ends after it makes the number of the connections negative.
connections_are_negative :
    lookup
      (bytes "active_connections")
      (get_stats 9 (calls 0 (disconnected ∷ restarted 5 ∷ connected ∷ [])))
    ≡ some (negsuc 0)
unfolding program
connections_are_negative = refl

stats_are_counted :
    (lookup (bytes "uptime_seconds") (get_stats 9 (calls 2 (ws_sent ∷ []))) ≡ some (pos 7))
    × (lookup
          (bytes "http_errors")
          (get_stats 9 (calls 2 (request 7000000 404 ∷ request 2000000 200 ∷ [])))
        ≡ some (pos 1))
    × (lookup
          (bytes "http_avg_duration_ms")
          (get_stats 9 (calls 2 (request 7000000 404 ∷ request 2000000 200 ∷ [])))
        ≡ some (pos 4))
unfolding program
stats_are_counted = (refl, refl, refl)

calls-observe_example :
    calls 0 (query 300000000 ∷ connected ∷ restarted 5 ∷ query 7 ∷ [])
    ≡ observe
        (period 0 (query 300000000 ∷ connected ∷ restarted 5 ∷ query 7 ∷ [])).0
        (period 0 (query 300000000 ∷ connected ∷ restarted 5 ∷ query 7 ∷ [])).1
        (all_collected (query 300000000 ∷ connected ∷ restarted 5 ∷ query 7 ∷ []))
calls-observe_example = calls-observe 0 (query 300000000 ∷ connected ∷ restarted 5 ∷ query 7 ∷ [])

get_query_stats-Between_example :
    ((get_query_stats (calls 0 (query 300000000 ∷ query 100 ∷ []))).0 ≡ 2)
    × ((get_query_stats (calls 0 (query 300000000 ∷ query 100 ∷ []))).1 ≡ 1)
    × Between 100 300000000 (get_query_stats (calls 0 (query 300000000 ∷ query 100 ∷ []))).2
unfolding program
get_query_stats-Between_example =
    get_query_stats-Between 0 100 300000000 (query 300000000 ∷ query 100 ∷ []) (omega arith)
      ((omega arith, omega arith), ((omega arith, omega arith), tt))
