-- ===== src/Metrics.antt =====
-- lsengine/internal/metrics/metrics.go: the counters and their averages. A duration is a number of
-- nanoseconds, a time one of seconds; each method is atomic. A call of Prometheus is kept as what it is called with.
mod Refinement
mod Averages
mod Tests
use lsengine_js.Base.{
  ℕ, zero, suc, ◌+◌, ◌-◌, ◌*◌, ◌/◌, Bool, true, false, List, [], ◌∷◌, ◌++◌, if◌then◌else◌, ltb, leb,
  length, drop, Text, bytes, ℤ, pos, negsuc, sub_ℕ, ◌+ℤ◌,
}

-- The calls of the Prometheus collectors.
pub data Collected : Type 0 where
  connections_inc : Collected
  connections_dec : Collected
  query_observed : ℕ → Collected
  request_counted : ℕ → Collected
  violation_counted : Text → Collected

-- `Metrics`, with what the collectors were called with, the last call first.
pub record Metrics : Type 0 where
  pub active_connections : ℤ
  pub total_connections : ℕ
  pub active_queries : ℤ
  pub slow_queries : ℕ
  pub total_queries : ℕ
  pub query_times : List ℕ
  pub vm_pool_hits : ℕ
  pub vm_pool_misses : ℕ
  pub ws_messages_sent : ℕ
  pub ws_messages_received : ℕ
  pub ws_errors : ℕ
  pub ws_dropped : ℕ
  pub queue_rejected : ℕ
  pub executor_active : ℤ
  pub executor_queue : ℤ
  pub json_ops : ℕ
  pub json_errors : ℕ
  pub start_time : ℕ
  pub http_requests : ℕ
  pub http_errors : ℕ
  pub http_duration : ℕ
  pub security_blocked : ℕ
  pub collected : List Collected

-- `GlobalMetrics` at the start
abbrev pub global_metrics : ℕ → Metrics
global_metrics start = record {
  active_connections = pos 0;
  total_connections = 0;
  active_queries = pos 0;
  slow_queries = 0;
  total_queries = 0;
  query_times = [];
  vm_pool_hits = 0;
  vm_pool_misses = 0;
  ws_messages_sent = 0;
  ws_messages_received = 0;
  ws_errors = 0;
  ws_dropped = 0;
  queue_rejected = 0;
  executor_active = pos 0;
  executor_queue = pos 0;
  json_ops = 0;
  json_errors = 0;
  start_time = start;
  http_requests = 0;
  http_errors = 0;
  http_duration = 0;
  security_blocked = 0;
  collected = [];
}

-- `atomic.AddInt64(&x, 1)` and `atomic.AddInt64(&x, -1)` of a counter that goes both ways
abbrev pub increment : ℤ → ℤ
increment a = a +ℤ pos 1

abbrev pub decrement : ℤ → ℤ
decrement a = a +ℤ negsuc 0

abbrev pub inc_active_connections : Metrics → Metrics
inc_active_connections m = record m {
  active_connections = increment m.active_connections;
  total_connections = suc m.total_connections;
  collected = connections_inc ∷ m.collected;
}

abbrev pub dec_active_connections : Metrics → Metrics
dec_active_connections m = record m {
  active_connections = decrement m.active_connections;
  collected = connections_dec ∷ m.collected;
}

-- The slice of the times keeps a thousand.
unfoldable pub push_time : ℕ → List ℕ → List ℕ
push_time d times =
    if ltb 1000 (length (times ++ (d ∷ []))) then drop 1 (times ++ (d ∷ [])) else times ++ (d ∷ [])

abbrev pub slow_after : ℕ
slow_after = 200 * 1000000

unfoldable pub add_query_time : ℕ → Metrics → Metrics
unfolding push_time
add_query_time d m = record m {
  total_queries = suc m.total_queries;
  slow_queries = if ltb slow_after d then suc m.slow_queries else m.slow_queries;
  query_times = push_time d m.query_times;
  collected = query_observed d ∷ m.collected;
}

abbrev pub add_http_request : ℕ → ℕ → Metrics → Metrics
add_http_request d status m = record m {
  http_requests = suc m.http_requests;
  http_errors = if leb 400 status then suc m.http_errors else m.http_errors;
  http_duration = m.http_duration + d;
  collected = request_counted status ∷ m.collected;
}

abbrev pub inc_vm_pool_hit : Metrics → Metrics
inc_vm_pool_hit m = record m { vm_pool_hits = suc m.vm_pool_hits }

abbrev pub inc_vm_pool_miss : Metrics → Metrics
inc_vm_pool_miss m = record m { vm_pool_misses = suc m.vm_pool_misses }

abbrev pub inc_ws_sent : Metrics → Metrics
inc_ws_sent m = record m { ws_messages_sent = suc m.ws_messages_sent }

abbrev pub inc_ws_received : Metrics → Metrics
inc_ws_received m = record m { ws_messages_received = suc m.ws_messages_received }

abbrev pub inc_ws_error : Metrics → Metrics
inc_ws_error m = record m { ws_errors = suc m.ws_errors }

abbrev pub inc_ws_dropped : Metrics → Metrics
inc_ws_dropped m = record m { ws_dropped = suc m.ws_dropped }

abbrev pub inc_queue_rejected : Metrics → Metrics
inc_queue_rejected m = record m { queue_rejected = suc m.queue_rejected }

abbrev pub inc_executor_active : Metrics → Metrics
inc_executor_active m = record m { executor_active = increment m.executor_active }

abbrev pub dec_executor_active : Metrics → Metrics
dec_executor_active m = record m { executor_active = decrement m.executor_active }

abbrev pub set_executor_queue : ℤ → Metrics → Metrics
set_executor_queue n m = record m { executor_queue = n }

abbrev pub inc_json_ops : Metrics → Metrics
inc_json_ops m = record m { json_ops = suc m.json_ops }

abbrev pub inc_json_errors : Metrics → Metrics
inc_json_errors m = record m { json_errors = suc m.json_errors }

abbrev pub inc_security_blocked : Text → Metrics → Metrics
inc_security_blocked kind m = record m {
  security_blocked = suc m.security_blocked;
  collected = violation_counted kind ∷ m.collected;
}

abbrev pub increment_active_queries : Metrics → Metrics
increment_active_queries m = record m { active_queries = increment m.active_queries }

abbrev pub decrement_active_queries : Metrics → Metrics
decrement_active_queries m = record m { active_queries = decrement m.active_queries }

-- Every field is set, and the collectors keep what they counted.
unfoldable pub reset : ℕ → Metrics → Metrics
reset now m = record m {
  active_connections = pos 0;
  total_connections = 0;
  active_queries = pos 0;
  slow_queries = 0;
  total_queries = 0;
  query_times = [];
  vm_pool_hits = 0;
  vm_pool_misses = 0;
  ws_messages_sent = 0;
  ws_messages_received = 0;
  ws_errors = 0;
  ws_dropped = 0;
  queue_rejected = 0;
  executor_active = pos 0;
  executor_queue = pos 0;
  json_ops = 0;
  json_errors = 0;
  http_requests = 0;
  http_errors = 0;
  http_duration = 0;
  security_blocked = 0;
  start_time = now;
}

abbrev pub sum : List ℕ → ℕ
sum [] = 0
sum (t ∷ times) = t + sum times

-- `avgQueryTime`: the zero value, if there are no times
unfoldable pub average : List ℕ → ℕ
average [] = 0
average (t ∷ times) = sum (t ∷ times) / suc (length times)

-- `Duration.Milliseconds`
abbrev pub milliseconds : ℕ → ℕ
milliseconds d = d / 1000000

unfoldable pub avg_http_duration : ℕ → ℕ → ℕ
avg_http_duration duration zero = 0
avg_http_duration duration (suc n) = milliseconds duration / suc n

-- `GetStats`, without the numbers of package runtime
unfoldable pub get_stats : ℕ → Metrics → List (Text × ℤ)
unfolding average avg_http_duration
get_stats now m =
    (bytes "active_connections", m.active_connections)
    ∷ (bytes "total_connections", pos m.total_connections)
    ∷ (bytes "active_queries", m.active_queries)
    ∷ (bytes "slow_queries", pos m.slow_queries)
    ∷ (bytes "total_queries", pos m.total_queries)
    ∷ (bytes "avg_query_time_ms", pos (milliseconds (average m.query_times)))
    ∷ (bytes "vm_pool_hits", pos m.vm_pool_hits)
    ∷ (bytes "vm_pool_misses", pos m.vm_pool_misses)
    ∷ (bytes "ws_messages_sent", pos m.ws_messages_sent)
    ∷ (bytes "ws_messages_received", pos m.ws_messages_received)
    ∷ (bytes "ws_errors", pos m.ws_errors)
    ∷ (bytes "ws_dropped", pos m.ws_dropped)
    ∷ (bytes "queue_rejected", pos m.queue_rejected)
    ∷ (bytes "executor_active", m.executor_active)
    ∷ (bytes "executor_queue", m.executor_queue)
    ∷ (bytes "json_ops", pos m.json_ops)
    ∷ (bytes "json_errors", pos m.json_errors)
    ∷ (bytes "http_requests", pos m.http_requests)
    ∷ (bytes "http_errors", pos m.http_errors)
    ∷ (bytes "http_avg_duration_ms", pos (avg_http_duration m.http_duration m.http_requests))
    ∷ (bytes "uptime_seconds", pos (now - m.start_time))
    ∷ (bytes "security_blocked", pos m.security_blocked)
    ∷ []

unfoldable pub get_query_stats : Metrics → ℕ × ℕ × ℕ
unfolding average
get_query_stats m = (m.total_queries, m.slow_queries, average m.query_times)

abbrev pub get_connection_stats : Metrics → ℤ × ℕ
get_connection_stats m = (m.active_connections, m.total_connections)

abbrev pub get_ws_stats : Metrics → ℕ × ℕ × ℕ × ℕ
get_ws_stats m = (m.ws_messages_sent, m.ws_messages_received, m.ws_errors, m.ws_dropped)

abbrev pub get_security_stats : Metrics → ℕ
get_security_stats m = m.security_blocked
