-- ===== src/Metrics/Refinement.antt =====
-- lsengine/internal/metrics/metrics.go: what the counters say of all the calls since the last reset.
use lsengine_js.Base.{
  ℕ, zero, suc, ◌+◌, ◌<◌, ◌≡◌, refl, sym, ◌∙◌, ap, subst, inl, inr, true, false, List, [], ◌∷◌,
  ◌++◌, arith, if◌then◌else◌, ltb, leb, length, length-append_end, length-take, take, take-all,
  drop, if_true, if_false, min, Text, bytes, ℤ, pos, sub_ℕ, Bool-cases, text_eq,
}
use lsengine_js.Metrics.{
  Collected, connections_inc, connections_dec, query_observed, request_counted, violation_counted,
  Metrics, global_metrics, increment, decrement, push_time, slow_after, add_query_time, reset,
  inc_active_connections, dec_active_connections, add_http_request, inc_vm_pool_hit,
  inc_vm_pool_miss, inc_ws_sent, inc_ws_received, inc_ws_error, inc_ws_dropped, inc_queue_rejected,
  inc_executor_active, dec_executor_active, set_executor_queue, inc_json_ops, inc_json_errors,
  inc_security_blocked, increment_active_queries, decrement_active_queries,
}

-- A call of one of the methods.
pub data Call : Type 0 where
  connected : Call
  disconnected : Call
  query : ℕ → Call
  request : ℕ → ℕ → Call
  vm_hit : Call
  vm_miss : Call
  ws_sent : Call
  ws_received : Call
  ws_error : Call
  ws_drop : Call
  rejected : Call
  executor_begun : Call
  executor_ended : Call
  queue_set : ℤ → Call
  json_op : Call
  json_error : Call
  blocked : Text → Call
  query_begun : Call
  query_ended : Call
  restarted : ℕ → Call

unfoldable pub call : Call → Metrics → Metrics
unfolding add_query_time reset
call connected m = inc_active_connections m
call disconnected m = dec_active_connections m
call (query d) m = add_query_time d m
call (request d status) m = add_http_request d status m
call vm_hit m = inc_vm_pool_hit m
call vm_miss m = inc_vm_pool_miss m
call ws_sent m = inc_ws_sent m
call ws_received m = inc_ws_received m
call ws_error m = inc_ws_error m
call ws_drop m = inc_ws_dropped m
call rejected m = inc_queue_rejected m
call executor_begun m = inc_executor_active m
call executor_ended m = dec_executor_active m
call (queue_set n) m = set_executor_queue n m
call json_op m = inc_json_ops m
call json_error m = inc_json_errors m
call (blocked kind) m = inc_security_blocked kind m
call query_begun m = increment_active_queries m
call query_ended m = decrement_active_queries m
call (restarted now) m = reset now m

-- The metrics after a history, whose last call comes first.
unfoldable pub calls : ℕ → List Call → Metrics
unfolding call
calls start [] = global_metrics start
calls start (c ∷ history) = call c (calls start history)

-- What is counted under the name that `GetStats` gives it, and the other calls.
abbrev pub kind : Call → Text
kind connected = bytes "total_connections"
kind disconnected = bytes "disconnected"
kind (query d) = bytes "total_queries"
kind (request d status) = bytes "http_requests"
kind vm_hit = bytes "vm_pool_hits"
kind vm_miss = bytes "vm_pool_misses"
kind ws_sent = bytes "ws_messages_sent"
kind ws_received = bytes "ws_messages_received"
kind ws_error = bytes "ws_errors"
kind ws_drop = bytes "ws_dropped"
kind rejected = bytes "queue_rejected"
kind executor_begun = bytes "executor_begun"
kind executor_ended = bytes "executor_ended"
kind (queue_set n) = bytes "executor_queue"
kind json_op = bytes "json_ops"
kind json_error = bytes "json_errors"
kind (blocked k) = bytes "security_blocked"
kind query_begun = bytes "query_begun"
kind query_ended = bytes "query_ended"
kind (restarted now) = bytes "restarted"

unfoldable pub count : Text → List Call → ℕ
unfolding text_eq
count k [] = 0
count k (c ∷ history) = if text_eq (kind c) k then suc (count k history) else count k history

abbrev pub times_of : Call → List ℕ
times_of (query d) = d ∷ []
times_of other = []

-- The times of the queries, the last first.
unfoldable pub times : List Call → List ℕ
times [] = []
times (c ∷ history) = times_of c ++ times history

abbrev pub count_above : ℕ → List ℕ → ℕ
count_above limit [] = 0
count_above limit (n ∷ ns) =
    if ltb limit n then suc (count_above limit ns) else count_above limit ns

abbrev pub requests_of : Call → List (ℕ × ℕ)
requests_of (request d status) = (d, status) ∷ []
requests_of other = []

unfoldable pub requests : List Call → List (ℕ × ℕ)
requests [] = []
requests (c ∷ history) = requests_of c ++ requests history

abbrev pub count_failed : List (ℕ × ℕ) → ℕ
count_failed [] = 0
count_failed ((d, status) ∷ rs) = if leb 400 status then suc (count_failed rs) else count_failed rs

abbrev pub duration : List (ℕ × ℕ) → ℕ
duration [] = 0
duration ((d, status) ∷ rs) = duration rs + d

unfoldable pub last_queue : List Call → ℤ
last_queue [] = pos 0
last_queue (queue_set n ∷ history) = n
last_queue (c ∷ history) = last_queue history

abbrev pub collected_of : Call → List Collected
collected_of connected = connections_inc ∷ []
collected_of disconnected = connections_dec ∷ []
collected_of (query d) = query_observed d ∷ []
collected_of (request d status) = request_counted status ∷ []
collected_of (blocked k) = violation_counted k ∷ []
collected_of other = []

unfoldable pub all_collected : List Call → List Collected
all_collected [] = []
all_collected (c ∷ history) = collected_of c ++ all_collected history

abbrev pub turned : List ℕ → List ℕ
turned [] = []
turned (n ∷ ns) = turned ns ++ (n ∷ [])

-- When the counting began, and the calls since then.
unfoldable pub period : ℕ → List Call → ℕ × List Call
period start [] = (start, [])
period start (restarted now ∷ history) = (now, [])
period start (c ∷ history) = ((period start history).0, c ∷ (period start history).1)

-- The metrics that the calls of a period make: each number from the calls it is about.
unfoldable pub observe : ℕ → List Call → List Collected → Metrics
unfolding count times requests last_queue
observe start calls collected = record {
  active_connections =
      sub_ℕ (count (bytes "total_connections") calls) (count (bytes "disconnected") calls);
  total_connections = count (bytes "total_connections") calls;
  active_queries = sub_ℕ (count (bytes "query_begun") calls) (count (bytes "query_ended") calls);
  slow_queries = count_above slow_after (times calls);
  total_queries = length (times calls);
  query_times = turned (take 1000 (times calls));
  vm_pool_hits = count (bytes "vm_pool_hits") calls;
  vm_pool_misses = count (bytes "vm_pool_misses") calls;
  ws_messages_sent = count (bytes "ws_messages_sent") calls;
  ws_messages_received = count (bytes "ws_messages_received") calls;
  ws_errors = count (bytes "ws_errors") calls;
  ws_dropped = count (bytes "ws_dropped") calls;
  queue_rejected = count (bytes "queue_rejected") calls;
  executor_active =
      sub_ℕ (count (bytes "executor_begun") calls) (count (bytes "executor_ended") calls);
  executor_queue = last_queue calls;
  json_ops = count (bytes "json_ops") calls;
  json_errors = count (bytes "json_errors") calls;
  start_time = start;
  http_requests = length (requests calls);
  http_errors = count_failed (requests calls);
  http_duration = duration (requests calls);
  security_blocked = count (bytes "security_blocked") calls;
  collected = collected;
}

turned-take-suc :
    (n : ℕ) (ts : List ℕ)
    → n < length ts
    → (t : ℕ) × (turned (take (suc n) ts) ≡ t ∷ turned (take n ts))
turned-take-suc n [] h = absurd (omega arith)
turned-take-suc zero (t ∷ ts) h = (t, refl)
turned-take-suc (suc n) (t ∷ ts) h =
    (let (u, e) = turned-take-suc n ts (omega arith) in (u, ap (λ l. l ++ (t ∷ [])) e))

pub length-turned : (n : ℕ) (ts : List ℕ) → length (turned (take n ts)) ≡ length (take n ts)
length-turned zero ts = refl
length-turned (suc n) [] = refl
length-turned (suc n) (t ∷ ts) =
    length-append_end (turned (take n ts)) t ∙ ap suc (length-turned n ts)

increment-sub_ℕ : (a b : ℕ) → increment (sub_ℕ a b) ≡ sub_ℕ (suc a) b
increment-sub_ℕ a b = ground arith

decrement-sub_ℕ : (a b : ℕ) → decrement (sub_ℕ a b) ≡ sub_ℕ a (suc b)
decrement-sub_ℕ a b = ground arith

-- A slice that keeps `suc n` is the last of all times.
keep_last :
    (n d : ℕ) (ts : List ℕ)
    → (if ltb (suc n) (length (turned (take (suc n) ts) ++ (d ∷ [])))
        then drop 1 (turned (take (suc n) ts) ++ (d ∷ []))
        else turned (take (suc n) ts) ++ (d ∷ []))
      ≡ turned (take n ts) ++ (d ∷ [])
keep_last n d ts = elim (Bool-cases (ltb n (length ts))) [
  | inl more ↦
      (let (t, e) = turned-take-suc n ts (ground arith) in
        if_true _ _ _ (long more) ∙ ap (λ l. drop 1 (l ++ (d ∷ []))) e)
  | inr few ↦
      if_false _ _ _ (short few)
      ∙ ap (λ l. turned l ++ (d ∷ []))
          (take-all ts (suc n) (ground (arith, few)) ∙ sym (take-all ts n (ground (arith, few))))
]
  where
    size : length (turned (take (suc n) ts) ++ (d ∷ [])) ≡ suc (min (suc n) (length ts))
    size =
        length-append_end (turned (take (suc n) ts)) d
        ∙ ap suc (length-turned (suc n) ts ∙ length-take (suc n) ts)

    long :
        ltb n (length ts) ≡ true
        → ltb (suc n) (length (turned (take (suc n) ts) ++ (d ∷ []))) ≡ true
    long more = subst (λ k. ltb (suc n) k ≡ true) (sym size) (ground (arith, more))

    short :
        ltb n (length ts) ≡ false
        → ltb (suc n) (length (turned (take (suc n) ts) ++ (d ∷ []))) ≡ false
    short few = subst (λ k. ltb (suc n) k ≡ false) (sym size) (ground (arith, few))

push_time-turned :
    (d : ℕ) (ts : List ℕ) → push_time d (turned (take 1000 ts)) ≡ turned (take 1000 (d ∷ ts))
unfolding push_time
push_time-turned d ts = keep_last 999 d ts

add_query_time-observe :
    (d start : ℕ) (history : List Call) (collected : List Collected)
    → add_query_time d (observe start history collected)
      ≡ observe start (query d ∷ history) (query_observed d ∷ collected)
unfolding add_query_time observe times count requests last_queue
add_query_time-observe d start history collected =
    ap
      (λ l. record (observe start (query d ∷ history) (query_observed d ∷ collected)) {
        query_times = l;
      })
      (push_time-turned d (times history))

-- Whatever the methods are called with, and in whichever order, each number is that of the calls since the
-- last reset: the counters count them, the numbers of what is active are differences that may be negative,
-- the times are those of the last thousand queries, and the collectors have seen the calls of all time.
pub calls-observe :
    (start : ℕ) (history : List Call)
    → calls start history
      ≡ observe (period start history).0 (period start history).1 (all_collected history)
unfolding calls call period observe all_collected
calls-observe start [] = refl
calls-observe start (vm_hit ∷ history) = ap (call vm_hit) (calls-observe start history)
calls-observe start (vm_miss ∷ history) = ap (call vm_miss) (calls-observe start history)
calls-observe start (ws_sent ∷ history) = ap (call ws_sent) (calls-observe start history)
calls-observe start (ws_received ∷ history) = ap (call ws_received) (calls-observe start history)
calls-observe start (ws_error ∷ history) = ap (call ws_error) (calls-observe start history)
calls-observe start (ws_drop ∷ history) = ap (call ws_drop) (calls-observe start history)
calls-observe start (rejected ∷ history) = ap (call rejected) (calls-observe start history)
calls-observe start (json_op ∷ history) = ap (call json_op) (calls-observe start history)
calls-observe start (json_error ∷ history) = ap (call json_error) (calls-observe start history)
calls-observe start (blocked k ∷ history) = ap (call (blocked k)) (calls-observe start history)
calls-observe start (request d status ∷ history) =
    ap (call (request d status)) (calls-observe start history)
calls-observe start (queue_set n ∷ history) = ap (call (queue_set n)) (calls-observe start history)
calls-observe start (connected ∷ history) =
    (let now = period start history in
      ap (call connected) (calls-observe start history)
      ∙ ap
          (λ a. record (observe now.0 (connected ∷ now.1) (all_collected (connected ∷ history))) {
            active_connections = a;
          })
          (increment-sub_ℕ (count (bytes "total_connections") now.1)
            (count (bytes "disconnected") now.1)))
calls-observe start (disconnected ∷ history) =
    (let now = period start history in
      ap (call disconnected) (calls-observe start history)
      ∙ ap
          (λ a.
            record (observe now.0 (disconnected ∷ now.1) (all_collected (disconnected ∷ history))) {
              active_connections = a;
            })
          (decrement-sub_ℕ (count (bytes "total_connections") now.1)
            (count (bytes "disconnected") now.1)))
calls-observe start (executor_begun ∷ history) =
    (let now = period start history in
      ap (call executor_begun) (calls-observe start history)
      ∙ ap
          (λ a.
            record (observe now.0 (executor_begun ∷ now.1)
              (all_collected (executor_begun ∷ history))) { executor_active = a })
          (increment-sub_ℕ (count (bytes "executor_begun") now.1)
            (count (bytes "executor_ended") now.1)))
calls-observe start (executor_ended ∷ history) =
    (let now = period start history in
      ap (call executor_ended) (calls-observe start history)
      ∙ ap
          (λ a.
            record (observe now.0 (executor_ended ∷ now.1)
              (all_collected (executor_ended ∷ history))) { executor_active = a })
          (decrement-sub_ℕ (count (bytes "executor_begun") now.1)
            (count (bytes "executor_ended") now.1)))
calls-observe start (query_begun ∷ history) =
    (let now = period start history in
      ap (call query_begun) (calls-observe start history)
      ∙ ap
          (λ a.
            record (observe now.0 (query_begun ∷ now.1) (all_collected (query_begun ∷ history))) {
              active_queries = a;
            })
          (increment-sub_ℕ (count (bytes "query_begun") now.1) (count (bytes "query_ended") now.1)))
calls-observe start (query_ended ∷ history) =
    (let now = period start history in
      ap (call query_ended) (calls-observe start history)
      ∙ ap
          (λ a.
            record (observe now.0 (query_ended ∷ now.1) (all_collected (query_ended ∷ history))) {
              active_queries = a;
            })
          (decrement-sub_ℕ (count (bytes "query_begun") now.1) (count (bytes "query_ended") now.1)))
calls-observe start (query d ∷ history) =
    (let now = period start history in
      ap (call (query d)) (calls-observe start history)
      ∙ add_query_time-observe d now.0 now.1 (all_collected history))
calls-observe start (restarted now ∷ history) =
    ap (call (restarted now)) (calls-observe start history)
