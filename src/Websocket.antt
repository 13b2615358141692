-- ===== src/Websocket.antt =====
-- lsengine/internal/websocket/ws.go: the connections, what each goroutine of a connection does to it, and the
-- broadcast. A goroutine is cut into the steps between which others may run: `Phase` says where
-- `HandleWebSocket` stands, and `Step` interleaves the steps of all connections in any order.
mod Frames
mod Sound
mod Tally
mod Limits
mod Tests
use lsengine_js.Base.{
  ℕ, zero, suc, ◌+◌, ◌-◌, ◌*◌, ◌⊎◌, inl, inr, Bool, true, false, Option, none, some, List, [], ◌∷◌,
  ◌++◌, if◌then◌else◌, ltb, leb, length, Text, bytes,
}

-- Upgraded; Register counted room; Register refused; Register stored it in the map, then counted it as active,
-- then in the total; the welcome is written and the writer runs; `closed` is set; the channel is closed;
-- Unregister took it out of the map; Unregister is done.
pub data Phase : Type 0 where
  upgraded : Phase
  admitted : Phase
  refused : Phase
  storing : Phase
  activated : Phase
  registered : Phase
  serving : Phase
  marked : Phase
  shut : Phase
  removed : Phase
  left : Phase

-- `queue` is the buffer of the channel `send`, and `ended` whether that channel is closed; `stored` says
-- whether the connection is a key of the manager's map. The writer is gone when `writing` is false.
pub record WsConnection : Type 0 where
  pub phase : Phase
  pub queue : List Text
  pub ended : Bool
  pub closed : Bool
  pub stored : Bool
  pub writing : Bool

-- `conns` are all connections that were upgraded. `max_conns` is above zero in all settings that are loaded.
pub record WsManager : Type 0 where
  pub conns : List WsConnection
  pub max_conns : ℕ
  pub active : ℕ
  pub total : ℕ
  pub dropped : ℕ

-- A send on a closed channel is a panic, which ends the whole program.
pub data Process : Type 0 where
  running : WsManager → Process
  crashed : Process

abbrev pub new_ws_manager : ℕ → WsManager
new_ws_manager max_conns = record {
  conns = [];
  max_conns = max_conns;
  active = 0;
  total = 0;
  dropped = 0;
}

abbrev pub new_connection : WsConnection
new_connection = record {
  phase = upgraded;
  queue = [];
  ended = false;
  closed = false;
  stored = false;
  writing = false;
}

abbrev pub channel_size : ℕ
channel_size = 256

-- the loop that counts the entries of the map
unfoldable pub count : List WsConnection → ℕ
count [] = 0
count (c ∷ cs) = if c.stored then suc (count cs) else count cs

-- the first half of `Register`
unfoldable pub register_count : WsManager → WsConnection → WsConnection
unfolding count
register_count m c = record c {
  phase = if leb m.max_conns (count m.conns) then refused else admitted;
}

-- the other steps of `Register`, after the count: `Store` and two `AddInt64`
abbrev pub register_store : WsConnection → WsConnection
register_store c = record c { stored = true; phase = storing }

abbrev pub count_active : WsManager → WsManager
count_active m = record m { active = m.active + 1 }

abbrev pub count_total : WsManager → WsManager
count_total m = record m { total = m.total + 1 }

-- the first step of `Unregister`, `Delete`
abbrev pub unregister : WsConnection → WsConnection
unregister c = record c { stored = false; phase = removed }

-- The second; the counter is a signed number, and `active_count` says that it is above zero here.
abbrev pub count_inactive : WsManager → WsManager
count_inactive m = record m { active = m.active - 1 }

-- `select { case ws.send <- msg: default: dropped++ }`: the connection, and how many messages were dropped;
-- `none` is a panic.
unfoldable pub try_send : Text → WsConnection → Option (WsConnection × ℕ)
try_send msg c =
    if c.ended
    then none
    else (if ltb (length c.queue) channel_size
        then some (record c { queue = c.queue ++ (msg ∷ []) }, 0)
        else some (c, 1))

unfoldable pub safe_send : Text → WsConnection → Option (WsConnection × ℕ)
unfolding try_send
safe_send msg c = if c.closed then some (c, 0) else try_send msg c

abbrev max_message : ℕ
max_message = 5 * 1024 * 1024

-- `handleMessage`: `execute` is the pool of virtual machines, which returns an error or an output.
unfoldable pub reply : (Text → Text ⊎ Text) → Text → Text
reply execute code =
    if ltb max_message (length code)
    then bytes "Error: Code too long"
    else elim (execute code) [ inl err ↦ bytes "Error: " ++ err | inr output ↦ output ]

unfoldable pub handle_message :
    (Text → Text ⊎ Text) → Text → WsConnection → Option (WsConnection × ℕ)
unfolding reply safe_send
handle_message execute code c = safe_send (reply execute code) c

-- one round of `Broadcast`: a connection that is not in the map is passed over
unfoldable pub send_stored : Text → WsConnection → Option (WsConnection × ℕ)
unfolding try_send
send_stored msg c = if c.stored then try_send msg c else some (c, 0)

abbrev pub join_sent :
    Option (WsConnection × ℕ) → Option (List WsConnection × ℕ) → Option (List WsConnection × ℕ)
join_sent none rest = none
join_sent (some d) none = none
join_sent (some d) (some ds) = some (d.0 ∷ ds.0, d.1 + ds.1)

-- the loop of `Broadcast`, which stops at a panic
unfoldable pub broadcast_loop : Text → List WsConnection → Option (List WsConnection × ℕ)
unfolding send_stored
broadcast_loop msg [] = some ([], 0)
broadcast_loop msg (c ∷ cs) = join_sent (send_stored msg c) (broadcast_loop msg cs)

unfoldable pub broadcast : Text → WsManager → Process
unfolding broadcast_loop
broadcast msg m = elim (broadcast_loop msg m.conns) [
  | none ↦ crashed
  | some (conns, lost) ↦ running (record m { conns = conns; dropped = m.dropped + lost })
]

-- the loop of `wsWriter` that adds the messages that wait: a newline each, and the message if there is one
unfoldable pub drain : ℕ → List Text → Text → Text × List Text
drain zero queue frame = (frame, queue)
drain (suc n) [] frame = drain n [] (frame ++ bytes "\n")
drain (suc n) (msg ∷ queue) frame = drain n queue (frame ++ (bytes "\n" ++ msg))

abbrev min_ten : ℕ → ℕ
min_ten n = if ltb n 10 then n else 10

-- One frame of the writer: what it writes, and what stays in the channel.
unfoldable pub write_frame : List Text → Option (Text × List Text)
unfolding drain
write_frame [] = none
write_frame (msg ∷ queue) = some (drain (min_ten (length queue)) queue msg)
