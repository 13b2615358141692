-- ===== src/Websocket/Tests.antt =====
-- lsengine/internal/websocket/ws.go: a connection from its upgrade to its end, the theorems applied, and two
-- handlers that register at once.
use lsengine_js.Base.{
  ℕ, ◌≡◌, refl, ◌≤◌, suc, ◌⊎◌, inr, true, false, some, [], ◌∷◌, ◌++◌, arith, Text, bytes,
}
use lsengine_js.Websocket.{
  shut, refused, admitted, registered, WsConnection, WsManager, running, crashed, new_connection,
  count, register_count, register_store, handle_message, reply, safe_send, try_send, send_stored,
  broadcast_loop, broadcast, drain, write_frame,
}
use lsengine_js.Websocket.Frames.{write_frame-lines}
use lsengine_js.Websocket.Sound.{
  Reach, counts, stores, activates, totals, welcomes, marks, shuts, upgrades, moves, starts, later,
}
use lsengine_js.Websocket.Tally.{IsWellProcess, Reach-IsWell}
use lsengine_js.Websocket.Limits.{
  has_crashed, broadcast-any_shut, handle_message-sent, register-count,
}

program : Unit {0}
unfolding count register_count handle_message reply safe_send try_send send_stored broadcast_loop
    broadcast drain write_frame
program = tt

abbrev echo : Text → Text ⊎ Text
echo code = inr code

abbrev ended : WsConnection
ended = record {
  phase = shut;
  queue = [];
  ended = true;
  closed = true;
  stored = true;
  writing = true;
}

abbrev ending : WsManager
ending = record { conns = ended ∷ []; max_conns = 1; active = 1; total = 1; dropped = 0 }

-- A connection registers, is served, and closes its channel.
ending-Reach : Reach echo 1 (running ending)
unfolding program
ending-Reach =
    later
      (later
        (later
          (later
            (later
              (later (later (later (starts) (upgrades)) (moves [] [] refl (counts refl)))
                (moves [] [] refl (stores refl)))
              (moves [] [] refl (activates refl)))
            (moves [] [] refl (totals refl)))
          (moves [] [] refl (welcomes refl)))
        (moves [] [] refl (marks refl)))
      (moves [] [] refl (shuts refl))

broadcast_crashes_here : broadcast (bytes "hi") ending ≡ crashed
unfolding program
broadcast_crashes_here = refl

Reach-IsWell_example : IsWellProcess (running ending)
Reach-IsWell_example = Reach-IsWell echo 1 (running ending) ending-Reach

broadcast-any_shut_example : has_crashed (broadcast (bytes "hi") ending) ≡ true
broadcast-any_shut_example = broadcast-any_shut echo 1 ending ending-Reach (bytes "hi")

handle_message-sent_example :
    (d : WsConnection) × (lost : ℕ) × (handle_message echo (bytes "1") ended ≡ some (d, lost))
    × (d.stored ≡ true)
handle_message-sent_example =
    handle_message-sent echo 1 ending ending-Reach [] [] ended refl (bytes "1")

abbrev room : WsManager
room = record {
  conns = ended ∷ new_connection ∷ [];
  max_conns = 2;
  active = 1;
  total = 1;
  dropped = 0;
}

register-count_example :
    ((count room.conns ≡ 2) × ((register_count room new_connection).phase ≡ refused))
    ⊎ (((register_count room new_connection).phase ≡ admitted)
        × (count ((ended ∷ []) ++ (register_store (register_count room new_connection) ∷ []))
            ≡ suc (count room.conns))
        × (suc (count room.conns) ≤ 2))
unfolding program
register-count_example = register-count room (ended ∷ []) [] new_connection refl refl (omega arith)

write_frame-lines_example : write_frame (bytes "a" ∷ bytes "b" ∷ []) ≡ some (bytes "a\nb", [])
write_frame-lines_example = write_frame-lines (bytes "a") (bytes "b" ∷ [])

abbrev twin : WsConnection
twin = record {
  phase = registered;
  queue = [];
  ended = false;
  closed = false;
  stored = true;
  writing = false;
}

-- Two handlers that count before either stores: a map for one connection holds two.
both_register : Reach echo 1 (
    running
      (record { conns = twin ∷ twin ∷ []; max_conns = 1; active = 2; total = 2; dropped = 0 }))
unfolding program
both_register =
    later
      (later
        (later
          (later
            (later
              (later
                (later
                  (later (later (later (starts) (upgrades)) (upgrades))
                    (moves [] (new_connection ∷ []) refl (counts refl)))
                  (moves (record new_connection { phase = admitted } ∷ []) [] refl (counts refl)))
                (moves [] (record new_connection { phase = admitted } ∷ []) refl (stores refl)))
              (moves [] (record new_connection { phase = admitted } ∷ []) refl (activates refl)))
            (moves [] (record new_connection { phase = admitted } ∷ []) refl (totals refl)))
          (moves (twin ∷ []) [] refl (stores refl)))
        (moves (twin ∷ []) [] refl (activates refl)))
      (moves (twin ∷ []) [] refl (totals refl))
