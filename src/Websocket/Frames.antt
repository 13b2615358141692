-- ===== src/Websocket/Frames.antt =====
-- lsengine/internal/websocket/ws.go, `wsWriter`: a frame holds the messages in the order of the channel.
use mathlib.Core.List.{append_assoc}
use lsengine_js.Base.{
  ℕ, zero, suc, ◌≤◌, ◌≡◌, refl, List, [], ◌∷◌, ◌++◌, arith, length, take, drop, min, ap, ◌∙◌, Text,
  bytes, some,
}
use lsengine_js.Websocket.{drain, min_ten, write_frame}

-- The text of a frame: its messages, with a newline between two.
abbrev pub lines : Text → List Text → Text
lines msg [] = msg
lines msg (next ∷ rest) = msg ++ (bytes "\n" ++ lines next rest)

lines-append :
    (frame msg : Text) (rest : List Text)
    → lines (frame ++ (bytes "\n" ++ msg)) rest ≡ frame ++ (bytes "\n" ++ lines msg rest)
lines-append frame msg [] = refl
lines-append frame msg (next ∷ rest) =
    append_assoc frame (bytes "\n" ++ msg) (bytes "\n" ++ lines next rest)

drain-lines :
    (n : ℕ) (queue : List Text) (frame : Text)
    → n ≤ length queue
    → drain n queue frame ≡ (lines frame (take n queue), drop n queue)
unfolding drain
drain-lines zero queue frame h = refl
drain-lines (suc n) [] frame h = absurd (omega arith)
drain-lines (suc n) (msg ∷ queue) frame h =
    rw
      (
        drain-lines n queue (frame ++ (bytes "\n" ++ msg)) (omega arith),
        lines-append frame msg (take n queue),
      )
      refl

min_ten-min : (n : ℕ) → min_ten n ≡ min n 10
min_ten-min n = ground arith

-- The writer takes the message it waited for and the next ten, or all that wait if they are fewer: it writes
-- them in their order, with a newline between two, and leaves the others in the channel, so none is lost,
-- repeated or moved.
pub write_frame-lines :
    (msg : Text) (queue : List Text)
    → write_frame (msg ∷ queue)
      ≡ some (lines msg (take (min (length queue) 10) queue), drop (min (length queue) 10) queue)
unfolding write_frame
write_frame-lines msg queue =
    ap (λ n. some (drain n queue msg)) (min_ten-min (length queue))
    ∙ rw (drain-lines (min (length queue) 10) queue msg (omega arith)) refl
