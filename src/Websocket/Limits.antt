-- ===== src/Websocket/Limits.antt =====
-- lsengine/internal/websocket/ws.go: which sends can panic, and how many connections the map holds.
use lsengine_js.Base.{
  All-append_inv, ℕ, suc, ◌+◌, ◌≤◌, ◌≡◌, refl, ◌∙◌, ap, subst, ◌⊎◌, inl, inr, Bool, true, false,
  ◌&&◌, ◌||◌, Option, none, some, List, [], ◌∷◌, ◌++◌, arith, leb, All, Text, Bool-cases,
}
use lsengine_js.Websocket.{
  Phase, upgraded, admitted, refused, registered, serving, marked, shut, storing, activated,
  removed, left, WsConnection, WsManager, Process, running, crashed, count, register_count,
  register_store, try_send, reply, handle_message, send_stored, join_sent, broadcast_loop,
  broadcast,
}
use lsengine_js.Websocket.Sound.{Reach, Tidy, IsSound, safe_send-Kept}
use lsengine_js.Websocket.Tally.{count-append, Reach-IsWell}

fails {ℓ} : {A : Type ℓ} → Option A → Bool
fails none = true
fails (some x) = false

abbrev pub has_crashed : Process → Bool
has_crashed crashed = true
has_crashed (running m) = false

abbrev is_shut : Phase → Bool
is_shut shut = true
is_shut other = false

-- Some connection has closed its channel and has not left the map.
abbrev pub any_shut : List WsConnection → Bool
any_shut [] = false
any_shut (c ∷ cs) = is_shut c.phase || any_shut cs

fails-join_sent :
    (d : Option (WsConnection × ℕ)) (ds : Option (List WsConnection × ℕ))
    → fails (join_sent d ds) ≡ fails d || fails ds
unfolding fails
fails-join_sent none ds = refl
fails-join_sent (some d) none = refl
fails-join_sent (some d) (some ds) = refl

shut_lem : (p : Phase) (c : WsConnection) → Tidy p c → is_shut p ≡ c.stored && c.ended
shut_lem upgraded c t = ground arith
shut_lem admitted c t = ground arith
shut_lem refused c t = ground arith
shut_lem storing c t = ground arith
shut_lem activated c t = ground arith
shut_lem registered c t = ground arith
shut_lem serving c t = ground arith
shut_lem marked c t = ground arith
shut_lem shut c t = ground arith
shut_lem removed c t = ground arith
shut_lem left c t = ground arith

fails-send_stored :
    (msg : Text) (c : WsConnection) → fails (send_stored msg c) ≡ c.stored && c.ended
unfolding fails send_stored try_send
fails-send_stored msg c = ground arith

fails-broadcast_loop :
    (msg : Text) (cs : List WsConnection)
    → All IsSound cs
    → fails (broadcast_loop msg cs) ≡ any_shut cs
unfolding broadcast_loop fails
fails-broadcast_loop msg [] s = refl
fails-broadcast_loop msg (c ∷ cs) s =
    rw
      (
        fails-join_sent (send_stored msg c) (broadcast_loop msg cs),
        fails-send_stored msg c,
        fails-broadcast_loop msg cs s.1,
        shut_lem c.phase c s.0.tidy,
      )
      refl

broadcast_crashes :
    (msg : Text) (m : WsManager)
    → has_crashed (broadcast msg m) ≡ fails (broadcast_loop msg m.conns)
unfolding broadcast fails
broadcast_crashes msg m = ground arith

module _ (execute : Text → Text ⊎ Text) where
  -- In every state that can be reached, a broadcast panics exactly when some connection has closed its
  -- channel and has not yet left the map.
  pub broadcast-any_shut :
      (max_conns : ℕ) (m : WsManager)
      → Reach execute max_conns (running m)
      → (msg : Text) → has_crashed (broadcast msg m) ≡ any_shut m.conns
  broadcast-any_shut max_conns m r msg =
      broadcast_crashes msg m
      ∙ fails-broadcast_loop msg m.conns (Reach-IsWell execute max_conns (running m) r).sound

  -- In every state that can be reached, the reply to a message never panics, whichever connection it is for
  -- and however far that connection has closed, and it leaves the connection in or out of the map.
  pub handle_message-sent :
      (max_conns : ℕ) (m : WsManager)
      → Reach execute max_conns (running m)
      → (before after : List WsConnection) (c : WsConnection) → m.conns ≡ before ++ (c ∷ after)
      → (code : Text)
      → (d : WsConnection) × (lost : ℕ) × (handle_message execute code c ≡ some (d, lost))
        × (d.stored ≡ c.stored)
  unfolding handle_message
  handle_message-sent max_conns m r b a c e code =
      (let w = Reach-IsWell execute max_conns (running m) r in
        let sound = (All-append_inv IsSound b (c ∷ a) (subst (All IsSound) e w.sound)).1.0 in
        let (d, lost, k, s, t, same) = safe_send-Kept (reply execute code) c sound in
        (d, lost, k, t))

-- A Register that no other connection interrupts keeps the map within its limit: where the map is full it
-- refuses, and otherwise the map grows by the connection. This is for a connection that is not in the map.
pub register-count :
    (m : WsManager) (before after : List WsConnection) (c : WsConnection)
    → m.conns ≡ before ++ (c ∷ after)
    → c.stored ≡ false
    → count m.conns ≤ m.max_conns
    → ((count m.conns ≡ m.max_conns) × ((register_count m c).phase ≡ refused))
      ⊎ (((register_count m c).phase ≡ admitted)
          × (count (before ++ (register_store (register_count m c) ∷ after)) ≡ suc (count m.conns))
          × (suc (count m.conns) ≤ m.max_conns))
unfolding register_count count
register-count m b a c e s h =
    (let before : count m.conns ≡ count b + count a =
        ap count e ∙ count-append b (c ∷ a) ∙ ground arith in
      let after : count (b ++ (register_store (register_count m c) ∷ a)) ≡ count b + suc (count a) =
        count-append b _ in
      let grown : count (b ++ (register_store (register_count m c) ∷ a)) ≡ suc (count m.conns) =
        omega (arith, before, after) in
      elim (Bool-cases (leb m.max_conns (count m.conns))) [
        | inl full ↦ inl (ground arith, ground arith)
        | inr room ↦ inr (ground arith, grown, ground arith)
      ])
