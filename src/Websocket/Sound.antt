-- ===== src/Websocket/Sound.antt =====
-- lsengine/internal/websocket/ws.go: every interleaving of the goroutines of all connections keeps the flags
-- of a connection, its queue and the counters in order.
use lsengine_js.Base.{
  length-append_end, suc, if◌then◌else◌, ℕ, ◌+◌, ◌≤◌, ◌≡◌, refl, sym, subst, ◌⊎◌, inl, inr, Bool,
  true, false, Option, none, some, List, [], ◌∷◌, ◌++◌, arith, ltb, length, All, Text, Bool-cases,
  Option-cases,
}
use lsengine_js.Websocket.{
  Phase, upgraded, admitted, refused, registered, serving, marked, shut, storing, activated,
  removed, left, WsConnection, WsManager, Process, running, crashed, new_ws_manager, new_connection,
  channel_size, count, register_count, register_store, count_active, count_total, unregister,
  count_inactive, try_send, safe_send, handle_message, broadcast, write_frame,
}

-- A message is handled by a goroutine that outlives the read loop, so also after the connection has left.
abbrev pub has_served : Phase → Bool
has_served serving = true
has_served marked = true
has_served shut = true
has_served removed = true
has_served left = true
has_served other = false

module _ (execute : Text → Text ⊎ Text) where
  -- One step of a goroutine of connection `c` of manager `m`.
  pub data Move (m : WsManager) (c : WsConnection) : WsConnection → WsManager → Type 0 where
    counts : c.phase ≡ upgraded → Move m c (register_count m c) m
    stores : c.phase ≡ admitted → Move m c (register_store c) m
    activates : c.phase ≡ storing → Move m c (record c { phase = activated }) (count_active m)
    totals : c.phase ≡ activated → Move m c (record c { phase = registered }) (count_total m)
    welcomes : c.phase ≡ registered → Move m c (record c { phase = serving; writing = true }) m
    hangs_up : c.phase ≡ registered → Move m c (unregister c) m
    marks : c.phase ≡ serving → Move m c (record c { phase = marked; closed = true }) m
    shuts : c.phase ≡ marked → Move m c (record c { phase = shut; ended = true }) m
    leaves : c.phase ≡ shut → Move m c (unregister c) m
    deactivates : c.phase ≡ removed → Move m c (record c { phase = left }) (count_inactive m)
    replies :
        (code : Text) {d : WsConnection} {lost : ℕ}
        → has_served c.phase ≡ true
        → handle_message execute code c ≡ some (d, lost)
        → Move m c d (record m { dropped = m.dropped + lost })
    writes :
        {frame : Text} {queue : List Text}
        → c.writing ≡ true
        → write_frame c.queue ≡ some (frame, queue)
        → Move m c (record c { queue = queue }) m
    writer_stops : c.writing ≡ true → Move m c (record c { writing = false }) m

  pub data Step (m : WsManager) : Process → Type 0 where
    upgrades : Step m (running (record m { conns = m.conns ++ (new_connection ∷ []) }))
    moves :
        (before after : List WsConnection) {c d : WsConnection} {n : WsManager}
        → m.conns ≡ before ++ (c ∷ after)
        → Move m c d n
        → Step m (running (record n { conns = before ++ (d ∷ after) }))
    reply_panics :
        (before after : List WsConnection) (c : WsConnection) (code : Text)
        → m.conns ≡ before ++ (c ∷ after)
        → has_served c.phase ≡ true
        → handle_message execute code c ≡ none
        → Step m crashed
    broadcasts : (msg : Text) → Step m (broadcast msg m)

  pub data Reach (max_conns : ℕ) : Process → Type 0 where
    starts : Reach max_conns (running (new_ws_manager max_conns))
    later :
        {m : WsManager} {p : Process} → Reach max_conns (running m) → Step m p → Reach max_conns p

abbrev pub Tidy : Phase → WsConnection → Type 0
Tidy storing c = (c.ended ≡ false) × (c.closed ≡ false) × (c.stored ≡ true)
Tidy activated c = (c.ended ≡ false) × (c.closed ≡ false) × (c.stored ≡ true)
Tidy registered c = (c.ended ≡ false) × (c.closed ≡ false) × (c.stored ≡ true)
Tidy serving c = (c.ended ≡ false) × (c.closed ≡ false) × (c.stored ≡ true)
Tidy marked c = (c.ended ≡ false) × (c.closed ≡ true) × (c.stored ≡ true)
Tidy shut c = (c.ended ≡ true) × (c.closed ≡ true) × (c.stored ≡ true)
Tidy removed c = (c.ended ≡ c.closed) × (c.stored ≡ false)
Tidy left c = (c.ended ≡ c.closed) × (c.stored ≡ false)
Tidy other c = (c.ended ≡ false) × (c.closed ≡ false) × (c.stored ≡ false)

-- The channel is closed only after the flag, and the connection is in the map from the store of Register to
-- the delete of Unregister.
pub record IsSound (c : WsConnection) : Type 0 where
  pub tidy : Tidy c.phase c
  pub bounded : length c.queue ≤ channel_size

-- Register has counted it as active, and Unregister has not yet taken that back.
abbrev pub is_active : Phase → Bool
is_active activated = true
is_active registered = true
is_active serving = true
is_active marked = true
is_active shut = true
is_active removed = true
is_active other = false

-- Register has counted it in the total.
abbrev pub is_counted : Phase → Bool
is_counted registered = true
is_counted serving = true
is_counted marked = true
is_counted shut = true
is_counted removed = true
is_counted left = true
is_counted other = false

-- Register or Unregister is between its change of the map and its last counter.
abbrev pub is_between : Phase → Bool
is_between storing = true
is_between activated = true
is_between removed = true
is_between other = false

-- How many connections are in the phases of a test.
unfoldable pub tally : (Phase → Bool) → List WsConnection → ℕ
tally test [] = 0
tally test (c ∷ cs) = if test c.phase then suc (tally test cs) else tally test cs

-- Each counter is the number of the connections that have been counted. So while no Register and no Unregister
-- is between its change of the map and its last counter, the active connections are those in the map, and at
-- most the total.
pub record IsWell (m : WsManager) : Type 0 where
  pub sound : All IsSound m.conns
  pub active_count : m.active ≡ tally is_active m.conns
  pub total_count : m.total ≡ tally is_counted m.conns
  pub at_rest : tally is_between m.conns ≡ 0 → (m.active ≡ count m.conns) × (m.active ≤ m.total)

-- A channel is closed only behind the flag.
pub ended-closed : (c : WsConnection) → IsSound c → c.ended ≡ true → c.closed ≡ true
ended-closed c s e = go c.phase s.tidy
  where
    go : (p : Phase) → Tidy p c → c.closed ≡ true
    go upgraded t = absurd (ground arith)
    go admitted t = absurd (ground arith)
    go storing t = absurd (ground arith)
    go activated t = absurd (ground arith)
    go refused t = absurd (ground arith)
    go registered t = absurd (ground arith)
    go serving t = absurd (ground arith)
    go marked t = t.1
    go shut t = t.1
    go removed t = ground arith
    go left t = ground arith

push : Text → WsConnection → WsConnection
push msg c = record c { queue = c.queue ++ (msg ∷ []) }

-- The queue and the writer have no part in the flags.
pub Tidy-queue :
    (p : Phase) (c : WsConnection) (queue : List Text) (writing : Bool)
    → Tidy p c
    → Tidy p (record c { queue = queue; writing = writing })
Tidy-queue storing c queue writing t = t
Tidy-queue activated c queue writing t = t
Tidy-queue registered c queue writing t = t
Tidy-queue serving c queue writing t = t
Tidy-queue marked c queue writing t = t
Tidy-queue shut c queue writing t = t
Tidy-queue removed c queue writing t = t
Tidy-queue left c queue writing t = t
Tidy-queue other c queue writing t = t

push-IsSound :
    (msg : Text) (c : WsConnection)
    → IsSound c
    → ltb (length c.queue) channel_size ≡ true
    → IsSound (push msg c)
unfolding push
push-IsSound msg c s h = record {
  tidy = Tidy-queue c.phase c (c.queue ++ (msg ∷ [])) c.writing s.tidy;
  bounded = rw (length-append_end c.queue msg) (ground arith);
}

-- The connection after a send is sound, and in the map if it was.
abbrev pub Kept : WsConnection → Option (WsConnection × ℕ) → Type 0
Kept c none = c.ended ≡ true
Kept c (some (d, lost)) = IsSound d × (d.stored ≡ c.stored) × (d.phase ≡ c.phase)

pub try_send-Kept : (msg : Text) (c : WsConnection) → IsSound c → Kept c (try_send msg c)
unfolding try_send push
try_send-Kept msg c s = elim (Bool-cases c.ended) [
  | inl e ↦ (let done : try_send msg c ≡ none = ground arith in subst (Kept c) (sym done) e)
  | inr e ↦ elim (Bool-cases (ltb (length c.queue) channel_size)) [
    | inl h ↦
        (let done : try_send msg c ≡ some (push msg c, 0) = ground arith in
          subst (Kept c) (sym done) (push-IsSound msg c s h, refl, refl))
    | inr h ↦
        (let done : try_send msg c ≡ some (c, 1) = ground arith in
          subst (Kept c) (sym done) (s, refl, refl))
  ]
]

pub safe_send-Kept :
    (msg : Text) (c : WsConnection)
    → IsSound c
    → (d : WsConnection) × (lost : ℕ) × (safe_send msg c ≡ some (d, lost))
      × IsSound d
      × (d.stored ≡ c.stored)
      × (d.phase ≡ c.phase)
unfolding safe_send
safe_send-Kept msg c s = elim (Bool-cases c.closed) [
  | inl e ↦ (c, 0, ground arith, s, refl, refl)
  | inr e ↦ elim (Option-cases (try_send msg c)) [
    | inl h ↦ absurd (ground (arith, ended-closed c s (subst (Kept c) h (try_send-Kept msg c s))))
    | inr ((d, lost), h) ↦
        (let k = subst (Kept c) h (try_send-Kept msg c s) in
          let done : safe_send msg c ≡ some (d, lost) = ground arith in
          (d, lost, done, k.0, k.1, k.2))
  ]
]
