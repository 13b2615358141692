-- ===== src/Websocket/Tally.antt =====
-- lsengine/internal/websocket/ws.go: what every state that can be reached satisfies.
use mathlib.Core.Option.{some-injective}
use lsengine_js.Base.{
  All-append_inv, ℕ, zero, suc, ◌+◌, ◌-◌, ◌≤◌, ◌≡◌, refl, sym, ◌∙◌, ap, subst, ◌⊎◌, inl, inr, Bool,
  true, false, Option, none, some, List, [], ◌∷◌, ◌++◌, arith, if◌then◌else◌, leb, length, All,
  All-append, Text, Bool-cases, Option-cases,
}
use lsengine_js.Websocket.{
  Phase, upgraded, admitted, refused, storing, activated, registered, serving, marked, shut,
  removed, left, WsConnection, WsManager, Process, running, crashed, new_connection, count,
  register_count, try_send, reply, handle_message, send_stored, join_sent, broadcast_loop,
  broadcast, write_frame, drain, min_ten,
}
use lsengine_js.Websocket.Sound.{
  Move, counts, stores, activates, totals, deactivates, is_active, is_counted, is_between, tally,
  welcomes, hangs_up, marks, shuts, leaves, replies, writes, writer_stops, Step, upgrades, moves,
  reply_panics, broadcasts, Reach, starts, later, Tidy, IsSound, IsWell, Kept, Tidy-queue,
  try_send-Kept, safe_send-Kept,
}

-- How a counter follows a step of one connection: it enters the phases of the test, leaves them, or neither.
abbrev Shift : (Phase → Bool) → WsConnection → WsConnection → ℕ → ℕ → Type 0
Shift test c d before after =
    ((test d.phase ≡ test c.phase) × (after ≡ before))
    ⊎ ((test c.phase ≡ false) × (test d.phase ≡ true) × (after ≡ before + 1))
    ⊎ ((test c.phase ≡ true) × (test d.phase ≡ false) × (after ≡ before - 1))

-- How both counters follow it.
abbrev Shifts : WsManager → WsConnection → WsConnection → WsManager → Type 0
Shifts m c d n = Shift is_active c d m.active n.active × Shift is_counted c d m.total n.total

at_phase : {p : Phase} (c : WsConnection) → IsSound c → c.phase ≡ p → Tidy p c
at_phase c s h = subst (λ p. Tidy p c) h s.tidy

drain-length :
    (n : ℕ) (queue : List Text) (frame : Text) → length (drain n queue frame).1 ≤ length queue
unfolding drain
drain-length zero queue frame = omega arith
drain-length (suc n) [] frame = drain-length n [] _
drain-length (suc n) (msg ∷ queue) frame =
    omega (arith, drain-length n queue (frame ++ (b'\n' ∷ msg)))

write_frame-length :
    (queue rest : List Text) (frame : Text)
    → write_frame queue ≡ some (frame, rest)
    → length rest ≤ length queue
unfolding write_frame
write_frame-length [] rest frame h = absurd (ground arith)
write_frame-length (msg ∷ queue) rest frame h =
    ground (arith, drain-length (min_ten (length queue)) queue msg)

Tidy-counted :
    (full : Bool) (c : WsConnection)
    → Tidy upgraded c
    → Tidy
        (if full then refused else admitted)
        (record c { phase = if full then refused else admitted })
Tidy-counted true c t = t
Tidy-counted false c t = t

counted_phase :
    (full : Bool)
    → (is_active (if full then refused else admitted) ≡ false)
      × (is_counted (if full then refused else admitted) ≡ false)
counted_phase true = (refl, refl)
counted_phase false = (refl, refl)

module _ (execute : Text → Text ⊎ Text) where
  Move-IsSound :
      (m : WsManager) (c : WsConnection) {n : WsManager} {d : WsConnection}
      → IsSound c
      → Move execute m c d n
      → IsSound d × Shifts m c d n
  unfolding register_count handle_message
  Move-IsSound m c s (counts h) = (
    record {
      tidy = Tidy-counted (leb m.max_conns (count m.conns)) c (at_phase c s h);
      bounded = s.bounded;
    },
    (
      inl ((counted_phase (leb m.max_conns (count m.conns))).0 ∙ sym (ap is_active h), refl),
      inl ((counted_phase (leb m.max_conns (count m.conns))).1 ∙ sym (ap is_counted h), refl),
    ),
  )
  Move-IsSound m c s (stores h) =
      (let t = at_phase c s h in
        (
          record { tidy = (t.0, t.1, refl); bounded = s.bounded },
          (inl (sym (ap is_active h), refl), inl (sym (ap is_counted h), refl)),
        ))
  Move-IsSound m c s (activates h) = (
    record { tidy = at_phase c s h; bounded = s.bounded },
    (inr (inl (ap is_active h, refl, refl)), inl (sym (ap is_counted h), refl)),
  )
  Move-IsSound m c s (totals h) = (
    record { tidy = at_phase c s h; bounded = s.bounded },
    (inl (sym (ap is_active h), refl), inr (inl (ap is_counted h, refl, refl))),
  )
  Move-IsSound m c s (welcomes h) = (
    record { tidy = at_phase c s h; bounded = s.bounded },
    (inl (sym (ap is_active h), refl), inl (sym (ap is_counted h), refl)),
  )
  Move-IsSound m c s (hangs_up h) =
      (let t = at_phase c s h in
        (
          record { tidy = (t.0 ∙ sym t.1, refl); bounded = s.bounded },
          (inl (sym (ap is_active h), refl), inl (sym (ap is_counted h), refl)),
        ))
  Move-IsSound m c s (marks h) =
      (let t = at_phase c s h in
        (
          record { tidy = (t.0, refl, t.2); bounded = s.bounded },
          (inl (sym (ap is_active h), refl), inl (sym (ap is_counted h), refl)),
        ))
  Move-IsSound m c s (shuts h) =
      (let t = at_phase c s h in
        (
          record { tidy = (refl, t.1, t.2); bounded = s.bounded },
          (inl (sym (ap is_active h), refl), inl (sym (ap is_counted h), refl)),
        ))
  Move-IsSound m c s (leaves h) =
      (let t = at_phase c s h in
        (
          record { tidy = (t.0 ∙ sym t.1, refl); bounded = s.bounded },
          (inl (sym (ap is_active h), refl), inl (sym (ap is_counted h), refl)),
        ))
  Move-IsSound m c s (deactivates h) = (
    record { tidy = at_phase c s h; bounded = s.bounded },
    (inr (inr (ap is_active h, refl, refl)), inl (sym (ap is_counted h), refl)),
  )
  Move-IsSound m c s (replies code {d} {lost} h e) =
      (let (d2, lost2, k, sound, kept, phase) = safe_send-Kept (reply execute code) c s in
        let same : (d2, lost2) ≡ (d, lost) = some-injective _ _ (sym k ∙ e) in
        subst (λ x. IsSound x.0 × Shifts m c x.0 m) same
          (sound, (inl (ap is_active phase, refl), inl (ap is_counted phase, refl))))
  Move-IsSound m c s (writes {frame} {queue} h e) = (
    record {
      tidy = Tidy-queue c.phase c queue c.writing s.tidy;
      bounded = omega (arith, s.bounded, write_frame-length c.queue queue frame e);
    },
    (inl (refl, refl), inl (refl, refl)),
  )
  Move-IsSound m c s (writer_stops h) = (
    record { tidy = Tidy-queue c.phase c c.queue false s.tidy; bounded = s.bounded },
    (inl (refl, refl), inl (refl, refl)),
  )

tally-append :
    (test : Phase → Bool) (b a : List WsConnection)
    → tally test (b ++ a) ≡ tally test b + tally test a
unfolding tally
tally-append test [] a = omega arith
tally-append test (c ∷ b) a = ground (arith, tally-append test b a)

pub count-append : (b a : List WsConnection) → count (b ++ a) ≡ count b + count a
unfolding count
count-append [] a = omega arith
count-append (c ∷ b) a = ground (arith, count-append b a)

-- What a broadcast leaves: sound connections, as many of them in each phase.
abbrev Sent : List WsConnection → Option (List WsConnection × ℕ) → Type 0
Sent cs none = Unit
Sent cs (some (ds, lost)) = All IsSound ds × ((test : Phase → Bool) → tally test ds ≡ tally test cs)

-- What a broadcast leaves of one connection.
abbrev SentOne : WsConnection → Option (WsConnection × ℕ) → Type 0
SentOne c none = Unit
SentOne c (some d) = IsSound d.0 × (d.0.phase ≡ c.phase)

send_stored-SentOne : (msg : Text) (c : WsConnection) → IsSound c → SentOne c (send_stored msg c)
unfolding send_stored
send_stored-SentOne msg c s = elim (Option-cases (send_stored msg c)) [
  | inl e ↦ subst (SentOne c) (sym e) tt
  | inr (d, e) ↦ elim (Bool-cases c.stored) [
    | inl b ↦
        (let k : try_send msg c ≡ some d = ground arith in
          subst (SentOne c) (sym e)
            (let kept = subst (Kept c) k (try_send-Kept msg c s) in (kept.0, kept.2)))
    | inr b ↦
        (let k : Path (Option (WsConnection × ℕ)) (send_stored msg c) (some (c, 0)) =
            ground arith in
          subst (SentOne c) (sym k) (s, refl))
  ]
]

join_sent-Sent :
    (c : WsConnection) (cs : List WsConnection) (d : Option (WsConnection × ℕ))
    (ds : Option (List WsConnection × ℕ))
    → SentOne c d
    → Sent cs ds
    → Sent (c ∷ cs) (join_sent d ds)
unfolding tally
join_sent-Sent c cs none ds s t = tt
join_sent-Sent c cs (some d) none s t = tt
join_sent-Sent c cs (some d) (some ds) s t = ((s.0, t.0), λ test. rw (tally, s.1, t.1 test) refl)

broadcast_loop-Sent :
    (msg : Text) (cs : List WsConnection) → All IsSound cs → Sent cs (broadcast_loop msg cs)
unfolding broadcast_loop
broadcast_loop-Sent msg [] s = (tt, λ test. refl)
broadcast_loop-Sent msg (c ∷ cs) s =
    join_sent-Sent c cs _ _ (send_stored-SentOne msg c s.0) (broadcast_loop-Sent msg cs s.1)

-- A connection that is not between two steps is active where it is in the map, and counted where it is active.
rest_of :
    (p : Phase) (c : WsConnection)
    → Tidy p c
    → is_between p ≡ false
    → (is_active p ≡ c.stored) × (is_active p ≡ true → is_counted p ≡ true)
rest_of upgraded c t h = (sym t.2, λ k. absurd (ground (arith, k)))
rest_of admitted c t h = (sym t.2, λ k. absurd (ground (arith, k)))
rest_of refused c t h = (sym t.2, λ k. absurd (ground (arith, k)))
rest_of storing c t h = absurd (ground (arith, h))
rest_of activated c t h = absurd (ground (arith, h))
rest_of registered c t h = (sym t.2, λ k. refl)
rest_of serving c t h = (sym t.2, λ k. refl)
rest_of marked c t h = (sym t.2, λ k. refl)
rest_of shut c t h = (sym t.2, λ k. refl)
rest_of removed c t h = absurd (ground (arith, h))
rest_of left c t h = (sym t.1, λ k. absurd (ground (arith, k)))

rest_tally :
    (cs : List WsConnection)
    → All IsSound cs
    → tally is_between cs ≡ 0
    → (tally is_active cs ≡ count cs) × (tally is_active cs ≤ tally is_counted cs)
unfolding tally count
rest_tally [] s h = (refl, omega arith)
rest_tally (c ∷ cs) s h = elim (Bool-cases (is_between c.phase)) [
  | inl e ↦ absurd (ground (arith, e, h))
  | inr e ↦
      (let (same, counted) = rest_of c.phase c s.0.tidy e in
        let (all, few) = rest_tally cs s.1 (ground (arith, e, h)) in
        (ground (arith, same, all), ground (arith, counted, few)))
]

at_rest_lem :
    (cs : List WsConnection) (active total : ℕ)
    → All IsSound cs
    → active ≡ tally is_active cs
    → total ≡ tally is_counted cs
    → tally is_between cs ≡ 0
    → (active ≡ count cs) × (active ≤ total)
at_rest_lem cs active total s a t h =
    (let (all, few) = rest_tally cs s h in (a ∙ all, omega (arith, a, t, few)))

-- What a process that runs has of the map.
abbrev pub IsWellProcess : Process → Type 0
IsWellProcess crashed = Unit
IsWellProcess (running m) = IsWell m

broadcast-IsWellProcess : (msg : Text) (m : WsManager) → IsWell m → IsWellProcess (broadcast msg m)
unfolding broadcast
broadcast-IsWellProcess msg m w =
    go (broadcast_loop msg m.conns) (broadcast_loop-Sent msg m.conns w.sound)
  where
    go :
        (r : Option (List WsConnection × ℕ))
        → Sent m.conns r
        → IsWellProcess (elim r [
          | none ↦ crashed
          | some (conns, lost) ↦ running (record m { conns = conns; dropped = m.dropped + lost })
        ])
    go none s = tt
    go (some (ds, lost)) s =
        (let active = w.active_count ∙ sym (s.1 is_active) in
          let total = w.total_count ∙ sym (s.1 is_counted) in
          record {
            sound = s.0;
            active_count = active;
            total_count = total;
            at_rest = at_rest_lem ds m.active m.total s.0 active total;
          })

Shift-turn :
    (test : Phase → Bool) (b a : List WsConnection) (c d : WsConnection) (before after : ℕ)
    → Shift test c d before after
    → before ≡ tally test (b ++ (c ∷ a))
    → after ≡ tally test (b ++ (d ∷ a))
unfolding tally
Shift-turn test b a c d before after t h =
    ground (arith, tally-append test b (c ∷ a), tally-append test b (d ∷ a))

module _ (execute : Text → Text ⊎ Text) where
  Step-IsWellProcess : (m : WsManager) {p : Process} → IsWell m → Step execute m p → IsWellProcess p
  unfolding tally
  Step-IsWellProcess m w upgrades =
      (let sound : All IsSound (m.conns ++ (new_connection ∷ [])) =
          All-append IsSound m.conns _ w.sound
            (record { tidy = (refl, refl, refl); bounded = omega arith }, tt) in
        let active : m.active ≡ tally is_active (m.conns ++ (new_connection ∷ [])) =
          ground (arith, tally-append is_active m.conns (new_connection ∷ []), w.active_count) in
        let total : m.total ≡ tally is_counted (m.conns ++ (new_connection ∷ [])) =
          ground (arith, tally-append is_counted m.conns (new_connection ∷ []), w.total_count) in
        record {
          sound = sound;
          active_count = active;
          total_count = total;
          at_rest = at_rest_lem _ m.active m.total sound active total;
        })
  Step-IsWellProcess m w (moves b a {c} {d} {n} e move) =
      (let (sb, sca) = All-append_inv IsSound b (c ∷ a) (subst (All IsSound) e w.sound) in
        let (sd, shifts) = Move-IsSound execute m c sca.0 move in
        let sound : All IsSound (b ++ (d ∷ a)) = All-append IsSound b (d ∷ a) sb (sd, sca.1) in
        let active =
          Shift-turn is_active b a c d m.active n.active shifts.0
            (w.active_count ∙ ap (tally is_active) e) in
        let total =
          Shift-turn is_counted b a c d m.total n.total shifts.1
            (w.total_count ∙ ap (tally is_counted) e) in
        record {
          sound = sound;
          active_count = active;
          total_count = total;
          at_rest = at_rest_lem _ n.active n.total sound active total;
        })
  Step-IsWellProcess m w (reply_panics b a c code e h k) = tt
  Step-IsWellProcess m w (broadcasts msg) = broadcast-IsWellProcess msg m w

  -- Whatever the goroutines of the connections do, in any order: each connection closes its channel only
  -- behind the flag, its queue stays within the channel, and each counter is the number of the connections
  -- that have been counted. While no Register and no Unregister is between its change of the map and its last
  -- counter, the counter of active connections is the number of those in the map and at most the total.
  pub Reach-IsWell : (max_conns : ℕ) (p : Process) → Reach execute max_conns p → IsWellProcess p
  unfolding count tally
  Reach-IsWell max_conns p starts = record {
    sound = tt;
    active_count = refl;
    total_count = refl;
    at_rest = λ none_between. (refl, omega arith);
  }
  Reach-IsWell max_conns p (later {m} r step) =
      Step-IsWellProcess m (Reach-IsWell max_conns (running m) r) step
