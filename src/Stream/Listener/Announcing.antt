-- ===== src/Stream/Listener/Announcing.antt =====
-- The announcements of services/playback-stream/pulsefm_playback_stream/main.py that a listener is sent:
-- `_check_marker_events`.
use mathlib.Core.List.{◌++◌, append-nil, append_assoc}
use pulse_fm.Base.{
  ℕ, ◌≡◌, ◌∙◌, Option, none, some, List, [], ◌∷◌, arith, ltb, inl, inr, Option-cases, Bool-cases,
  if◌then◌else◌,
}
use pulse_fm.Base.Value.{ok}
use pulse_fm.Base.Action.{Result-cases}
use pulse_fm.Redis.{Commands}
use pulse_fm.Stream.Fetch.{get_state_snapshot_during, build_state_snapshot}
use pulse_fm.Stream.Fetch.Keeping.{check_fresh_lem}
use pulse_fm.Stream.Sse.{Event, song_changed, vote_closed, next_song_changed}
use pulse_fm.Stream.State.{Markers, set_snapshot}
use pulse_fm.Stream.Listener.{
  LoopState, Sending, Others, follow, check_invalidated, check_vote_closed, check_next_song_changed,
  check_marker_events,
}
use pulse_fm.Stream.{
  World, StreamState, Calls, Invalidated, VoteClosed, NextSongChanged, poll_vote_id,
}

-- The announcement of one kind that a listener has not been sent, if there is one.
unfoldable pub due_changeover : Option Invalidated → ℕ → List Event
due_changeover recorded marker = elim recorded [
  | none ↦ []
  | some e ↦ if ltb marker e.ts then song_changed e ∷ [] else []
]

unfoldable pub due_close : Option VoteClosed → ℕ → List Event
due_close recorded marker = elim recorded [
  | none ↦ []
  | some e ↦ if ltb marker e.ts then vote_closed e ∷ [] else []
]

unfoldable pub due_next_song : Option NextSongChanged → ℕ → List Event
due_next_song recorded marker = elim recorded [
  | none ↦ []
  | some e ↦ if ltb marker e.ts then next_song_changed e ∷ [] else []
]

-- The announcements later than the listener's markers, in the order in which they are sent.
unfoldable pub pending : StreamState → Markers → List Event
unfolding due_changeover due_close due_next_song
pending s m =
    due_changeover s.last_invalidated m.last_invalidated_at
    ++ (due_close s.last_vote_closed m.last_vote_closed_at
        ++ due_next_song s.last_next_song_changed m.last_next_song_changed_at)

-- A check ends with the loop's state, having sent the events `es`, and they are not due again; nothing that
-- another check looks at has changed.
record Announces {S : Type 0} (es : StreamState → Markers → List Event) (loop loop' : LoopState)
    (w w' : Sending S) : Type 0 where
  sends : w'.sent ≡ w.sent ++ es w.world.state loop.markers
  invalidated : w'.world.state.last_invalidated ≡ w.world.state.last_invalidated
  closed : w'.world.state.last_vote_closed ≡ w.world.state.last_vote_closed
  next_song : w'.world.state.last_next_song_changed ≡ w.world.state.last_next_song_changed
  settled : es w'.world.state loop'.markers ≡ []

module _ {S : Type 0} where
  -- Other handlers announce nothing.
  abbrev pub Silent : (World S → World S) → Type 0
  Silent f =
      (w : World S)
      → let s = (f w).state in
        (s.last_invalidated ≡ w.state.last_invalidated)
        × (s.last_vote_closed ≡ w.state.last_vote_closed)
        × (s.last_next_song_changed ≡ w.state.last_next_song_changed)

  pub record AreSilent (o : Others S) : Type 0 where
    pub before : Silent o.before
    pub after : Silent o.after
    pub sending : Silent o.sending

module _ {S : Type 0} (c : Commands S) where
  -- Reading the snapshot leaves what is announced as it was, while other handlers do.
  pub reads_snapshot :
      (before after : World S → World S)
      → Silent before
      → Silent after
      → (calls : Calls) (w : World S)
      → let s = (get_state_snapshot_during c before after calls w).1.state in
        (s.last_invalidated ≡ w.state.last_invalidated)
        × (s.last_vote_closed ≡ w.state.last_vote_closed)
        × (s.last_next_song_changed ≡ w.state.last_next_song_changed)
  unfolding get_state_snapshot_during set_snapshot build_state_snapshot
  reads_snapshot before after quiet_before quiet_after calls w =
      let (r, n, checked) = check_fresh_lem w.state.snapshot_cache w in
      let w1 = record w { utc = record (w.utc) { used = n } } in
      let w2 = before w1 in ground (arith, checked, quiet_before w1, quiet_after w2)

  invalidated_lem :
      (o : Others S)
      → AreSilent o
      → (calls : Calls) (loop loop' : LoopState) (w w' : Sending S)
      → check_invalidated c o calls loop w ≡ (ok loop', w')
      → Announces (λ s m. due_changeover s.last_invalidated m.last_invalidated_at) loop loop' w w'
        × (loop'.markers.last_vote_closed_at ≡ loop.markers.last_vote_closed_at)
        × (loop'.markers.last_next_song_changed_at ≡ loop.markers.last_next_song_changed_at)
  unfolding check_invalidated follow due_changeover
  invalidated_lem o silent calls loop loop' w w' ends =
      elim (Option-cases w.world.state.last_invalidated) [
        | inl nothing ↦ ground (arith, append-nil w.sent)
        | inr (e, recorded) ↦ elim (Bool-cases (ltb loop.markers.last_invalidated_at e.ts)) [
          | inr sent ↦ ground (arith, append-nil w.sent)
          | inl fresh ↦
              let (r, w1) = get_state_snapshot_during c o.before o.after calls w.world in
              let same = reads_snapshot o.before o.after silent.before silent.after calls w.world in
              elim (Result-cases r) [
                | inr (x, raises) ↦ absurd (ground arith)
                | inl (snapshot, reads) ↦ elim (Option-cases (poll_vote_id snapshot)) [
                  | inl nobody ↦ ground (arith, same, silent.sending w1)
                  | inr (v, named) ↦ ground (arith, same, silent.sending w1)
                ]
              ]
        ]
      ]

module _ {S : Type 0} where
  closed_lem :
      (o : Others S)
      → AreSilent o
      → (loop loop' : LoopState) (w w' : Sending S) → check_vote_closed o loop w ≡ (ok loop', w')
      → Announces (λ s m. due_close s.last_vote_closed m.last_vote_closed_at) loop loop' w w'
        × (loop'.markers.last_invalidated_at ≡ loop.markers.last_invalidated_at)
        × (loop'.markers.last_next_song_changed_at ≡ loop.markers.last_next_song_changed_at)
  unfolding check_vote_closed due_close
  closed_lem o silent loop loop' w w' ends = elim (Option-cases w.world.state.last_vote_closed) [
    | inl nothing ↦ ground (arith, append-nil w.sent)
    | inr (e, recorded) ↦ elim (Bool-cases (ltb loop.markers.last_vote_closed_at e.ts)) [
      | inr sent ↦ ground (arith, append-nil w.sent)
      | inl fresh ↦ ground (arith, silent.sending w.world)
    ]
  ]

  next_song_lem :
      (o : Others S)
      → AreSilent o
      → (loop loop' : LoopState) (w w' : Sending S)
      → check_next_song_changed o loop w ≡ (ok loop', w')
      → Announces
          (λ s m. due_next_song s.last_next_song_changed m.last_next_song_changed_at)
          loop
          loop'
          w
          w'
        × (loop'.markers.last_invalidated_at ≡ loop.markers.last_invalidated_at)
        × (loop'.markers.last_vote_closed_at ≡ loop.markers.last_vote_closed_at)
  unfolding check_next_song_changed due_next_song
  next_song_lem o silent loop loop' w w' ends =
      elim (Option-cases w.world.state.last_next_song_changed) [
        | inl nothing ↦ ground (arith, append-nil w.sent)
        | inr (e, recorded) ↦ elim (Bool-cases (ltb loop.markers.last_next_song_changed_at e.ts)) [
          | inr sent ↦ ground (arith, append-nil w.sent)
          | inl fresh ↦ ground (arith, silent.sending w.world)
        ]
      ]

module _ {S : Type 0} (c : Commands S) (o : Others S) (calls : Calls) (loop : LoopState)
    (w : Sending S) where
  -- With nothing due, a check does nothing.
  pub quiet :
      pending w.world.state loop.markers ≡ [] → check_marker_events c o calls loop w ≡ (ok loop, w)
  unfolding pending check_marker_events check_invalidated check_vote_closed check_next_song_changed
      due_changeover due_close due_next_song
  quiet nothing = elim (Option-cases w.world.state.last_invalidated) [
    | inl no1 ↦ ground arith
    | inr (e1, is1) ↦ ground arith
  ]

module _ {S : Type 0} (c : Commands S) where
  -- When the check of the announcements ends, and other handlers announced nothing during it, the listener
  -- was sent those that are later than its markers, each once and in order, and the check, repeated before
  -- anything new is announced, does nothing, whatever other handlers do then.
  pub check_marker_events_once :
      (o : Others S)
      → AreSilent o
      → (calls : Calls) (loop loop' : LoopState) (w w' : Sending S)
      → check_marker_events c o calls loop w ≡ (ok loop', w')
      → (w'.sent ≡ w.sent ++ pending w.world.state loop.markers)
        × ((others : Others S) (again : Calls)
            → check_marker_events c others again loop' w' ≡ (ok loop', w'))
  unfolding check_marker_events pending
  check_marker_events_once o silent calls loop loop' w w' ends =
      elim (Result-cases (check_invalidated c o calls loop w).0) [
        | inr (x, raises) ↦ absurd (ground arith)
        | inl (loop1, first) ↦
            let w1 = (check_invalidated c o calls loop w).1 in
            let r2 = check_vote_closed o loop1 w1 in
            elim (Result-cases r2.0) [
              | inr (x, raises) ↦ absurd (ground arith)
              | inl (loop2, second) ↦
                  let w2 = r2.1 in
                  let third : check_next_song_changed o loop2 w2 ≡ (ok loop', w') = ground arith in
                  let (a1, b1, d1) =
                    invalidated_lem c o silent calls loop loop1 w w1 (ground arith) in
                  let (a2, b2, d2) = closed_lem o silent loop1 loop2 w1 w2 (ground arith) in
                  let (a3, b3, d3) = next_song_lem o silent loop2 loop' w2 w' third in
                  let s = w.world.state in
                  let m = loop.markers in
                  let e1 = due_changeover s.last_invalidated m.last_invalidated_at in
                  let e2 = due_close s.last_vote_closed m.last_vote_closed_at in
                  let e3 = due_next_song s.last_next_song_changed m.last_next_song_changed_at in
                  let sends : w'.sent ≡ ((w.sent ++ e1) ++ e2) ++ e3 = ground arith in
                  let settled : pending w'.world.state loop'.markers ≡ [] = ground arith in
                  (
                    sends ∙ append_assoc (w.sent ++ e1) e2 e3 ∙ append_assoc w.sent e1 (e2 ++ e3),
                    λ others again. quiet c others again loop' w' settled,
                  )
            ]
      ]
