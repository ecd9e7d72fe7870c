-- ===== src/Stream/Listener/Overtaking.antt =====
-- A changeover that is announced while `_check_marker_events` of
-- services/playback-stream/pulsefm_playback_stream/main.py reads the snapshot for the one before.
use mathlib.Core.List.{◌++◌}
use pulse_fm.Base.{◌≡◌, ◌∙◌, ap, ◌<◌, some, [], ◌∷◌, arith, inl, inr, Option-cases}
use pulse_fm.Base.Value.{ok}
use pulse_fm.Base.Action.{Result-cases}
use pulse_fm.Redis.{Commands}
use pulse_fm.Stream.Fetch.{get_state_snapshot_during}
use pulse_fm.Stream.Sse.{song_changed}
use pulse_fm.Stream.Listener.{LoopState, Sending, Others, follow, check_invalidated}
use pulse_fm.Stream.Listener.Announcing.{Silent, AreSilent, reads_snapshot}
use pulse_fm.Stream.{Calls, Invalidated, poll_vote_id}

module _ {S : Type 0} (c : Commands S) where
  -- The check sends the changeover that is recorded when the snapshot has been read, and marks the one that
  -- it found first.
  sends_recorded :
      (o : Others S)
      → Silent o.sending
      → (calls : Calls) (loop loop' : LoopState) (w w' : Sending S) (e e2 : Invalidated)
      → check_invalidated c o calls loop w ≡ (ok loop', w')
      → w.world.state.last_invalidated ≡ some e
      → loop.markers.last_invalidated_at < e.ts
      → (get_state_snapshot_during c o.before o.after calls w.world).1.state.last_invalidated
        ≡ some e2
      → (w'.sent ≡ w.sent ++ song_changed e2 ∷ [])
        × (w'.world.state.last_invalidated ≡ some e2)
        × (loop'.markers.last_invalidated_at ≡ e.ts)
  unfolding check_invalidated follow
  sends_recorded o silent calls loop loop' w w' e e2 ends found fresh overtaken =
      let (r, w1) = get_state_snapshot_during c o.before o.after calls w.world in
      elim (Result-cases r) [
        | inr (x, raises) ↦ absurd (ground arith)
        | inl (snapshot, reads) ↦ elim (Option-cases (poll_vote_id snapshot)) [
          | inl nobody ↦ ground (arith, silent w1)
          | inr (v, named) ↦ ground (arith, silent w1)
        ]
      ]

  -- A changeover that is recorded while the check reads the snapshot for an earlier one, which the listener
  -- has not been sent, is sent in the earlier one's place, and is sent again by the next check, during which
  -- nothing is announced; the earlier one is sent by neither.
  pub check_invalidated_doubles :
      (o others : Others S)
      → Silent o.sending
      → AreSilent others
      → (calls again : Calls) (loop loop1 loop2 : LoopState) (w w1 w2 : Sending S)
      → (e e2 : Invalidated) → check_invalidated c o calls loop w ≡ (ok loop1, w1)
      → check_invalidated c others again loop1 w1 ≡ (ok loop2, w2)
      → w.world.state.last_invalidated ≡ some e
      → loop.markers.last_invalidated_at < e.ts
      → (get_state_snapshot_during c o.before o.after calls w.world).1.state.last_invalidated
        ≡ some e2
      → e.ts < e2.ts
      → w2.sent ≡ (w.sent ++ song_changed e2 ∷ []) ++ song_changed e2 ∷ []
  check_invalidated_doubles o others silent silent2 calls again loop loop1 loop2 w w1 w2 e e2 first
        second found fresh overtaken later =
      let (sent, kept, marked) =
        sends_recorded o silent calls loop loop1 w w1 e e2 first found fresh overtaken in
      let unread =
        reads_snapshot c others.before others.after silent2.before silent2.after again w1.world in
      let still_due : loop1.markers.last_invalidated_at < e2.ts = ground arith in
      let twice =
        sends_recorded others silent2.sending again loop1 loop2 w1 w2 e2 e2 second kept still_due
          (unread.0 ∙ kept) in
      twice.0 ∙ ap (λ s. s ++ song_changed e2 ∷ []) sent
