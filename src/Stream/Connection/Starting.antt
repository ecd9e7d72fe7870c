-- ===== src/Stream/Connection/Starting.antt =====
-- The start of a connection in services/playback-stream/pulsefm_playback_stream/main.py, where other
-- handlers run while HELLO is sent.
use pulse_fm.Base.{ℕ, max, ◌≡◌, Bool, false, none, some, [], arith, ltb, inl, inr}
use pulse_fm.Base.Value.{ok}
use pulse_fm.Base.Action.{Result-cases}
use pulse_fm.Redis.{Commands}
use pulse_fm.Stream.Scan.{Scan}
use pulse_fm.Stream.State.{mark_tally_dirty, stream_event_markers}
use pulse_fm.Stream.Fetch.{get_state_snapshot, get_tallies_cached}
use pulse_fm.Stream.Listener.{Settings, LoopState, Sending, Others, check_marker_events}
use pulse_fm.Stream.Listener.Announcing.{pending, quiet, due_changeover, due_close, due_next_song}
use pulse_fm.Stream.Connection.{stream_start}
use pulse_fm.Stream.{next, World, StreamState, StateSnapshot, Calls, poll_vote_id}

ltb-max : (t n : ℕ) → ltb (max t n) n ≡ false
ltb-max t n = ground arith

-- Nothing that is recorded is later than the markers of a connection that starts.
pending-stream_event_markers : (t : ℕ) (s : StreamState) → pending s (stream_event_markers t s) ≡ []
unfolding pending stream_event_markers due_changeover due_close due_next_song
pending-stream_event_markers t s = ground (
  arith,
  ltb-max t (elim s.last_invalidated [ none ↦ 0 | some e ↦ e.ts ]),
  ltb-max t (elim s.last_vote_closed [ none ↦ 0 | some e ↦ e.ts ]),
  ltb-max t (elim s.last_next_song_changed [ none ↦ 0 | some e ↦ e.ts ]),
)

module _ {S : Type 0} (c : Commands S) (sc : Scan S) (settings : Settings) where
  -- A connection that starts follows the vote of the snapshot that was read before HELLO, and the check of
  -- the announcements sends nothing then, whatever was announced while HELLO was sent and whatever other handlers
  -- do meanwhile.
  pub stream_start_misses :
      (fetch counts : Calls) (meanwhile : World S → World S) (redis : Bool × Bool)
      → (loop : LoopState) (w w' : Sending S) (snapshot : StateSnapshot)
      → (get_state_snapshot c fetch w.world).0 ≡ ok snapshot
      → stream_start c sc settings fetch counts meanwhile redis w ≡ (ok loop, w')
      → (loop.vote_id ≡ poll_vote_id snapshot)
        × ((o : Others S) (calls : Calls) → check_marker_events c o calls loop w' ≡ (ok loop, w'))
  unfolding stream_start
  stream_start_misses fetch counts meanwhile (connected, available) loop w w' snapshot reads
        starts =
      let w1 = (get_state_snapshot c fetch w.world).1 in
      let w2 = meanwhile (record w1 { utc = next w1.utc }) in
      let w3 = record w2 { state = mark_tally_dirty (poll_vote_id snapshot) w2.state } in
      let (r, w4) = get_tallies_cached c connected counts (poll_vote_id snapshot) w3 in
      elim (Result-cases r) [
        | inr (x, raises) ↦ absurd (ground arith)
        | inl (tallies, gives) ↦
            let at = (next w4.utc).readings (next w4.utc).used in
            let none_due : pending w'.world.state loop.markers ≡ [] =
              ground (arith, pending-stream_event_markers at w4.state) in
            (ground arith, λ o calls. quiet c o calls loop w' none_due)
      ]
