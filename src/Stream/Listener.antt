-- ===== src/Stream/Listener.antt =====
-- services/playback-stream/pulsefm_playback_stream/main.py: GET /stream, what one listener is sent.
-- Instants of the event loop's clock are in microseconds.
pub mod Announcing
pub mod Counting
pub mod Overtaking
use mathlib.Core.List.{◌++◌}
use pulse_fm.Base.{
  ℕ, ◌+◌, ◌*◌, String, Bool, true, false, not, ◌&&◌, Option, none, some, List, [], ◌∷◌, ltb, leb,
  is_some, or_else, if◌then◌else◌,
}
use pulse_fm.Base.Int.{ℤ, pos, sub_ℕ}
use pulse_fm.Base.Dict.{Dict, lookup, insert}
use pulse_fm.Base.Value.{ok}
use pulse_fm.Base.Action.{Action, pure, gets, modify, ◌>>=◌, ◌>>◌}
use pulse_fm.Redis.{Commands}
use pulse_fm.Stream.Scan.{Scan}
use pulse_fm.Stream.State.{given, Markers, mark_tally_dirty, winner_for_vote, stream_event_markers}
use pulse_fm.Stream.Deltas.{tally_deltas}
use pulse_fm.Stream.Fetch.{
  get_state_snapshot, get_state_snapshot_during, get_tallies_cached, get_listener_count_cached,
}
use pulse_fm.Stream.Sse.{
  Event, hello, song_changed, vote_closed, next_song_changed, tally_snapshot, tally_delta,
  heartbeat,
}
use pulse_fm.Stream.{
  StateSnapshot, StreamState, World, Calls, utc_ms, monotonic_now, update, extract_poll,
  poll_vote_id, poll_winner,
}

-- services/playback-stream/pulsefm_playback_stream/config.py
pub record Settings : Type 0 where
  pub stream_interval_ms : ℕ
  pub tally_snapshot_interval_sec : ℕ
  pub heartbeat_sec : ℕ

pub record LoopState : Type 0 where
  pub vote_id : Option String
  pub last_tallies : Dict ℕ
  pub last_snapshot_at : ℕ
  pub last_delta_at : ℕ
  pub last_heartbeat_at : ℕ
  pub markers : Markers

-- The process, and what the listener was sent, newest last.
pub record Sending (S : Type 0) : Type 0 where
  pub world : World S
  pub sent : List Event

-- What other handlers do during a check of the announcements: while the snapshot is read (before and
-- after Redis answers), and while an event is sent.
pub record Others (S : Type 0) : Type 0 where
  pub before : World S → World S
  pub after : World S → World S
  pub sending : World S → World S

module _ {S : Type 0} where
  abbrev pub on_world : {A : Type 0} → Action (World S) A → Action (Sending S) A
  on_world m w = let (r, world) = m w.world in (r, record w { world = world })

  -- `yield _format_sse(...)`
  abbrev pub emit : Event → Action (Sending S) (Unit {0})
  emit e = modify λ w. record w { sent = w.sent ++ e ∷ [] }

  -- The same, with what other handlers do until the event has been sent.
  abbrev pub emit_during : (World S → World S) → Event → Action (Sending S) (Unit {0})
  emit_during sending e = do emit e; modify λ w. record w { world = sending w.world }

-- `a or b` of two texts that may be None.
or_text : Option String → Option String → Option String
or_text a b = if given a then a else b

poll_status : StateSnapshot → Option String
unfolding extract_poll
poll_status s = elim (extract_poll s) [ none ↦ none | some poll ↦ poll.status ]

-- `_build_tally_snapshot_payload`, with the member that its callers add.
unfoldable pub build_tally_snapshot :
    StreamState → Option String → Dict ℕ → StateSnapshot → Bool → ℕ → Event
unfolding or_text poll_status
build_tally_snapshot state vote_id tallies snapshot redis_available now = tally_snapshot (record {
  vote_id = vote_id;
  ts = now;
  tallies = tallies;
  status = poll_status snapshot;
  winner_option = or_text (poll_winner snapshot) (winner_for_vote vote_id state);
  redis_available = redis_available;
})

-- What SONG_CHANGED does to the loop, by the vote that is current now.
unfoldable pub follow : ℕ → Option String → LoopState → LoopState
follow ts none loop = record loop { markers = record (loop.markers) { last_invalidated_at = ts } }
follow ts (some vote_id) loop = record loop {
  vote_id = some vote_id;
  last_tallies = [];
  last_snapshot_at = 0;
  last_delta_at = 0;
  markers = record (loop.markers) { last_invalidated_at = ts };
}

-- `now - last >= period` in microseconds.
abbrev due : ℕ → ℕ → ℕ → Bool
due now last period = leb (last + period) now

module _ {S : Type 0} where
  unfoldable pub check_vote_closed : Others S → LoopState → Action (Sending S) LoopState
  check_vote_closed o loop w = elim w.world.state.last_vote_closed [
    | none ↦ (ok loop, w)
    | some event ↦
        if ltb loop.markers.last_vote_closed_at event.ts
        then (do
          emit_during o.sending (vote_closed event)
          pure (record loop { markers = record (loop.markers) { last_vote_closed_at = event.ts } }))
            w
        else (ok loop, w)
  ]

  unfoldable pub check_next_song_changed : Others S → LoopState → Action (Sending S) LoopState
  check_next_song_changed o loop w = elim w.world.state.last_next_song_changed [
    | none ↦ (ok loop, w)
    | some event ↦
        if ltb loop.markers.last_next_song_changed_at event.ts
        then (do
          emit_during o.sending (next_song_changed event)
          pure (record loop {
            markers = record (loop.markers) { last_next_song_changed_at = event.ts };
          }))
            w
        else (ok loop, w)
  ]

  unfoldable pub send_heartbeat : Bool → LoopState → Action (Sending S) LoopState
  send_heartbeat available loop = do
    now ← on_world utc_ms
    emit (heartbeat (record { vote_id = loop.vote_id; ts = now; redis_available = available }))
    at ← on_world monotonic_now
    pure (record loop { last_heartbeat_at = at })

module _ {S : Type 0} (c : Commands S) where
  -- The marker is that of the announcement found first; the event is the one that is recorded when the
  -- snapshot has been read. A record is replaced by later ones, never taken away.
  unfoldable pub check_invalidated : Others S → Calls → LoopState → Action (Sending S) LoopState
  unfolding follow
  check_invalidated o calls loop w = elim w.world.state.last_invalidated [
    | none ↦ (ok loop, w)
    | some event ↦
        if ltb loop.markers.last_invalidated_at event.ts
        then (do
          snapshot ← on_world (get_state_snapshot_during c o.before o.after calls)
          recorded ← gets λ w. w.world.state.last_invalidated
          emit_during o.sending (song_changed (or_else recorded event))
          pure (follow event.ts (poll_vote_id snapshot) loop))
            w
        else (ok loop, w)
  ]

  unfoldable pub check_marker_events : Others S → Calls → LoopState → Action (Sending S) LoopState
  check_marker_events o calls loop = do
    loop1 ← check_invalidated o calls loop
    loop2 ← check_vote_closed o loop1
    check_next_song_changed o loop2

  -- `connected` tells whether there is a client, `available` is `redis_available`.
  unfoldable pub send_tally_snapshot :
      Calls → Bool → Bool → LoopState → Action (Sending S) LoopState
  send_tally_snapshot calls connected available loop = do
    tallies ← on_world (get_tallies_cached c connected calls loop.vote_id)
    snapshot ← on_world (get_state_snapshot c calls)
    now ← on_world utc_ms
    state ← gets λ w. w.world.state
    emit (build_tally_snapshot state loop.vote_id tallies snapshot available now)
    at ← on_world monotonic_now
    pure (record loop { last_tallies = tallies; last_snapshot_at = at })

  module _ (sc : Scan S) where
    unfoldable pub send_tally_delta : Calls → Bool → Bool → LoopState → Action (Sending S) LoopState
    send_tally_delta calls connected available loop = do
      tallies ← on_world (get_tallies_cached c connected calls loop.vote_id)
      listeners ← on_world (get_listener_count_cached c sc connected calls)
      now ← on_world utc_ms
      emit (
          tally_delta (record {
            vote_id = loop.vote_id;
            ts = now;
            delta = tally_deltas loop.last_tallies tallies;
            listeners = listeners;
            redis_available = available;
          }))
      at ← on_world monotonic_now
      pure (record loop { last_tallies = tallies; last_delta_at = at })

    module _ (settings : Settings) where
      -- `snapshot` and `delta` answer the calls of the two events.
      unfoldable pub check_timed_events :
          Calls → Calls → Bool → ℕ → Bool → LoopState → Action (Sending S) LoopState
      check_timed_events snapshot delta connected now available loop = do
        loop1 ←
            (if due now loop.last_snapshot_at (settings.tally_snapshot_interval_sec * 1000000)
              then send_tally_snapshot snapshot connected available loop
              else pure loop)
        loop2 ←
            (if due now loop1.last_delta_at (settings.stream_interval_ms * 1000)
              then send_tally_delta delta connected available loop1
              else pure loop1)
        if due now loop2.last_heartbeat_at (settings.heartbeat_sec * 1000000)
            then send_heartbeat available loop2
            else pure loop2
