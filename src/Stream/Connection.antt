-- ===== src/Stream/Connection.antt =====
-- services/playback-stream/pulsefm_playback_stream/main.py: `_event_stream`, the events of one connection
-- from HELLO until the listener disconnects.
pub mod Starting
pub mod Tests
use pulse_fm.Base.{
  ℕ, String, Bool, true, false, not, ◌&&◌, Option, none, some, List, [], ◌∷◌, if◌then◌else◌,
}
use pulse_fm.Base.Value.{ok}
use pulse_fm.Base.Action.{Action, pure, gets, ◌>>=◌, ◌>>◌}
use pulse_fm.Redis.{Commands}
use pulse_fm.Stream.Scan.{Scan}
use pulse_fm.Stream.State.{mark_tally_dirty, stream_event_markers}
use pulse_fm.Stream.Fetch.{get_state_snapshot, get_tallies_cached}
use pulse_fm.Stream.Sse.{hello}
use pulse_fm.Stream.Listener.{
  Settings, LoopState, Sending, Others, on_world, emit, build_tally_snapshot, check_marker_events,
  check_timed_events,
}
use pulse_fm.Stream.{World, Calls, utc_ms, monotonic_now, update, extract_poll, poll_vote_id}

-- Whether there is a client, and `redis_available`, at the start.
unfoldable pub connect : Calls → Bool × Bool
connect calls = let available = calls.client_up && calls.ping_up in (available, available)

-- The same at each round.
unfoldable pub reconnect : Calls → Bool × Bool → Bool × Bool
unfolding connect
reconnect calls (connected, available) =
    if not available && connected
    then (connected, calls.ping_up)
    else if not connected
    then connect calls
    else (connected, available)

-- One round of the loop: what its calls answer, and what other handlers do during the sleep before it and
-- during its check of the announcements.
pub record Round (S : Type 0) : Type 0 where
  pub others : World S → World S
  pub meanwhile : Others S
  pub reconnecting : Calls
  pub marking : Calls
  pub snapshotting : Calls
  pub counting : Calls

module _ {S : Type 0} (c : Commands S) (sc : Scan S) (settings : Settings) where
  unfoldable pub stream_round : Round S → Bool × Bool → LoopState → Action (Sending S) LoopState
  stream_round r (connected, available) loop = do
    now ← on_world monotonic_now
    loop1 ← check_marker_events c r.meanwhile r.marking loop
    check_timed_events c sc settings r.snapshotting r.counting connected now available loop1

  -- The rounds until the listener disconnects.
  unfoldable pub stream_loop :
      List (Round S) → Bool × Bool → LoopState → Action (Sending S) (Unit {0})
  stream_loop [] redis loop = pure tt
  stream_loop (r ∷ rounds) redis loop = do
    on_world (λ world. (ok tt, r.others world))
    let redis' = reconnect r.reconnecting redis
    loop' ← stream_round r redis' loop
    stream_loop rounds redis' loop'

  -- The events before the loop, and the loop's first state. `meanwhile` is what other handlers do
  -- while HELLO is sent.
  unfoldable pub stream_start :
      Calls → Calls → (World S → World S) → Bool × Bool → Action (Sending S) LoopState
  stream_start fetch counts meanwhile (connected, available) = do
    snapshot ← on_world (get_state_snapshot c fetch)
    let vote_id = poll_vote_id snapshot
    hello_now ← on_world utc_ms
    emit (
        hello (record {
          vote_id = vote_id;
          ts = hello_now;
          version = elim (extract_poll snapshot) [ none ↦ none | some poll ↦ poll.version ];
          heartbeat_sec = settings.heartbeat_sec;
          redis_available = available;
        }))
    on_world (λ world. (ok tt, meanwhile world))
    on_world (update (mark_tally_dirty vote_id))
    tallies ← on_world (get_tallies_cached c connected counts vote_id)
    now ← on_world utc_ms
    state ← gets λ w. w.world.state
    emit (build_tally_snapshot state vote_id tallies snapshot available now)
    at ← on_world monotonic_now
    connected_at ← on_world utc_ms
    pure (record {
      vote_id = vote_id;
      last_tallies = tallies;
      last_snapshot_at = at;
      last_delta_at = 0;
      last_heartbeat_at = 0;
      markers = stream_event_markers connected_at state;
    })

  unfoldable pub event_stream :
      Calls → Calls → (World S → World S) → List (Round S) → Action (Sending S) (Unit {0})
  event_stream fetch counts meanwhile rounds = do
    let redis = connect fetch
    loop ← stream_start fetch counts meanwhile redis
    stream_loop rounds redis loop
