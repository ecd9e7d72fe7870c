-- ===== src/Stream/Status.antt =====
-- services/playback-stream/pulsefm_playback_stream/main.py: GET /state and GET /health.
pub mod Serving
use pulse_fm.Base.{ℕ, String, Bool, true, false, not, ◌&&◌, Option, none, some, [], if◌then◌else◌}
use pulse_fm.Base.Dict.{Dict}
use pulse_fm.Base.Value.{ok}
use pulse_fm.Base.Action.{Action, pure, gets, from_result, try_except, ◌>>=◌, ◌>>◌}
use pulse_fm.Snapshot.{Poll, dict}
use pulse_fm.Redis.{Commands}
use pulse_fm.Stream.Scan.{Scan}
use pulse_fm.Stream.State.{winner_for_vote}
use pulse_fm.Stream.Fetch.{get_state_snapshot, get_tallies_cached, get_listener_count_cached}
use pulse_fm.Stream.Events.{current_vote_id}
use pulse_fm.Stream.{StateSnapshot, StreamState, World, Calls, update, extract_poll, poll_winner}

-- `{}`
abbrev empty_poll : Poll
empty_poll = record { vote_id = none; options = none; version = none; status = none; end_at = none }

-- `poll["winnerOption"]`: the poll's own, or the recorded one where that is None.
winner_shown : Option String → Option String → Option String
winner_shown none recorded = recorded
winner_shown (some w) recorded = some w

poll_shown : StateSnapshot → Poll
unfolding extract_poll
poll_shown s = elim (extract_poll s) [ none ↦ empty_poll | some poll ↦ poll ]

-- What the handler writes into the snapshot.
unfoldable pub with_counts :
    Dict ℕ → Option ℕ → Bool → Option String → StateSnapshot → StateSnapshot
unfolding winner_shown poll_shown poll_winner
with_counts tallies listeners redis_available recorded s = record s {
  shared = record (s.shared) { poll = dict (poll_shown s) };
  winner_option = winner_shown (poll_winner s) recorded;
  tallies = some tallies;
  listeners = listeners;
  redis_available = some redis_available;
}

-- The snapshot is the object in the cache, so what is written into it stays there.
abbrev keep_snapshot : StateSnapshot → StreamState → StreamState
keep_snapshot s state = record state {
  snapshot_cache = record (state.snapshot_cache) { value = some s };
}

module _ {S : Type 0} (c : Commands S) (sc : Scan S) where
  -- What follows the snapshot and its vote.
  unfoldable pub serve : Calls → StateSnapshot → Option String → Action (World S) StateSnapshot
  serve counts snapshot vote_id = do
    let redis_available = counts.client_up && counts.ping_up
    tallies ←
        (if redis_available
          then try_except (get_tallies_cached c true counts vote_id) (λ _. pure [])
          else pure [])
    listeners ← get_listener_count_cached c sc redis_available counts
    state ← gets λ w. w.state
    let shown =
        with_counts tallies listeners redis_available (winner_for_vote vote_id state) snapshot
    update (keep_snapshot shown)
    pure shown

  -- `fetch` answers the snapshot's calls, `counts` those after it.
  unfoldable pub get_state : Calls → Calls → Action (World S) StateSnapshot
  get_state fetch counts = do
    snapshot ← get_state_snapshot c fetch
    vote_id ← from_result (current_vote_id snapshot.shared)
    serve counts snapshot vote_id

-- GET /health: the member `redis` of its answer.
health : Calls → Bool
health calls = calls.client_up && calls.ping_up
