-- ===== src/Stream/Fetch.antt =====
-- services/playback-stream/pulsefm_playback_stream/main.py: reading the snapshot, the tallies and the
-- number of listeners, each through its cache.
pub mod Keeping
pub mod Snapshots
pub mod Tallies
pub mod Sharing
use pulse_fm.Base.{
  ℕ, String, Bool, true, false, not, ◌&&◌, ◌||◌, Option, none, some, [], ◌==◌, eqb, is_some,
  or_else, map, if◌then◌else◌,
}
use pulse_fm.Base.Int.{pos}
use pulse_fm.Base.Dict.{Dict, lookup, insert}
use pulse_fm.Base.Value.{Value, null, int}
use pulse_fm.Base.Action.{Action, pure, gets, modify, try_except, ◌>>=◌, ◌>>◌}
use pulse_fm.Snapshot.{Snapshot, CurrentSong, NextSong, Poll, dict, has_members}
use pulse_fm.Playback.{Station, VoteState, or_number}
use pulse_fm.Playback.Ids.{to_epoch_ms}
use pulse_fm.Redis.{Commands, HashValue}
use pulse_fm.Redis.Keys.{poll_tally_key}
use pulse_fm.Redis.Poll.{count_of}
use pulse_fm.Redis.Playback.{get_playback_current_snapshot}
use pulse_fm.Stream.Cache.{CachedValue, empty_cache, is_fresh, set}
use pulse_fm.Stream.Scan.{Scan, count_active_listeners}
use pulse_fm.Stream.State.{given, set_snapshot}
use pulse_fm.Stream.{
  StateSnapshot, StreamState, World, Calls, utc_ms, reading, update, tally_cache_staleness_ms,
}

-- A snapshot as `json.loads` gives it.
abbrev pub stored : Snapshot → StateSnapshot
stored snapshot = record {
  shared = snapshot;
  winner_option = none;
  tallies = none;
  listeners = none;
  redis_available = none;
  ts = none;
}

-- `station.get(...)` on `{}` where the document is missing.
song_of : Option Station → CurrentSong
song_of none = record { vote_id = none; start_at = none; end_at = none; duration_ms = none }
song_of (some s) = record {
  vote_id = s.vote_id;
  start_at = to_epoch_ms s.start_at;
  end_at = to_epoch_ms s.end_at;
  duration_ms = s.duration_ms;
}

number_or_null : Option ℕ → Value
number_or_null none = null
number_or_null (some n) = int (pos n)

next_of : Option Station → NextSong
next_of none = record { vote_id = none; duration_ms = null }
next_of (some s) = record {
  vote_id = s.next.vote_id;
  duration_ms = number_or_null (or_number s.next.duration_ms s.next.duration);
}

poll_of : Option VoteState → Poll
poll_of none = record {
  vote_id = none;
  options = some [];
  version = none;
  status = none;
  end_at = none;
}
poll_of (some v) = record {
  vote_id = v.vote_id;
  options = some v.options;
  version = v.version;
  status = v.status;
  end_at = to_epoch_ms v.end_at;
}

winner_of : Option VoteState → Option String
winner_of none = none
winner_of (some v) = v.winner_option

unfoldable pub snapshot_of : Option Station → Option VoteState → ℕ → StateSnapshot
unfolding song_of next_of poll_of winner_of number_or_null
snapshot_of station vote_state now = record {
  shared = record {
    current_song = dict (song_of station);
    next_song = dict (next_of station);
    poll = dict (poll_of vote_state);
  };
  winner_option = winner_of vote_state;
  tallies = none;
  listeners = none;
  redis_available = none;
  ts = some now;
}

module _ {S : Type 0} where
  unfoldable pub build_state_snapshot : Calls → Action (World S) StateSnapshot
  build_state_snapshot calls = do
    station ← reading calls.station_up λ w. w.station
    vote_state ← reading calls.vote_state_up λ w. w.vote_state
    now ← utc_ms
    let snapshot = snapshot_of station vote_state now
    set_snapshot snapshot
    pure snapshot

  -- `cache.is_fresh()`, which reads the clock only where the answer hangs on it.
  unfoldable pub check_fresh : {A : Type 0} → CachedValue A → Action (World S) Bool
  check_fresh c =
      if c.dirty || eqb c.fetched_at_ms 0
      then pure false
      else (do now ← utc_ms; pure (is_fresh now c))

  -- The cached tallies, if they are fresh.
  unfoldable pub fresh_tallies : String → Action (World S) (Option (Dict ℕ))
  fresh_tallies vote_id w = elim (lookup vote_id w.state.tally_caches) [
    | none ↦ (pure none) w
    | some cache ↦
        (do fresh ← check_fresh cache; pure (if fresh then some (or_else cache.value []) else none))
          w
  ]

module _ {S : Type 0} (c : Commands S) where
  -- `redis_client` read with no exception, and a snapshot that is not empty.
  pub redis_snapshot : Calls → S → Option Snapshot
  redis_snapshot calls s =
      if calls.client_up && calls.snapshot_up
      then (elim (get_playback_current_snapshot c s) [
        | none ↦ none
        | some snapshot ↦ if has_members snapshot then some snapshot else none
      ])
      else none

  -- What `_get_state_snapshot` does where the cache does not answer.
  unfoldable pub fetch_snapshot : Calls → Action (World S) StateSnapshot
  unfolding redis_snapshot
  fetch_snapshot calls w = elim (redis_snapshot calls w.redis) [
    | none ↦ build_state_snapshot calls w
    | some snapshot ↦ (do set_snapshot (stored snapshot); pure (stored snapshot)) w
  ]

  unfoldable pub get_state_snapshot : Calls → Action (World S) StateSnapshot
  get_state_snapshot calls = do
    cache ← gets λ w. w.state.snapshot_cache
    fresh ← check_fresh cache
    elim (if fresh then cache.value else none) [
      | some snapshot ↦ pure snapshot
      | none ↦ fetch_snapshot calls
    ]

  -- The same where other handlers run while Redis is asked: `before` it answers, and `after` that until
  -- the read goes on. A cache that answers is no wait.
  unfoldable pub get_state_snapshot_during :
      (World S → World S) → (World S → World S) → Calls → Action (World S) StateSnapshot
  unfolding redis_snapshot
  get_state_snapshot_during before after calls = do
    cache ← gets λ w. w.state.snapshot_cache
    fresh ← check_fresh cache
    elim (if fresh then cache.value else none) [
      | some snapshot ↦ pure snapshot
      | none ↦ do
        modify before
        found ← gets λ w. redis_snapshot calls w.redis
        modify after
        elim found [
          | none ↦ build_state_snapshot calls
          | some snapshot ↦ do set_snapshot (stored snapshot); pure (stored snapshot)
        ]
    ]

  unfoldable pub get_tallies : Bool → Calls → Option String → Action (World S) (Dict ℕ)
  get_tallies connected calls vote_id =
      if not (given vote_id) || not connected
      then pure []
      else reading calls.tallies_up λ w.
        map (λ (entry : String × HashValue). (entry.0, count_of entry.1))
          (c.hgetall w.redis (poll_tally_key (or_else vote_id "")))

  unfoldable pub fetch_tallies : Bool → Calls → String → Action (World S) (Dict ℕ)
  fetch_tallies connected calls vote_id = do
    tallies ← get_tallies connected calls (some vote_id)
    now ← utc_ms
    update λ s. record s {
      tally_caches =
          insert vote_id (set now tallies (empty_cache tally_cache_staleness_ms)) s.tally_caches;
    }
    pure tallies

  -- The cache is looked at before the lock is taken, and again under the lock.
  unfoldable pub get_tallies_cached : Bool → Calls → Option String → Action (World S) (Dict ℕ)
  get_tallies_cached connected calls vote_id =
      let v = or_else vote_id "" in
      if not (given vote_id) then pure [] else (do
        first ← fresh_tallies v
        elim first [
          | some tallies ↦ pure tallies
          | none ↦ do
            second ← fresh_tallies v
            elim second [ some tallies ↦ pure tallies | none ↦ fetch_tallies connected calls v ]
        ])

  module _ (sc : Scan S) where
    -- The `try` under the lock.
    unfoldable pub fetch_listeners : Calls → Action (World S) (Option ℕ)
    fetch_listeners calls = do
      try_except
          (do
            count ← reading calls.listeners_up λ w. count_active_listeners c sc true w.redis
            now ← utc_ms
            update λ s. record s { listener_cache = set now count s.listener_cache })
          (λ _. do
            now ← utc_ms
            update λ s. record s {
              listener_cache = record (s.listener_cache) { value = none; fetched_at_ms = now };
            })
      gets λ w. w.state.listener_cache.value

    unfoldable pub get_listener_count_cached : Bool → Calls → Action (World S) (Option ℕ)
    get_listener_count_cached connected calls = if not connected then pure none else (do
      cache ← gets λ w. w.state.listener_cache
      first ← check_fresh cache
      second ← if first then pure true else check_fresh cache
      if second then pure cache.value else fetch_listeners calls)
