-- ===== src/Playback/Tick.antt =====
-- services/playback-service/pulsefm_playback_service/main.py: POST /tick, the changeover from one
-- song to the next, POST /vote/close, and the tick that the start of the service schedules.
pub mod Gate
pub mod Lost
pub mod Scheduling
pub mod Continuing
pub mod Windows
pub mod Tests
use pulse_fm.Base.{
  ℕ, zero, suc, ◌+◌, ◌-◌, ◌*◌, ◌/◌, max, String, Bool, true, false, not, ◌&&◌, Option, none, some,
  List, [], ◌∷◌, ◌==◌, or_else, if◌then◌else◌,
}
use pulse_fm.Base.Int.{ℤ, pos}
use pulse_fm.Base.Dict.{Dict, lookup}
use pulse_fm.Base.Text.{non_empty, has_content}
use pulse_fm.Base.Value.{Value, null, str, int, Exception, http, Result, ok, err, value_error}
use pulse_fm.Base.Action.{Action, pure, gets, raise, from_result, raise_if, try_except, ◌>>=◌, ◌>>◌}
use pulse_fm.Snapshot.{Snapshot, dict}
use pulse_fm.Outbox.{Outbox}
use pulse_fm.Outbox.Tasks.{enqueue_json_task_with_delay}
use pulse_fm.Redis.{Commands}
use pulse_fm.Redis.Poll.{init_poll_open_atomic}
use pulse_fm.Playback.{
  World, Env, Songs, Station, VoteState, calling, on_redis, on_outbox, or_zero, read_station,
  open_poll, publish_next_song, publish_changeover,
}
use pulse_fm.Playback.Ids.{
  microseconds_per_ms, microseconds_per_second, default_startup_delay_seconds,
  vote_close_lead_seconds, to_epoch_ms, remaining_delay_seconds, tick_url, vote_close_url,
  required_version, validate_tick_version, build_tick_task_id, build_vote_close_task_id,
}
use pulse_fm.Playback.Rotation.{SongRotationResult, rotate_song}
use pulse_fm.Playback.Votes.{Closed, close_current_vote_if_matches, rotate_vote}
use pulse_fm.Playback.Refresh.{publish_playback_event}

unfoldable pub build_playback_snapshot : SongRotationResult → VoteState → Snapshot
build_playback_snapshot rotation window = record {
  current_song = dict (record {
    vote_id = some rotation.vote_id;
    start_at = to_epoch_ms (some rotation.start_at);
    end_at = to_epoch_ms (some rotation.ends_at);
    duration_ms = some rotation.duration_ms;
  });
  next_song = dict (record {
    vote_id = some rotation.next_vote_id;
    duration_ms = int (pos rotation.next_duration_ms);
  });
  poll = dict (record {
    vote_id = window.vote_id;
    options = some window.options;
    version = window.version;
    status = some "OPEN";
    end_at = to_epoch_ms window.end_at;
  });
}

module _ (env : Env) where
  unfoldable pub publish_changeover_events : SongRotationResult → ℕ → Action Outbox (Unit {0})
  publish_changeover_events rotation request_version = do
    publish_playback_event env (env.up publish_next_song) "NEXT-SONG-CHANGED" (
        ("voteId", str rotation.next_vote_id)
        ∷ ("durationMs", int (pos rotation.next_duration_ms))
        ∷ ("version", int (pos request_version))
        ∷ [])
    publish_playback_event env (env.up publish_changeover) "CHANGEOVER" (
        ("durationMs", int (pos rotation.duration_ms))
        ∷ ("version", int (pos request_version))
        ∷ [])

  -- The delay of the close task: until the window's end, or the song's length less the lead.
  unfoldable pub close_delay : SongRotationResult → VoteState → ℕ
  close_delay rotation window = elim window.end_at [
    | some end_at ↦ end_at - env.schedule_now
    | none ↦ (rotation.duration_ms - vote_close_lead_seconds * 1000) * microseconds_per_ms
  ]

  unfoldable pub schedule_next_tasks : SongRotationResult → VoteState → ℕ → Action Outbox (Unit {0})
  unfolding non_empty
  schedule_next_tasks rotation window request_version = do
    raise_if (not (non_empty env.settings.playback_tick_url))
        (http 500 "PLAYBACK_TICK_URL is required")
    let close_vote_id = or_else window.vote_id "None"
    let close_version = or_zero window.version
    enqueue_json_task_with_delay env.queue env.settings.playback_queue (vote_close_url env.settings)
        (("voteId", elim window.vote_id [ none ↦ null | some v ↦ str v ])
          ∷ ("version", int (pos close_version))
          ∷ [])
        (close_delay rotation window) (some (build_vote_close_task_id close_vote_id close_version))
        true
    let next_tick_version = request_version + 1
    enqueue_json_task_with_delay env.queue env.settings.playback_queue (tick_url env.settings)
        (("version", int (pos next_tick_version)) ∷ []) (rotation.duration_ms * microseconds_per_ms)
        (some (
          build_tick_task_id (some rotation.vote_id) (some rotation.ends_at)
            (some next_tick_version)))
        true
    pure tt

module _ {S : Type 0} (c : Commands S) (env : Env) where
  -- `max(1, int((end_at + 1h - now).total_seconds()))`
  state_ttl_seconds : ℕ → ℕ
  state_ttl_seconds end_at =
      max 1 ((end_at + 3600 * microseconds_per_second - env.ttl_now) / microseconds_per_second)

  unfoldable pub update_redis_on_open :
      String → ℕ → ℕ → List String → Snapshot → Action S (Unit {0})
  unfolding state_ttl_seconds
  update_redis_on_open vote_id end_at duration_ms options snapshot s = (
    ok tt,
    init_poll_open_atomic c vote_id snapshot (max 1 (duration_ms / 1000)) (state_ttl_seconds end_at)
        options s,
  )

-- The answer of POST /tick.
pub data Ticked : Type 0 where
  stale done : ℕ → Ticked

module _ {S D : Type 0} (c : Commands S) (f : Songs D) (env : Env) where
  -- The `try` block that writes the new poll to Redis.
  unfoldable pub open_in_redis : SongRotationResult → VoteState → Action (World S D) (Unit {0})
  open_in_redis rotation window = calling env open_poll (
      on_redis (
        update_redis_on_open c env (or_else window.vote_id "") (or_zero window.end_at)
          rotation.duration_ms window.options (build_playback_snapshot rotation window)))

  -- What /tick does once the song has changed.
  unfoldable pub after_rotation : ℕ → SongRotationResult → Action (World S D) Ticked
  after_rotation request_version rotation = do
    window ←
        try_except (rotate_vote c env rotation.duration_ms)
          (λ _. raise (http 500 "Failed to rotate vote"))
    try_except (open_in_redis rotation window) (λ _. pure tt)
    try_except (on_outbox (publish_changeover_events env rotation request_version))
        (λ _. raise (http 500 "Failed to publish changeover"))
    on_outbox (schedule_next_tasks env rotation window request_version)
    pure (done request_version)

  unfoldable pub after_gate : ℕ → Option SongRotationResult → Action (World S D) Ticked
  after_gate request_version none = pure (stale request_version)
  after_gate request_version (some rotation) = after_rotation request_version rotation

  unfoldable pub tick : Dict Value → Action (World S D) Ticked
  tick payload = do
    request_version ← from_result (validate_tick_version payload)
    rotation ← rotate_song f env request_version
    after_gate request_version rotation

  -- POST /vote/close
  close_request : Dict Value → Result (String × ℤ)
  unfolding has_content required_version
  close_request payload = elim (or_else (lookup "voteId" payload) null) [
    | str vote_id ↦
        if has_content vote_id
        then (elim (required_version payload) [
          | ok version ↦ ok (vote_id, version)
          | err e ↦ err e
        ])
        else err (http 400 "voteId is required")
    | _ ↦ err (http 400 "voteId is required")
  ]

  unfoldable pub close_vote_route : Dict Value → Action (World S D) Closed
  unfolding close_request
  close_vote_route payload = do
    request ← from_result (close_request payload)
    try_except (close_current_vote_if_matches c env (some request.0) (some request.1))
        (λ _. raise (http 500 "Failed to close vote"))

  -- `_remaining_delay_seconds(ends_at) or DEFAULT_STARTUP_DELAY_SECONDS`
  startup_delay : Option ℕ → ℕ
  unfolding remaining_delay_seconds
  startup_delay ends_at = elim (remaining_delay_seconds env.schedule_now ends_at) [
    | none ↦ default_startup_delay_seconds
    | some n ↦ elim n [ zero ↦ default_startup_delay_seconds | suc k ↦ suc k ]
  ]

  startup_task : Station → Action Outbox (Unit {0})
  unfolding startup_delay
  startup_task station = do
    let next_version = or_zero station.version + 1
    enqueue_json_task_with_delay env.queue env.settings.playback_queue (tick_url env.settings)
        (("version", int (pos next_version)) ∷ [])
        (startup_delay station.end_at * microseconds_per_second)
        (some (build_tick_task_id station.vote_id station.end_at (some next_version))) true
    pure tt

  unfoldable pub ensure_playback_tick_scheduled : Action (World S D) (Unit {0})
  unfolding startup_task non_empty
  ensure_playback_tick_scheduled w =
      if not (non_empty env.settings.playback_tick_url)
      then (ok tt, w)
      else (do
        found ← calling env read_station (gets λ w. w.station)
        elim found [ none ↦ pure tt | some station ↦ on_outbox (startup_task station) ])
          w
