-- ===== src/Stream/Events/Versions.antt =====
-- The version of the playback that the service knows, over the events of
-- services/playback-stream/pulsefm_playback_stream/main.py.
use pulse_fm.Base.{◌≡◌, ap, inl, inr, true, false, Option, none, some, arith}
use pulse_fm.Base.Int.{ℤ, pos, negsuc, ltb_ℤ, ◌≤ℤ◌}
use pulse_fm.Base.Value.{Fields, Value, member, ok}
use pulse_fm.Base.Action.{Result-cases}
use pulse_fm.Outbox.PubSub.{Codec, decode_pubsub_json}
use pulse_fm.Redis.{Commands}
use pulse_fm.Playback.Ids.{parse_int}
use pulse_fm.Stream.Cache.{clear}
use pulse_fm.Stream.State.{record_next_song_changed, invalidate, is_stale_event}
use pulse_fm.Stream.Fetch.{get_state_snapshot}
use pulse_fm.Stream.Fetch.Keeping.{get_state_snapshot-Keeps}
use pulse_fm.Stream.Events.{
  ignored, refreshed_next, same_version, newer_version, handle_next_song_changed_event, changeover,
  handle_changeover_event, playback_event,
}
use pulse_fm.Stream.{World, Calls}

abbrev version : {S : Type 0} → World S → ℤ
version w = w.state.last_playback_version

not-ltb_ℤ : (a b : ℤ) → ltb_ℤ a b ≡ false → b ≤ℤ a
not-ltb_ℤ (pos a) (pos b) h = ground arith
not-ltb_ℤ (pos a) (negsuc b) h = omega arith
not-ltb_ℤ (negsuc a) (pos b) h = ground arith
not-ltb_ℤ (negsuc a) (negsuc b) h = ground arith

module _ {S : Type 0} (c : Commands S) (calls : Calls) where
  record_next_song_changed-Keeps :
      (vote_id duration_ms : Value) (v : Option ℤ) (w : World S)
      → version (record_next_song_changed vote_id duration_ms v w).1 ≡ version w
  unfolding record_next_song_changed
  record_next_song_changed-Keeps vote_id duration_ms v w = ground arith

  get_state_snapshot-version : (w : World S) → version (get_state_snapshot c calls w).1 ≡ version w
  get_state_snapshot-version w = ap version (get_state_snapshot-Keeps c calls w)

  same_version-Keeps :
      (message : Fields) (v : ℤ) (w : World S)
      → version (same_version c calls message v w).1 ≡ version w
  unfolding same_version
  same_version-Keeps message v w =
      let w1 = record w {
        state = record (w.state) { snapshot_cache = clear w.state.snapshot_cache };
      } in
      elim (Result-cases (get_state_snapshot c calls w1).0) [
        | inr (e, raises) ↦ ground (arith, get_state_snapshot-version w1)
        | inl (snapshot, reads) ↦ elim (Result-cases (refreshed_next snapshot)) [
          | inr (e, raises) ↦ ground (arith, get_state_snapshot-version w1)
          | inl (n, gives) ↦ ground (
            arith,
            get_state_snapshot-version w1,
            record_next_song_changed-Keeps n.0 n.1 (some v) (get_state_snapshot c calls w1).1,
          )
        ]
      ]

  newer_version-Sets :
      (message : Fields) (v : ℤ) (w : World S) → version (newer_version c calls message v w).1 ≡ v
  unfolding newer_version
  newer_version-Sets message v w = ground (
    arith,
    record_next_song_changed-Keeps (member "voteId" message) (member "durationMs" message) (some v)
        (record w { state = record (w.state) { last_playback_version = v } }),
  )

  handle_next_song_changed_event-Versions :
      (message : Fields) (v : Option ℤ) (w : World S)
      → version w ≤ℤ version (handle_next_song_changed_event c calls message v w).1
  unfolding handle_next_song_changed_event is_stale_event
  handle_next_song_changed_event-Versions message none w = omega arith
  handle_next_song_changed_event-Versions message (some v) w = ground (
    arith,
    same_version-Keeps message v w,
    newer_version-Sets message v w,
    not-ltb_ℤ v (version w),
  )

  changeover-Sets :
      (v : Option ℤ) (w : World S)
      → version (changeover c calls v w).1 ≡ (elim v [ none ↦ version w | some n ↦ n ])
  unfolding changeover invalidate
  changeover-Sets none w =
      let w1 = record w {
        state = record (w.state) { snapshot_cache = clear w.state.snapshot_cache };
      } in
      ground (arith, get_state_snapshot-version w1)
  changeover-Sets (some v) w =
      let w1 = record w {
        state = record (w.state) {
          snapshot_cache = clear w.state.snapshot_cache;
          last_playback_version = v;
        };
      } in
      ground (arith, get_state_snapshot-version w1)

  handle_changeover_event-Versions :
      (v : Option ℤ) (w : World S) → version w ≤ℤ version (handle_changeover_event c calls v w).1
  unfolding handle_changeover_event is_stale_event
  handle_changeover_event-Versions none w = ground (arith, changeover-Sets none w)
  handle_changeover_event-Versions (some v) w =
      ground (arith, changeover-Sets (some v) w, not-ltb_ℤ v (version w))

  -- No playback event, whatever it holds and however its handler ends, takes the service back to an
  -- older version.
  pub playback_event-Versions :
      (codec : Codec) (payload : Fields) (w : World S)
      → version w ≤ℤ version (playback_event c calls codec payload w).1
  unfolding playback_event
  playback_event-Versions codec payload w = elim (Result-cases (decode_pubsub_json codec payload)) [
    | inr (e, raises) ↦ ground arith
    | inl (message, decoded) ↦ elim (Result-cases (parse_int (member "version" message))) [
      | inr (e, raises) ↦ ground arith
      | inl (v, parsed) ↦ ground (
        arith,
        handle_next_song_changed_event-Versions message v w,
        handle_changeover_event-Versions v w,
      )
    ]
  ]

  -- A playback event that is older than the version the service knows is answered with "ignored" and
  -- changes nothing.
  pub playback_event_stale :
      (codec : Codec) (payload message : Fields) (v : ℤ) (w : World S)
      → decode_pubsub_json codec payload ≡ ok message
      → parse_int (member "version" message) ≡ ok (some v)
      → ltb_ℤ v (version w) ≡ true
      → playback_event c calls codec payload w ≡ (ok ignored, w)
  unfolding playback_event handle_next_song_changed_event handle_changeover_event is_stale_event
  playback_event_stale codec payload message v w decoded parsed old = ground arith
