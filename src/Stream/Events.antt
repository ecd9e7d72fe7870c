-- ===== src/Stream/Events.antt =====
-- services/playback-stream/pulsefm_playback_stream/main.py: POST /events/tally, /events/playback and
-- /events/vote.
pub mod Versions
pub mod Changeover
pub mod Tallying
use pulse_fm.Base.{
  String, Bool, true, false, not, ◌&&◌, ◌||◌, Option, none, some, is_some, if◌then◌else◌,
}
use pulse_fm.Base.Int.{ℤ, pos, eq_ℤ}
use pulse_fm.Base.Value.{
  Value, Fields, null, str, obj, arr, member, Result, ok, err, type_error, attribute_error, truthy,
}
use pulse_fm.Base.Action.{Action, pure, raise, gets, from_result, ◌>>=◌, ◌>>◌}
use pulse_fm.Outbox.PubSub.{Codec, decode_pubsub_json}
use pulse_fm.Snapshot.{Snapshot, NextSong, absent, falsy, malformed, dict}
use pulse_fm.Playback.Ids.{parse_int}
use pulse_fm.Redis.{Commands}
use pulse_fm.Redis.Playback.{get_playback_current_snapshot, is_text}
use pulse_fm.Stream.Cache.{clear}
use pulse_fm.Stream.State.{
  clear_snapshot, is_tally_dirty, mark_tally_dirty, reset_tallies, invalidate, record_vote_closed,
  record_next_song_changed, is_stale_event, is_str,
}
use pulse_fm.Stream.Fetch.{get_state_snapshot}
use pulse_fm.Stream.{
  StateSnapshot, StreamState, World, Calls, update, not_empty, extract_poll, poll_vote_id,
}

-- The member `status` of an answer: "ok", "ignored" or "error".
pub data Answer : Type 0 where
  handled ignored failed : Answer

-- `a == b` of a text that may be None and a JSON value.
same_text : Option String → Value → Bool
unfolding is_str
same_text none null = true
same_text none _ = false
same_text (some s) v = is_str s v

same_int : Option ℤ → Option ℤ → Bool
same_int none none = true
same_int (some a) (some b) = eq_ℤ a b
same_int _ _ = false

-- The second operand of the `or`, which is evaluated only if the vote is the same.
durations_differ : Value → Value → Result Bool
unfolding same_int
durations_differ cached duration_ms = elim (parse_int cached) [
  | err e ↦ err e
  | ok a ↦ elim (parse_int duration_ms) [ err e ↦ err e | ok b ↦ ok (not (same_int a b)) ]
]

unfoldable pub next_song_conflicts : Option StateSnapshot → Value → Value → Result Bool
unfolding same_text durations_differ not_empty
next_song_conflicts none vote_id duration_ms = ok false
next_song_conflicts (some snapshot) vote_id duration_ms =
    if not_empty snapshot
    then (elim snapshot.shared.next_song [
      | dict cached ↦
          if same_text cached.vote_id vote_id
          then durations_differ cached.duration_ms duration_ms
          else ok true
      | _ ↦ ok true
    ])
    else ok false

-- `refreshed.get("nextSong") or {}`, of which `.get` follows.
refreshed_next : StateSnapshot → Result (Value × Value)
refreshed_next snapshot = elim snapshot.shared.next_song [
  | dict n ↦ ok ((elim n.vote_id [ none ↦ null | some v ↦ str v ]), n.duration_ms)
  | malformed ↦ err attribute_error
  | _ ↦ ok (null, null)
]

-- `snapshot.get("poll", {}).get("voteId")`
unfoldable pub current_vote_id : Snapshot → Result (Option String)
current_vote_id snapshot = elim snapshot.poll [
  | absent ↦ ok none
  | dict poll ↦ ok poll.vote_id
  | _ ↦ err attribute_error
]

-- A poll's version, as an integer.
unfoldable pub poll_version : StateSnapshot → Option ℤ
unfolding extract_poll
poll_version s = elim (extract_poll s) [
  | none ↦ none
  | some poll ↦ elim poll.version [ none ↦ none | some n ↦ some (pos n) ]
]

set_version : ℤ → StreamState → StreamState
set_version version s = record s { last_playback_version = version }

module _ {S : Type 0} (c : Commands S) (calls : Calls) where
  -- A next-song event of the version that the service knows: the state is read again if it differs.
  unfoldable pub same_version : Fields → ℤ → Action (World S) Answer
  unfolding refreshed_next
  same_version message event_version = do
    cached ← gets λ w. w.state.snapshot_cache.value
    conflicts ←
        from_result
          (next_song_conflicts cached (member "voteId" message) (member "durationMs" message))
    if conflicts
        then (do
          clear_snapshot
          refreshed ← get_state_snapshot c calls
          next_song ← from_result (refreshed_next refreshed)
          record_next_song_changed next_song.0 next_song.1 (some event_version)
          pure handled)
        else pure ignored

  unfoldable pub newer_version : Fields → ℤ → Action (World S) Answer
  unfolding set_version
  newer_version message event_version = do
    update (set_version event_version)
    record_next_song_changed (member "voteId" message) (member "durationMs" message)
        (some event_version)
    clear_snapshot
    pure handled

  unfoldable pub handle_next_song_changed_event : Fields → Option ℤ → Action (World S) Answer
  handle_next_song_changed_event message none w = (ok ignored, w)
  handle_next_song_changed_event message (some event_version) w =
      if is_stale_event (some event_version) w.state
      then (ok ignored, w)
      else if eq_ℤ event_version w.state.last_playback_version
      then same_version message event_version w
      else newer_version message event_version w

  set_version_if : Option ℤ → StreamState → StreamState
  unfolding set_version
  set_version_if none s = s
  set_version_if (some version) s = set_version version s

  unfoldable pub changeover : Option ℤ → Action (World S) Answer
  unfolding set_version_if poll_version
  changeover event_version = do
    update (set_version_if event_version)
    clear_snapshot
    snapshot ← get_state_snapshot c calls
    update reset_tallies
    update λ s. record s { listener_cache = clear s.listener_cache }
    invalidate (poll_vote_id snapshot)
        (elim event_version [ none ↦ poll_version snapshot | some version ↦ some version ])
    pure handled

  unfoldable pub handle_changeover_event : Option ℤ → Action (World S) Answer
  handle_changeover_event event_version w =
      if is_stale_event event_version w.state then (ok ignored, w) else changeover event_version w

  module _ (codec : Codec) where
    unfoldable pub playback_event : Fields → Action (World S) Answer
    playback_event payload = do
      message ← from_result (decode_pubsub_json codec payload)
      event_version ← from_result (parse_int (member "version" message))
      let event = member "event" message
      if is_str "NEXT-SONG-CHANGED" event
          then handle_next_song_changed_event message event_version
          else if not (is_str "CHANGEOVER" event)
          then pure ignored
          else handle_changeover_event event_version

    unfoldable pub vote_event : Fields → Action (World S) Answer
    vote_event payload = do
      message ← from_result (decode_pubsub_json codec payload)
      if not (is_str "CLOSE" (member "event" message)) then pure ignored else (do
        record_vote_closed (member "voteId" message) (member "winnerOption" message)
        pure handled)

    -- The caches hold text keys only, and a dict or a list cannot be looked up.
    dirty_value : Value → StreamState → Result Bool
    dirty_value (str v) s = ok (is_tally_dirty (some v) s)
    dirty_value (obj _) s = err type_error
    dirty_value (arr _) s = err type_error
    dirty_value _ s = ok false

    mark_if_current : Option Snapshot → Value → Action (World S) Answer
    unfolding same_text
    mark_if_current snapshot vote_id = do
      current ← from_result (elim snapshot [ none ↦ ok none | some found ↦ current_vote_id found ])
      if same_text current vote_id
          then (do update (mark_tally_dirty current); pure handled)
          else pure handled

    read_and_mark : Value → Action (World S) Answer
    unfolding mark_if_current
    read_and_mark vote_id w =
        if calls.client_up && calls.snapshot_up
        then mark_if_current (get_playback_current_snapshot c w.redis) vote_id w
        else (ok failed, w)

    unfoldable pub tally_event : Fields → Action (World S) Answer
    unfolding dirty_value read_and_mark
    tally_event payload = do
      message ← from_result (decode_pubsub_json codec payload)
      let vote_id = member "voteId" message
      if not (truthy vote_id) then pure ignored else (do
        state ← gets λ w. w.state
        dirty ← from_result (dirty_value vote_id state)
        if dirty then pure ignored else read_and_mark vote_id)
