-- ===== src/Stream/Events/Changeover.antt =====
-- What a CHANGEOVER event shows the listeners, from the poll that playback-service opens to the state
-- of services/playback-stream/pulsefm_playback_stream/main.py.
use pulse_fm.Base.{ℕ, ◌≡◌, refl, true, false, Option, none, some, [], arith}
use pulse_fm.Base.Int.{ℤ}
use pulse_fm.Base.Value.{ok}
use pulse_fm.Snapshot.{Snapshot, has_members}
use pulse_fm.Redis.{Commands}
use pulse_fm.Redis.Playback.{get_playback_current_snapshot}
use pulse_fm.Stream.Cache.{clear}
use pulse_fm.Stream.State.{invalidate, is_stale_event}
use pulse_fm.Stream.Fetch.{stored}
use pulse_fm.Stream.Fetch.Snapshots.{HasSong, get_state_snapshot-reads}
use pulse_fm.Stream.Events.{
  handled, set_version_if, poll_version, changeover, handle_changeover_event,
}
use pulse_fm.Stream.{World, Calls, poll_vote_id}

-- The version that listeners are told: the event's, or the poll's where it has none.
unfoldable pub told : Option ℤ → Snapshot → Option ℤ
told none snapshot = poll_version (stored snapshot)
told (some version) snapshot = some version

module _ {S : Type 0} (c : Commands S) (calls : Calls) where
  -- A changeover that is not stale makes the service answer with the snapshot that Redis holds, forget
  -- every tally and the number of listeners, and announce the snapshot's vote; it touches neither Redis nor
  -- the other announcements.
  pub handle_changeover_event-Shows :
      (version : Option ℤ) (snapshot : Snapshot) (w : World S)
      → is_stale_event version w.state ≡ false
      → calls.client_up ≡ true
      → calls.snapshot_up ≡ true
      → get_playback_current_snapshot c w.redis ≡ some snapshot
      → has_members snapshot ≡ true
      → HasSong snapshot.current_song
      → let (r, w') = handle_changeover_event c calls version w in
        (r ≡ ok handled)
        × (w'.state.snapshot_cache.value ≡ some (stored snapshot))
        × (w'.state.tally_caches ≡ [])
        × (w'.state.listener_cache.fetched_at_ms ≡ 0)
        × ((ts : ℕ) × (w'.state.last_invalidated
              ≡ some (record {
                vote_id = poll_vote_id (stored snapshot);
                ts = ts;
                version = told version snapshot;
              })))
        × (w'.state.last_vote_closed ≡ w.state.last_vote_closed)
        × (w'.state.last_next_song_changed ≡ w.state.last_next_song_changed)
        × (w'.redis ≡ w.redis)
  unfolding handle_changeover_event changeover invalidate set_version_if told
  handle_changeover_event-Shows none snapshot w fresh client reads found full has =
      let w1 = record w {
        state = record (w.state) { snapshot_cache = clear w.state.snapshot_cache };
      } in
      let (at, ttl, used, gives) =
        get_state_snapshot-reads c calls w1 snapshot refl client reads found full has in
      (
        ground arith,
        ground arith,
        ground arith,
        ground arith,
        (w.utc.readings used, ground arith),
        ground arith,
        ground arith,
        ground arith,
      )
  handle_changeover_event-Shows (some v) snapshot w fresh client reads found full has =
      let w1 = record w {
        state = record (w.state) {
          snapshot_cache = clear w.state.snapshot_cache;
          last_playback_version = v;
        };
      } in
      let (at, ttl, used, gives) =
        get_state_snapshot-reads c calls w1 snapshot refl client reads found full has in
      (
        ground arith,
        ground arith,
        ground arith,
        ground arith,
        (w.utc.readings used, ground arith),
        ground arith,
        ground arith,
        ground arith,
      )
