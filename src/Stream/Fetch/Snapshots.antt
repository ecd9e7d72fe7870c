-- ===== src/Stream/Fetch/Snapshots.antt =====
-- How long a snapshot is answered from the cache, and when it is read from Redis
-- (services/playback-stream/pulsefm_playback_stream/main.py).
use pulse_fm.Base.{ℕ, suc, ◌+◌, ◌-◌, ◌≤◌, ◌<◌, ◌≡◌, refl, true, Option, none, some, arith}
use pulse_fm.Base.Value.{ok}
use pulse_fm.Snapshot.{Snapshot, CurrentSong, Member, absent, falsy, malformed, dict, has_members}
use pulse_fm.Redis.{Commands}
use pulse_fm.Redis.Playback.{get_playback_current_snapshot}
use pulse_fm.Stream.Cache.{is_fresh, set_with_ttl}
use pulse_fm.Stream.State.{snapshot_ttl_ms, set_snapshot}
use pulse_fm.Stream.Fetch.{stored, check_fresh, fetch_snapshot, get_state_snapshot}
use pulse_fm.Stream.{World, StateSnapshot, Calls, now, next}

-- The snapshot's song is a dict, or counts as one.
abbrev pub HasSong : Member CurrentSong → Type 0
HasSong malformed = ⊥
HasSong _ = Unit

-- A snapshot that was just stored is answered from the cache only before its song ends, give or take the
-- time between the two readings of the clock that storing takes.
pub set_snapshot-is_fresh :
    {S : Type 0} (w : World S) (s : StateSnapshot) (song : CurrentSong) (ends_at t : ℕ)
    → s.shared.current_song ≡ dict song
    → song.end_at ≡ some ends_at
    → let first = now w.utc in
      let second = now (next w.utc) in
      let (r, w') = set_snapshot s w in
      second ≤ t → is_fresh t w'.state.snapshot_cache ≡ true → t + first < ends_at + second
unfolding set_snapshot snapshot_ttl_ms is_fresh
set_snapshot-is_fresh w s song ends_at t is_dict ends late fresh = ground arith

-- `set_snapshot` stores the snapshot at some reading of the clock.
abbrev StoresIt : {S : Type 0} → StateSnapshot → World S → Type 0
StoresIt s w =
    (at ttl used : ℕ) × (set_snapshot s w ≡ (
      ok tt,
      record w {
        state = record (w.state) { snapshot_cache = set_with_ttl at s ttl w.state.snapshot_cache };
        utc = record (w.utc) { used = used };
      },
    ))

module _ {S : Type 0} (s : StateSnapshot) (w : World S) where
  stores_song :
      (song : CurrentSong) (end_at : Option ℕ)
      → s.shared.current_song ≡ dict song
      → song.end_at ≡ end_at
      → StoresIt s w
  unfolding set_snapshot snapshot_ttl_ms
  stores_song song none is_dict ends = (now w.utc, 0, suc w.utc.used, ground arith)
  stores_song song (some t) is_dict ends =
      (now (next w.utc), t - now w.utc, suc (suc w.utc.used), ground arith)

  stores : (m : Member CurrentSong) → s.shared.current_song ≡ m → HasSong m → StoresIt s w
  unfolding set_snapshot snapshot_ttl_ms
  stores absent e has = (now w.utc, 0, suc w.utc.used, ground arith)
  stores falsy e has = (now w.utc, 0, suc w.utc.used, ground arith)
  stores malformed e has = absurd has
  stores (dict song) e has = stores_song song song.end_at e refl

module _ {S : Type 0} (c : Commands S) where
  -- A cache that was cleared does not answer: the snapshot that Redis holds is stored and answered.
  pub get_state_snapshot-reads :
      (calls : Calls) (w : World S) (snapshot : Snapshot)
      → w.state.snapshot_cache.fetched_at_ms ≡ 0
      → calls.client_up ≡ true
      → calls.snapshot_up ≡ true
      → get_playback_current_snapshot c w.redis ≡ some snapshot
      → has_members snapshot ≡ true
      → HasSong snapshot.current_song
      → (at ttl used : ℕ) × (get_state_snapshot c calls w ≡ (
        ok (stored snapshot),
        record w {
          state = record (w.state) {
            snapshot_cache = set_with_ttl at (stored snapshot) ttl w.state.snapshot_cache;
          };
          utc = record (w.utc) { used = used };
        },
      ))
  unfolding get_state_snapshot check_fresh fetch_snapshot
  get_state_snapshot-reads calls w snapshot cleared client reads found full has =
      let (at, ttl, used, stores) = stores (stored snapshot) w snapshot.current_song refl has in
      (at, ttl, used, ground arith)
