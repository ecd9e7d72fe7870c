-- ===== src/Playback/Seed.antt =====
-- scripts/seed_firestore.py: the station from which everything starts. Firestore's client is a parameter:
-- which of its calls succeed, and whether what `set` returns counts as true.
pub mod Starting
pub mod Tests
use pulse_fm.Base.{
  ℕ, zero, suc, ◌+◌, ◌*◌, String, Bool, true, false, not, Option, none, some, ◌||◌, if◌then◌else◌,
}
use pulse_fm.Base.Value.{ok, err, service_error, value_error}
use pulse_fm.Base.Action.{Action, raise, raise_if, modify, gets, pure, ◌>>=◌, ◌>>◌}
use pulse_fm.Playback.{World, Song, Songs, Station}
use pulse_fm.Playback.Ids.{microseconds_per_ms}

pub record Env : Type 0 where
  pub now : ℕ
  pub gets_song : Bool
  pub sets_station : Bool
  pub acknowledged : Bool

-- `(song.to_dict() or {}).get("durationMs")`, where it counts as true.
unfoldable pub stubbed_duration : Option Song → Option ℕ
stubbed_duration none = none
stubbed_duration (some song) = elim song.duration_ms [
  | none ↦ none
  | some n ↦ elim n [ zero ↦ none | suc m ↦ some (suc m) ]
]

unfoldable pub seeded_station : ℕ → ℕ → Station
seeded_station now duration_ms = record {
  vote_id = some "stubbed";
  start_at = some now;
  end_at = some (now + duration_ms * microseconds_per_ms);
  duration_ms = some duration_ms;
  version = none;
  next = record { vote_id = some "stubbed"; duration = some duration_ms; duration_ms = none };
}

module _ {S D : Type 0} (f : Songs D) (env : Env) where
  unfoldable pub seed : Action (World S D) (Unit {0})
  unfolding stubbed_duration seeded_station
  seed w =
      if not env.gets_song
      then (err service_error, w)
      else elim (stubbed_duration (f.get w.songs "stubbed")) [
        | none ↦ (err (value_error "Stubbed song duration is not set"), w)
        | some duration_ms ↦ if not env.sets_station then (err service_error, w) else (
          if env.acknowledged then ok tt else err (value_error "Failed to seed stations/main"),
          record w { station = some (seeded_station env.now duration_ms) },
        )
      ]
