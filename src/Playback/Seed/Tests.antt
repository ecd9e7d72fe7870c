-- ===== src/Playback/Seed/Tests.antt =====
-- A fresh station.
use pulse_fm.Base.{◌≡◌, ◌≢◌, refl, String, Option, true, some, none, or_else, arith, eq_iff}
use pulse_fm.Base.Value.{ok}
use pulse_fm.Redis.Memory.{Memory, at}
use pulse_fm.Playback.{World, Song}
use pulse_fm.Playback.Collection.{Collection, songs, songs-IsLawful}
use pulse_fm.Playback.Rotation.Updates.{IsValid}
use pulse_fm.Playback.Rotation.Validity.{Rotates}
use pulse_fm.Playback.Samples.{all_up, song, start, stub_status}
use pulse_fm.Playback.Seed.{Env, seed, seeded_station}
use pulse_fm.Playback.Seed.Starting.{IsFresh, Seeds, seed-Rotates}

abbrev env : Env
env = record { now = 5000; gets_song = true; sets_station = true; acknowledged = true }

abbrev only_stub : Collection
only_stub = at (λ _. none) "stubbed" (some (song "stubbed" 30000))

abbrev unseeded : World Memory Collection
unseeded = record start { station = none; songs = only_stub }

none_queued :
    (j : String) (stored : Song) → only_stub j ≡ some stored → stored.status ≢ some "queued"
none_queued j stored found waits =
    let status : or_else
          (elim (only_stub j) as (λ _. Option String) [ none ↦ none | some s ↦ s.status ]) ""
        ≡ "queued" =
      rw (found, waits) refl in
    ground (arith, eq_iff "stubbed" j, eq_iff "stubbed" "queued")

abbrev unseeded-IsFresh : IsFresh (songs "s2") only_stub
unseeded-IsFresh = record {
  stub = record {
    stub = song "stubbed" 30000;
    stored = refl;
    duration = 30000;
    has_duration = refl;
    not_ready = stub_status.0;
    not_queued = stub_status.1;
  };
  long = omega arith;
  unqueued = none_queued;
}

env-Seeds : Seeds env
env-Seeds = record { looks = refl; writes = refl; acknowledged = refl }

seed-Rotates_example :
    let (r, w') = seed (songs "s2") env unseeded in
    (r ≡ ok tt)
    × IsValid (songs "s2") w'
    × Rotates (songs-IsLawful "s2") all_up w' (seeded_station 5000 30000) 1
seed-Rotates_example =
    seed-Rotates (songs-IsLawful "s2") env unseeded unseeded-IsFresh env-Seeds all_up 1 refl
      (omega arith)
