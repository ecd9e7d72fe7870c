-- ===== src/Playback/Refresh/Tests.antt =====
-- A station whose next song is the stub.
use pulse_fm.Base.{◌≡◌, inl, refl, String, Option, none, some, arith, eq_iff, or_else}
use pulse_fm.Redis.Memory.{Memory, at, commands}
use pulse_fm.Playback.{World, Song, Station}
use pulse_fm.Playback.Collection.{Collection, songs, songs-IsLawful}
use pulse_fm.Playback.Rotation.Updates.{IsValid}
use pulse_fm.Playback.Refresh.Replacement.{Refreshes, refresh_next_song-Refreshes}
use pulse_fm.Playback.Samples.{except_redis, song, station, start, redis_down, stub_status}

-- The stub is next, and s2 is ready.
abbrev few_songs : Collection
few_songs =
    at (at (λ _. none) "stubbed" (some (song "stubbed" 30000))) "s2" (some (song "ready" 180000))

abbrev waiting_station : Station
waiting_station = record station {
  next = record { vote_id = some "stubbed"; duration = some 30000; duration_ms = some 30000 };
}

abbrev waiting : World Memory Collection
waiting = record start { station = some waiting_station; songs = few_songs }

none_queued :
    (j : String) (queued : Song)
    → few_songs j ≡ some queued
    → queued.status ≡ some "queued"
    → j ≡ "stubbed"
none_queued j queued found waits =
    let status : or_else
          (elim (few_songs j) as (λ _. Option String) [ none ↦ none | some s ↦ s.status ]) ""
        ≡ "queued" =
      rw (found, waits) refl in
    ground
      (arith, eq_iff "s2" j, eq_iff "stubbed" j, eq_iff "stubbed" "queued", eq_iff "ready" "queued")

abbrev waiting-IsValid : IsValid (songs "s2") waiting
waiting-IsValid = record {
  station = waiting_station;
  found = refl;
  stub = record {
    stub = song "stubbed" 30000;
    stored = refl;
    duration = 30000;
    has_duration = refl;
    not_ready = stub_status.0;
    not_queued = stub_status.1;
  };
  next = record {
    id = "stubbed";
    duration = 30000;
    named = refl;
    timed = refl;
    waits = inl refl;
    only = none_queued;
  };
}

refresh_next_song-Refreshes_example :
    Refreshes commands (songs "s2") redis_down waiting waiting_station
unfolding except_redis
refresh_next_song-Refreshes_example =
    refresh_next_song-Refreshes commands (songs "s2") redis_down (songs-IsLawful "s2") waiting
      waiting-IsValid refl
