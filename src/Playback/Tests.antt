-- ===== src/Playback/Tests.antt =====
-- A concrete changeover and a concrete vote of playback-service.
use pulse_fm.Base.{◌≡◌, inl, inr, refl, String, Option, none, some, arith, eq_iff, or_else}
use pulse_fm.Base.Dict.{lookup}
use pulse_fm.Base.Value.{int_of, ok}
use pulse_fm.Redis.Memory.{commands}
use pulse_fm.Base.Text.{non_empty}
use pulse_fm.Playback.{Song}
use pulse_fm.Playback.Ids.{validate_tick_version, required_version}
use pulse_fm.Playback.Collection.{songs, songs-IsLawful}
use pulse_fm.Playback.Rotation.Updates.{IsValid}
use pulse_fm.Playback.Votes.Success.{IsNamed}
use pulse_fm.Playback.Tick.Lost.{Loses, tick-Loses}
use pulse_fm.Playback.Samples.{
  except_opened, all_up, opening_down, song, stored_songs, station, start, payload, stub_status,
}

pub only_queued :
    (j : String) (queued : Song)
    → stored_songs j ≡ some queued
    → queued.status ≡ some "queued"
    → j ≡ "s1"
only_queued j queued found waits =
    let status : or_else
          (elim (stored_songs j) as (λ _. Option String) [ none ↦ none | some s ↦ s.status ]) ""
        ≡ "queued" =
      rw (found, waits) refl in
    ground (
      arith,
      eq_iff "s2" j,
      eq_iff "s1" j,
      eq_iff "stubbed" j,
      eq_iff "stubbed" "queued",
      eq_iff "ready" "queued",
    )

abbrev pub start-IsValid : IsValid (songs "s2") start
start-IsValid = record {
  station = station;
  found = refl;
  stub = record {
    stub = song "stubbed" 30000;
    stored = refl;
    duration = 30000;
    has_duration = refl;
    not_ready = stub_status.0;
    not_queued = stub_status.1;
  };
  next = record {
    id = "s1";
    duration = 200000;
    named = refl;
    timed = refl;
    waits = inr (song "queued" 200000, refl, refl);
    only = only_queued;
  };
}

pub payload_valid :
    (validate_tick_version (payload 4) ≡ ok 4) × (validate_tick_version (payload 5) ≡ ok 5)
unfolding validate_tick_version required_version lookup int_of
payload_valid = (refl, refl)

tick-Loses_example : Loses commands (songs "s2") opening_down all_up (payload 5) start 5
unfolding except_opened
tick-Loses_example =
    tick-Loses commands (songs "s2") opening_down all_up (songs-IsLawful "s2") (payload 5) start 5
      start-IsValid payload_valid.1 (omega arith) refl (inl refl) refl

pub start-IsNamed : IsNamed start.vote_state
unfolding non_empty
start-IsNamed = refl
