-- ===== src/Playback/Seed/Starting.antt =====
-- What services/playback-service/pulsefm_playback_service/main.py makes of a station that
-- scripts/seed_firestore.py has written.
use pulse_fm.Base.{ℕ, zero, suc, ◌≡◌, ◌≢◌, ◌<◌, subst, inl, refl, String, true, some, arith, sym}
use pulse_fm.Base.Value.{Result, ok}
use pulse_fm.Playback.{World, Env, Song, Songs, Station, IsLawful, or_zero, run_transaction}
use pulse_fm.Playback.Rotation.Updates.{HasStub, IsValid}
use pulse_fm.Playback.Rotation.Validity.{Rotates, rotate_song-Rotates}
use pulse_fm.Playback.Seed.{stubbed_duration, seeded_station, seed}

-- The songs of a station that has not played yet: the stub has a length, and nothing is queued.
pub record IsFresh {D : Type 0} (f : Songs D) (songs : D) : Type 0 where
  pub stub : HasStub f songs
  pub long : 0 < stub.duration
  pub unqueued :
      (j : String) (song : Song) → f.get songs j ≡ some song → song.status ≢ some "queued"

-- The calls of the script succeed.
pub record Seeds (env : pulse_fm.Playback.Seed.Env) : Type 0 where
  pub looks : env.gets_song ≡ true
  pub writes : env.sets_station ≡ true
  pub acknowledged : env.acknowledged ≡ true

stubbed_duration_positive :
    (song : Song) (n : ℕ)
    → song.duration_ms ≡ some n
    → 0 < n
    → stubbed_duration (some song) ≡ some n
unfolding stubbed_duration
stubbed_duration_positive song zero timed long = absurd (omega (arith, long))
stubbed_duration_positive song (suc n) timed long = rw timed refl

module _ {S D : Type 0} {f : Songs D} (laws : IsLawful f) (env : pulse_fm.Playback.Seed.Env)
    (w : World S D) (fresh : IsFresh f w.songs) (seeds : Seeds env) where
  abbrev pub seeded : World S D
  seeded = record w { station = some (seeded_station env.now fresh.stub.duration) }

  seed_runs : seed f env w ≡ (ok tt, seeded)
  unfolding seed
  seed_runs = ground (
    arith,
    seeds.looks,
    seeds.writes,
    seeds.acknowledged,
    fresh.stub.stored,
    stubbed_duration_positive fresh.stub.stub fresh.stub.duration fresh.stub.has_duration
        fresh.long,
  )

  abbrev pub seeded-IsValid : IsValid f seeded
  unfolding seeded_station
  seeded-IsValid = record {
    station = seeded_station env.now fresh.stub.duration;
    found = refl;
    stub = fresh.stub;
    next = record {
      id = "stubbed";
      duration = fresh.stub.duration;
      named = refl;
      timed = refl;
      waits = inl refl;
      only = λ j song stored queued. absurd (fresh.unqueued j song stored queued);
    };
  }

  -- Where the stub has a length and no song is queued, a seeding whose calls succeed ends well and leaves a
  -- valid world, from which the changeover to any version but 0 succeeds while Firestore answers.
  pub seed-Rotates :
      (later : Env) (v : ℕ)
      → later.up run_transaction ≡ true
      → 0 < v
      → let (r, w') = seed f env w in
        (r ≡ ok tt)
        × IsValid f w'
        × Rotates laws later w' (seeded_station env.now fresh.stub.duration) v
  unfolding seeded_station
  seed-Rotates later v up newer =
      let Starts : Result (Unit {0}) × World S D → Type 0 = λ (r, w').
        (r ≡ ok tt)
        × IsValid f w'
        × Rotates laws later w' (seeded_station env.now fresh.stub.duration) v in
      subst Starts (sym seed_runs)
        (refl, seeded-IsValid, rotate_song-Rotates laws later seeded v seeded-IsValid up newer)
