-- ===== src/Playback/Rotation/Validity.antt =====
-- The changeover keeps to the invariant of stations/main and songs/*, and never fails
-- (services/playback-service/pulsefm_playback_service/main.py).
use pulse_fm.Base.{ℕ, ◌≡◌, ◌<◌, sym, refl, String, true, some, arith}
use pulse_fm.Base.Value.{ok}
use pulse_fm.Base.Action.{raise, try_except-ok}
use pulse_fm.Playback.{
  World, Env, Songs, Station, IsLawful, or_number, or_zero, run_transaction, calling, calling_up,
}
use pulse_fm.Playback.Rotation.{
  Candidate, SongRotationResult, choose_candidate, mark_played, mark_queued, promoted,
  rotation_result, next_song, commit, as_server_error, rotate_station, rotation_txn, rotate_song,
}
use pulse_fm.Playback.Rotation.Updates.{
  IsValid, choose_candidate_total, mark_played_total, mark_queued_total, stub_kept, rotated-IsNext,
}

module _ {S D : Type 0} (f : Songs D) (env : Env) where
  rotate_station_runs :
      (w : World S D) (v : ℕ) (station : Station) (id : String) (d : ℕ)
      → (candidate : Candidate) (played queued : D) → station.next.vote_id ≡ some id
      → or_number station.next.duration_ms station.next.duration ≡ some d
      → choose_candidate f id w.songs ≡ ok candidate
      → mark_played f id w.songs ≡ ok played
      → mark_queued f candidate played ≡ ok queued
      → rotate_station f env station v w ≡ (
        ok (some (rotation_result env id d candidate v)),
        record w { station = some (promoted env station id d candidate v); songs = queued },
      )
  unfolding rotate_station next_song commit
  rotate_station_runs w v station id d candidate played queued named timed chosen was_played
        was_queued =
      ground arith

  rotation_txn_runs :
      (w : World S D) (v : ℕ) (station : Station) (id : String) (d : ℕ)
      → (candidate : Candidate) (played queued : D) → w.station ≡ some station
      → or_zero station.version < v
      → station.next.vote_id ≡ some id
      → or_number station.next.duration_ms station.next.duration ≡ some d
      → choose_candidate f id w.songs ≡ ok candidate
      → mark_played f id w.songs ≡ ok played
      → mark_queued f candidate played ≡ ok queued
      → rotation_txn f env v w ≡ (
        ok (some (rotation_result env id d candidate v)),
        record w { station = some (promoted env station id d candidate v); songs = queued },
      )
  unfolding rotation_txn
  rotation_txn_runs w v station id d candidate played queued found newer named timed chosen
        was_played was_queued =
      ground (
        arith,
        rotate_station_runs w v station id d candidate played queued named timed chosen was_played
            was_queued,
      )

  rotate_song_runs :
      (w : World S D) (v : ℕ) (station : Station) (id : String) (d : ℕ)
      → (candidate : Candidate) (played queued : D) → env.up run_transaction ≡ true
      → w.station ≡ some station
      → or_zero station.version < v
      → station.next.vote_id ≡ some id
      → or_number station.next.duration_ms station.next.duration ≡ some d
      → choose_candidate f id w.songs ≡ ok candidate
      → mark_played f id w.songs ≡ ok played
      → mark_queued f candidate played ≡ ok queued
      → rotate_song f env v w ≡ (
        ok (some (rotation_result env id d candidate v)),
        record w { station = some (promoted env station id d candidate v); songs = queued },
      )
  unfolding rotate_song
  rotate_song_runs w v station id d candidate played queued up found newer named timed chosen
        was_played was_queued =
      try_except-ok (calling env run_transaction (rotation_txn f env v))
        (λ e. raise (as_server_error "Failed to run playback transaction" e))
        (calling_up env run_transaction (rotation_txn f env v) up (
          rotation_txn_runs w v station id d candidate played queued found newer named timed chosen
            was_played was_queued))

module _ {S D : Type 0} {f : Songs D} (laws : IsLawful f) (env : Env) where
  -- What a changeover at version `v` does to a world whose station is `station`.
  pub record Rotates (w : World S D) (station : Station) (v : ℕ) : Type 0 where
    pub result : SongRotationResult
    pub after : World S D
    pub runs : rotate_song f env v w ≡ (ok (some result), after)
    pub valid : IsValid f after
    pub promotes : some result.vote_id ≡ station.next.vote_id
    pub versioned :
        after.station
        ≡ some (
            promoted env station result.vote_id result.duration_ms
              (record {
                id = result.next_vote_id;
                duration = result.next_duration_ms;
                stubbed = result.next_stubbed;
              })
              v)
    pub rest : record after { station = w.station; songs = w.songs } ≡ w

  pub rotate_song-Rotates :
      (w : World S D) (v : ℕ) (valid : IsValid f w)
      → env.up run_transaction ≡ true
      → or_zero valid.station.version < v
      → Rotates w valid.station v
  unfolding rotation_result
  rotate_song-Rotates w v valid up newer =
      let station = valid.station in
      let id = valid.next.id in
      let (candidate, chosen, choice) = choose_candidate_total laws id w.songs valid.stub in
      let (played, was_played) = mark_played_total laws id w.songs valid.next.waits in
      let (queued, was_queued) =
        mark_queued_total laws w.songs played candidate id was_played choice in
      let after : World S D = record w {
        station = some (promoted env station id valid.next.duration candidate v);
        songs = queued;
      } in
      record {
        result = rotation_result env id valid.next.duration candidate v;
        after = after;
        runs =
            rotate_song_runs f env w v station id valid.next.duration candidate played queued up
              valid.found newer valid.next.named valid.next.timed chosen was_played was_queued;
        valid = record {
          station = promoted env station id valid.next.duration candidate v;
          found = refl;
          stub =
              stub_kept laws station w.songs played queued candidate valid.stub valid.next choice
                was_played was_queued;
          next =
              rotated-IsNext laws station w.songs played queued candidate valid.stub valid.next
                choice was_played was_queued env valid.next.duration v;
        };
        promotes = sym valid.next.named;
        versioned = refl;
        rest = refl;
      }
