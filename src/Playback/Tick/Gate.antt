-- ===== src/Playback/Tick/Gate.antt =====
-- The version gate of /tick (services/playback-service/pulsefm_playback_service/main.py): what a tick
-- that has run before does.
use pulse_fm.Base.{ℕ, ◌≡◌, ◌∙◌, ap, ◌≤◌, true, none, some, arith}
use pulse_fm.Base.Dict.{Dict}
use pulse_fm.Base.Value.{Value, Result, ok}
use pulse_fm.Base.Action.{raise, from_result, try_except-ok, >>=-ok, ◌>>=◌}
use pulse_fm.Redis.{Commands}
use pulse_fm.Playback.{World, Env, Songs, Station, calling, calling_up, or_zero, run_transaction}
use pulse_fm.Playback.Ids.{validate_tick_version}
use pulse_fm.Playback.Rotation.{SongRotationResult, rotation_txn, rotate_song, as_server_error}
use pulse_fm.Playback.Tick.{stale, after_gate, after_rotation, tick}

module _ {S D : Type 0} (f : Songs D) (env : Env) where
  rotation_txn_stale :
      (w : World S D) (station : Station) (v : ℕ)
      → w.station ≡ some station
      → v ≤ or_zero station.version
      → rotation_txn f env v w ≡ (ok none, w)
  unfolding rotation_txn
  rotation_txn_stale w station v found old = ground arith

  rotate_song_stale :
      (w : World S D) (station : Station) (v : ℕ)
      → env.up run_transaction ≡ true
      → w.station ≡ some station
      → v ≤ or_zero station.version
      → rotate_song f env v w ≡ (ok none, w)
  unfolding rotate_song
  rotate_song_stale w station v up found old =
      try_except-ok (calling env run_transaction (rotation_txn f env v))
        (λ e. raise (as_server_error "Failed to run playback transaction" e))
        (calling_up env run_transaction (rotation_txn f env v) up
          (rotation_txn_stale w station v found old))

module _ {S D : Type 0} (c : Commands S) (f : Songs D) (env : Env) where
  -- A tick whose version the station has reached changes nothing at all, and answers so.
  pub tick_stale :
      (payload : Dict Value) (w : World S D) (station : Station) (v : ℕ)
      → validate_tick_version payload ≡ ok v
      → env.up run_transaction ≡ true
      → w.station ≡ some station
      → v ≤ or_zero station.version
      → tick c f env payload w ≡ (ok (stale v), w)
  unfolding tick after_gate
  tick_stale payload w station v valid up found old =
      >>=-ok (from_result (validate_tick_version payload))
        (λ version. rotate_song f env version >>= after_gate c f env version)
        (ap (λ (r : Result ℕ). (r, w)) valid)
      ∙ >>=-ok (rotate_song f env v) (after_gate c f env v)
          (rotate_song_stale f env w station v up found old)

  -- A tick past the gate goes on from the world that the changeover leaves.
  pub tick_rotates :
      (payload : Dict Value) (w w' : World S D) (v : ℕ) (rotation : SongRotationResult)
      → validate_tick_version payload ≡ ok v
      → rotate_song f env v w ≡ (ok (some rotation), w')
      → tick c f env payload w ≡ after_rotation c f env v rotation w'
  unfolding tick after_gate
  tick_rotates payload w w' v rotation valid rotated =
      >>=-ok (from_result (validate_tick_version payload))
        (λ version. rotate_song f env version >>= after_gate c f env version)
        (ap (λ (r : Result ℕ). (r, w)) valid)
      ∙ >>=-ok (rotate_song f env v) (after_gate c f env v) rotated
