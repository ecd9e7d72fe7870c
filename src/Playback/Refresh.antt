-- ===== src/Playback/Refresh.antt =====
-- services/playback-service/pulsefm_playback_service/main.py: POST /next/refresh, which puts a ready
-- song in place of the stub, and the snapshot's `nextSong`.
pub mod Replacement
pub mod Tests
use pulse_fm.Base.{
  ℕ, zero, suc, String, Bool, true, false, not, Option, none, some, [], ◌∷◌, or_else, if◌then◌else◌,
}
use pulse_fm.Base.Int.{ℤ, pos, eq_ℤ}
use pulse_fm.Base.Dict.{Dict}
use pulse_fm.Base.Text.{non_empty}
use pulse_fm.Base.Value.{Value, null, int, str, Result, ok, err, value_error}
use pulse_fm.Base.Action.{Action, pure, raise, try_except, ◌>>=◌, ◌>>◌}
use pulse_fm.Snapshot.{Snapshot, NextSong, dict, has_members}
use pulse_fm.Outbox.{Outbox}
use pulse_fm.Outbox.PubSub.{publish_json}
use pulse_fm.Redis.{Commands}
use pulse_fm.Redis.Keys.{playback_current_key}
use pulse_fm.Redis.Playback.{
  get_playback_current_snapshot, set_playback_current_snapshot, positive_ttl, is_text,
}
use pulse_fm.Playback.{
  World, Env, Songs, Station, calling, on_redis, on_outbox, or_number, or_zero, run_transaction,
  write_next_song, publish_next_song,
}
use pulse_fm.Playback.Ids.{parse_int, default_snapshot_ttl_seconds}
use pulse_fm.Playback.Rotation.{
  Candidate, select_ready_song_candidate, update_status, as_server_error,
}

-- The dict that `_refresh_next_song` returns; `reason` is missing for an update, `duration_ms`
-- where there is no ready song.
pub record Refreshed : Type 0 where
  pub action : String
  pub reason : Option String
  pub vote_id : Option String
  pub duration_ms : Option ℕ
  pub version : ℕ

unfoldable pub publish_playback_event : Env → Bool → String → Dict Value → Action Outbox (Unit {0})
publish_playback_event env accepted event payload =
    publish_json env.environment_project accepted (some env.settings.project_id)
      env.settings.playback_events_topic (("event", str event) ∷ payload)

next_song_payload : String → ℕ → ℕ → Dict Value
next_song_payload vote_id duration_ms version =
    ("voteId", str vote_id)
    ∷ ("durationMs", int (pos duration_ms))
    ∷ ("version", int (pos version))
    ∷ []

-- The snapshot's `nextSong`, or `{}` where it is no dict.
next_song_of : Snapshot → NextSong
next_song_of snapshot = elim snapshot.next_song [
  | dict next ↦ next
  | _ ↦ record { vote_id = none; duration_ms = null }
]

-- `_parse_int(value) == desired`
has_duration : ℕ → Result (Option ℤ) → Result Bool
has_duration desired (ok none) = ok false
has_duration desired (ok (some n)) = ok (eq_ℤ n (pos desired))
has_duration desired (err e) = err e

-- Whether the snapshot names this song with this duration; `and` looks at the duration only behind
-- an equal vote.
is_same : NextSong → String → ℕ → Result Bool
unfolding has_duration is_text parse_int
is_same next vote_id duration_ms =
    if is_text next.vote_id vote_id
    then has_duration duration_ms (parse_int next.duration_ms)
    else ok false

module _ {S : Type 0} (c : Commands S) where
  effective_ttl : S → ℕ
  unfolding positive_ttl
  effective_ttl s =
      or_else (positive_ttl (c.ttl s playback_current_key)) default_snapshot_ttl_seconds

  unfoldable pub update_playback_next_song_snapshot : String → ℕ → Action S Bool
  unfolding next_song_of is_same has_members effective_ttl
  update_playback_next_song_snapshot vote_id duration_ms s =
      elim (get_playback_current_snapshot c s) [
        | none ↦ (err (value_error "playback snapshot missing"), s)
        | some snapshot ↦
            if not (has_members snapshot)
            then (err (value_error "playback snapshot missing"), s)
            else elim (is_same (next_song_of snapshot) vote_id duration_ms) [
              | err e ↦ (err e, s)
              | ok true ↦ (ok false, s)
              | ok false ↦ (
                ok true,
                set_playback_current_snapshot c
                    (record snapshot {
                      next_song =
                          dict (record {
                            vote_id = some vote_id;
                            duration_ms = int (pos duration_ms);
                          });
                    })
                    (effective_ttl s) s,
              )
            ]
      ]

  unfoldable pub reconcile_next_song_snapshot : Refreshed → Action S Bool
  unfolding non_empty
  reconcile_next_song_snapshot result s =
      let vote_id = or_else result.vote_id "" in
      elim (or_zero result.duration_ms) [
        | zero ↦ (ok false, s)
        | suc n ↦
            if non_empty vote_id
            then update_playback_next_song_snapshot vote_id (suc n) s
            else (ok false, s)
      ]

abbrev pub stub_is_next : Station → Bool
stub_is_next station = is_text station.next.vote_id "stubbed"

module _ {S D : Type 0} (c : Commands S) (f : Songs D) (env : Env) where
  -- The next song is no stub: its duration has to be there, and nothing is written.
  unfoldable pub keep_next : Station → Result Refreshed
  keep_next station = elim (or_number station.next.duration_ms station.next.duration) [
    | none ↦ err (value_error "stations/main.next missing duration")
    | some duration ↦ ok (record {
      action = "noop";
      reason = some "next_not_stubbed";
      vote_id = station.next.vote_id;
      duration_ms = some duration;
      version = or_zero station.version;
    })
  ]

  unfoldable pub with_next : Station → Candidate → Station
  with_next station candidate = record station {
    next = record {
      vote_id = some candidate.id;
      duration = some candidate.duration;
      duration_ms = some candidate.duration;
    };
  }

  -- The stub is next: the first ready song, if there is one, takes its place.
  unfoldable pub replace_stub : Station → Action (World S D) Refreshed
  replace_stub station w = elim (select_ready_song_candidate f station.vote_id w.songs) [
    | none ↦ (
      ok (record {
        action = "noop";
        reason = some "no_ready_song";
        vote_id = station.next.vote_id;
        duration_ms = none;
        version = or_zero station.version;
      }),
      w,
    )
    | some candidate ↦ elim (update_status f candidate.id "queued" w.songs) [
      | err e ↦ (err e, w)
      | ok songs ↦ (
        ok (record {
          action = "updated";
          reason = none;
          vote_id = some candidate.id;
          duration_ms = some candidate.duration;
          version = or_zero station.version;
        }),
        record w { station = some (with_next station candidate); songs = songs },
      )
    ]
  ]

  unfoldable pub refresh_txn : Action (World S D) Refreshed
  refresh_txn w = elim w.station [
    | none ↦ (err (value_error "stations/main not found"), w)
    | some station ↦ if stub_is_next station then replace_stub station w else (keep_next station, w)
  ]

  unfoldable pub refresh_next : Action (World S D) Refreshed
  refresh_next =
      try_except (calling env run_transaction refresh_txn)
        (λ e. raise (as_server_error "Failed to refresh next song" e))

  -- The event that follows if Redis has changed.
  unfoldable pub announce_next : Refreshed → Bool → Action (World S D) (Unit {0})
  unfolding next_song_payload
  announce_next result false w = (ok tt, w)
  announce_next result true w =
      on_outbox
        (publish_playback_event env (env.up publish_next_song) "NEXT-SONG-CHANGED" (
          next_song_payload (or_else result.vote_id "") (or_zero result.duration_ms)
            result.version))
        w

  unfoldable pub reconcile : Refreshed → Action (World S D) (Unit {0})
  reconcile result = do
    changed ← calling env write_next_song (on_redis (reconcile_next_song_snapshot c result))
    announce_next result changed

  -- POST /next/refresh; what fails behind the transaction is only logged.
  unfoldable pub refresh_next_song : Action (World S D) Refreshed
  refresh_next_song = do
    result ← refresh_next
    try_except (reconcile result) (λ _. pure tt)
    pure result
