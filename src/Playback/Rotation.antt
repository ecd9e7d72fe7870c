-- ===== src/Playback/Rotation.antt =====
-- services/playback-service/pulsefm_playback_service/main.py: the song changeover, a Firestore
-- transaction on stations/main and songs/*. A transaction that raises writes nothing.
pub mod Candidates
pub mod Updates
pub mod Validity
use pulse_fm.Base.{
  ℕ, ◌+◌, ◌*◌, String, Bool, true, false, not, ◌&&◌, Option, none, some, List, [], ◌∷◌, ◌==◌, leb,
  or_else, if◌then◌else◌,
}
use pulse_fm.Base.Text.{non_empty}
use pulse_fm.Base.Value.{Exception, http, Result, ok, err, value_error, service_error}
use pulse_fm.Base.Action.{
  Action, pure, gets, modify, raise, from_result, raise_if, try_except, ◌>>=◌, ◌>>◌,
}
use pulse_fm.Redis.Playback.{is_text}
use pulse_fm.Playback.{
  World, Env, Song, Songs, Station, Next, calling, or_number, or_zero, run_transaction,
}
use pulse_fm.Playback.Ids.{microseconds_per_ms}

pub record SongRotationResult : Type 0 where
  pub start_at : ℕ
  pub ends_at : ℕ
  pub duration_ms : ℕ
  pub vote_id : String
  pub next_vote_id : String
  pub next_duration_ms : ℕ
  pub next_stubbed : Bool
  pub version : ℕ

-- The dict that `_select_ready_song_candidate` returns.
pub record Candidate : Type 0 where
  pub id : String
  pub duration : ℕ
  pub stubbed : Bool

unfoldable pub is_current : Option String → String → Bool
unfolding is_text non_empty
is_current current id = non_empty (or_else current "") && is_text current id

-- The first document that is not the current song and has a duration.
unfoldable pub first_candidate : Option String → List (String × Song) → Option Candidate
unfolding is_current
first_candidate current_vote_id [] = none
first_candidate current_vote_id ((id, song) ∷ docs) =
    let rest = first_candidate current_vote_id docs in
    if is_current current_vote_id id then rest else elim song.duration_ms [
      | none ↦ rest
      | some duration ↦ some (record { id = id; duration = duration; stubbed = false })
    ]

-- The `except` clauses: a ValueError keeps its text.
unfoldable pub as_server_error : String → Exception → Exception
as_server_error detail (value_error text) = http 500 text
as_server_error detail _ = http 500 detail

unfoldable pub promoted : Env → Station → String → ℕ → Candidate → ℕ → Station
promoted env station current_vote_id duration_ms candidate request_version = record station {
  vote_id = some current_vote_id;
  start_at = some env.rotate_now;
  end_at = some (env.rotate_now + duration_ms * microseconds_per_ms);
  duration_ms = some duration_ms;
  version = some request_version;
  next = record {
    vote_id = some candidate.id;
    duration = some candidate.duration;
    duration_ms = some candidate.duration;
  };
}

unfoldable pub rotation_result : Env → String → ℕ → Candidate → ℕ → SongRotationResult
rotation_result env current_vote_id duration_ms candidate request_version = record {
  start_at = env.rotate_now;
  ends_at = env.rotate_now + duration_ms * microseconds_per_ms;
  duration_ms = duration_ms;
  vote_id = current_vote_id;
  next_vote_id = candidate.id;
  next_duration_ms = candidate.duration;
  next_stubbed = candidate.stubbed;
  version = request_version;
}

-- The member `next` of the station, which has to name a song and its duration.
unfoldable pub next_song : Station → Result (String × ℕ)
next_song station = elim station.next.vote_id [
  | none ↦ err (value_error "stations/main.next is missing fields")
  | some vote_id ↦ elim (or_number station.next.duration_ms station.next.duration) [
    | none ↦ err (value_error "stations/main.next is missing fields")
    | some duration ↦ ok (vote_id, duration)
  ]
]

module _ {D : Type 0} (f : Songs D) where
  unfoldable pub select_ready_song_candidate : Option String → D → Option Candidate
  select_ready_song_candidate current_vote_id songs =
      first_candidate current_vote_id (f.ready songs)

  -- `transaction.update(songs/id, {"status": status})`; a missing document fails the commit.
  unfoldable pub update_status : String → String → D → Result D
  update_status id status songs = elim (f.get songs id) [
    | none ↦ err service_error
    | some song ↦ ok (f.put songs id (record song { status = some status }))
  ]

  unfoldable pub stubbed_candidate : D → Result Candidate
  stubbed_candidate songs = elim (f.get songs "stubbed") [
    | none ↦ err (value_error "No ready song or stubbed song")
    | some song ↦ elim song.duration_ms [
      | none ↦ err (value_error "Stubbed song missing fields")
      | some duration ↦ ok (record { id = "stubbed"; duration = duration; stubbed = true })
    ]
  ]

  unfoldable pub choose_candidate : String → D → Result Candidate
  unfolding stubbed_candidate
  choose_candidate current_vote_id songs =
      elim (select_ready_song_candidate (some current_vote_id) songs) [
        | none ↦ stubbed_candidate songs
        | some candidate ↦ ok candidate
      ]

  -- The two updates of songs: the promoted one is played, the candidate is queued.
  unfoldable pub mark_played : String → D → Result D
  mark_played id songs = if id == "stubbed" then ok songs else update_status id "played" songs

  unfoldable pub mark_queued : Candidate → D → Result D
  mark_queued candidate songs =
      if candidate.stubbed then ok songs else update_status candidate.id "queued" songs

module _ {S D : Type 0} (f : Songs D) (env : Env) where
  -- The transaction's writes, committed together: the station, then the two songs.
  unfoldable pub commit :
      Station → String → ℕ → Candidate → ℕ → Action (World S D) SongRotationResult
  commit station current_vote_id duration_ms candidate request_version w =
      elim (mark_played f current_vote_id w.songs) [
        | err e ↦ (err e, w)
        | ok songs ↦ elim (mark_queued f candidate songs) [
          | err e ↦ (err e, w)
          | ok songs' ↦ (
            ok (rotation_result env current_vote_id duration_ms candidate request_version),
            record w {
              station =
                  some (promoted env station current_vote_id duration_ms candidate request_version);
              songs = songs';
            },
          )
        ]
      ]

  -- The transaction behind the version gate.
  unfoldable pub rotate_station : Station → ℕ → Action (World S D) (Option SongRotationResult)
  rotate_station station request_version = do
    next ← from_result (next_song station)
    songs ← gets (λ w. w.songs)
    candidate ← from_result (choose_candidate f next.0 songs)
    result ← commit station next.0 next.1 candidate request_version
    pure (some result)

  unfoldable pub rotation_txn : ℕ → Action (World S D) (Option SongRotationResult)
  rotation_txn request_version w = elim w.station [
    | none ↦ (err (value_error "stations/main not found"), w)
    | some station ↦
        if leb request_version (or_zero station.version)
        then (ok none, w)
        else rotate_station station request_version w
  ]

  unfoldable pub rotate_song : ℕ → Action (World S D) (Option SongRotationResult)
  rotate_song request_version =
      try_except (calling env run_transaction (rotation_txn request_version))
        (λ e. raise (as_server_error "Failed to run playback transaction" e))
