-- ===== src/Playback/Rotation/Updates.antt =====
-- What stations/main and songs/* keep to (services/playback-service/pulsefm_playback_service/main.py), and
-- that the updates of songs keep to it.
use pulse_fm.Base.{
  ℕ, zero, suc, ◌≡◌, ◌≢◌, ◌⊎◌, subst, inl, inr, refl, String, true, false, not, ◌&&◌, some, arith,
  ◌==◌, eq_iff, eq_refl, Bool-cases, Option-cases,
}
use pulse_fm.Base.Value.{ok}
use pulse_fm.Playback.{World, Env, Song, Songs, Station, IsReady, IsLawful, or_number}
use pulse_fm.Playback.Rotation.{
  Candidate, select_ready_song_candidate, update_status, choose_candidate, mark_played, mark_queued,
  promoted,
}
use pulse_fm.Playback.Rotation.Candidates.{first_candidate_sound, get-mark_played, get-mark_queued}

-- `id` is the stub, or a document that waits in the queue.
abbrev pub Waits : {D : Type 0} → Songs D → D → String → Type 0
Waits f songs id =
    (id ≡ "stubbed")
    ⊎ ((song : Song) × (f.get songs id ≡ some song) × (song.status ≡ some "queued"))

-- The stub is stored with a duration, and is never in the queue or ready itself.
pub record HasStub {D : Type 0} (f : Songs D) (songs : D) : Type 0 where
  pub stub : Song
  pub stored : f.get songs "stubbed" ≡ some stub
  pub duration : ℕ
  pub has_duration : stub.duration_ms ≡ some duration
  pub not_ready : stub.status ≢ some "ready"
  pub not_queued : stub.status ≢ some "queued"

-- The next song of the station waits and has a duration, and no other song is queued.
pub record IsNext {D : Type 0} (f : Songs D) (station : Station) (songs : D) : Type 0 where
  pub id : String
  pub duration : ℕ
  pub named : station.next.vote_id ≡ some id
  pub timed : or_number station.next.duration_ms station.next.duration ≡ some duration
  pub waits : Waits f songs id
  pub only :
      (j : String) (song : Song) → f.get songs j ≡ some song → song.status ≡ some "queued" → j ≡ id

pub record IsValid {S D : Type 0} (f : Songs D) (w : World S D) : Type 0 where
  pub station : Station
  pub found : w.station ≡ some station
  pub stub : HasStub f w.songs
  pub next : IsNext f station w.songs

pub or_number_same : (n : ℕ) → or_number (some n) (some n) ≡ some n
or_number_same zero = refl
or_number_same (suc n) = refl

module _ {D : Type 0} {f : Songs D} (laws : IsLawful f) where
  -- What the next song can be: the stub, or a stored song that is ready.
  abbrev pub Choice : D → Candidate → Type 0
  Choice songs candidate =
      ((candidate.stubbed ≡ true) × (candidate.id ≡ "stubbed"))
      ⊎ ((song : Song) × (candidate.stubbed ≡ false)
          × (f.get songs candidate.id ≡ some song)
          × (song.status ≡ some "ready"))

  pub choose_candidate_total :
      (current : String) (songs : D)
      → HasStub f songs
      → (candidate : Candidate) × (choose_candidate f current songs ≡ ok candidate)
        × Choice songs candidate
  unfolding choose_candidate select_ready_song_candidate
  choose_candidate_total current songs stub =
      elim (Option-cases (select_ready_song_candidate f (some current) songs)) [
        | inl none_ready ↦ (
          record { id = "stubbed"; duration = stub.duration; stubbed = true },
          ground arith,
          inl (refl, refl),
        )
        | inr (candidate, chosen) ↦
            let (song, (stored, ready), real, _, _) =
              first_candidate_sound (IsReady f songs) (some current) (f.ready songs) candidate
                (laws.ready-sound songs) chosen in
            (candidate, ground arith, inr (song, real, stored, ready))
      ]

  pub mark_played_total :
      (id : String) (songs : D)
      → Waits f songs id
      → (songs' : D) × (mark_played f id songs ≡ ok songs')
  unfolding mark_played update_status
  mark_played_total id songs (inl stub) = (songs, rw stub (ground (arith, eq_refl "stubbed")))
  mark_played_total id songs (inr (song, stored, _)) = elim (Bool-cases (id == "stubbed")) [
    | inl stub ↦ (songs, ground arith)
    | inr real ↦ (f.put songs id (record song { status = some "played" }), ground arith)
  ]

  -- The two updates of a changeover from `songs` over `played` to `queued`.
  module _ (station : Station) (songs played queued : D) (candidate : Candidate)
      (stub : HasStub f songs) (next : IsNext f station songs) (choice : Choice songs candidate)
      (was_played : mark_played f next.id songs ≡ ok played)
      (was_queued : mark_queued f candidate played ≡ ok queued) where
    candidate_real : candidate.stubbed ≡ false → candidate.id ≢ "stubbed"
    candidate_real real e = elim choice [
      | inl (stubbed, _) ↦ ground arith
      | inr (song, _, stored, ready) ↦
          let same : f.get songs "stubbed" ≡ some song =
            subst (λ k. f.get songs k ≡ some song) e stored in
          ground (arith, stub.stored, same, stub.not_ready)
    ]

    pub stub_kept : HasStub f queued
    stub_kept = record {
      stub = stub.stub;
      stored = ground (
        arith,
        get-mark_played laws next.id songs played was_played "stubbed",
        get-mark_queued laws candidate played queued was_queued "stubbed",
        candidate_real,
        stub.stored,
        eq_iff candidate.id "stubbed",
      );
      duration = stub.duration;
      has_duration = stub.has_duration;
      not_ready = stub.not_ready;
      not_queued = stub.not_queued;
    }

    candidate-Waits : Waits f queued candidate.id
    candidate-Waits = elim choice [
      | inl (_, is_stub) ↦ inl is_stub
      | inr (song, real, stored, _) ↦ inr (
        record song { status = some "queued" },
        ground (
          arith,
          get-mark_played laws next.id songs played was_played candidate.id,
          get-mark_queued laws candidate played queued was_queued candidate.id,
          stored,
          eq_refl candidate.id,
        ),
        refl,
      )
    ]

    -- The old next song has been played, so no song is queued between the two updates.
    none_left :
        (j : String) (song : Song) → f.get played j ≡ some song → song.status ≢ some "queued"
    none_left j song stored waiting =
        let view = get-mark_played laws next.id songs played was_played j in
        elim (Bool-cases (not (next.id == "stubbed") && (next.id == j))) [
          | inl mine ↦ elim (Option-cases (f.get songs j)) [
            | inl missing ↦ absurd (ground arith)
            | inr (old, found) ↦
                let is_played : song.status ≡ some "played" = ground arith in
                ground (arith, eq_iff "played" "queued")
          ]
          | inr other ↦
              let before : f.get songs j ≡ some song = ground arith in
              let is_next = next.only j song before waiting in
              let is_stub : j ≡ "stubbed" =
                ground (arith, eq_iff next.id "stubbed", eq_iff next.id j) in
              let same : f.get songs "stubbed" ≡ some song =
                subst (λ k. f.get songs k ≡ some song) is_stub before in
              ground (arith, stub.stored, same, stub.not_queued)
        ]

    only_candidate :
        (j : String) (song : Song)
        → f.get queued j ≡ some song
        → song.status ≡ some "queued"
        → j ≡ candidate.id
    only_candidate j song stored waiting =
        elim (Bool-cases (not candidate.stubbed && (candidate.id == j))) [
          | inl mine ↦ ground (arith, eq_iff candidate.id j)
          | inr other ↦
              let before : f.get played j ≡ some song =
                ground (arith, get-mark_queued laws candidate played queued was_queued j, stored) in
              absurd (none_left j song before waiting)
        ]

    pub rotated-IsNext :
        (env : Env) (duration_ms v : ℕ)
        → IsNext f (promoted env station next.id duration_ms candidate v) queued
    unfolding promoted
    rotated-IsNext env duration_ms v = record {
      id = candidate.id;
      duration = candidate.duration;
      named = refl;
      timed = or_number_same candidate.duration;
      waits = candidate-Waits;
      only = only_candidate;
    }

  pub mark_queued_total :
      (songs played : D) (candidate : Candidate) (id : String)
      → mark_played f id songs ≡ ok played
      → Choice songs candidate
      → (queued : D) × (mark_queued f candidate played ≡ ok queued)
  unfolding mark_queued update_status
  mark_queued_total songs played candidate id was_played (inl (stubbed, _)) = (played, ground arith)
  mark_queued_total songs played candidate id was_played (inr (song, real, stored, _)) =
      elim (Option-cases (f.get played candidate.id)) [
        | inl missing ↦
            absurd (ground (arith, get-mark_played laws id songs played was_played candidate.id))
        | inr (now, found) ↦
            (f.put played candidate.id (record now { status = some "queued" }), ground arith)
      ]
