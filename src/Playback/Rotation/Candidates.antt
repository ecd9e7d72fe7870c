-- ===== src/Playback/Rotation/Candidates.antt =====
-- Which song the changeover takes next, and what its two updates do to the collection of songs.
use pulse_fm.Base.{
  ◌≡◌, subst, inl, inr, refl, String, false, not, ◌&&◌, Option, none, some, List, [], ◌∷◌, arith,
  ◌==◌, eq_iff, if◌then◌else◌, Bool-cases, Option-cases,
}
use pulse_fm.Base.Value.{ok}
use pulse_fm.Playback.{Song, Songs, All, IsLawful}
use pulse_fm.Playback.Rotation.{
  Candidate, is_current, first_candidate, update_status, mark_played, mark_queued,
}

-- `song` is ready, has the candidate's duration and is not the current one.
abbrev pub IsChosen : (String × Song → Type 0) → Option String → Candidate → Type 0
IsChosen P current candidate =
    (song : Song) × P (candidate.id, song)
    × (candidate.stubbed ≡ false)
    × (song.duration_ms ≡ some candidate.duration)
    × (is_current current candidate.id ≡ false)

pub first_candidate_sound :
    (P : String × Song → Type 0) (current : Option String) (docs : List (String × Song))
    → (candidate : Candidate) → All P docs
    → first_candidate current docs ≡ some candidate
    → IsChosen P current candidate
unfolding first_candidate
first_candidate_sound P current [] candidate h e = cc
first_candidate_sound P current ((id, song) ∷ docs) candidate h e =
    let later = first_candidate_sound P current docs candidate h.1 in
    elim (Bool-cases (is_current current id)) [
      | inl same ↦ later (ground arith)
      | inr other ↦ elim (Option-cases song.duration_ms) [
        | inl missing ↦ later (ground arith)
        | inr (duration, has) ↦
            let found : record { id = id; duration = duration; stubbed = false } ≡ candidate =
              ground arith in
            subst (IsChosen P current) found (song, h.0, refl, has, other)
      ]
    ]

-- The document with another status.
abbrev pub with_status : String → Option Song → Option Song
with_status status none = none
with_status status (some song) = some (record song { status = some status })

module _ {D : Type 0} {f : Songs D} (laws : IsLawful f) where
  get-update_status :
      (id status : String) (songs songs' : D)
      → update_status f id status songs ≡ ok songs'
      → (j : String)
      → f.get songs' j ≡ (if id == j then with_status status (f.get songs j) else f.get songs j)
  unfolding update_status
  get-update_status id status songs songs' e j = elim (Option-cases (f.get songs id)) [
    | inl missing ↦ absurd (ground arith)
    | inr (song, found) ↦
        ground (arith, laws.get-put songs id j (record song { status = some status }), eq_iff id j)
  ]

  pub get-mark_played :
      (id : String) (songs songs' : D)
      → mark_played f id songs ≡ ok songs'
      → (j : String)
      → f.get songs' j ≡ (
          if not (id == "stubbed") && (id == j)
          then with_status "played" (f.get songs j)
          else f.get songs j)
  unfolding mark_played
  get-mark_played id songs songs' e j = elim (Bool-cases (id == "stubbed")) [
    | inl stub ↦ ground arith
    | inr real ↦
        let updated : update_status f id "played" songs ≡ ok songs' = ground arith in
        ground (arith, get-update_status id "played" songs songs' updated j)
  ]

  pub get-mark_queued :
      (candidate : Candidate) (songs songs' : D)
      → mark_queued f candidate songs ≡ ok songs'
      → (j : String)
      → f.get songs' j ≡ (
          if not candidate.stubbed && (candidate.id == j)
          then with_status "queued" (f.get songs j)
          else f.get songs j)
  unfolding mark_queued
  get-mark_queued candidate songs songs' e j = elim (Bool-cases candidate.stubbed) [
    | inl stub ↦ ground arith
    | inr real ↦
        let updated : update_status f candidate.id "queued" songs ≡ ok songs' = ground arith in
        ground (arith, get-update_status candidate.id "queued" songs songs' updated j)
  ]
