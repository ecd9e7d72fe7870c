-- ===== src/Playback/Collection.antt =====
-- A collection of songs that meets the laws of `Playback.IsLawful`: a function of the id, with one id
-- that the query looks at. It shows that the assumptions can hold, and the tests run on it.
use pulse_fm.Base.{
  ◌≡◌, refl, String, Option, none, some, List, [], ◌∷◌, inl, inr, if◌then◌else◌, Option-cases,
  Bool-cases,
}
use pulse_fm.Redis.Memory.{at}
use pulse_fm.Redis.Playback.{is_text, is_text-true}
use pulse_fm.Playback.{Song, Songs, All, IsReady, IsLawful}

abbrev pub Collection : Type 0
Collection = String → Option Song

unfoldable pub ready_at : String → Collection → List (String × Song)
ready_at k d = elim (d k) [
  | none ↦ []
  | some song ↦ if is_text song.status "ready" then (k, song) ∷ [] else []
]

abbrev pub songs : String → Songs Collection
songs k = record { get = λ d. d; put = λ d i song. at d i (some song); ready = ready_at k }

ready_at_sound : (k : String) (d : Collection) → All (IsReady (songs k) d) (ready_at k d)
unfolding ready_at
ready_at_sound k d = elim (Option-cases (d k)) [
  | inl missing ↦ rw (ready_at, missing) tt
  | inr (song, found) ↦ elim (Bool-cases (is_text song.status "ready")) [
    | inl is_ready ↦
        let status : song.status ≡ some "ready" = is_text-true song.status "ready" is_ready in
        rw (ready_at, found, is_ready) ((found, status), tt)
    | inr not_ready ↦ rw (ready_at, found, not_ready) tt
  ]
]

pub songs-IsLawful : (k : String) → IsLawful (songs k)
songs-IsLawful k = record { get-put = λ d i j song. refl; ready-sound = ready_at_sound k }
