-- ===== src/Playback.antt =====
-- services/playback-service/pulsefm_playback_service/main.py: the documents and the environment of
-- the service. Instants and durations are natural numbers: microseconds since the epoch, and
-- microseconds; fields named in milliseconds hold milliseconds.
pub mod Ids
pub mod Votes
pub mod Rotation
pub mod Refresh
pub mod Tick
pub mod Collection
pub mod Seed
pub mod Samples
pub mod Tests
use pulse_fm.Base.{
  ℕ, zero, suc, ◌≡◌, String, Bool, true, false, Option, none, some, List, [], ◌∷◌, ◌==◌,
  if◌then◌else◌,
}
use pulse_fm.Base.Dict.{Dict}
use pulse_fm.Base.Value.{Result, ok, err, service_error}
use pulse_fm.Base.Action.{Action, raise_if}
use pulse_fm.Outbox.{Outbox}
use pulse_fm.Outbox.Tasks.{Queue}

-- songs/{voteId}
pub record Song : Type 0 where
  pub duration_ms : Option ℕ
  pub status : Option String
  pub created_at : Option ℕ

-- The member `next` of the station; with no field it is the missing or empty member.
pub record Next : Type 0 where
  pub vote_id : Option String
  pub duration : Option ℕ
  pub duration_ms : Option ℕ

-- stations/main
pub record Station : Type 0 where
  pub vote_id : Option String
  pub start_at : Option ℕ
  pub end_at : Option ℕ
  pub duration_ms : Option ℕ
  pub version : Option ℕ
  pub next : Next

-- voteState/current
pub record VoteState : Type 0 where
  pub vote_id : Option String
  pub status : Option String
  pub start_at : Option ℕ
  pub duration_ms : Option ℕ
  pub end_at : Option ℕ
  pub options : List String
  pub tallies : Dict ℕ
  pub version : Option ℕ
  pub winner_option : Option String
  pub created_at : Option ℕ
  pub closed_at : Option ℕ

-- Firestore's collection of songs: an unknown state, read and written by document, with the query
-- for the ready songs, newest first.
pub record Songs (D : Type 0) : Type 0 where
  pub get : D → String → Option Song
  pub put : D → String → Song → D
  pub ready : D → List (String × Song)

-- `P` holds of every document of a list.
abbrev pub All : (String × Song → Type 0) → List (String × Song) → Type 0
All P [] = Unit
All P (d ∷ ds) = P d × All P ds

abbrev pub IsReady : {D : Type 0} → Songs D → D → String × Song → Type 0
IsReady f d doc = (f.get d doc.0 ≡ some doc.1) × (doc.1.status ≡ some "ready")

-- A document is read as it was last written, and the query returns stored documents that are ready.
pub record IsLawful {D : Type 0} (f : Songs D) : Type 0 where
  pub get-put :
      (d : D) (k j : String) (s : Song)
      → f.get (f.put d k s) j ≡ (if k == j then some s else f.get d j)
  pub ready-sound : (d : D) → All (IsReady f d) (f.ready d)

pub record World (S D : Type 0) : Type 0 where
  pub station : Option Station
  pub vote_state : Option VoteState
  pub songs : D
  pub redis : S
  pub outbox : Outbox

-- The calls of other services, each of which may fail on its own.
pub data Site : Type 0 where
  read_station run_transaction read_vote_state write_closed write_opened : Site
  read_tallies write_status open_poll write_next_song : Site
  publish_closed publish_opened publish_next_song publish_changeover : Site

-- services/playback-service/pulsefm_playback_service/config.py
pub record Settings : Type 0 where
  pub project_id : String
  pub playback_queue : String
  pub playback_tick_url : String
  pub playback_events_topic : String
  pub vote_events_topic : String
  pub options_per_window : ℕ
  pub vote_options : List String

-- What one request meets: the settings, PROJECT_ID, which calls succeed, Cloud Tasks, the readings
-- of the clock in the order of the code, and the random choices.
pub record Env : Type 0 where
  pub settings : Settings
  pub environment_project : String
  pub up : Site → Bool
  pub queue : Queue
  pub rotate_now : ℕ
  pub open_now : ℕ
  pub ttl_now : ℕ
  pub schedule_now : ℕ
  pub server_time : ℕ
  pub uuid : String
  pub sample : List String → ℕ → List String
  pub choice : List String → String

-- `a or b` of two numbers that may be missing: 0 counts as false.
abbrev pub or_number : Option ℕ → Option ℕ → Option ℕ
or_number (some (suc n)) b = some (suc n)
or_number (some zero) b = b
or_number none b = b

-- `int(x or 0)`
abbrev pub or_zero : Option ℕ → ℕ
or_zero none = 0
or_zero (some n) = n

module _ {S D : Type 0} where
  -- A call at `site`: it fails with no effect, or `m` runs.
  abbrev pub calling : {A : Type 0} → Env → Site → Action (World S D) A → Action (World S D) A
  calling env site m w = elim (env.up site) [ true ↦ m w | false ↦ (err service_error, w) ]

  abbrev pub on_redis : {A : Type 0} → Action S A → Action (World S D) A
  on_redis m w = let (r, s) = m w.redis in (r, record w { redis = s })

  abbrev pub on_outbox : {A : Type 0} → Action Outbox A → Action (World S D) A
  on_outbox m w = let (r, o) = m w.outbox in (r, record w { outbox = o })

module _ {S D A : Type 0} (env : Env) (site : Site) (m : Action (World S D) A) where
  pub calling_up :
      {w : World S D} {r : Result A × World S D}
      → env.up site ≡ true
      → m w ≡ r
      → calling env site m w ≡ r
  calling_up up e = rw (calling, up) e

  pub calling_down :
      {w : World S D} → env.up site ≡ false → calling env site m w ≡ (err service_error, w)
  calling_down {w} down = rw (calling, down)
