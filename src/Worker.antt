-- ===== src/Worker.antt =====
-- services/worker/pulsefm_worker/app.py: `MusicGenerator.generate`, which generates a song and uploads it.
-- The model, the file system and the bucket are parameters.
pub mod Names
pub mod Prompt
pub mod Generating
pub mod Dispatched
pub mod Tests
use mathlib.Core.List.{◌++◌}
use pulse_fm.Base.{
  ℕ, ◌+◌, String, Bool, true, false, not, ◌&&◌, ◌||◌, Option, none, some, List, [], ◌∷◌, ◌==◌,
  if◌then◌else◌,
}
use pulse_fm.Base.Text.{non_empty}
use pulse_fm.Base.Value.{Exception, Result, ok, err, service_error}
use pulse_fm.Base.Action.{Action, pure, raise, modify, try_except, ◌>>=◌, ◌>>◌}
use pulse_fm.Worker.Names.{gcs_bucket_name, blob_name}
use pulse_fm.Worker.Prompt.{build_prompt}

-- ACE_STEP_MAX_SEED
unfoldable pub ace_step_max_seed : ℕ
ace_step_max_seed = 2147483647

-- A call of the pipeline: its prompt, the seed applied before it, and where it saves the audio.
pub record Generation : Type 0 where
  pub prompt : String
  pub seed : ℕ
  pub save_path : String

pub record Upload : Type 0 where
  pub bucket : String
  pub name : String
  pub path : String

-- The temporary files there are, and what was generated and uploaded, newest last.
pub record Machine : Type 0 where
  pub files : List String
  pub generations : List Generation
  pub uploads : List Upload

-- What the calls of one generation answer; `random` is `secrets.randbelow`, and `temp_path` is the name of
-- the next temporary file.
pub record Env : Type 0 where
  pub model_ready : Bool
  pub random : ℕ → ℕ
  pub temp_path : Option String
  pub pipeline_up : Bool
  pub upload_up : Bool
  pub reload_up : Bool

unfoldable pub next_seed : Env → ℕ
unfolding ace_step_max_seed
next_seed env = env.random (ace_step_max_seed + 1)

-- `os.remove`
remove : String → List String → List String
remove path [] = []
remove path (f ∷ fs) = let rest = remove path fs in if f == path then fs else f ∷ rest

step_if : Bool → (Machine → Machine) → Action Machine (Unit {0})
step_if up f m = if up then (ok tt, f m) else (err service_error, m)

-- The `try` block behind the temporary file.
into_file : Env → String → String → String → Action Machine (Unit {0})
unfolding step_if
into_file env prompt path vote_id = do
  step_if env.pipeline_up λ m. record m {
    generations =
        m.generations ++ (record { prompt = prompt; seed = next_seed env; save_path = path }) ∷ [];
  }
  step_if env.upload_up λ m. record m {
    uploads =
        m.uploads
        ++ (record { bucket = gcs_bucket_name; name = blob_name vote_id; path = path }) ∷ [];
  }
  step_if env.reload_up λ m. m

-- The file is removed whichever way the block ends.
with_file : Env → String → String → String → Action Machine (Unit {0})
unfolding into_file remove
with_file env prompt path vote_id m =
    let (r, m') = into_file env prompt path vote_id (record m { files = path ∷ m.files }) in
    (r, record m' { files = remove path m'.files })

unfoldable pub generate : Env → String → String → String → String → Action Machine (Unit {0})
unfolding with_file non_empty
generate env genre mood energy vote_id m =
    if not env.model_ready
    then (err service_error, m)
    else if not (non_empty genre) || not (non_empty mood) || not (non_empty energy)
    then (ok tt, m)
    else if not (non_empty vote_id)
    then (ok tt, m)
    else elim env.temp_path [
      | none ↦ (err service_error, m)
      | some path ↦ with_file env (build_prompt genre mood energy) path vote_id m
    ]
