-- ===== src/Updater.antt =====
-- functions/next-song-updater/main.py: a finished song in the bucket asks playback-service to refresh
-- the next song.
pub mod Names
pub mod Extraction
pub mod Requests
pub mod Asking
pub mod Tests
use mathlib.Core.List.{◌++◌}
use pulse_fm.Base.{
  ℕ, String, Bool, true, false, not, ◌&&◌, ◌||◌, Option, none, some, [], ◌∷◌, ◌==◌, if◌then◌else◌,
}
use pulse_fm.Base.Text.{non_empty}
use pulse_fm.Base.Value.{Value, str, Fields, member, ok, err, value_error, service_error, key_error}
use pulse_fm.Base.Action.{Action, raise_if, ◌>>=◌, ◌>>◌}
use pulse_fm.Outbox.{Outbox, Task}
use pulse_fm.Outbox.Tasks.{Queue}
use pulse_fm.Updater.Names.{extract_vote_id, build_task_id, refresh_url}

-- The settings, and Cloud Tasks with PROJECT_ID and LOCATION.
pub record Env : Type 0 where
  pub target_bucket : String
  pub encoded_prefix : String
  pub playback_queue_name : String
  pub playback_service_url : String
  pub queue : Queue

unfoldable pub refresh_task : Env → String → Task
refresh_task env vote_id = record {
  queue = env.playback_queue_name;
  url = refresh_url env.playback_service_url;
  payload = ("voteId", str vote_id) ∷ [];
  delay = none;
  name = some (build_task_id vote_id);
}

-- A name that Cloud Tasks knows is no error.
unfoldable pub enqueue_refresh_next_task : Env → String → Action Outbox (Unit {0})
unfolding non_empty
enqueue_refresh_next_task env vote_id = do
  raise_if (not (non_empty env.queue.project_id) || not (non_empty env.queue.location))
      (value_error "PROJECT_ID and LOCATION are required")
  raise_if (not (non_empty env.playback_service_url))
      (value_error "PLAYBACK_SERVICE_URL is required")
  λ o.
      if not env.queue.answers
      then (err service_error, o)
      else if env.queue.knows (build_task_id vote_id)
      then (ok tt, o)
      else (ok tt, record o { tasks = o.tasks ++ refresh_task env vote_id ∷ [] })

-- The guards on the event's object: its payload is invalid, it is ignored, or it is the song of a vote.
pub data Found : Type 0 where
  invalid ignored : Found
  vote : String → Found

unfoldable pub updated_vote : Env → Value → Value → Found
updated_vote env (str bucket) (str object_name) =
    if not (bucket == env.target_bucket)
    then ignored
    else elim (extract_vote_id env.encoded_prefix object_name) [
      | none ↦ ignored
      | some vote_id ↦ vote vote_id
    ]
updated_vote env _ _ = invalid

-- An object that is ignored is logged with the extra key "name", which `Logger.makeRecord` refuses with a
-- KeyError, as records have such a member.
unfoldable pub next_song_updater : Env → Fields → Action Outbox (Unit {0})
next_song_updater env payload o =
    elim (updated_vote env (member "bucket" payload) (member "name" payload)) [
      | invalid ↦ (ok tt, o)
      | ignored ↦ (err key_error, o)
      | vote vote_id ↦ enqueue_refresh_next_task env vote_id o
    ]
