-- ===== src/Updater/Requests.antt =====
-- functions/next-song-updater/main.py: what its task asks for, and how Cloud Tasks tells the tasks apart.
use text.Mathlib.TextLemmas.{append_cancel_left}
use pulse_fm.Base.{◌≡◌, refl, String, ◌++◌, false, some, none, [], ◌∷◌}
use pulse_fm.Base.Text.{rstrip_slash}
use pulse_fm.Base.Value.{str}
use pulse_fm.Outbox.{Task}
use pulse_fm.Updater.Names.{build_task_id, refresh_url}
use pulse_fm.Updater.{Env, refresh_task}

-- The task asks playback-service to refresh the next song for a vote.
pub record IsRefresh (env : Env) (vote_id : String) (t : Task) : Type 0 where
  pub queue : t.queue ≡ env.playback_queue_name
  pub url : t.url ≡ rstrip_slash env.playback_service_url ++ "/next/refresh"
  pub payload : t.payload ≡ ("voteId", str vote_id) ∷ []
  pub at_once : t.delay ≡ none

-- Cloud Tasks has taken no task for the vote.
abbrev pub IsUnasked : Env → String → Type 0
IsUnasked env vote_id = env.queue.knows ("next-song-refresh-" ++ vote_id) ≡ false

pub refresh_task-IsRefresh :
    (env : Env) (vote_id : String) → IsRefresh env vote_id (refresh_task env vote_id)
unfolding refresh_task refresh_url
refresh_task-IsRefresh env vote_id = record {
  queue = refl;
  url = refl;
  payload = refl;
  at_once = refl;
}

pub build_task_id-injective : (v u : String) → build_task_id v ≡ build_task_id u → v ≡ u
unfolding build_task_id
build_task_id-injective v u e = append_cancel_left "next-song-refresh-" v u e

pub IsUnasked-knows :
    (env : Env) (vote_id : String)
    → IsUnasked env vote_id
    → env.queue.knows (build_task_id vote_id) ≡ false
unfolding build_task_id
IsUnasked-knows env vote_id new = new

pub refresh_task-name :
    (env : Env) (vote_id : String) → (refresh_task env vote_id).name ≡ some (build_task_id vote_id)
unfolding refresh_task
refresh_task-name env vote_id = refl
