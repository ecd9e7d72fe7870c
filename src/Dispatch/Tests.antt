-- ===== src/Dispatch/Tests.antt =====
-- Close events on a concrete store.
use mathlib.Core.List.{◌++◌}
use pulse_fm.Base.{◌≡◌, ◌≢◌, inr, refl, Bool, true, false, none, some, [], ◌∷◌, arith, eq_iff}
use pulse_fm.Base.Dict.{lookup}
use pulse_fm.Base.Text.{non_empty}
use pulse_fm.Base.Value.{null, Exception, ok, err, value_error}
use pulse_fm.Descriptors.{descriptors}
use pulse_fm.Redis.{text}
use pulse_fm.Redis.Memory.{Memory, at, nothing, commands, commands-IsLawful}
use pulse_fm.Dispatch.{
  Dispatcher, Env, Site, generation, done, already_processed, in_progress, min_containers, holds,
  get_descriptor, run_close, is_close_done, acquire_close_lock, with_lock, has_active_listeners,
  generate_song, dispatch_modal_generation, scale_down, mark_close_done, release_close_lock,
}
use pulse_fm.Dispatch.Keys.{close_done_key, close_lock_key}
use pulse_fm.Dispatch.Closing.{Calls, run_close-Calls}
use pulse_fm.Dispatch.Lock.{run_close_releases, run_close_again}
use pulse_fm.Dispatch.Stranding.{IsDue, IsUp, run_close_strands}

abbrev pub env_with : (Site → Bool) → Env
env_with up = record {
  modal_queue_name = "playback";
  modal_dispatch_service_url = "https://dispatch";
  heartbeat_active_key = "pulsefm:heartbeat:active";
  warmup_lead_seconds = 30;
  close_done_ttl_seconds = 86400;
  close_lock_ttl_seconds = 600;
  queue = record {
    project_id = "pulse";
    location = "europe-west1";
    answers = true;
    knows = λ _. false;
  };
  codec = record { b64decode = λ _. err (value_error ""); loads = λ _. ok null };
  now_ms = 0;
  up = up;
  attempts = false ∷ true ∷ [];
}

abbrev pub all_up : Env
all_up = env_with (λ _. true)

except_generation : Site → Bool
except_generation generation = false
except_generation _ = true

abbrev start : Dispatcher Memory
start = record {
  redis = record nothing {
    texts = at (nothing.texts) "pulsefm:heartbeat:active" (some (text "1"));
  };
  outbox = record { published = []; tasks = [] };
  modal = [];
}

start_done : (run_close commands all_up "v1" "zen" start).0 ≡ ok done
unfolding run_close is_close_done acquire_close_lock with_lock has_active_listeners generate_song
    dispatch_modal_generation scale_down mark_close_done release_close_lock get_descriptor holds
    close_done_key close_lock_key lookup descriptors non_empty
start_done = refl

start_free : commands.get start.redis (close_lock_key "v1") ≡ none
unfolding close_lock_key
start_free = refl

start_unmarked : commands.get start.redis (close_done_key "v1") ≡ none
unfolding close_done_key
start_unmarked = refl

run_close-Calls_example : Calls done "v1" "zen" start (run_close commands all_up "v1" "zen" start).1
run_close-Calls_example = run_close-Calls commands all_up "v1" "zen" start done start_done

run_close_releases_example :
    commands.get (run_close commands all_up "v1" "zen" start).1.redis (close_lock_key "v1") ≡ none
run_close_releases_example =
    run_close_releases commands-IsLawful all_up "v1" "zen" start refl start_free

done-ne-in_progress : done ≢ in_progress
done-ne-in_progress e = ground arith

run_close_again_example :
    let w' = (run_close commands all_up "v1" "zen" start).1 in
    run_close commands all_up "v1" "zen" w' ≡ (ok already_processed, w')
run_close_again_example =
    run_close_again commands-IsLawful all_up all_up "v1" "zen" start done refl start_unmarked
      start_done done-ne-in_progress refl

start-IsDue : IsDue commands (env_with except_generation) "v1" start.redis
unfolding close_lock_key close_done_key holds non_empty
start-IsDue = record {
  unmarked = refl;
  free = refl;
  listeners = refl;
  other_key = λ e. ground (arith, eq_iff "pulsefm:modal:close:v1:lock" "pulsefm:heartbeat:active");
}

generation_down-IsUp : IsUp (env_with except_generation)
unfolding except_generation
generation_down-IsUp = record { checks_listeners = refl; acquires = refl; scales = refl }

run_close_strands_example :
    let (r, w') = run_close commands (env_with except_generation) "v1" "zen" start in
    ((x : Exception) × (r ≡ err x)) × (w'.modal ≡ [] ++ min_containers 1 ∷ [])
unfolding except_generation
run_close_strands_example =
    run_close_strands commands-IsLawful (env_with except_generation) "v1" "zen" start
      generation_down-IsUp start-IsDue (inr refl)
