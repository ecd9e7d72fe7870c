-- ===== src/Worker/Tests.antt =====
-- A generation that the dispatch service asks for, and prompts.
use pulse_fm.Base.{◌≡◌, refl, true, some, [], ◌∷◌, is_some}
use pulse_fm.Base.Text.{non_empty, decimal}
use pulse_fm.Base.Dict.{lookup}
use pulse_fm.Descriptors.{Descriptor, descriptors, entry}
use pulse_fm.Worker.Prompt.{
  build_prompt, energy_bpm, energy_descriptions, mood_descriptions, genre_instruments,
}
use pulse_fm.Worker.Prompt.Knowing.{descriptor_known}
use pulse_fm.Worker.Generating.{Leaves}
use pulse_fm.Worker.Dispatched.{dispatch_modal_generation-Leaves}
use mathlib.Core.List.{◌++◌}
use pulse_fm.Base.Value.{ok}
use pulse_fm.Redis.Memory.{Memory, nothing, commands}
use pulse_fm.Dispatch.{
  Dispatcher, min_containers, generate, get_descriptor, dispatch_modal_generation,
}
use pulse_fm.Dispatch.Tests.{all_up}
use pulse_fm.Worker.{Machine, Env}

abbrev chill : Descriptor
chill = record { mood = "happy"; genre = "hip_hop"; energy = "low" }

chill_found : lookup "chill" descriptors ≡ some chill
unfolding lookup descriptors entry
chill_found = refl

descriptor_known_example :
    (is_some (lookup "happy" mood_descriptions) ≡ true)
    × (is_some (lookup "hip_hop" genre_instruments) ≡ true)
    × (is_some (lookup "low" energy_bpm) ≡ true)
descriptor_known_example = descriptor_known "chill" chill chill_found

unknown_energy : build_prompt "jazz" "calm" "none" ≡ build_prompt "jazz" "calm" "mid"
unfolding build_prompt energy_bpm energy_descriptions mood_descriptions genre_instruments lookup
    decimal
unknown_energy = refl

abbrev due : Dispatcher Memory
due = record {
  redis = nothing;
  outbox = record { published = []; tasks = [] };
  modal = min_containers 1 ∷ [];
}

abbrev asked : Dispatcher Memory
asked = record due { modal = min_containers 1 ∷ generate chill "v1" ∷ [] }

chill_asked : dispatch_modal_generation commands all_up "v1" "chill" due ≡ (ok tt, asked)
unfolding dispatch_modal_generation get_descriptor lookup descriptors entry
chill_asked = refl

abbrev machine : Machine
machine = record { files = "/tmp/other" ∷ []; generations = []; uploads = [] }

abbrev worker : Env
worker = record {
  model_ready = true;
  random = λ n. 7;
  temp_path = some "/tmp/generated_1.wav";
  pipeline_up = true;
  upload_up = true;
  reload_up = true;
}

dispatch_modal_generation-Leaves_example :
    (d : Descriptor) × (asked.modal ≡ due.modal ++ generate d "v1" ∷ [])
    × Leaves worker d.genre d.mood d.energy "v1" machine
        (pulse_fm.Worker.generate worker d.genre d.mood d.energy "v1" machine)
unfolding non_empty
dispatch_modal_generation-Leaves_example =
    dispatch_modal_generation-Leaves commands all_up "v1" "chill" due asked worker machine
      chill_asked refl
