-- ===== src/Worker/Dispatched.antt =====
-- The generations that services/modal-dispatch-service/pulsefm_modal_dispatch_service/main.py asks for, as
-- services/worker/pulsefm_worker/app.py carries them out.
use mathlib.Core.List.{◌++◌}
use pulse_fm.Base.{
  ◌≡◌, refl, String, true, some, [], ◌∷◌, arith, is_some, Option-cases, inl, inr, Bool-cases,
}
use pulse_fm.Base.Dict.{lookup}
use pulse_fm.Base.Text.{non_empty}
use pulse_fm.Base.Value.{ok}
use pulse_fm.Base.Action.{Result-cases}
use pulse_fm.Redis.{Commands}
use pulse_fm.Descriptors.{Descriptor, descriptors}
use pulse_fm.Dispatch.{Dispatcher, generation, generate, get_descriptor, dispatch_modal_generation}
use pulse_fm.Worker.{Env, Machine}
use pulse_fm.Worker.Prompt.{energy_bpm, mood_descriptions, genre_instruments}
use pulse_fm.Worker.Prompt.Knowing.{descriptor_known}
use pulse_fm.Worker.Generating.{Leaves, generate-Leaves}

mood_named : (s : String) → is_some (lookup s mood_descriptions) ≡ true → non_empty s ≡ true
unfolding non_empty lookup mood_descriptions
mood_named String.[] known = ground arith
mood_named (String.◌∷◌ c s) known = refl

genre_named : (s : String) → is_some (lookup s genre_instruments) ≡ true → non_empty s ≡ true
unfolding non_empty lookup genre_instruments
genre_named String.[] known = ground arith
genre_named (String.◌∷◌ c s) known = refl

energy_named : (s : String) → is_some (lookup s energy_bpm) ≡ true → non_empty s ≡ true
unfolding non_empty lookup energy_bpm
energy_named String.[] known = ground arith
energy_named (String.◌∷◌ c s) known = refl

get_descriptor-lookup :
    (winner_option : String) (d : Descriptor)
    → get_descriptor winner_option ≡ ok d
    → lookup winner_option descriptors ≡ some d
unfolding get_descriptor
get_descriptor-lookup winner_option d found =
    elim (Option-cases (lookup winner_option descriptors)) [
      | inl missing ↦ absurd (ground arith)
      | inr (e, is_e) ↦ ground arith
    ]

-- A generation that the dispatch service has asked for, for a vote whose name is not empty, is one call more of
-- Modal, with a descriptor for which the worker fails, or uploads the song that it generated from
-- the descriptor's prompt under the vote's name: it never ends well without a song.
pub dispatch_modal_generation-Leaves :
    {S : Type 0} (c : Commands S) (env : pulse_fm.Dispatch.Env) (vote_id winner_option : String)
    (w w' : Dispatcher S) (worker : Env) (m : Machine)
    → dispatch_modal_generation c env vote_id winner_option w ≡ (ok tt, w')
    → non_empty vote_id ≡ true
    → (d : Descriptor) × (w'.modal ≡ w.modal ++ generate d vote_id ∷ [])
      × Leaves worker d.genre d.mood d.energy vote_id m
          (pulse_fm.Worker.generate worker d.genre d.mood d.energy vote_id m)
unfolding dispatch_modal_generation
dispatch_modal_generation-Leaves c env vote_id winner_option w w' worker m asked named =
    elim (Result-cases (get_descriptor winner_option)) [
      | inr (x, unknown) ↦ absurd (ground arith)
      | inl (d, known) ↦ elim (Bool-cases (env.up generation)) [
        | inr down ↦ absurd (ground arith)
        | inl up ↦
            let (mood, genre, energy) =
              descriptor_known winner_option d (get_descriptor-lookup winner_option d known) in
            (
              d,
              ground arith,
              generate-Leaves worker d.genre d.mood d.energy vote_id m (genre_named d.genre genre)
                  (mood_named d.mood mood) (energy_named d.energy energy) named,
            )
      ]
    ]
