-- ===== src/Worker/Prompt/Knowing.antt =====
-- The descriptors (packages/pulsefm-descriptors/pulsefm_descriptors/data.py) against the tables of
-- `build_prompt` (services/worker/pulsefm_worker/app.py).
use pulse_fm.Base.{
  ◌≡◌, refl, String, Bool, true, ◌&&◌, some, [], ◌∷◌, arith, is_some, ◌==◌, Bool-cases, inl, inr,
}
use pulse_fm.Base.Dict.{Dict, lookup}
use pulse_fm.Descriptors.{Descriptor, entry, descriptors}
use pulse_fm.Worker.Prompt.{energy_bpm, mood_descriptions, genre_instruments}

known : Descriptor → Bool
known d =
    is_some (lookup d.mood mood_descriptions)
    && is_some (lookup d.genre genre_instruments)
    && is_some (lookup d.energy energy_bpm)

all_known : Dict Descriptor → Bool
all_known [] = true
all_known ((_, d) ∷ rest) = let others = all_known rest in known d && others

all_known-lookup :
    (ds : Dict Descriptor) (key : String) (d : Descriptor)
    → all_known ds ≡ true
    → lookup key ds ≡ some d
    → known d ≡ true
unfolding all_known lookup
all_known-lookup [] key d all found = absurd (ground arith)
all_known-lookup ((k, e) ∷ rest) key d all found = elim (Bool-cases (k == key)) [
  | inl same ↦ ground arith
  | inr other ↦ ground (arith, all_known-lookup rest key d)
]

table_known : all_known descriptors ≡ true
unfolding all_known known descriptors entry lookup mood_descriptions genre_instruments energy_bpm
table_known = refl

-- The prompt of a vote's descriptor never falls back on a default: its mood, its genre and its energy are in
-- the worker's tables.
pub descriptor_known :
    (key : String) (d : Descriptor)
    → lookup key descriptors ≡ some d
    → (is_some (lookup d.mood mood_descriptions) ≡ true)
      × (is_some (lookup d.genre genre_instruments) ≡ true)
      × (is_some (lookup d.energy energy_bpm) ≡ true)
unfolding known
descriptor_known key d found =
    let k = all_known-lookup descriptors key d table_known found in
    (ground arith, ground arith, ground arith)
