-- ===== src/Encoder/Stems.antt =====
-- services/encoder/pulsefm_encoder/main.py: what it makes of the names that services/worker/pulsefm_worker/app.py
-- gives to its songs.
use pulse_fm.Base.{◌≡◌, ◌≢◌, ◌∙◌, ap, refl, String, ◌++◌, true, false, some, arith}
use pulse_fm.Base.Text.{non_empty}
use pulse_fm.Base.Prepend.{prepend, append-prepend}
use pulse_fm.Updater.Names.{has_slash, normalize_prefix}
use pulse_fm.Updater.Extraction.{without_prefix_complete, IsEncoded}
use pulse_fm.Encoder.Names.{
  lowers_to, ends_with_lower, final_component, before_dot, ends_in_dot, stem, starts_with,
  output_name,
}
use pulse_fm.Worker.Names.{blob_name}

-- The name of an uploaded song, in a form that computes.
blob_name-prepend : (v : String) → blob_name v ≡ prepend "raw/" (prepend v ".wav")
unfolding blob_name
blob_name-prepend v =
    append-prepend "raw/" (v ++ ".wav") ∙ ap (prepend "raw/") (append-prepend v ".wav")

leaf_flat : (v : String) → has_slash v ≡ false → has_slash (prepend v ".wav") ≡ false
unfolding prepend has_slash
leaf_flat String.[] flat = refl
leaf_flat (String.◌∷◌ c v) flat = ground (arith, leaf_flat v)

final_component_flat : (s : String) → has_slash s ≡ false → final_component s ≡ s
unfolding final_component has_slash
final_component_flat String.[] flat = refl
final_component_flat (String.◌∷◌ c s) flat = ground arith

final_component_raw : (x : String) → has_slash x ≡ false → final_component (prepend "raw/" x) ≡ x
unfolding final_component has_slash prepend
final_component_raw x flat = ground arith

before_dot-prepend : (v : String) → before_dot (prepend v ".wav") ≡ some v
unfolding prepend before_dot
before_dot-prepend String.[] = refl
before_dot-prepend (String.◌∷◌ c v) = rw (before_dot-prepend v) refl

ends_in_dot-prepend : (v : String) → ends_in_dot (prepend v ".wav") ≡ false
unfolding prepend ends_in_dot non_empty
ends_in_dot-prepend String.[] = refl
ends_in_dot-prepend (String.◌∷◌ c String.[]) = refl
ends_in_dot-prepend (String.◌∷◌ c (String.◌∷◌ d v)) = ends_in_dot-prepend (String.◌∷◌ d v)

ends_with_lower-prepend :
    (suffix p x : String)
    → ends_with_lower suffix x ≡ true
    → ends_with_lower suffix (prepend p x) ≡ true
unfolding prepend ends_with_lower
ends_with_lower-prepend suffix String.[] x ends = ends
ends_with_lower-prepend suffix (String.◌∷◌ c p) x ends =
    ground (arith, ends_with_lower-prepend suffix p x ends)

wav_ends : ends_with_lower ".wav" ".wav" ≡ true
unfolding ends_with_lower lowers_to
wav_ends = refl

-- An uploaded song is a WAV file in the folder that the worker uploads to.
pub blob_name_accepted :
    (v : String)
    → (starts_with "raw/" (blob_name v) ≡ true) × (ends_with_lower ".wav" (blob_name v) ≡ true)
unfolding starts_with blob_name
blob_name_accepted v = (
  ground (arith, without_prefix_complete "raw/" (v ++ ".wav")),
  rw (blob_name-prepend v) (
      ends_with_lower-prepend ".wav" "raw/" (prepend v ".wav")
        (ends_with_lower-prepend ".wav" v ".wav" wav_ends)),
)

stem_cut :
    (s name t : String)
    → final_component s ≡ name
    → before_dot name ≡ some t
    → non_empty t ≡ true
    → ends_in_dot name ≡ false
    → stem s ≡ t
unfolding stem
stem_cut s name t final cut named undotted = ground arith

-- The stem of an uploaded song's name is the vote that it was generated for.
pub stem-blob_name :
    (v : String) → non_empty v ≡ true → has_slash v ≡ false → stem (blob_name v) ≡ v
stem-blob_name v named flat =
    let leaf = prepend v ".wav" in
    ap stem (blob_name-prepend v)
    ∙ stem_cut (prepend "raw/" leaf) leaf v (final_component_raw leaf (leaf_flat v flat))
        (before_dot-prepend v) named (ends_in_dot-prepend v)

-- The encoded object of an uploaded song is one that next-song-updater takes for its vote.
pub output_name-IsEncoded :
    (folder v : String)
    → non_empty v ≡ true
    → has_slash v ≡ false
    → v ≢ "stubbed"
    → IsEncoded folder (output_name (normalize_prefix folder) (blob_name v)) v
unfolding output_name
output_name-IsEncoded folder v named flat real = record {
  named = rw (stem-blob_name v named flat) refl;
  some_vote = named;
  real = real;
  flat = flat;
}
