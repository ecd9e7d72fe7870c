-- ===== src/Encoder/Pipeline.antt =====
-- A generated song on its way to the station: services/worker/pulsefm_worker/app.py names it,
-- services/encoder/pulsefm_encoder/main.py encodes it, functions/next-song-updater/main.py recognises it.
use mathlib.Core.List.{◌++◌}
use pulse_fm.Base.{◌≡◌, ◌≢◌, sym, subst, refl, String, true, false, some, [], ◌∷◌, arith, eq_refl}
use pulse_fm.Base.Text.{non_empty}
use pulse_fm.Base.Value.{Result, ok}
use pulse_fm.Playback.{Songs, IsLawful}
use pulse_fm.Updater.Names.{has_slash, extract_vote_id, normalize_prefix}
use pulse_fm.Updater.Extraction.{IsEncoded, extract_vote_id_iff}
use pulse_fm.Encoder.Names.{output_name}
use pulse_fm.Encoder.Stems.{stem-blob_name, output_name-IsEncoded}
use pulse_fm.Encoder.Encoding.{encoded, ready_song}
use pulse_fm.Encoder.Events.{GcsObject, size_ok}
use pulse_fm.Encoder.{
  Answer, Env, World, Upload, done, too_large, encoded_upload, encode_audio, persist_metadata,
  handle_object, handle_event,
}
use pulse_fm.Encoder.Events.Generated.{generated_object, generated_event, Watches, generated_parsed}

-- The encoder has started, and its calls succeed on an object that is not too large.
pub record IsUp (env : Env) : Type 0 where
  pub initialized : env.initialized ≡ true
  pub reload : env.reload_up ≡ true
  pub small : too_large env.blob_size ≡ false
  pub encode : env.encode_up ≡ true
  pub upload : env.upload_up ≡ true
  pub persist : env.persist_up ≡ true

module _ {D : Type 0} (f : Songs D) (env : Env) where
  handle_object_encodes :
      (o : GcsObject) (w : World D)
      → IsUp env
      → handle_object f env o w ≡ (ok done, encoded f env o w)
  unfolding handle_object encode_audio persist_metadata
  handle_object_encodes o w up =
      ground (arith, up.initialized, up.reload, up.small, up.encode, up.upload, up.persist)

  handle_event_encodes :
      (vote_id size : String) (w : World D)
      → Watches env.settings
      → IsUp env
      → size_ok (some size) ≡ true
      → handle_event f env (generated_event vote_id size) w
        ≡ (ok done, encoded f env (generated_object vote_id size) w)
  unfolding handle_event
  handle_event_encodes vote_id size w watches up small =
      let (fields, is_body, parsed) = generated_parsed env.settings vote_id size watches small in
      let object = generated_object vote_id size in
      ground (arith, handle_object_encodes object w up)

  -- Once storage reports the song that the worker uploaded for a vote, an encoder that watches the worker's
  -- folder answers "ok", stores that vote's song as ready with its length, and uploads one file more, which
  -- next-song-updater, watching the encoder's folder, takes for that vote. The vote's name is not empty, has
  -- no slash and is not the stub's, the object is not too large, and the encoder's calls succeed.
  pub generated_song_is_ready :
      (folder vote_id size : String) (w : World D)
      → IsLawful f
      → Watches env.settings
      → IsUp env
      → size_ok (some size) ≡ true
      → env.settings.encoded_prefix ≡ normalize_prefix folder
      → non_empty vote_id ≡ true
      → has_slash vote_id ≡ false
      → vote_id ≢ "stubbed"
      → let (r, w') = handle_event f env (generated_event vote_id size) w in
        (r ≡ ok done)
        × (f.get w'.songs vote_id ≡ some (ready_song env))
        × ((e : Upload) × (w'.uploads ≡ w.uploads ++ e ∷ [])
            × (extract_vote_id folder e.name ≡ some vote_id))
  unfolding encoded_upload
  generated_song_is_ready folder vote_id size w lawful watches up small same_folder named flat
        real =
      let object = generated_object vote_id size in
      let upload = encoded_upload env.settings object in
      let Ready : Result Answer × World D → Type 0 = λ (r, w').
        (r ≡ ok done)
        × (f.get w'.songs vote_id ≡ some (ready_song env))
        × ((e : Upload) × (w'.uploads ≡ w.uploads ++ e ∷ [])
            × (extract_vote_id folder e.name ≡ some vote_id)) in
      let stored : f.get (encoded f env object w).songs vote_id ≡ some (ready_song env) =
        rw (stem-blob_name vote_id named flat) (
          ground
            (arith, lawful.get-put w.songs vote_id vote_id (ready_song env), eq_refl vote_id)) in
      let is_encoded : IsEncoded folder upload.name vote_id =
        subst (λ p. IsEncoded folder (output_name p object.name) vote_id) (sym same_folder)
          (output_name-IsEncoded folder vote_id named flat real) in
      subst Ready (sym (handle_event_encodes vote_id size w watches up small)) (
        refl,
        stored,
        (upload, refl, (extract_vote_id_iff folder upload.name vote_id).1 is_encoded),
      )
