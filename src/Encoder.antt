-- ===== src/Encoder.antt =====
-- services/encoder/pulsefm_encoder/main.py: POST /, which encodes a song that was uploaded and makes it ready.
-- The bucket, the codec and Firestore are parameters; a request's body is a JSON object.
pub mod Names
pub mod Events
pub mod Stems
pub mod Encoding
pub mod Pipeline
pub mod Tests
use mathlib.Core.List.{◌++◌}
use pulse_fm.Base.{
  ℕ, suc, ◌*◌, String, Bool, true, false, not, ◌&&◌, ◌||◌, Option, none, some, List, [], ◌∷◌, ◌==◌,
  ltb, is_some, or_else, if◌then◌else◌,
}
use pulse_fm.Base.Int.{ℤ, pos, negsuc, ltb_ℤ}
use pulse_fm.Base.Text.{non_empty}
use pulse_fm.Base.Value.{
  Value, null, str, obj, Fields, field, end, member, Exception, http, Result, ok, err, value_error,
  service_error, int_of_text,
}
use pulse_fm.Base.Action.{Action, pure, raise, raise_if, from_result, ◌>>=◌, ◌>>◌}
use pulse_fm.Playback.{Songs, Song}
use pulse_fm.Encoder.Names.{starts_with, ends_with_lower, stem, output_name}
use pulse_fm.Encoder.Events.{
  max_bytes, Settings, GcsObject, Request, size_ok, accepts, parse_and_filter,
}

pub record Upload : Type 0 where
  pub bucket : String
  pub name : String
  pub cache_control : String

pub record World (D : Type 0) : Type 0 where
  pub uploads : List Upload
  pub songs : D

-- What the calls of one request answer: the size and the length of the audio in the bucket, the time of
-- Firestore's server, and which calls succeed.
pub record Env : Type 0 where
  pub settings : Settings
  pub initialized : Bool
  pub blob_size : Option ℕ
  pub audio_ms : ℕ
  pub server_time : ℕ
  pub reload_up : Bool
  pub encode_up : Bool
  pub upload_up : Bool
  pub persist_up : Bool

unfoldable pub too_large : Option ℕ → Bool
too_large none = false
too_large (some n) = ltb max_bytes n

unfoldable pub encoded_upload : Settings → GcsObject → Upload
encoded_upload s o = record {
  bucket = s.encoded_bucket;
  name = output_name s.encoded_prefix o.name;
  cache_control = s.encoded_cache_control;
}

-- The answer's member `status`.
pub data Answer : Type 0 where
  done ignored skipped : Answer

module _ {D : Type 0} (f : Songs D) (env : Env) where
  -- `none` is ("", -1).
  unfoldable pub encode_audio : GcsObject → Action (World D) (Option (String × ℕ))
  unfolding too_large encoded_upload
  encode_audio o w =
      if not env.reload_up
      then (err service_error, w)
      else if too_large env.blob_size
      then (ok none, w)
      else if not (env.encode_up && env.upload_up)
      then (err service_error, w)
      else (
        ok (some (stem o.name, env.audio_ms)),
        record w { uploads = w.uploads ++ encoded_upload env.settings o ∷ [] },
      )

  unfoldable pub persist_metadata : String → ℕ → Action (World D) (Unit {0})
  persist_metadata vote_id duration_ms w =
      if env.persist_up
      then (
        ok tt,
        record w {
          songs = f.put w.songs vote_id (record {
            duration_ms = some duration_ms;
            status = some "ready";
            created_at = some env.server_time;
          });
        },
      )
      else (err service_error, w)

  unfoldable pub handle_object : GcsObject → Action (World D) Answer
  unfolding encode_audio persist_metadata
  handle_object o = do
    raise_if (not env.initialized) (http 500 "Service not initialized")
    encoded ← encode_audio o
    elim encoded [
      | none ↦ pure skipped
      | some (vote_id, duration_ms) ↦ do persist_metadata vote_id duration_ms; pure done
    ]

  unfoldable pub handle_event : Request → Action (World D) Answer
  handle_event request w = elim request.body [
    | none ↦ (err (http 400 "Invalid JSON body"), w)
    | some body ↦ elim (parse_and_filter env.settings request.ce_type body) [
      | err e ↦ (err e, w)
      | ok found ↦ elim found [ none ↦ (ok ignored, w) | some o ↦ handle_object o w ]
    ]
  ]
