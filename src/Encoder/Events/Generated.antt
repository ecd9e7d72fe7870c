-- ===== src/Encoder/Events/Generated.antt =====
-- The event of a song that services/worker/pulsefm_worker/app.py has uploaded, as the encoder reads it.
use pulse_fm.Base.{◌≡◌, refl, String, true, some, arith, eq_refl}
use pulse_fm.Base.Value.{str, Fields, field, end, ok, member}
use pulse_fm.Worker.Names.{gcs_bucket_name, blob_name}
use pulse_fm.Encoder.Stems.{blob_name_accepted}
use pulse_fm.Encoder.Events.{
  Settings, GcsObject, Request, gcs_object, text_field, optional_text, parse_cloud_event,
  parse_and_filter, accepts, size_ok,
}

-- The object that the worker uploads for a vote, with its size as storage writes it.
abbrev pub generated_object : String → String → GcsObject
generated_object vote_id size = record {
  bucket = gcs_bucket_name;
  name = blob_name vote_id;
  size = some size;
  content_type = some "audio/wav";
}

-- The event that storage sends when that upload is complete.
abbrev pub generated_event : String → String → Request
generated_event vote_id size = record {
  ce_type = some "google.cloud.storage.object.v1.finalized";
  body = some (
      field "bucket" (str gcs_bucket_name) (
        field "name" (str (blob_name vote_id))
          (field "size" (str size) (field "contentType" (str "audio/wav") end))));
}

-- The encoder watches the folder that the worker uploads to.
pub record Watches (s : Settings) : Type 0 where
  pub bucket : s.raw_bucket ≡ gcs_bucket_name
  pub prefix : s.raw_prefix ≡ "raw/"

generated_accepted :
    (s : Settings) (vote_id size : String)
    → Watches s
    → size_ok (some size) ≡ true
    → accepts s (generated_object vote_id size) ≡ true
unfolding accepts
generated_accepted s vote_id size watches small =
    let (starts, ends) = blob_name_accepted vote_id in
    rw (watches.bucket, watches.prefix) (ground (arith, eq_refl gcs_bucket_name))

pub generated_parsed :
    (s : Settings) (vote_id size : String)
    → Watches s
    → size_ok (some size) ≡ true
    → let request = generated_event vote_id size in
      (fields : Fields) × (request.body ≡ some fields)
      × (parse_and_filter s request.ce_type fields ≡ ok (some (generated_object vote_id size)))
unfolding parse_and_filter parse_cloud_event gcs_object text_field optional_text member
generated_parsed s vote_id size watches small =
    (_, refl, rw (generated_accepted s vote_id size watches small) refl)
