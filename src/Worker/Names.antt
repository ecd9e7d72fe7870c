-- ===== src/Worker/Names.antt =====
-- services/worker/pulsefm_worker/app.py: the bucket and the name of the song that is uploaded.
use pulse_fm.Base.{String, ◌++◌}

-- GCS_BUCKET_NAME
unfoldable pub gcs_bucket_name : String
gcs_bucket_name = "pulsefm-generated-songs"

unfoldable pub blob_name : String → String
blob_name vote_id = "raw/" ++ vote_id ++ ".wav"
