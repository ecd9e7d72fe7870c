-- ===== src/Encoder/Tests.antt =====
-- A concrete upload, its encoding, and the witnesses.
use pulse_fm.Base.{◌≡◌, ◌≢◌, ◌⊎◌, refl, String, true, false, some, none, [], ◌∷◌, arith, eq_iff}
use pulse_fm.Base.Text.{non_empty}
use pulse_fm.Base.Value.{ok, Fields}
use pulse_fm.Playback.Collection.{Collection, songs, songs-IsLawful}
use pulse_fm.Updater.Names.{has_slash, ends_in_slash, normalize_prefix, extract_vote_id}
use pulse_fm.Worker.Names.{gcs_bucket_name}
use pulse_fm.Encoder.Encoding.{handle_event-Effect, encoded, ready_song}
use pulse_fm.Encoder.Names.{stem, final_component, before_dot, ends_in_dot}
use pulse_fm.Encoder.Pipeline.{IsUp, generated_song_is_ready}
use pulse_fm.Encoder.Events.Generated.{generated_event, Watches}
use pulse_fm.Encoder.Events.{Settings, size_ok, parse_and_filter}
use pulse_fm.Encoder.{Env, World, Upload, done, too_large, handle_event}

abbrev settings : Settings
settings = record {
  raw_bucket = gcs_bucket_name;
  raw_prefix = "raw/";
  encoded_bucket = gcs_bucket_name;
  encoded_prefix = "encoded/";
  encoded_cache_control = "public,max-age=300,s-maxage=3600";
}

abbrev env : Env
env = record {
  settings = settings;
  initialized = true;
  blob_size = some 28800044;
  audio_ms = 150000;
  server_time = 9000;
  reload_up = true;
  encode_up = true;
  upload_up = true;
  persist_up = true;
}

abbrev empty : World Collection
empty = record { uploads = []; songs = λ _. none }

stem_nested : stem "raw/mix.v2.wav" ≡ "mix.v2"
unfolding stem final_component before_dot ends_in_dot has_slash non_empty
stem_nested = refl

stem_hidden : stem "raw/.wav" ≡ ".wav"
unfolding stem final_component before_dot ends_in_dot has_slash non_empty
stem_hidden = refl

settings-Watches : Watches settings
settings-Watches = record { bucket = refl; prefix = refl }

env-IsUp : IsUp env
unfolding too_large
env-IsUp = record {
  initialized = refl;
  reload = refl;
  small = refl;
  encode = refl;
  upload = refl;
  persist = refl;
}

folder_encoded : "encoded/" ≡ normalize_prefix "encoded"
unfolding normalize_prefix ends_in_slash
folder_encoded = refl

size_small : size_ok (some "28800044") ≡ true
unfolding size_ok
size_small = refl

vote_flat : has_slash "v1" ≡ false
unfolding has_slash
vote_flat = refl

abbrev vote : String
vote = "v1"

vote_real : vote ≢ "stubbed"
vote_real e = absurd (ground (arith, eq_iff "v1" "stubbed"))

generated_song_is_ready_example :
    let (r, w') = handle_event (songs "v1") env (generated_event "v1" "28800044") empty in
    (r ≡ ok done)
    × (w'.songs "v1" ≡ some (ready_song env))
    × ((e : Upload) × (w'.uploads ≡ e ∷ []) × (extract_vote_id "encoded" e.name ≡ some "v1"))
unfolding non_empty
generated_song_is_ready_example =
    generated_song_is_ready (songs "v1") env "encoded" "v1" "28800044" empty (songs-IsLawful "v1")
      settings-Watches env-IsUp size_small folder_encoded refl vote_flat vote_real

handle_event-Effect_example :
    let request = generated_event "v1" "28800044" in
    let (r, w') = handle_event (songs "v1") env request empty in
    ((body : Fields) × (o : _) × (request.body ≡ some body)
      × (parse_and_filter settings request.ce_type body ≡ ok (some o))
      × (r ≡ ok done)
      × (w' ≡ encoded (songs "v1") env o empty))
    ⊎ ((r ≢ ok done) × (w'.songs ≡ empty.songs))
handle_event-Effect_example =
    handle_event-Effect (songs "v1") env (generated_event "v1" "28800044") empty
