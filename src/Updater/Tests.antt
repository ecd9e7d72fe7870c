-- ===== src/Updater/Tests.antt =====
-- Events of a concrete bucket.
use mathlib.Core.List.{◌++◌}
use pulse_fm.Base.{◌≡◌, ◌≢◌, ◌↔◌, ◌⊎◌, String, refl, true, false, some, [], ◌∷◌, arith, eq_iff}
use pulse_fm.Base.Text.{non_empty}
use pulse_fm.Base.Value.{str, Fields, field, end, member, ok}
use pulse_fm.Outbox.{Outbox, Task}
use pulse_fm.Updater.{Env, next_song_updater}
use pulse_fm.Updater.Names.{extract_vote_id, has_slash, normalize_prefix}
use pulse_fm.Updater.Extraction.{IsEncoded, extract_vote_id_iff}
use pulse_fm.Updater.Requests.{IsRefresh}
use pulse_fm.Updater.Asking.{IsReady, IsSong, remembers, next_song_updater_asks}

abbrev env : Env
env = record {
  target_bucket = "songs";
  encoded_prefix = "encoded";
  playback_queue_name = "playback";
  playback_service_url = "https://playback/";
  queue = record {
    project_id = "pulse";
    location = "europe-west1";
    answers = true;
    knows = λ _. false;
  };
}

abbrev event : Fields
event = field "bucket" (str "songs") (field "name" (str "encoded/v1.m4a") end)

abbrev outbox : Outbox
outbox = record { published = []; tasks = [] }

event_members : (member "bucket" event ≡ str "songs") × (member "name" event ≡ str "encoded/v1.m4a")
unfolding member
event_members = (refl, refl)

v1-IsEncoded : IsEncoded "encoded" "encoded/v1.m4a" "v1"
unfolding normalize_prefix non_empty has_slash
v1-IsEncoded = record {
  named = refl;
  some_vote = refl;
  real = λ e. ground (arith, eq_iff "v1" "stubbed");
  flat = refl;
}

env-IsReady : IsReady env
unfolding non_empty
env-IsReady = record { project_id = refl; location = refl; url = refl; answers = refl }

extract_vote_id_iff_example :
    (extract_vote_id "encoded" "encoded/v1.m4a" ≡ some "v1")
    ↔ IsEncoded "encoded" "encoded/v1.m4a" "v1"
extract_vote_id_iff_example = extract_vote_id_iff "encoded" "encoded/v1.m4a" "v1"

abbrev event2 : Fields
event2 = field "bucket" (str "songs") (field "name" (str "encoded/v2.m4a") end)

event2_members :
    (member "bucket" event2 ≡ str "songs") × (member "name" event2 ≡ str "encoded/v2.m4a")
unfolding member
event2_members = (refl, refl)

v2-IsEncoded : IsEncoded "encoded" "encoded/v2.m4a" "v2"
unfolding normalize_prefix non_empty has_slash
v2-IsEncoded = record {
  named = refl;
  some_vote = refl;
  real = λ e. ground (arith, eq_iff "v2" "stubbed");
  flat = refl;
}

event-IsSong : IsSong env event "v1"
event-IsSong = record {
  object_name = "encoded/v1.m4a";
  bucket = event_members.0;
  name = event_members.1;
  encoded = v1-IsEncoded;
}

event2-IsSong : IsSong env event2 "v2"
event2-IsSong = record {
  object_name = "encoded/v2.m4a";
  bucket = event2_members.0;
  name = event2_members.1;
  encoded = v2-IsEncoded;
}

abbrev first : String
first = "v1"

next_song_updater_asks_example :
    (t : Task) × IsRefresh env "v1" t
    × (let asked = record outbox { tasks = [] ++ t ∷ [] } in
        (next_song_updater env event outbox ≡ (ok tt, asked))
        × (((first ≡ "v2") × (next_song_updater (remembers env t) event2 asked ≡ (ok tt, asked)))
            ⊎ ((first ≢ "v2")
                × ((t' : Task) × IsRefresh env "v2" t'
                    × (next_song_updater (remembers env t) event2 asked
                        ≡ (ok tt, record asked { tasks = asked.tasks ++ t' ∷ [] }))))))
next_song_updater_asks_example =
    next_song_updater_asks env event event2 "v1" "v2" outbox env-IsReady event-IsSong event2-IsSong
      refl refl
