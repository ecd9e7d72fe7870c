-- ===== src/Playback/Samples.antt =====
-- A station, a vote and an environment of services/playback-service, for the tests.
use pulse_fm.Base.{ℕ, ◌≢◌, String, Bool, true, false, none, some, List, [], ◌∷◌, arith, eq_iff}
use pulse_fm.Base.Int.{pos}
use pulse_fm.Base.Dict.{Dict}
use pulse_fm.Base.Value.{Value, int}
use pulse_fm.Redis.Memory.{Memory, at}
use pulse_fm.Redis.Tests.{polled}
use pulse_fm.Playback.{World, Env, Site, Song, Station, VoteState, write_opened}
use pulse_fm.Playback.Collection.{Collection}
use pulse_fm.Playback.{read_tallies, write_status, open_poll}

unfoldable pub first_of : List String → String
first_of [] = ""
first_of (x ∷ _) = x

unfoldable pub except_opened : Site → Bool
except_opened write_opened = false
except_opened _ = true

abbrev pub env_with : (Site → Bool) → Env
env_with up = record {
  settings = record {
    project_id = "pulse";
    playback_queue = "playback";
    playback_tick_url = "https://playback";
    playback_events_topic = "playback";
    vote_events_topic = "votes";
    options_per_window = 2;
    vote_options = "rock" ∷ "jazz" ∷ [];
  };
  environment_project = "pulse";
  up = up;
  queue = record {
    project_id = "pulse";
    location = "europe-west1";
    answers = true;
    knows = λ _. false;
  };
  rotate_now = 1000000;
  open_now = 1000000;
  ttl_now = 1000000;
  schedule_now = 1000000;
  server_time = 1000000;
  uuid = "v2";
  sample = λ options _. options;
  choice = first_of;
}

abbrev pub all_up : Env
all_up = env_with (λ _. true)

abbrev pub opening_down : Env
opening_down = env_with except_opened

abbrev pub song : String → ℕ → Song
song status duration_ms = record {
  duration_ms = some duration_ms;
  status = some status;
  created_at = some 0;
}

-- s1 is next and queued, s2 is ready.
abbrev pub stored_songs : Collection
stored_songs =
    at
      (at (at (λ _. none) "stubbed" (some (song "stubbed" 30000))) "s1"
        (some (song "queued" 200000)))
      "s2" (some (song "ready" 180000))

abbrev pub station : Station
station = record {
  vote_id = some "s0";
  start_at = some 0;
  end_at = some 900000;
  duration_ms = some 900;
  version = some 4;
  next = record { vote_id = some "s1"; duration = some 200000; duration_ms = some 200000 };
}

abbrev pub vote : VoteState
vote = record {
  vote_id = some "v1";
  status = some "OPEN";
  start_at = some 0;
  duration_ms = some 900;
  end_at = some 900000;
  options = "rock" ∷ "jazz" ∷ [];
  tallies = [];
  version = some 3;
  winner_option = none;
  created_at = some 0;
  closed_at = none;
}

abbrev pub start : World Memory Collection
start = record {
  station = some station;
  vote_state = some vote;
  songs = stored_songs;
  redis = polled;
  outbox = record { published = []; tasks = [] };
}

abbrev pub payload : ℕ → Dict Value
payload v = ("version", int (pos v)) ∷ []

pub stub_status :
    ((song "stubbed" 1).status ≢ some "ready") × ((song "stubbed" 1).status ≢ some "queued")
stub_status =
    (λ e. ground (arith, eq_iff "stubbed" "ready"), λ e. ground (arith, eq_iff "stubbed" "queued"))

unfoldable pub except_redis : Site → Bool
except_redis read_tallies = false
except_redis write_status = false
except_redis open_poll = false
except_redis _ = true

abbrev pub redis_down : Env
redis_down = env_with except_redis
