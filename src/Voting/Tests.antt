-- ===== src/Voting/Tests.antt =====
-- Votes on a concrete poll: from POST /vote to the tally.
use mathlib.Core.List.{◌++◌}
use pulse_fm.Base.{
  if◌then◌else◌, arith, ◌==◌, ◌≡◌, ◌⊎◌, refl, ap, String, true, false, Option, none, some, [], ◌∷◌,
}
use pulse_fm.Base.Dict.{Dict, contains, lookup}
use pulse_fm.Base.Text.{non_empty}
use pulse_fm.Base.Value.{Value, str, Fields, field, end, ok}
use pulse_fm.Redis.{number, hget}
use pulse_fm.Redis.Keys.{playback_current_key, poll_tally_key, poll_voted_key}
use pulse_fm.Redis.Memory.{Memory, commands, commands-IsLawful}
use pulse_fm.Redis.Playback.{get_playback_current_snapshot}
use pulse_fm.Redis.Poll.{has_voted_session}
use pulse_fm.Redis.Poll.Voting.{Seen, first_votes}
use pulse_fm.Outbox.{Task}
use pulse_fm.Redis.Tests.{open_snapshot, polled}
use pulse_fm.Voting.{Backend, member}
use pulse_fm.Voting.Tally.{success, current_vote_id, tally_function}
use pulse_fm.Voting.Tally
use pulse_fm.Voting.Tally.Counting.{IsBallot, post}
use pulse_fm.Voting.Tally.Effect.{Counts, tally_function_effect}
use pulse_fm.Voting.Api.{event, submit_vote}
use pulse_fm.Voting.Api
use pulse_fm.Voting.Api.Validation.{IsAdmissible, option_names}
use pulse_fm.Voting.Api.Acceptance.{
  IsReady, with_vote_task, submit_vote_complete, submit_vote_sound,
}
use pulse_fm.Voting.Delivery.{
  IsWorking, IsOpen, AreBallots, deliver_all, event-IsBallot, vote_counts_once,
}

text_argument : Value → Option String
text_argument (str s) = some s
text_argument _ = none

abbrev tally_env : Tally.Env
tally_env = record {
  project_id = "pulse";
  tally_topic = "tally";
  redis_up = true;
  pubsub_up = true;
  encode = text_argument;
}

abbrev api_env : Api.Env
api_env = record {
  vote_queue_name = "votes";
  tally_function_url = "https://tally";
  redis_up = true;
  queue = record {
    project_id = "pulse";
    location = "europe-west1";
    answers = true;
    knows = λ _. false;
  };
  voted_at = "2026-01-01T00:00:00";
}

abbrev start : Backend Memory
start = record { redis = polled; outbox = record { published = []; tasks = [] } }

abbrev bob_fields : Fields
bob_fields =
    field "voteId" (str "v1") (field "sessionId" (str "bob") (field "option" (str "jazz") end))

abbrev ann_fields : Fields
ann_fields =
    field "voteId" (str "v1") (field "sessionId" (str "ann") (field "option" (str "jazz") end))

start_current :
    current_vote_id (get_playback_current_snapshot commands start.redis) ≡ ok (some "v1")
unfolding current_vote_id get_playback_current_snapshot playback_current_key
start_current = refl

start_jazz : hget commands start.redis (poll_tally_key "v1") "jazz" ≡ some (number 0)
unfolding lookup poll_tally_key
start_jazz = refl

bob_fresh : has_voted_session commands "v1" "bob" start.redis ≡ false
unfolding has_voted_session poll_voted_key
bob_fresh = refl

ann_voted : has_voted_session commands "v1" "ann" start.redis ≡ true
unfolding has_voted_session poll_voted_key
ann_voted = refl

bob-IsBallot : IsBallot tally_env bob_fields "v1" "bob" "jazz"
unfolding member text_argument non_empty
bob-IsBallot = record {
  vote_id = refl;
  session_id = refl;
  option = refl;
  vote_named = refl;
  session_named = refl;
  option_named = refl;
  redis_up = refl;
  session_text = refl;
  option_text = refl;
}

ann-IsBallot : IsBallot tally_env ann_fields "v1" "ann" "jazz"
unfolding member text_argument non_empty
ann-IsBallot = record {
  vote_id = refl;
  session_id = refl;
  option = refl;
  vote_named = refl;
  session_named = refl;
  option_named = refl;
  redis_up = refl;
  session_text = refl;
  option_text = refl;
}

tally_function_effect_example :
    let w' = (tally_function commands tally_env (post bob_fields) start).1 in
    (w'.redis ≡ polled) ⊎ Counts commands tally_env polled w'.redis
tally_function_effect_example = tally_function_effect commands tally_env (post bob_fields) start

abbrev bob_payload : Dict Value
bob_payload = ("voteId", str "v1") ∷ ("option", str "jazz") ∷ []

tally-IsWorking : IsWorking tally_env
unfolding text_argument
tally-IsWorking = record { redis_up = refl; texts = λ s. refl }

api-IsReady : IsReady api_env
unfolding non_empty
api-IsReady = record {
  url = refl;
  redis_up = refl;
  project_id = refl;
  location = refl;
  answers = refl;
}

bob-IsAdmissible : IsAdmissible commands start.redis "v1" "jazz" "bob"
unfolding non_empty contains has_voted_session poll_voted_key poll_tally_key
    get_playback_current_snapshot playback_current_key
bob-IsAdmissible = record {
  snapshot = open_snapshot;
  poll = record {
    vote_id = some "v1";
    options = some ("rock" ∷ "jazz" ∷ []);
    version = some 3;
    status = some "OPEN";
    end_at = some 170000;
  };
  found = refl;
  has_poll = refl;
  named = refl;
  current = refl;
  is_open = refl;
  known = refl;
  fresh = refl;
}

bob_vote_id : lookup "voteId" bob_payload ≡ some (str "v1")
unfolding lookup
bob_vote_id = refl

bob_option : lookup "option" bob_payload ≡ some (str "jazz")
unfolding lookup
bob_option = refl

named : (non_empty "jazz" ≡ true) × (non_empty "bob" ≡ true)
unfolding non_empty
named = (refl, refl)

submit_vote_complete_example :
    submit_vote commands api_env bob_payload (some "bob") start
    ≡ (ok tt, with_vote_task api_env (str "v1") (str "jazz") "bob" start)
submit_vote_complete_example =
    submit_vote_complete commands api_env bob_payload "v1" "jazz" "bob" start api-IsReady
      bob_vote_id bob_option named.0 named.1 bob-IsAdmissible

submit_vote_sound_example :
    (v : String) × (o : String) × (x : String) × (lookup "voteId" bob_payload ≡ some (str v))
    × (lookup "option" bob_payload ≡ some (str o))
    × (some "bob" ≡ some x)
    × (non_empty x ≡ true)
    × IsAdmissible commands start.redis v o x
    × ((submit_vote commands api_env bob_payload (some "bob") start).1
        ≡ with_vote_task api_env (str v) (str o) x start)
submit_vote_sound_example = submit_vote_sound commands api_env bob_payload (some "bob") start (
    ap (λ r. r.0)
      (submit_vote_complete commands api_env bob_payload "v1" "jazz" "bob" start api-IsReady
        bob_vote_id bob_option named.0 named.1 bob-IsAdmissible))

bob_accepted : (submit_vote commands api_env bob_payload (some "bob") start).0 ≡ ok tt
bob_accepted =
    ap (λ r. r.0)
      (submit_vote_complete commands api_env bob_payload "v1" "jazz" "bob" start api-IsReady
        bob_vote_id bob_option named.0 named.1 bob-IsAdmissible)

-- Another task has been enqueued when the first ballots are delivered.
abbrev crowded : Backend Memory
crowded = with_vote_task api_env (str "v1") (str "rock") "bob" start

crowded-IsOpen :
    IsOpen commands tally_env "v1" (option_names commands start.redis "v1") crowded.redis
unfolding contains poll_tally_key lookup
crowded-IsOpen = record {
  current = start_current;
  counts = λ o is_option. (if "rock" == o then 4 else 0, ground arith);
}

crowded-Seen : Seen commands-IsLawful crowded.redis "v1" ("ann" ∷ [])
unfolding has_voted_session contains poll_voted_key
crowded-Seen x = ground arith

-- Cy's vote is delivered first; Bob's comes twice, and then one of his for another option.
abbrev ballot : String → String → Dict Value
ballot x o = event api_env (str "v1") (str o) x

cy-AreBallots :
    AreBallots commands tally_env "v1"
      ("rock" ∷ "jazz" ∷ [])
      (ballot "cy" "rock" ∷ [])
      (("cy", "rock") ∷ [])
unfolding AreBallots contains non_empty
cy-AreBallots =
    (event-IsBallot tally_env api_env "v1" "rock" "cy" tally-IsWorking refl refl refl, refl, tt)

bob-AreBallots :
    AreBallots commands tally_env "v1"
      ("rock" ∷ "jazz" ∷ [])
      (ballot "bob" "jazz" ∷ ballot "bob" "rock" ∷ [])
      (("bob", "jazz") ∷ ("bob", "rock") ∷ [])
unfolding AreBallots contains non_empty
bob-AreBallots = (
  event-IsBallot tally_env api_env "v1" "jazz" "bob" tally-IsWorking refl refl refl,
  refl,
  (event-IsBallot tally_env api_env "v1" "rock" "bob" tally-IsWorking refl refl refl, refl, tt),
)

vote_counts_once_example :
    (t : Task) × ((submit_vote commands api_env bob_payload (some "bob") start).1.outbox.tasks
      ≡ [] ++ t ∷ [])
    × (t.url ≡ "https://tally")
    × (hget commands
          (deliver_all commands tally_env
            ((ballot "cy" "rock" ∷ [])
              ++ t.payload ∷ ballot "bob" "jazz" ∷ ballot "bob" "rock" ∷ [])
            crowded).redis
          (poll_tally_key "v1")
          "jazz"
        ≡ some (number 1))
unfolding first_votes contains poll_tally_key
vote_counts_once_example =
    vote_counts_once commands-IsLawful tally_env api_env bob_payload "v1" "jazz" "bob" start
      tally-IsWorking bob_vote_id bob_option bob_accepted crowded ("ann" ∷ []) crowded-IsOpen
      crowded-Seen (ballot "cy" "rock" ∷ []) (ballot "bob" "jazz" ∷ ballot "bob" "rock" ∷ [])
      (("cy", "rock") ∷ []) (("bob", "jazz") ∷ ("bob", "rock") ∷ []) cy-AreBallots bob-AreBallots
      "jazz" 0 refl start_jazz
