-- ===== src/Voting/Tally.antt =====
-- functions/tally-function/main.py. Its copies of the key names, of `get_playback_current_snapshot`
-- and of VOTE_LUA are those of packages/pulsefm-redis, word for word, and are modelled there.
pub mod Counting
pub mod Effect
use mathlib.Core.List.{◌++◌}
use pulse_fm.Base.{
  ℕ, String, Bool, true, false, not, ◌&&◌, ◌||◌, Option, none, some, [], ◌∷◌, ◌==◌, is_some,
  if◌then◌else◌,
}
use pulse_fm.Base.Text.{non_empty}
use pulse_fm.Base.Value.{
  Value, str, obj, Fields, end, Result, ok, err, value_error, attribute_error, service_error,
  truthy,
}
use pulse_fm.Base.Action.{Action, pure, gets, from_result, raise_if, ◌>>=◌, ◌>>◌}
use pulse_fm.Snapshot.{Snapshot, Poll, absent, falsy, malformed, dict, has_members}
use pulse_fm.Outbox.{Outbox}
use pulse_fm.Redis.{Commands, hget}
use pulse_fm.Redis.Keys.{poll_tally_key}
use pulse_fm.Redis.Playback.{get_playback_current_snapshot}
use pulse_fm.Redis.Poll.{record_vote_atomic}
use pulse_fm.Voting.{Backend, member, equals}

-- An HTTP request; `body` is what `get_json(silent=True)` returns.
pub record Request : Type 0 where
  pub method : String
  pub body : Value

pub record Response : Type 0 where
  pub status : String
  pub code : ℕ

-- The environment of one call: the settings, which services answer, and how the Redis client writes
-- an argument of a command (`none` for its DataError).
pub record Env : Type 0 where
  pub project_id : String
  pub tally_topic : String
  pub redis_up : Bool
  pub pubsub_up : Bool
  pub encode : Value → Option String

abbrev pub success : String → ℕ → Response
success status code = record { status = status; code = code }

-- `(snapshot or {}).get("poll", {}).get("voteId")`
unfoldable pub current_vote_id : Option Snapshot → Result (Option String)
unfolding has_members
current_vote_id none = ok none
current_vote_id (some snapshot) =
    if has_members snapshot
    then (elim snapshot.poll [
      | absent ↦ ok none
      | dict poll ↦ ok poll.vote_id
      | _ ↦ err attribute_error
    ])
    else ok none

or_data_error : Option String → Result String
or_data_error none = err service_error
or_data_error (some s) = ok s

-- What the `try` block around Redis finds.
pub data Outcome : Type 0 where
  vote_not_open invalid_option added duplicate : Outcome

text_of : Value → String
text_of (str s) = s
text_of _ = ""

module _ {S : Type 0} (c : Commands S) (env : Env) where
  on_redis : {A : Type 0} → (S → A × S) → Action (Backend S) A
  on_redis f w = let (a, s) = f w.redis in (ok a, record w { redis = s })

  -- The `try` block from `hexists` on, for the current vote.
  unfoldable pub count_vote : String → Value → Value → Action (Backend S) Outcome
  unfolding or_data_error on_redis
  count_vote vote_id session_id option = do
    field ← from_result (or_data_error (env.encode option))
    option_exists ← gets (λ w. is_some (hget c w.redis (poll_tally_key vote_id) field))
    if not option_exists then pure invalid_option else do
      session ← from_result (or_data_error (env.encode session_id))
      was_added ← on_redis (record_vote_atomic c vote_id session field)
      pure (if was_added then added else duplicate)

  -- The body of the `try` block, for an option and a session that are not empty.
  unfoldable pub tally_redis : Value → Value → Value → Action (Backend S) Outcome
  unfolding current_vote_id count_vote equals text_of
  tally_redis vote_id session_id option = do
    raise_if (not env.redis_up) service_error
    snapshot ← gets (λ w. get_playback_current_snapshot c w.redis)
    current ← from_result (current_vote_id snapshot)
    if not (equals current vote_id)
        then pure vote_not_open
        else count_vote (text_of vote_id) session_id option

  -- `_publish_json`, for the message that names the poll.
  publish_tally : Value → Action (Backend S) (Unit {0})
  unfolding non_empty
  publish_tally vote_id w =
      if non_empty env.project_id && env.pubsub_up
      then (
        ok tt,
        record w {
          outbox = record (w.outbox) {
            published =
                w.outbox.published
                ++ (record { topic = env.tally_topic; payload = ("voteId", vote_id) ∷ [] }) ∷ [];
          };
        },
      )
      else (err service_error, w)

  -- The answer to the outcome; a tally event that cannot be published is only logged.
  unfoldable pub reply : Value → Result Outcome × Backend S → Result Response × Backend S
  unfolding publish_tally
  reply vote_id (err _, w) = (ok (success "error" 500), w)
  reply vote_id (ok vote_not_open, w) = (ok (success "vote_not_open" 200), w)
  reply vote_id (ok invalid_option, w) = (ok (success "invalid_option" 200), w)
  reply vote_id (ok duplicate, w) = (ok (success "duplicate" 200), w)
  reply vote_id (ok added, w) = (ok (success "ok" 200), (publish_tally vote_id w).1)

  unfoldable pub tally_fields : Fields → Action (Backend S) Response
  unfolding truthy
  tally_fields payload w =
      let vote_id = member "voteId" payload in
      let session_id = member "sessionId" payload in
      let option = member "option" payload in
      if not (truthy vote_id) || not (truthy session_id) || not (truthy option)
      then (ok (success "missing_fields" 200), w)
      else reply vote_id (tally_redis vote_id session_id option w)

  unfoldable pub tally_function : Request → Action (Backend S) Response
  tally_function request w =
      if not (request.method == "POST")
      then (ok (success "method_not_allowed" 405), w)
      else if not (truthy request.body)
      then tally_fields end w
      else elim request.body [ obj fields ↦ tally_fields fields w | _ ↦ (err attribute_error, w) ]
