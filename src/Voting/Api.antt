-- ===== src/Voting/Api.antt =====
-- services/vote-api/pulsefm_vote_api/main.py: POST /vote.
pub mod Validation
pub mod Acceptance
use pulse_fm.Base.{
  ℕ, String, Bool, true, false, not, ◌||◌, Option, none, some, List, [], ◌∷◌, map, ◌==◌, or_else,
  if◌then◌else◌,
}
use pulse_fm.Base.Dict.{Dict, lookup, contains}
use pulse_fm.Base.Text.{non_empty}
use pulse_fm.Base.Value.{
  Value, null, str, Exception, http, attribute_error, service_error, ok, err, Result, truthy,
}
use pulse_fm.Base.Action.{Action, pure, gets, raise, from_result, raise_if, try_except, ◌>>=◌, ◌>>◌}
use pulse_fm.Snapshot.{Snapshot, Poll, absent, falsy, malformed, dict, has_members}
use pulse_fm.Outbox.{Outbox}
use pulse_fm.Outbox.Tasks.{Queue, enqueue_json_task}
use pulse_fm.Redis.{Commands, HashValue}
use pulse_fm.Redis.Keys.{poll_tally_key}
use pulse_fm.Redis.Playback.{get_playback_current_snapshot, is_text}
use pulse_fm.Redis.Poll.{has_voted_session}
use pulse_fm.Voting.{Backend, equals}

-- The settings of services/vote-api/pulsefm_vote_api/config.py, the clients, and the time as
-- `isoformat` writes it.
pub record Env : Type 0 where
  pub vote_queue_name : String
  pub tally_function_url : String
  pub redis_up : Bool
  pub queue : Queue
  pub voted_at : String

-- The members of `snapshot.get("poll") or {}` that are read.
poll_state : Snapshot → Result (Option String × Option String)
poll_state snapshot = elim snapshot.poll [
  | dict poll ↦ ok (poll.vote_id, poll.status)
  | malformed ↦ err attribute_error
  | _ ↦ ok (none, none)
]

-- `option in options`
is_option : Value → List String → Bool
unfolding contains
is_option (str s) options = contains options s
is_option _ options = false

is_empty : List String → Bool
is_empty [] = true
is_empty (_ ∷ _) = false

abbrev pub unavailable : Exception
unavailable = http 500 "Vote state unavailable"

-- `except HTTPException: raise`, `except Exception: raise HTTPException(500)`
as_http : Exception → Exception
as_http (http code detail) = http code detail
as_http _ = http 500 "Redis unavailable"

-- The JSON payload of the task; its texts are written as they are.
unfoldable pub event : Env → Value → Value → String → Dict Value
event env vote_id option session_id =
    ("voteId", vote_id)
    ∷ ("option", option)
    ∷ ("sessionId", str session_id)
    ∷ ("votedAt", str env.voted_at)
    ∷ []

module _ {S : Type 0} (c : Commands S) (env : Env) where
  -- The part of the `try` block that looks at the snapshot; its result is the poll's options.
  check_poll : Value → Action (Backend S) (List String)
  unfolding has_members poll_state non_empty equals is_text is_empty
  check_poll vote_id = do
    raise_if (not env.redis_up) service_error
    found ← gets (λ w. get_playback_current_snapshot c w.redis)
    snapshot ← from_result (elim found [ none ↦ err unavailable | some s ↦ ok s ])
    raise_if (not (has_members snapshot)) unavailable
    poll ← from_result (poll_state snapshot)
    raise_if (not (non_empty (or_else poll.0 ""))) unavailable
    raise_if (not (equals poll.0 vote_id)) (http 400 "Invalid voteId")
    raise_if (not (is_text poll.1 "OPEN")) (http 409 "Vote closed")
    current ← from_result (elim poll.0 [ none ↦ err unavailable | some s ↦ ok s ])
    options ← gets (λ w.
        map (λ (entry : String × HashValue). entry.0) (c.hgetall w.redis (poll_tally_key current)))
    raise_if (is_empty options) unavailable
    pure options

  -- The `try` block of `_validate_vote`; `vote_id` equals a text once the poll has been checked.
  check_vote : Value → Value → String → Action (Backend S) (Unit {0})
  unfolding check_poll is_option has_voted_session
  check_vote vote_id option session_id = do
    options ← check_poll vote_id
    raise_if (not (is_option option options)) (http 400 "Invalid option")
    voted ←
        gets (λ w. elim vote_id [ str v ↦ has_voted_session c v session_id w.redis | _ ↦ false ])
    raise_if voted (http 409 "Duplicate vote")

  unfoldable pub validate_vote : Value → Value → String → Action (Backend S) (Unit {0})
  unfolding check_vote as_http
  validate_vote vote_id option session_id =
      try_except (check_vote vote_id option session_id) (λ e. raise (as_http e))

  on_outbox : {A : Type 0} → Action Outbox A → Action (Backend S) A
  on_outbox m w = let (r, o) = m w.outbox in (r, record w { outbox = o })

  unfoldable pub submit_vote : Dict Value → Option String → Action (Backend S) (Unit {0})
  unfolding on_outbox truthy non_empty lookup
  submit_vote payload x_session_id = do
    let session_id = or_else x_session_id ""
    raise_if (not (non_empty session_id)) (http 400 "Missing session id")
    raise_if (not (non_empty env.tally_function_url)) (http 500 "TALLY_FUNCTION_URL is required")
    let vote_id = or_else (lookup "voteId" payload) null
    let option = or_else (lookup "option" payload) null
    raise_if (not (truthy vote_id)) (http 400 "Missing voteId")
    raise_if (not (truthy option)) (http 400 "Missing option")
    validate_vote vote_id option session_id
    try_except
        (on_outbox (
          enqueue_json_task env.queue env.vote_queue_name env.tally_function_url
            (event env vote_id option session_id)))
        (λ _. raise (http 500 "Failed to enqueue vote"))
