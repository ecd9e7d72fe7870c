-- ===== src/Playback/Votes.antt =====
-- services/playback-service/pulsefm_playback_service/main.py: the votes of a poll window, closed and
-- opened in voteState/current.
pub mod Winner
pub mod Keeping
pub mod Success
pub mod Closing
pub mod Window
pub mod Tests
use pulse_fm.Base.{
  ℕ, suc, ◌+◌, ◌-◌, ◌*◌, max, String, Bool, true, false, not, ◌&&◌, Option, none, some, List, [],
  ◌∷◌, map, ◌==◌, ltb, eqb, is_some, or_else, if◌then◌else◌,
}
use pulse_fm.Base.Int.{ℤ, pos, eq_ℤ}
use pulse_fm.Base.Dict.{Dict, insert}
use pulse_fm.Base.Text.{non_empty}
use pulse_fm.Base.Value.{Value, str, int, Result, ok, err, value_error}
use pulse_fm.Base.Action.{
  Action, pure, gets, modify, raise, from_result, raise_if, try_except, ◌>>=◌, ◌>>◌,
}
use pulse_fm.Descriptors.{get_descriptor_keys}
use pulse_fm.Outbox.{Outbox}
use pulse_fm.Outbox.PubSub.{publish_json}
use pulse_fm.Redis.{Commands}
use pulse_fm.Redis.Playback.{set_playback_poll_status, is_text}
use pulse_fm.Redis.Poll.{get_poll_tallies}
use pulse_fm.Playback.{
  World, Env, Site, Settings, VoteState, calling, on_redis, on_outbox, or_zero, read_vote_state,
  write_closed, write_opened, read_tallies, write_status, publish_closed, publish_opened,
}
use pulse_fm.Playback.Ids.{microseconds_per_ms, vote_close_lead_seconds, to_epoch_ms}

-- `{option: 0 for option in options}`
zero_tallies : List String → Dict ℕ → Dict ℕ
zero_tallies [] d = d
zero_tallies (option ∷ options) d = zero_tallies options (insert option 0 d)

unfoldable pub build_vote : Env → String → ℕ → ℕ → List String → ℕ → VoteState
unfolding zero_tallies
build_vote env vote_id start_at duration_ms options version = record {
  vote_id = some vote_id;
  status = some "OPEN";
  start_at = some start_at;
  duration_ms = some duration_ms;
  end_at = some (start_at + duration_ms * microseconds_per_ms);
  options = options;
  tallies = zero_tallies options [];
  version = some version;
  winner_option = none;
  created_at = some (env.server_time);
  closed_at = none;
}

length : List String → ℕ
length [] = 0
length (_ ∷ xs) = suc (length xs)

unfoldable pub get_window_options : Env → Result (List String)
unfolding length
get_window_options env =
    if ltb 0 (length env.settings.vote_options)
    then ok env.settings.vote_options
    else if ltb (length get_descriptor_keys) env.settings.options_per_window
    then err (value_error "Not enough descriptor options to sample window choices")
    else ok (env.sample get_descriptor_keys env.settings.options_per_window)

-- `max(tallies.values())`, from the first value on.
unfoldable pub max_votes : ℕ → Dict ℕ → ℕ
max_votes best [] = best
max_votes best ((_, n) ∷ tallies) = max_votes (max best n) tallies

-- The options whose count is `best`, in order.
unfoldable pub tied : ℕ → Dict ℕ → List String
tied best [] = []
tied best ((option, n) ∷ tallies) =
    let rest = tied best tallies in if eqb n best then option ∷ rest else rest

unfoldable pub pick_winner : (List String → String) → Dict ℕ → Option String
pick_winner choice [] = none
pick_winner choice ((option, n) ∷ tallies) =
    let candidates = tied (max_votes n tallies) ((option, n) ∷ tallies) in
    elim candidates [ [] ↦ none | first ∷ rest ↦ some (choice (first ∷ rest)) ]

winner_member : Option String → Dict Value → Dict Value
winner_member none rest = rest
winner_member (some w) rest = ("winnerOption", str w) ∷ rest

end_member : Option ℕ → Dict Value
end_member none = []
end_member (some ms) = ("endAt", int (pos ms)) ∷ []

unfoldable pub publish_vote_event :
    Env → Bool → String → String → Option String → Option ℕ → Action Outbox (Unit {0})
unfolding winner_member end_member
publish_vote_event env accepted event vote_id winner_option end_at_ms =
    publish_json env.environment_project accepted (some env.settings.project_id)
      env.settings.vote_events_topic
      (("event", str event)
        ∷ ("voteId", str vote_id)
        ∷ winner_member winner_option (end_member end_at_ms))

-- What `_close_current_vote_if_matches` answers.
pub data Closed : Type 0 where
  missing_state : Closed
  vote_mismatch version_mismatch already_closed closed : Option String → ℕ → Closed

-- `if not tallies:` the zeros of the window's options.
unfoldable pub or_zeros : Dict ℕ → List String → Dict ℕ
unfolding zero_tallies
or_zeros [] options = zero_tallies options []
or_zeros (e ∷ tallies) options = e ∷ tallies

-- `expected is not None and current != expected`, for a vote and for a version.
unfoldable pub other_vote : Option String → Option String → Bool
other_vote none current = false
other_vote (some expected) current = not (is_text current expected)

unfoldable pub other_version : Option ℤ → ℕ → Bool
other_version none current = false
other_version (some expected) current = not (eq_ℤ (pos current) expected)

unfoldable pub next_version : Option VoteState → ℕ
next_version none = 1
next_version (some state) = or_zero state.version + 1

unfoldable pub closing_doc : Env → VoteState → Dict ℕ → VoteState
unfolding or_zeros
closing_doc env state live =
    let tallies = or_zeros live state.options in
    record state {
      status = some "CLOSED";
      winner_option = pick_winner env.choice tallies;
      tallies = tallies;
      closed_at = some env.server_time;
    }

module _ {S D : Type 0} (c : Commands S) (env : Env) where
  unfoldable pub get_current_state : Action (World S D) (Option VoteState)
  get_current_state = calling env read_vote_state (gets λ w. w.vote_state)

  unfoldable pub set_current_state : Site → VoteState → Action (World S D) (Unit {0})
  set_current_state site doc = calling env site (modify λ w. record w { vote_state = some doc })

  -- The tallies in Redis, or none while it is unavailable.
  unfoldable pub live_tallies : String → Action (World S D) (Dict ℕ)
  live_tallies vote_id =
      try_except (calling env read_tallies (gets λ w. get_poll_tallies c vote_id w.redis))
        (λ _. pure [])

  -- What follows once the window's document is written.
  unfoldable pub announce_closing : String → VoteState → Action (World S D) VoteState
  announce_closing vote_id window_doc = do
    try_except (calling env write_status (on_redis (set_playback_poll_status c vote_id "CLOSED")))
        (λ _. pure tt)
    on_outbox (
        publish_vote_event env (env.up publish_closed) "CLOSE" vote_id window_doc.winner_option
          none)
    pure window_doc

  unfoldable pub write_closing : String → VoteState → Action (World S D) VoteState
  write_closing vote_id window_doc =
      set_current_state write_closed window_doc >> announce_closing vote_id window_doc

  unfoldable pub close_vote : VoteState → Action (World S D) VoteState
  unfolding non_empty
  close_vote state = do
    let vote_id = or_else state.vote_id ""
    raise_if (not (non_empty vote_id)) (value_error "voteId missing from voteState/current")
    live ← live_tallies vote_id
    write_closing vote_id (closing_doc env state live)

  -- What the document that was read comes to.
  unfoldable pub close_found :
      Option String → Option ℤ → Option VoteState → Action (World S D) Closed
  close_found expected_vote_id expected_version none w = (ok missing_state, w)
  close_found expected_vote_id expected_version (some state) w =
      let current = or_zero state.version in
      if other_vote expected_vote_id state.vote_id
      then (ok (vote_mismatch state.vote_id current), w)
      else if other_version expected_version current
      then (ok (version_mismatch state.vote_id current), w)
      else if not (is_text state.status "OPEN")
      then (ok (already_closed state.vote_id current), w)
      else (close_vote state >> pure (closed state.vote_id current)) w

  unfoldable pub close_current_vote_if_matches :
      Option String → Option ℤ → Action (World S D) Closed
  close_current_vote_if_matches expected_vote_id expected_version = do
    found ← get_current_state
    close_found expected_vote_id expected_version found

  unfoldable pub open_next_vote : ℕ → ℕ → Action (World S D) VoteState
  unfolding set_current_state
  open_next_vote version duration_ms = do
    window_options ← from_result (get_window_options env)
    let window_doc = build_vote env env.uuid env.open_now duration_ms window_options version
    set_current_state write_opened window_doc
    on_outbox (
        publish_vote_event env (env.up publish_opened) "OPEN" env.uuid none
          (to_epoch_ms window_doc.end_at))
    pure window_doc

  -- `if state and state.get("status") == "OPEN": await _close_vote(db, state)`
  unfoldable pub close_if_open : Option VoteState → Action (World S D) (Unit {0})
  unfolding is_text
  close_if_open none = pure tt
  close_if_open (some state) =
      if is_text state.status "OPEN" then (close_vote state >> pure tt) else pure tt

  unfoldable pub rotate_vote : ℕ → Action (World S D) VoteState
  unfolding get_current_state close_if_open next_version
  rotate_vote song_duration_ms = do
    let vote_duration_ms = song_duration_ms - vote_close_lead_seconds * 1000
    state ← get_current_state
    close_if_open state
    open_next_vote (next_version state) vote_duration_ms
