-- ===== src/Playback/Votes/Success.antt =====
-- Closing and opening a vote (services/playback-service/pulsefm_playback_service/main.py) while
-- everything but Redis works: nothing is raised.
use pulse_fm.Base.{
  ℕ, ◌≡◌, inl, inr, Bool-cases, refl, String, true, Option, some, none, List, [], arith, ◌-◌, ◌*◌,
  or_else,
}
use pulse_fm.Base.Dict.{Dict}
use pulse_fm.Base.Text.{non_empty}
use pulse_fm.Base.Value.{Value, ok}
use pulse_fm.Base.Action.{Action, try_except, pure, ◌>>=◌, ◌>>◌}
use pulse_fm.Redis.{Commands}
use pulse_fm.Redis.Playback.{set_playback_poll_status}
use pulse_fm.Redis.Poll.{get_poll_tallies}
use pulse_fm.Playback.Ids.{to_epoch_ms, vote_close_lead_seconds}
use pulse_fm.Outbox.{Outbox}
use pulse_fm.Outbox.PubSub.{publish_json, topic_path, resolve_project_id}
use pulse_fm.Playback.{
  World, Env, VoteState, run_transaction, read_vote_state, write_opened, write_closed,
  publish_opened, publish_closed, publish_next_song, publish_changeover, read_tallies, write_status,
  calling, on_redis, on_outbox,
}
use pulse_fm.Playback.Votes.{
  publish_vote_event, announce_closing, write_closing, set_current_state, live_tallies, close_vote,
  closing_doc, close_if_open, open_next_vote, build_vote, rotate_vote, get_current_state,
  next_version, get_window_options,
}

-- The service is configured, and Firestore, Pub/Sub and Cloud Tasks answer. Of Redis nothing is said.
pub record IsUp (env : Env) : Type 0 where
  pub transaction : env.up run_transaction ≡ true
  pub read : env.up read_vote_state ≡ true
  pub closes : env.up write_closed ≡ true
  pub opens : env.up write_opened ≡ true
  pub announces_closed : env.up publish_closed ≡ true
  pub announces_opened : env.up publish_opened ≡ true
  pub announces_next_song : env.up publish_next_song ≡ true
  pub announces_changeover : env.up publish_changeover ≡ true
  pub project_id : non_empty env.settings.project_id ≡ true
  pub playback_topic : non_empty env.settings.playback_events_topic ≡ true
  pub vote_topic : non_empty env.settings.vote_events_topic ≡ true
  pub url : non_empty env.settings.playback_tick_url ≡ true
  pub tasks_project : non_empty env.queue.project_id ≡ true
  pub location : non_empty env.queue.location ≡ true
  pub answers : env.queue.answers ≡ true
  pub options : List String
  pub has_options : get_window_options env ≡ ok options

-- A stored vote has an id.
abbrev pub IsNamed : Option VoteState → Type 0
IsNamed none = Unit
IsNamed (some state) = non_empty (or_else state.vote_id "") ≡ true

-- The vote that is opened.
abbrev pub opened : (env : Env) → IsUp env → ℕ → ℕ → VoteState
opened env up version duration_ms =
    build_vote env env.uuid env.open_now duration_ms up.options version

abbrev pub Succeeds : {W A : Type 0} → Action W A → W → Type 0
Succeeds {W} {A} m w = (a : A) × ((m w).0 ≡ ok a)

pub Succeeds-bind :
    {W A B : Type 0} (m : Action W A) (k : A → Action W B) (w : W)
    → Succeeds m w
    → ((a : A) → Succeeds (k a) (m w).1)
    → Succeeds (m >>= k) w
Succeeds-bind m k w (a, e) later = let (b, e2) = later a in (b, ground arith)

pub publish_json_accepted :
    (environment : String) (project_id topic : String) (payload : Dict Value) (o : Outbox)
    → non_empty project_id ≡ true
    → non_empty topic ≡ true
    → Succeeds (publish_json environment true (some project_id) topic payload) o
unfolding publish_json topic_path resolve_project_id
publish_json_accepted environment project_id topic payload o h k = (tt, ground arith)

publish_vote_event_accepted :
    (env : Env) (up : IsUp env) (event vote_id : String) (winner : Option String)
    (end_at : Option ℕ) (o : Outbox)
    → Succeeds (publish_vote_event env true event vote_id winner end_at) o
unfolding publish_vote_event
publish_vote_event_accepted env up event vote_id winner end_at o =
    publish_json_accepted env.environment_project env.settings.project_id
      env.settings.vote_events_topic _ o up.project_id up.vote_topic

module _ {S D : Type 0} (c : Commands S) (env : Env) (up : IsUp env) where
  announce_closing-Succeeds :
      (vote_id : String) (doc : VoteState) (w : World S D)
      → Succeeds (announce_closing c env vote_id doc) w
  unfolding announce_closing
  announce_closing-Succeeds vote_id doc w =
      let told =
        try_except
          (calling env write_status (on_redis (set_playback_poll_status c vote_id "CLOSED")))
          (λ _. pure tt) in
      Succeeds-bind told
        (λ _.
          on_outbox
            (publish_vote_event env (env.up publish_closed) "CLOSE" vote_id doc.winner_option none)
          >> pure doc)
        w (tt, ground arith)
        (λ _. (
          doc,
          ground (
            arith,
            up.announces_closed,
            publish_vote_event_accepted env up "CLOSE" vote_id doc.winner_option none
                (told w).1.outbox,
          ),
        ))

  write_closing-Succeeds :
      (vote_id : String) (doc : VoteState) (w : World S D)
      → Succeeds (write_closing c env vote_id doc) w
  unfolding write_closing set_current_state
  write_closing-Succeeds vote_id doc w =
      Succeeds-bind (set_current_state c env write_closed doc)
        (λ _. announce_closing c env vote_id doc) w (tt, ground (arith, up.closes))
        (λ _. announce_closing-Succeeds vote_id doc _)

  live_tallies-Succeeds :
      (vote_id : String) (w : World S D) → Succeeds (live_tallies c env vote_id) w
  unfolding live_tallies
  live_tallies-Succeeds vote_id w = elim (Bool-cases (env.up read_tallies)) [
    | inl reads ↦ (get_poll_tallies c vote_id w.redis, ground arith)
    | inr fails ↦ ([], ground arith)
  ]

  close_vote-Succeeds :
      (state : VoteState) (w : World S D)
      → non_empty (or_else state.vote_id "") ≡ true
      → Succeeds (close_vote c env state) w
  unfolding close_vote
  close_vote-Succeeds state w named =
      let vote_id = or_else state.vote_id "" in
      let (live, e) = live_tallies-Succeeds vote_id w in
      let (doc, e2) =
        write_closing-Succeeds vote_id (closing_doc env state live)
          (live_tallies c env vote_id w).1 in
      (doc, ground arith)

  close_if_open-Succeeds :
      (state : Option VoteState) (w : World S D)
      → IsNamed state
      → Succeeds (close_if_open c env state) w
  unfolding close_if_open
  close_if_open-Succeeds none w named = (tt, refl)
  close_if_open-Succeeds (some state) w named =
      let (doc, e) = close_vote-Succeeds state w named in (tt, ground arith)

  open_next_vote_opens :
      (version duration_ms : ℕ) (w : World S D)
      → ((open_next_vote c env version duration_ms w).0 ≡ ok (opened env up version duration_ms))
        × ((open_next_vote c env version duration_ms w).1.vote_state
            ≡ some (opened env up version duration_ms))
  unfolding open_next_vote set_current_state
  open_next_vote_opens version duration_ms w =
      let event =
        publish_vote_event_accepted env up "OPEN" env.uuid none
          (to_epoch_ms (opened env up version duration_ms).end_at) w.outbox in
      (
        ground (arith, up.has_options, up.opens, up.announces_opened, event),
        ground (arith, up.has_options, up.opens, up.announces_opened, event),
      )

  pub rotate_vote_opens :
      (song_duration_ms : ℕ) (w : World S D)
      → IsNamed w.vote_state
      → let window =
          opened env up
            (next_version w.vote_state)
            (song_duration_ms - vote_close_lead_seconds * 1000) in
        ((rotate_vote c env song_duration_ms w).0 ≡ ok window)
        × ((rotate_vote c env song_duration_ms w).1.vote_state ≡ some window)
  unfolding rotate_vote get_current_state
  rotate_vote_opens song_duration_ms w named =
      let (u, e) = close_if_open-Succeeds w.vote_state w named in
      let opens =
        open_next_vote_opens (next_version w.vote_state)
          (song_duration_ms - vote_close_lead_seconds * 1000)
          (close_if_open c env w.vote_state w).1 in
      (ground (arith, up.read, opens), ground (arith, up.read, opens))
