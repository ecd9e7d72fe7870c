-- ===== src/Playback/Votes/Keeping.antt =====
-- What closing and opening a vote leaves alone (services/playback-service main.py).
use pulse_fm.Base.{
  ◌≡◌, refl, inl, inr, sym, subst, ◌-◌, ◌*◌, String, Bool, Option, none, some, [], arith, ℕ,
}
use pulse_fm.Redis.Poll.{get_poll_tallies}
use pulse_fm.Base.Dict.{Dict}
use pulse_fm.Base.Action.{Action, pure, gets, Result-cases, ◌>>=◌, ◌>>◌}
use pulse_fm.Base.Keeps.{Keeps, Keeps-try}
use pulse_fm.Outbox.{Outbox}
use pulse_fm.Outbox.PubSub.{publish_json}
use pulse_fm.Redis.{Commands}
use pulse_fm.Playback.{
  World, Env, Site, VoteState, calling, read_tallies, read_vote_state, write_closed,
}
use pulse_fm.Playback.Votes.{
  get_current_state, set_current_state, live_tallies, announce_closing, write_closing, close_vote,
  close_if_open, open_next_vote, rotate_vote, publish_vote_event, next_version,
}
use pulse_fm.Playback.Ids.{vote_close_lead_seconds}

pub publish_json-tasks :
    (environment : String) (accepted : Bool) (project_id : Option String) (topic : String)
    → (payload : _) (o : Outbox)
    → (publish_json environment accepted project_id topic payload o).1.tasks ≡ o.tasks
unfolding publish_json
publish_json-tasks environment accepted project_id topic payload o = ground arith

-- The parts that the votes have no part in.
abbrev pub Same : {S D : Type 0} → World S D → World S D → Type 0
Same w w' = (w'.station ≡ w.station) × (w'.songs ≡ w.songs) × (w'.outbox.tasks ≡ w.outbox.tasks)

Same-bind :
    {S D A B : Type 0} (m : Action (World S D) A) (k : A → Action (World S D) B) (w : World S D)
    → Same w (m w).1
    → ((a : A) (u : World S D) → Same u (k a u).1)
    → Same w ((m >>= k) w).1
Same-bind m k w first later = elim (Result-cases (m w).0) [
  | inl (a, e) ↦ ground (arith, later a (m w).1)
  | inr (x, e) ↦ ground arith
]

publish_vote_event-tasks :
    (env : Env) (accepted : Bool) (event vote_id : String) (winner : Option String)
    → (end_at : Option ℕ) (o : Outbox)
    → (publish_vote_event env accepted event vote_id winner end_at o).1.tasks ≡ o.tasks
unfolding publish_vote_event
publish_vote_event-tasks env accepted event vote_id winner end_at o =
    publish_json-tasks env.environment_project accepted (some env.settings.project_id)
      env.settings.vote_events_topic _ o

pub calling-reads :
    {S D A : Type 0} (env : Env) (site : Site) (m : Action (World S D) A)
    → Keeps (λ w. w) m
    → Keeps (λ w. w) (calling env site m)
calling-reads env site m reads w = ground (arith, reads w)

module _ {S D : Type 0} (c : Commands S) (env : Env) where
  pub live_tallies-same : (vote_id : String) (w : World S D) → (live_tallies c env vote_id w).1 ≡ w
  unfolding live_tallies
  live_tallies-same vote_id w =
      Keeps-try (λ u. u) (calling env read_tallies read) (λ _. pure [])
        (calling-reads env read_tallies read (λ u. refl)) (λ e u. refl) w
    where
      read : Action (World S D) (Dict ℕ)
      read = gets λ u. get_poll_tallies c vote_id u.redis

  announce_closing-Same :
      (vote_id : String) (doc : VoteState) (w : World S D)
      → Same w (announce_closing c env vote_id doc w).1
  unfolding announce_closing
  announce_closing-Same vote_id doc w = grind (arith, publish_vote_event-tasks)

  set_current_state-Same :
      (site : Site) (doc : VoteState) (w : World S D)
      → Same w (set_current_state c env site doc w).1
  unfolding set_current_state
  set_current_state-Same site doc w = grind arith

  write_closing-Same :
      (vote_id : String) (doc : VoteState) (w : World S D)
      → Same w (write_closing c env vote_id doc w).1
  unfolding write_closing
  write_closing-Same vote_id doc w =
      Same-bind (set_current_state c env write_closed doc) (λ _. announce_closing c env vote_id doc)
        w (set_current_state-Same write_closed doc w) (λ _. announce_closing-Same vote_id doc)

  close_vote-Same : (state : VoteState) (w : World S D) → Same w (close_vote c env state w).1
  unfolding close_vote
  close_vote-Same state w = grind (arith, live_tallies-same, write_closing-Same)

  open_next_vote-Same :
      (version duration_ms : ℕ) (w : World S D)
      → Same w (open_next_vote c env version duration_ms w).1
  unfolding open_next_vote
  open_next_vote-Same version duration_ms w = grind (arith, publish_vote_event-tasks)

  close_if_open-Same :
      (state : Option VoteState) (w : World S D) → Same w (close_if_open c env state w).1
  unfolding close_if_open
  close_if_open-Same none w = (refl, refl, refl)
  close_if_open-Same (some state) w = grind (arith, close_vote-Same state w)

  pub rotate_vote-Same :
      (song_duration_ms : ℕ) (w : World S D) → Same w (rotate_vote c env song_duration_ms w).1
  unfolding rotate_vote get_current_state
  rotate_vote-Same song_duration_ms w =
      Same-bind (get_current_state c env)
        (λ state.
          close_if_open c env state
          >> open_next_vote c env (next_version state)
              (song_duration_ms - vote_close_lead_seconds * 1000))
        w
        (subst (λ u. Same w u)
          (sym (calling-reads env read_vote_state (gets λ u. u.vote_state) (λ u. refl) w))
          (refl, refl, refl))
        (λ state u.
          Same-bind (close_if_open c env state)
            (λ _.
              open_next_vote c env (next_version state)
                (song_duration_ms - vote_close_lead_seconds * 1000))
            u (close_if_open-Same state u) (λ _. open_next_vote-Same _ _))
