-- ===== src/Playback/Tick/Windows.antt =====
-- From one tick to the closing of the vote that it opens (services/playback-service/pulsefm_playback_service/main.py,
-- packages/pulsefm-redis).
use pulse_fm.Base.{
  ℕ, ◌≡◌, ◌<◌, ◌∙◌, ap, sym, subst, inl, inr, refl, String, true, some, List, [], ◌∷◌, or_else,
  arith,
}
use pulse_fm.Base.Int.{pos}
use pulse_fm.Base.Dict.{Dict, lookup}
use pulse_fm.Base.Text.{non_empty, has_content}
use pulse_fm.Base.Value.{Value, str, int, int_of, Result, ok}
use pulse_fm.Base.Action.{Result-cases}
use pulse_fm.Redis.{Commands, IsLawful}
use pulse_fm.Redis.Keys.{poll_tally_key}
use pulse_fm.Snapshot.{Snapshot}
use pulse_fm.Redis.Poll.{init_poll_open_atomic}
use pulse_fm.Redis.Poll.Voting.{Ballot, record_votes}
use pulse_fm.Playback.{World, Env, Songs, Station, VoteState, or_zero, open_poll}
use pulse_fm.Playback.Ids.{validate_tick_version, required_version, version_of}
use pulse_fm.Playback.Rotation.Updates.{IsValid}
use pulse_fm.Playback.Votes.{close_current_vote_if_matches, get_window_options}
use pulse_fm.Playback.Votes.Success.{IsUp, IsNamed}
use pulse_fm.Playback.Votes.Window.{Answers, IsDecided, distinct, window-IsDecided}
use pulse_fm.Playback.Tick.{Ticked, tick, done, close_request, close_vote_route}
use pulse_fm.Playback.Tick.Continuing.{Continues, tick-Continues}

module _ {S D : Type 0} (c : Commands S) (vote_id : String) where
  -- The world with ballots in the poll of a vote.
  abbrev pub voted : List Ballot → World S D → World S D
  voted ballots w = record w { redis = record_votes c vote_id ballots w.redis }

  -- The tallies of a vote name no field twice.
  abbrev pub IsDistinct : World S D → Type 0
  IsDistinct w = distinct (c.hgetall w.redis (poll_tally_key vote_id)) ≡ true

-- The payload of the task that closes a vote.
abbrev pub close_payload : String → ℕ → Dict Value
close_payload vote_id version = ("voteId", str vote_id) ∷ ("version", int (pos version)) ∷ []

close_request_lem :
    {S D : Type 0} (c : Commands S) (f : Songs D) (env : Env) (vote_id : String) (version : ℕ)
    → has_content vote_id ≡ true
    → close_request c f env (close_payload vote_id version) ≡ ok (vote_id, pos version)
unfolding close_request required_version version_of int_of lookup
close_request_lem c f env vote_id version named = rw named refl

has_content-non_empty : (s : String) → has_content s ≡ true → non_empty s ≡ true
unfolding has_content non_empty
has_content-non_empty String.[] named = ground arith
has_content-non_empty (String.◌∷◌ c s) named = refl

-- The task's request closes the vote as `_close_current_vote_if_matches` does.
close_vote_route-closes :
    {S D : Type 0} (c : Commands S) (f : Songs D) (env : Env) (vote_id : String) (version : ℕ)
    (w : World S D)
    → has_content vote_id ≡ true
    → (close_vote_route c f env (close_payload vote_id version) w).1
      ≡ (close_current_vote_if_matches c env (some vote_id) (some (pos version)) w).1
unfolding close_vote_route
close_vote_route-closes c f env vote_id version w named =
    elim (Result-cases
      (close_current_vote_if_matches c env (some vote_id) (some (pos version)) w).0) [
        | inl (closing, closes) ↦ ground (arith, close_request_lem c f env vote_id version named)
        | inr (x, raises) ↦ ground (arith, close_request_lem c f env vote_id version named)
      ]

module _ {S D : Type 0} (c : Commands S) (f : Songs D) (env : Env) where
  -- The poll that Redis holds after a tick.
  pub Continues-polled :
      (payload : Dict Value) (w : World S D) (station : Station) (v : ℕ)
      (goes : Continues c f env payload w station v) (option : String) (options : List String)
      → env.up open_poll ≡ true
      → get_window_options env ≡ ok (option ∷ options)
      → (snapshot : Snapshot) × (ttl : ℕ) × (state_ttl : ℕ) × (s : S) × (goes.after.redis
          ≡ init_poll_open_atomic c env.uuid snapshot ttl state_ttl (option ∷ options) s)
  Continues-polled payload w station v goes option options opens offered =
      let (snapshot, ttl, state_ttl, s, polled) = goes.follows.polled opens in
      let offers : goes.window.options ≡ option ∷ options = ground (arith, goes.offers) in
      (
        snapshot,
        ttl,
        state_ttl,
        s,
        polled
            ∙ ap (λ v. init_poll_open_atomic c v snapshot ttl state_ttl goes.window.options s)
                (ap (λ v. or_else v "") goes.named)
            ∙ ap (λ os. init_poll_open_atomic c env.uuid snapshot ttl state_ttl os s) offers,
      )

module _ {S D : Type 0} {c : Commands S} (laws : IsLawful c) (f : Songs D) (env : Env) where
  Continues-IsDecided :
      (payload : Dict Value) (w : World S D) (station : Station) (v : ℕ)
      (goes : Continues c f env payload w station v) (option : String) (options : List String)
      (ballots : List Ballot) (later : Env)
      → env.up open_poll ≡ true
      → get_window_options env ≡ ok (option ∷ options)
      → non_empty env.uuid ≡ true
      → Answers later
      → IsDistinct c env.uuid (voted c env.uuid ballots goes.after)
      → IsDecided laws env ballots
          (close_current_vote_if_matches c later
            (some env.uuid)
            (some (pos (or_zero goes.window.version)))
            (voted c env.uuid ballots goes.after)).1
  Continues-IsDecided payload w station v goes option options ballots later opens offered named
        answers unique =
      let (snapshot, ttl, state_ttl, s, holds) =
        Continues-polled c f env payload w station v goes option options opens offered in
      window-IsDecided laws later env.uuid snapshot ttl state_ttl option options s ballots
        (some (pos (or_zero goes.window.version))) goes.window (voted c env.uuid ballots goes.after)
        answers named goes.named
        (record {
          this_vote = inr (sym goes.named);
          this_version = inr refl;
          was_open = goes.is_open;
        })
        goes.follows.stored (ap (record_votes c env.uuid ballots) holds) unique

  -- From a valid world a tick of a newer version, in which all calls succeed, goes through and opens a vote;
  -- once any ballots for it have been counted in Redis, POST /vote/close with the payload of the vote's close
  -- task closes it: it is stored CLOSED with a winner, and no option was named on the first ballots of more
  -- sessions than the winner. The window has an option, the new vote's id is not blank, Redis and
  -- Firestore answer the request, and its tallies name no field twice.
  pub tick-IsDecided :
      (songs_laws : pulse_fm.Playback.IsLawful f) (payload : Dict Value) (w : World S D) (v : ℕ)
      (valid : IsValid f w) (option : String) (options : List String) (ballots : List Ballot)
      (later : Env)
      → IsUp env
      → env.up open_poll ≡ true
      → IsNamed w.vote_state
      → validate_tick_version payload ≡ ok v
      → or_zero valid.station.version < v
      → get_window_options env ≡ ok (option ∷ options)
      → has_content env.uuid ≡ true
      → Answers later
      → IsDistinct c env.uuid (voted c env.uuid ballots (tick c f env payload w).1)
      → let (r, w') = tick c f env payload w in
        (r ≡ ok (done v))
        × ((window : VoteState) × (w'.vote_state ≡ some window)
            × IsDecided laws env ballots
                (close_vote_route c f later
                  (close_payload env.uuid (or_zero window.version))
                  (voted c env.uuid ballots w')).1)
  tick-IsDecided songs_laws payload w v valid option options ballots later up opens kept validated
        newer offered named answers unique =
      let goes = tick-Continues c f env songs_laws payload w v valid up kept validated newer in
      let Decided : Result Ticked × World S D → Type 0 = λ (r, w').
        (r ≡ ok (done v))
        × ((window : VoteState) × (w'.vote_state ≡ some window)
            × IsDecided laws env ballots
                (close_vote_route c f later (close_payload env.uuid (or_zero window.version))
                  (voted c env.uuid ballots w')).1) in
      let still : IsDistinct c env.uuid (voted c env.uuid ballots goes.after) =
        subst
          (λ (r : Result Ticked × World S D). IsDistinct c env.uuid (voted c env.uuid ballots r.1))
          goes.runs unique in
      let decided =
        Continues-IsDecided payload w valid.station v goes option options ballots later opens
          offered (has_content-non_empty env.uuid named) answers still in
      let version = or_zero goes.window.version in
      let closes =
        close_vote_route-closes c f later env.uuid version (voted c env.uuid ballots goes.after)
          named in
      subst Decided (sym goes.runs) (
        refl,
        (goes.window, goes.follows.stored, subst (IsDecided laws env ballots) (sym closes) decided),
      )
