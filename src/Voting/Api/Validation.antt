-- ===== src/Voting/Api/Validation.antt =====
-- Which votes `_validate_vote` takes (services/vote-api/pulsefm_vote_api/main.py).
use pulse_fm.Base.{
  ◌≡◌, refl, ◌⊎◌, inl, inr, String, true, false, some, List, map, arith, eq_iff, eq_refl,
  Option-cases,
}
use pulse_fm.Base.Dict.{contains}
use pulse_fm.Base.Text.{non_empty}
use pulse_fm.Base.Value.{Value, null, str, ok}
use pulse_fm.Base.Action.{Result-cases}
use pulse_fm.Snapshot.{Snapshot, Poll, Member, absent, falsy, malformed, dict}
use pulse_fm.Redis.{Commands, HashValue}
use pulse_fm.Redis.Keys.{poll_tally_key}
use pulse_fm.Redis.Playback.{get_playback_current_snapshot}
use pulse_fm.Redis.Poll.{has_voted_session}
use pulse_fm.Voting.{Backend}
use pulse_fm.Voting.Api.{Env, validate_vote, check_poll, is_option}

-- The names of the options in the poll's tally.
abbrev pub option_names : {S : Type 0} → Commands S → S → String → List String
option_names c s v = map (λ (entry : String × HashValue). entry.0) (c.hgetall s (poll_tally_key v))

-- The poll `v` is the current one and open, has the option `o`, and the session `x` has not voted.
pub record IsAdmissible {S : Type 0} (c : Commands S) (s : S) (v o x : String) : Type 0 where
  pub snapshot : Snapshot
  pub poll : Poll
  pub found : get_playback_current_snapshot c s ≡ some snapshot
  pub has_poll : snapshot.poll ≡ dict poll
  pub named : non_empty v ≡ true
  pub current : poll.vote_id ≡ some v
  pub is_open : poll.status ≡ some "OPEN"
  pub known : contains (option_names c s v) o ≡ true
  pub fresh : has_voted_session c v x s ≡ false

Member-cases :
    {A : Type 0} (m : Member A)
    → ((a : A) × (m ≡ dict a)) ⊎ ((m ≡ absent) ⊎ ((m ≡ falsy) ⊎ (m ≡ malformed)))
Member-cases (dict a) = inl (a, refl)
Member-cases absent = inr (inl refl)
Member-cases falsy = inr (inr (inl refl))
Member-cases malformed = inr (inr (inr refl))

module _ {S : Type 0} (c : Commands S) (env : Env) where
  check_poll_reads : (vote_id : Value) (w : Backend S) → (check_poll c env vote_id w).1 ≡ w
  unfolding check_poll
  check_poll_reads vote_id w = ground arith

  pub validate_vote_reads :
      (vote_id option : Value) (x : String) (w : Backend S)
      → (validate_vote c env vote_id option x w).1 ≡ w
  unfolding validate_vote
  validate_vote_reads vote_id option x w = ground (arith, check_poll_reads vote_id w)

  pub validate_vote-admissible :
      (v o x : String) (w : Backend S)
      → env.redis_up ≡ true
      → IsAdmissible c w.redis v o x
      → validate_vote c env (str v) (str o) x w ≡ (ok tt, w)
  unfolding validate_vote check_poll contains
  validate_vote-admissible v o x w up a = ground (arith, eq_refl v, eq_refl "OPEN")

  -- What a check of the snapshot that succeeds has found.
  Found : S → String → List String → Type 0
  Found s v options =
      (snapshot : Snapshot) × (poll : Poll) × (get_playback_current_snapshot c s ≡ some snapshot)
      × (snapshot.poll ≡ dict poll)
      × (non_empty v ≡ true)
      × (poll.vote_id ≡ some v)
      × (poll.status ≡ some "OPEN")
      × (options ≡ option_names c s v)

  check_poll_sound :
      (v : String) (w : Backend S) (options : List String)
      → (check_poll c env (str v) w).0 ≡ ok options
      → Found w.redis v options
  unfolding check_poll Found
  check_poll_sound v w options h = elim (Option-cases (get_playback_current_snapshot c w.redis)) [
    | inl missing ↦ absurd (ground arith)
    | inr (snapshot, found) ↦ elim (Member-cases snapshot.poll) [
      | inr other ↦ absurd (ground arith)
      | inl (poll, has_poll) ↦ elim (Option-cases poll.vote_id) [
        | inl none_named ↦ absurd (ground arith)
        | inr (u, named) ↦ elim (Option-cases poll.status) [
          | inl no_status ↦ absurd (ground arith)
          | inr (status, is_status) ↦
              let same : u ≡ v = ground (arith, eq_iff u v) in
              (
                snapshot,
                poll,
                found,
                has_poll,
                ground (arith, eq_iff u v),
                ground (arith, eq_iff u v),
                ground (arith, eq_iff status "OPEN"),
                ground (arith, eq_iff u v),
              )
        ]
      ]
    ]
  ]

  check_poll_text :
      (vote_id : Value) (w : Backend S) (options : List String)
      → (check_poll c env vote_id w).0 ≡ ok options
      → (v : String) × (vote_id ≡ str v)
  unfolding check_poll
  check_poll_text (str v) w options h = (v, refl)
  check_poll_text null w options h = absurd (ground arith)
  check_poll_text _ w options h = absurd (ground arith)

  is_option_text :
      (option : Value) (options : List String)
      → is_option option options ≡ true
      → (o : String) × (option ≡ str o) × (contains options o ≡ true)
  unfolding is_option
  is_option_text (str o) options h = (o, refl, h)
  is_option_text null options h = cc
  is_option_text _ options h = cc

  admissible :
      (v o x : String) (w : Backend S) (options : List String)
      → (check_poll c env (str v) w).0 ≡ ok options
      → contains options o ≡ true
      → has_voted_session c v x w.redis ≡ false
      → IsAdmissible c w.redis v o x
  unfolding Found
  admissible v o x w options passed known fresh =
      let (snapshot, poll, found, has_poll, named, current, is_open, listed) =
        check_poll_sound v w options passed in
      record {
        snapshot = snapshot;
        poll = poll;
        found = found;
        has_poll = has_poll;
        named = named;
        current = current;
        is_open = is_open;
        known = rw (← listed) known;
        fresh = fresh;
      }

  pub validate_vote_sound :
      (vote_id option : Value) (x : String) (w : Backend S)
      → (validate_vote c env vote_id option x w).0 ≡ ok tt
      → (v : String) × (o : String) × (vote_id ≡ str v)
        × (option ≡ str o)
        × IsAdmissible c w.redis v o x
  unfolding validate_vote
  validate_vote_sound vote_id option x w h = elim (Result-cases (check_poll c env vote_id w).0) [
    | inr (e, refused) ↦ absurd (ground arith)
    | inl (options, passed) ↦
        let (v, is_v) = check_poll_text vote_id w options passed in
        let (o, is_o, known) = is_option_text option options (ground arith) in
        let reads = check_poll_reads vote_id w in
        (v, o, is_v, is_o, admissible v o x w options (ground arith) known (ground (arith, reads)))
  ]
