-- ===== src/Playback/Votes/Closing.antt =====
-- `_close_vote` and `_close_current_vote_if_matches`
-- (services/playback-service/pulsefm_playback_service/main.py).
pub mod Expected
use pulse_fm.Base.{
  ℕ, ◌≡◌, ◌≢◌, ◌∙◌, refl, ap, sym, ◌⊎◌, inl, inr, String, true, false, Option, none, some, arith,
  eq_iff, eq_refl, or_else, Bool-cases, Option-cases,
}
use pulse_fm.Base.Int.{ℤ, pos, negsuc}
use pulse_fm.Base.Value.{Exception, service_error, value_error, ok, err}
use pulse_fm.Base.Action.{pure, modify, Result-cases, >>=-ok, >>=-err, ◌>>◌}
use pulse_fm.Base.Text.{non_empty}
use pulse_fm.Redis.{Commands}
use pulse_fm.Redis.Playback.{is_text, is_text-true}
use pulse_fm.Playback.{
  World, Env, VoteState, calling, calling_up, calling_down, or_zero, read_vote_state, write_closed,
}
use pulse_fm.Playback.Votes.{
  missing_state, already_closed, closed, other_vote, other_version, pick_winner, get_current_state,
  close_vote, close_found, close_current_vote_if_matches, live_tallies, announce_closing,
  set_current_state, write_closing, closing_doc,
}
use pulse_fm.Playback.Votes.Keeping.{live_tallies-same}
use pulse_fm.Playback.Votes.Closing.Expected.{
  IsExpected, other_vote-same, other_version-same, IsExpected-intro,
}

-- `doc` is the vote `state` after it was closed: the winner is taken from the tallies it stores.
pub record IsClosing (env : Env) (state doc : VoteState) : Type 0 where
  pub closed_status : doc.status ≡ some "CLOSED"
  pub same_vote : doc.vote_id ≡ state.vote_id
  pub same_version : doc.version ≡ state.version
  pub won : doc.winner_option ≡ pick_winner env.choice doc.tallies

module _ {S D : Type 0} (c : Commands S) (env : Env) where
  announce_closing-vote_state :
      (vote_id : String) (doc : VoteState) (w : World S D)
      → (announce_closing c env vote_id doc w).1.vote_state ≡ w.vote_state
  unfolding announce_closing
  announce_closing-vote_state vote_id doc w = grind arith

  pub write_closing_stores :
      (vote_id : String) (doc : VoteState) (w : World S D)
      → env.up write_closed ≡ true
      → (write_closing c env vote_id doc w).1.vote_state ≡ some doc
  unfolding write_closing set_current_state
  write_closing_stores vote_id doc w up =
      ap (λ r. r.1.vote_state)
        (>>=-ok (calling env write_closed (modify write)) (λ _. announce_closing c env vote_id doc)
          (calling_up env write_closed (modify write) up refl))
      ∙ announce_closing-vote_state vote_id doc (write w)
    where
      write : World S D → World S D
      write u = record u { vote_state = some doc }

  write_closing_cases :
      (vote_id : String) (doc : VoteState) (w : World S D)
      → (((e : Exception) × ((write_closing c env vote_id doc w).0 ≡ err e))
          × ((write_closing c env vote_id doc w).1 ≡ w))
        ⊎ ((write_closing c env vote_id doc w).1.vote_state ≡ some doc)
  unfolding write_closing set_current_state
  write_closing_cases vote_id doc w = elim (Bool-cases (env.up write_closed)) [
    | inl up ↦ inr (write_closing_stores vote_id doc w up)
    | inr down ↦
        let write = modify λ (u : World S D). record u { vote_state = some doc } in
        let stopped =
          >>=-err (calling env write_closed write) (λ _. announce_closing c env vote_id doc)
            (calling_down env write_closed write down) in
        inl ((service_error, ap (λ r. r.0) stopped), ap (λ r. r.1) stopped)
  ]

  -- A vote that is closed raises before the document is written, or the document is written.
  close_vote_cases :
      (state : VoteState) (w : World S D)
      → (((e : Exception) × ((close_vote c env state w).0 ≡ err e))
          × ((close_vote c env state w).1.vote_state ≡ w.vote_state))
        ⊎ ((doc : VoteState) × ((close_vote c env state w).1.vote_state ≡ some doc)
            × IsClosing env state doc)
  unfolding close_vote closing_doc
  close_vote_cases state w = elim (Bool-cases (non_empty vote_id)) [
    | inr empty ↦
        inl ((value_error "voteId missing from voteState/current", ground arith), ground arith)
    | inl named ↦ elim (Result-cases (live_tallies c env vote_id w).0) [
      | inr (x, e) ↦ inl ((x, ground arith), ground (arith, live_tallies-same c env vote_id w))
      | inl (live, e) ↦ elim (write_closing_cases vote_id (closing_doc env state live) w) [
        | inl ((x, raised), same) ↦ inl (
          (x, ground (arith, live_tallies-same c env vote_id w)),
          ground (arith, live_tallies-same c env vote_id w),
        )
        | inr stored ↦ inr (
          closing_doc env state live,
          ground (arith, live_tallies-same c env vote_id w),
          record { closed_status = refl; same_vote = refl; same_version = refl; won = refl },
        )
      ]
    ]
  ]
    where
      vote_id : String
      vote_id = or_else state.vote_id ""

  close_found_cases :
      (expected_vote_id : Option String) (expected_version : Option ℤ) (state : VoteState)
      (w : World S D)
      → ((close_found c env expected_vote_id expected_version (some state) w).1 ≡ w)
          × ((id : Option String) (n : ℕ)
              → (close_found c env expected_vote_id expected_version (some state) w).0
                ≢ ok (closed id n))
        ⊎ IsExpected expected_vote_id expected_version state
          × (close_found c env expected_vote_id expected_version (some state) w
              ≡ (close_vote c env state >> pure (closed state.vote_id (or_zero state.version))) w)
  unfolding close_found
  close_found_cases expected_vote_id expected_version state w =
      elim (Bool-cases (other_vote expected_vote_id state.vote_id)) [
        | inl other ↦ inl (ground arith, λ id n. ground arith)
        | inr same ↦ elim (Bool-cases (other_version expected_version (or_zero state.version))) [
          | inl other ↦ inl (ground arith, λ id n. ground arith)
          | inr same_version ↦ elim (Bool-cases (is_text state.status "OPEN")) [
            | inr shut ↦ inl (ground arith, λ id n. ground arith)
            | inl opened ↦ inr (
              IsExpected-intro expected_vote_id expected_version state same same_version opened,
              ground arith,
            )
          ]
        ]
      ]

  pub expected-found :
      (vote_id : Option String) (version : Option ℤ) (state : VoteState) (w : World S D)
      → IsExpected vote_id version state
      → close_found c env vote_id version (some state) w
        ≡ (close_vote c env state >> pure (closed state.vote_id (or_zero state.version))) w
  unfolding close_found is_text
  expected-found vote_id version state w expected = ground (
    arith,
    other_vote-same vote_id state.vote_id expected.this_vote,
    other_version-same version (or_zero state.version) expected.this_version,
    expected.was_open,
  )

  close_found-none :
      (vote_id : Option String) (version : Option ℤ) (w : World S D)
      → close_found c env vote_id version none w ≡ (ok missing_state, w)
  unfolding close_found
  close_found-none vote_id version w = refl

  -- What a request to close does to the stored vote: nothing, unless the vote that it names is the
  -- current one and is open; then the vote is closed, or the request raises and leaves it.
  pub data Effect (vote_id : Option String) (version : Option ℤ) (w w' : World S D) : Type 0 where
    untouched : w' ≡ w → Effect vote_id version w w'
    raised :
        (state : VoteState)
        → w.vote_state ≡ some state
        → IsExpected vote_id version state
        → w'.vote_state ≡ w.vote_state
        → Effect vote_id version w w'
    closes :
        (state doc : VoteState)
        → w.vote_state ≡ some state
        → IsExpected vote_id version state
        → w'.vote_state ≡ some doc
        → IsClosing env state doc
        → Effect vote_id version w w'

  -- Whatever a request to close names and however it ends, it leaves everything untouched, or the
  -- vote that it names is the current one and is open, and either the stored vote stays as it was or
  -- it is CLOSED, the same vote and version, with the winner of the tallies stored beside it.
  pub close_current_vote-Effect :
      (vote_id : Option String) (version : Option ℤ) (w : World S D)
      → Effect vote_id version w (close_current_vote_if_matches c env vote_id version w).1
  unfolding close_current_vote_if_matches get_current_state
  close_current_vote-Effect vote_id version w = elim (Bool-cases (env.up read_vote_state)) [
    | inr down ↦ untouched (ground arith)
    | inl up ↦ elim (Option-cases w.vote_state) [
      | inl missing ↦ untouched (ground (arith, close_found-none vote_id version w))
      | inr (state, found) ↦ elim (close_found_cases vote_id version state w) [
        | inl (same, _) ↦ untouched (ground arith)
        | inr (expected, runs) ↦ elim (close_vote_cases state w) [
          | inl (_, same) ↦ raised state found expected (ground arith)
          | inr (doc, stored, closing) ↦ closes state doc found expected (ground arith) closing
        ]
      ]
    ]
  ]

module _ {S D : Type 0} (c : Commands S) (env later : Env) where
  closed-found :
      (vote_id : Option String) (version : Option ℤ) (state doc : VoteState) (w : World S D)
      → IsExpected vote_id version state
      → IsClosing env state doc
      → close_found c later vote_id version (some doc) w
        ≡ (ok (already_closed state.vote_id (or_zero state.version)), w)
  unfolding close_found is_text
  closed-found vote_id version state doc w expected closing = ground (
    arith,
    other_vote-same vote_id state.vote_id expected.this_vote,
    other_version-same version (or_zero state.version) expected.this_version,
  )

  -- A request to close that has closed a vote, and is delivered once more while Firestore can be read,
  -- answers that the vote is closed already and changes nothing.
  pub close_current_vote_again :
      (vote_id : Option String) (version : Option ℤ) (w w' : World S D) (id : Option String) (n : ℕ)
      → close_current_vote_if_matches c env vote_id version w ≡ (ok (closed id n), w')
      → later.up read_vote_state ≡ true
      → close_current_vote_if_matches c later vote_id version w' ≡ (ok (already_closed id n), w')
  unfolding close_current_vote_if_matches get_current_state
  close_current_vote_again vote_id version w w' id n first up =
      elim (Bool-cases (env.up read_vote_state)) [
        | inr down ↦ ground arith
        | inl read ↦ elim (Option-cases w.vote_state) [
          | inl missing ↦ ground (arith, close_found-none c env vote_id version w)
          | inr (state, found) ↦ elim (close_found_cases c env vote_id version state w) [
            | inl (_, other) ↦ absurd (other id n (ground arith))
            | inr (expected, runs) ↦ elim (close_vote_cases c env state w) [
              | inl ((x, failed), _) ↦ ground arith
              | inr (doc, stored, closing) ↦
                  ground (arith, closed-found vote_id version state doc w' expected closing)
            ]
          ]
        ]
      ]
