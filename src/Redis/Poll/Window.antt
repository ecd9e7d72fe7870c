-- ===== src/Redis/Poll/Window.antt =====
-- A whole poll in Redis (packages/pulsefm-redis): its opening and then the ballots, one after the other.
use pulse_fm.Base.{
  ℕ, ◌≡◌, ◌∙◌, ap, String, true, some, List, [], ◌∷◌, arith, eq_refl, is_some, ◌+◌, Bool-cases, inl,
  inr, if◌then◌else◌, ◌==◌,
}
use pulse_fm.Base.Dict.{contains}
use pulse_fm.Snapshot.{Snapshot}
use pulse_fm.Redis.{counter, Commands, IsLawful, hget}
use pulse_fm.Redis.Keys.{poll_tally_key}
use pulse_fm.Redis.Poll.{init_poll_open_atomic, record_vote_atomic, has_voted_session}
use pulse_fm.Redis.Poll.Opening.{init_poll_open_atomic_opens}
use pulse_fm.Redis.Poll.Voting.{
  Ballot, Seen, first_votes, record_votes, votes, record_vote_first, record_vote_again,
  record_votes-first_votes,
}

module _ {S : Type 0} {c : Commands S} (laws : IsLawful c) where
  -- Every field of the tallies counts.
  abbrev Counted : S → String → Type 0
  Counted s vote_id = (o : String) → (n : ℕ) × (votes c s vote_id o ≡ some n)

  -- What a ballot leaves of the tallies of its poll.
  record_vote_keeps :
      (vote_id session_id chosen : String) (s : S)
      → Counted s vote_id
      → let s' = (record_vote_atomic c vote_id session_id chosen s).1 in
        Counted s' vote_id
        × ((o : String)
            → is_some (hget c s (poll_tally_key vote_id) o) ≡ true
            → is_some (hget c s' (poll_tally_key vote_id) o) ≡ true)
  record_vote_keeps vote_id session_id chosen s count =
      elim (Bool-cases (has_voted_session c vote_id session_id s)) [
        | inl old ↦
            let again = record_vote_again laws vote_id session_id chosen s old vote_id in
            (
              (λ o. ((count o).0, ap counter (again o session_id "").1 ∙ (count o).1)),
              λ o there. ground (arith, again o session_id ""),
            )
        | inr new ↦
            let (m, is_m) = count chosen in
            let first = record_vote_first laws vote_id session_id chosen s m new is_m vote_id in
            (
              (λ o. (
                if chosen == o then m + 1 else (count o).0,
                ground (arith, first o session_id "", (count o).1, eq_refl vote_id),
              )),
              λ o there. ground (arith, first o session_id "", eq_refl vote_id),
            )
      ]

  record_votes_keeps :
      (vote_id : String) (ballots : List Ballot) (s : S)
      → Counted s vote_id
      → (o : String) → is_some (hget c s (poll_tally_key vote_id) o) ≡ true
      → is_some (hget c (record_votes c vote_id ballots s) (poll_tally_key vote_id) o) ≡ true
  unfolding record_votes
  record_votes_keeps vote_id [] s count o there = there
  record_votes_keeps vote_id ((x, chosen) ∷ ballots) s count o there =
      let (counted, kept) = record_vote_keeps vote_id x chosen s count in
      record_votes_keeps vote_id ballots _ counted o (kept o there)

  module _ (vote_id : String) (snapshot : Snapshot) (ttl state_ttl : ℕ) (options : List String)
      (s : S) where
    abbrev opened_poll : S
    opened_poll = init_poll_open_atomic c vote_id snapshot ttl state_ttl options s

    opened_zero : (o : String) → votes c opened_poll vote_id o ≡ some 0
    opened_zero o = ground (
      arith,
      init_poll_open_atomic_opens laws vote_id snapshot ttl state_ttl options s vote_id o "",
      eq_refl vote_id,
    )

    opened_counts : Counted opened_poll vote_id
    opened_counts o = (0, opened_zero o)

    -- After an opening and any ballots, the counter of an option is the number of sessions whose first ballot
    -- names it.
    pub window_counts :
        (ballots : List Ballot) (o : String)
        → votes c (record_votes c vote_id ballots opened_poll) vote_id o
          ≡ some (first_votes [] ballots o)
    unfolding contains
    window_counts ballots o =
        let unseen : Seen laws opened_poll vote_id [] = λ x. ground (
          arith,
          init_poll_open_atomic_opens laws vote_id snapshot ttl state_ttl options s vote_id o x,
          eq_refl vote_id,
        ) in
        ground (
          arith,
          record_votes-first_votes laws vote_id ballots opened_poll [] unseen opened_counts o 0
              (opened_zero o),
        )

    -- The options of the poll stay in the tallies.
    pub window_listed :
        (ballots : List Ballot) (o : String)
        → contains options o ≡ true
        → is_some (hget c (record_votes c vote_id ballots opened_poll) (poll_tally_key vote_id) o)
          ≡ true
    window_listed ballots o listed =
        record_votes_keeps vote_id ballots opened_poll opened_counts o (
          ground (
            arith,
            init_poll_open_atomic_opens laws vote_id snapshot ttl state_ttl options s vote_id o "",
            eq_refl vote_id,
          ))
