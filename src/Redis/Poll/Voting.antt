-- ===== src/Redis/Poll/Voting.antt =====
-- VOTE_LUA (packages/pulsefm-redis, functions/tally-function) against an independent count of first
-- votes.
use pulse_fm.Base.{
  ℕ, ◌+◌, ◌≡◌, ◌∙◌, ap, String, true, false, ◌&&◌, Option, some, List, [], ◌∷◌, arith, ◌==◌, eq_iff,
  eq_refl, if◌then◌else◌, Bool-cases, inl, inr,
}
use pulse_fm.Base.Dict.{contains}
use pulse_fm.Redis.{number, counter, Commands, IsLawful, hget}
use pulse_fm.Redis.Keys.{
  poll_tally_key, poll_voted_key, poll_tally_key-injective, poll_voted_key-injective,
}
use pulse_fm.Redis.Poll.{record_vote_atomic, has_voted_session}

-- A request to vote: the session and the option.
abbrev pub Ballot : Type 0
Ballot = String × String

-- How many of the ballots are for `option` and the first of their session, if the sessions `seen`
-- have voted already.
unfoldable pub first_votes : List String → List Ballot → String → ℕ
unfolding contains
first_votes seen [] option = 0
first_votes seen ((session_id, chosen) ∷ ballots) option =
    let repeated = first_votes seen ballots option in
    let fresh = first_votes (session_id ∷ seen) ballots option in
    if contains seen session_id then repeated else if chosen == option then fresh + 1 else fresh

module _ {S : Type 0} (c : Commands S) where
  -- The ballots of one poll, in the order in which Redis runs the script for them.
  unfoldable pub record_votes : String → List Ballot → S → S
  record_votes vote_id [] s = s
  record_votes vote_id ((session_id, option) ∷ ballots) s =
      record_votes vote_id ballots (record_vote_atomic c vote_id session_id option s).1

  -- The counter of an option; `none` where its field holds no number.
  abbrev pub votes : S → String → String → Option ℕ
  votes s vote_id option = counter (hget c s (poll_tally_key vote_id) option)

module _ {S : Type 0} {c : Commands S} (laws : IsLawful c) where
  hget-sadd : (s : S) (k m j f : String) → hget c (c.sadd s k m).1 j f ≡ hget c s j f
  hget-sadd s k m j f = rw (laws.hgetall-sadd s k m j)

  -- The first vote of a session is taken: its option gains one vote, no other counter of any poll
  -- changes, the session counts as voted in this poll alone, and no text changes.
  pub record_vote_first :
      (vote_id session_id option : String) (s : S) (n : ℕ)
      → has_voted_session c vote_id session_id s ≡ false
      → votes c s vote_id option ≡ some n
      → (v o x k : String)
      → let (added, s') = record_vote_atomic c vote_id session_id option s in
        (added ≡ true)
        × (hget c s' (poll_tally_key v) o ≡ (
            if (vote_id == v) && (option == o)
            then some (number (n + 1))
            else hget c s (poll_tally_key v) o))
        × (has_voted_session c v x s'
            ≡ (if (vote_id == v) && (session_id == x) then true else has_voted_session c v x s))
        × (c.get s' k ≡ c.get s k)
  unfolding record_vote_atomic has_voted_session
  record_vote_first vote_id session_id option s n fresh e v o x k =
      let voted = poll_voted_key vote_id in
      let tally = poll_tally_key vote_id in
      let s1 = (c.sadd s voted session_id).1 in
      ground (
        arith,
        laws.sadd-reply s voted session_id,
        hget-sadd s voted session_id tally option,
        hget-sadd s voted session_id (poll_tally_key v) o,
        laws.hget-hincrby s1 tally option 1 (poll_tally_key v) o n,
        laws.sismember-hincrby s1 tally option 1 (poll_voted_key v) x,
        laws.sismember-sadd s voted session_id (poll_voted_key v) x,
        laws.get-hincrby s1 tally option 1 k,
        laws.get-sadd s voted session_id k,
        eq_iff tally (poll_tally_key v),
        eq_iff voted (poll_voted_key v),
        eq_iff vote_id v,
        poll_tally_key-injective vote_id v,
        poll_voted_key-injective vote_id v,
      )

  -- A later vote of the same session is refused: no counter, no session's standing and no text
  -- changes.
  pub record_vote_again :
      (vote_id session_id option : String) (s : S)
      → has_voted_session c vote_id session_id s ≡ true
      → (v o x k : String)
      → let (added, s') = record_vote_atomic c vote_id session_id option s in
        (added ≡ false)
        × (hget c s' (poll_tally_key v) o ≡ hget c s (poll_tally_key v) o)
        × (has_voted_session c v x s' ≡ has_voted_session c v x s)
        × (c.get s' k ≡ c.get s k)
  unfolding record_vote_atomic has_voted_session
  record_vote_again vote_id session_id option s again v o x k =
      let voted = poll_voted_key vote_id in
      ground (
        arith,
        laws.sadd-reply s voted session_id,
        hget-sadd s voted session_id (poll_tally_key v) o,
        laws.sismember-sadd s voted session_id (poll_voted_key v) x,
        laws.get-sadd s voted session_id k,
        eq_iff voted (poll_voted_key v),
        eq_iff session_id x,
      )

  -- `seen` lists the sessions that count as voted in the poll.
  abbrev pub Seen : S → String → List String → Type 0
  Seen s vote_id seen = (x : String) → has_voted_session c vote_id x s ≡ contains seen x

  -- However often sessions vote and in whatever order, the counter of every option grows by the
  -- number of sessions that had not voted and whose first ballot names it.
  pub record_votes-first_votes :
      (vote_id : String) (ballots : List Ballot) (s : S) (seen : List String)
      → Seen s vote_id seen
      → ((o : String) → (n : ℕ) × (votes c s vote_id o ≡ some n))
      → (option : String) (n : ℕ) → votes c s vote_id option ≡ some n
      → votes c (record_votes c vote_id ballots s) vote_id option
        ≡ some (n + first_votes seen ballots option)
  unfolding record_votes first_votes contains
  record_votes-first_votes vote_id [] s seen h count option n e = ground arith
  record_votes-first_votes vote_id ((x, chosen) ∷ ballots) s seen h count option n e =
      elim (Bool-cases (contains seen x)) [
        | inl old ↦
            let again = record_vote_again vote_id x chosen s (h x ∙ old) in
            rw old (
              record_votes-first_votes vote_id ballots _ seen
                (λ y. (again vote_id option y "").2 ∙ h y)
                (λ o. ((count o).0, ap counter (again vote_id o x "").1 ∙ (count o).1)) option n
                (ap counter (again vote_id option x "").1 ∙ e))
        | inr new ↦
            let m = (count chosen).0 in
            let first =
              record_vote_first vote_id x chosen s m (h x ∙ new) (count chosen).1 vote_id in
            let rest =
              record_votes-first_votes vote_id ballots (record_vote_atomic c vote_id x chosen s).1
                (x ∷ seen) (λ y. ground (arith, first option y "", h y, eq_refl vote_id))
                (λ o. (
                  if chosen == o then m + 1 else (count o).0,
                  ground (arith, first o x "", (count o).1, eq_refl vote_id),
                ))
                option (if chosen == option then n + 1 else n)
                (ground (
                  arith,
                  first option x "",
                  (count chosen).1,
                  eq_refl vote_id,
                  eq_iff chosen option,
                )) in
            rw new (ground (arith, rest))
      ]
