-- ===== src/Voting/Tally/Counting.antt =====
-- How tally-function answers a well-formed ballot (functions/tally-function/main.py).
use pulse_fm.Base.{
  ℕ, ◌+◌, ◌≡◌, String, true, false, ◌&&◌, some, arith, ◌==◌, eq_refl, if◌then◌else◌,
}
use pulse_fm.Base.Text.{non_empty}
use pulse_fm.Base.Value.{str, obj, Fields, ok}
use pulse_fm.Redis.{number, Commands, IsLawful, hget}
use pulse_fm.Redis.Keys.{poll_tally_key}
use pulse_fm.Redis.Playback.{get_playback_current_snapshot}
use pulse_fm.Redis.Poll.{has_voted_session}
use pulse_fm.Redis.Poll.Voting.{record_vote_first, record_vote_again}
use pulse_fm.Voting.{Backend, member}
use pulse_fm.Voting.Tally.{
  Request, Env, success, current_vote_id, tally_function, tally_redis, tally_fields, reply,
}

abbrev pub post : Fields → Request
post fields = record { method = "POST"; body = obj fields }

module _ (env : Env) where
  -- A well-formed vote: three texts that are not empty, while Redis answers and its client writes
  -- texts as they are.
  pub record IsBallot (fields : Fields) (v x o : String) : Type 0 where
    pub vote_id : member "voteId" fields ≡ str v
    pub session_id : member "sessionId" fields ≡ str x
    pub option : member "option" fields ≡ str o
    pub vote_named : non_empty v ≡ true
    pub session_named : non_empty x ≡ true
    pub option_named : non_empty o ≡ true
    pub redis_up : env.redis_up ≡ true
    pub session_text : env.encode (str x) ≡ some x
    pub option_text : env.encode (str o) ≡ some o

module _ {S : Type 0} {c : Commands S} (laws : IsLawful c) (env : Env) where
  -- The first ballot of a session for an option of the current poll is counted, whether or not the
  -- tally event can be published: the option gains one vote, no other counter of any poll changes,
  -- the session counts as voted in that poll alone, and no text changes.
  pub tally_function_counts :
      (fields : Fields) (v x o : String) (w : Backend S) (n : ℕ)
      → IsBallot env fields v x o
      → current_vote_id (get_playback_current_snapshot c w.redis) ≡ ok (some v)
      → hget c w.redis (poll_tally_key v) o ≡ some (number n)
      → has_voted_session c v x w.redis ≡ false
      → (u p y k : String)
      → let (r, w') = tally_function c env (post fields) w in
        (r ≡ ok (success "ok" 200))
        × (hget c w'.redis (poll_tally_key u) p ≡ (
            if (v == u) && (o == p)
            then some (number (n + 1))
            else hget c w.redis (poll_tally_key u) p))
        × (has_voted_session c u y w'.redis
            ≡ (if (v == u) && (x == y) then true else has_voted_session c u y w.redis))
        × (c.get w'.redis k ≡ c.get w.redis k)
  unfolding tally_function tally_fields tally_redis reply
  tally_function_counts fields v x o w n b current known fresh u p y k = ground (
    arith,
    record_vote_first laws v x o w.redis n fresh (rw known) u p y k,
    eq_refl v,
    eq_refl "POST",
  )

  -- A ballot of a session that has voted is answered as a duplicate, and nothing changes.
  pub tally_function_duplicate :
      (fields : Fields) (v x o : String) (w : Backend S) (n : ℕ)
      → IsBallot env fields v x o
      → current_vote_id (get_playback_current_snapshot c w.redis) ≡ ok (some v)
      → hget c w.redis (poll_tally_key v) o ≡ some (number n)
      → has_voted_session c v x w.redis ≡ true
      → (u p y k : String)
      → let (r, w') = tally_function c env (post fields) w in
        (r ≡ ok (success "duplicate" 200))
        × (hget c w'.redis (poll_tally_key u) p ≡ hget c w.redis (poll_tally_key u) p)
        × (has_voted_session c u y w'.redis ≡ has_voted_session c u y w.redis)
        × (c.get w'.redis k ≡ c.get w.redis k)
        × (w'.outbox ≡ w.outbox)
  unfolding tally_function tally_fields tally_redis reply
  tally_function_duplicate fields v x o w n b current known again u p y k =
      ground (arith, record_vote_again laws v x o w.redis again u p y k, eq_refl v, eq_refl "POST")
