-- ===== src/Redis/Poll.antt =====
-- packages/pulsefm-redis/pulsefm_redis/client.py: the tally hash and the set of voted sessions of a
-- poll, with the two Lua scripts. A script runs atomically, so it is one step.
pub mod Opening
pub mod Voting
pub mod Window
use pulse_fm.Base.{ℕ, max, String, Bool, Option, none, some, List, [], ◌∷◌, map, eqb, if◌then◌else◌}
use pulse_fm.Base.Dict.{Dict}
use pulse_fm.Snapshot.{Snapshot}
use pulse_fm.Redis.{json, HashValue, number, word, Commands}
use pulse_fm.Redis.Keys.{playback_current_key, poll_tally_key, poll_voted_key}

-- `int(value)`, and 0 where it raises.
unfoldable pub count_of : HashValue → ℕ
count_of (number n) = n
count_of (word _) = 0

module _ {S : Type 0} (c : Commands S) where
  -- HSET of a mapping, one field after the other; later fields win.
  hset_all : String → List (String × HashValue) → S → S
  hset_all k [] s = s
  hset_all k ((f, v) ∷ rest) s = hset_all k rest (c.hset s k f v)

  -- Every option with the count 0, as the mapping of HSET and as the script's arguments.
  zeros : List String → List (String × HashValue)
  zeros = map λ option. (option, number 0)

  unfoldable pub init_poll_tally : String → List String → ℕ → S → S
  unfolding hset_all zeros
  init_poll_tally vote_id options ttl_seconds s =
      let key = poll_tally_key vote_id in
      c.expire (hset_all key (zeros options) s) key (max 1 ttl_seconds)

  unfoldable pub init_poll_voted_set : String → ℕ → S → S
  init_poll_voted_set vote_id ttl_seconds s =
      let key = poll_voted_key vote_id in
      let added = (c.sadd s key "__init__").1 in
      c.expire (c.srem added key "__init__") key (max 1 ttl_seconds)

  -- POLL_OPEN_LUA
  poll_open_lua : String → String → String → Snapshot → ℕ → ℕ → List (String × HashValue) → S → S
  unfolding hset_all
  poll_open_lua playback_key tally_key voted_key playback playback_ttl state_ttl fields s =
      let s1 = c.set s playback_key (json playback) (some playback_ttl) in
      let s2 = hset_all tally_key fields (c.del s1 tally_key) in
      let s3 = c.del (c.expire s2 tally_key state_ttl) voted_key in
      let s4 = c.srem (c.sadd s3 voted_key "__init__").1 voted_key "__init__" in
      c.expire s4 voted_key state_ttl

  unfoldable pub init_poll_open_atomic : String → Snapshot → ℕ → ℕ → List String → S → S
  unfolding poll_open_lua zeros
  init_poll_open_atomic vote_id playback_snapshot playback_ttl_seconds state_ttl_seconds options =
      poll_open_lua playback_current_key (poll_tally_key vote_id) (poll_voted_key vote_id)
        playback_snapshot (max 1 playback_ttl_seconds) (max 1 state_ttl_seconds) (zeros options)

  unfoldable pub add_voted_session : String → String → Option ℕ → S → Bool × S
  add_voted_session vote_id session_id ttl_seconds s =
      let key = poll_voted_key vote_id in
      let (reply, s') = c.sadd s key session_id in
      (eqb reply 1, elim ttl_seconds [ none ↦ s' | some n ↦ c.expire s' key (max 1 n) ])

  unfoldable pub has_voted_session : String → String → S → Bool
  has_voted_session vote_id session_id s = c.sismember s (poll_voted_key vote_id) session_id

  unfoldable pub get_poll_tallies : String → S → Dict ℕ
  unfolding count_of
  get_poll_tallies vote_id s =
      map (λ (entry : String × HashValue). (entry.0, count_of entry.1))
        (c.hgetall s (poll_tally_key vote_id))

  -- VOTE_LUA
  vote_lua : String → String → String → String → S → ℕ × S
  vote_lua voted_key tally_key session_id option s =
      let (added, s') = c.sadd s voted_key session_id in
      if eqb added 1 then (1, c.hincrby s' tally_key option 1) else (0, s')

  unfoldable pub record_vote_atomic : String → String → String → S → Bool × S
  unfolding vote_lua
  record_vote_atomic vote_id session_id option s =
      let (result, s') =
        vote_lua (poll_voted_key vote_id) (poll_tally_key vote_id) session_id option s in
      (eqb result 1, s')
