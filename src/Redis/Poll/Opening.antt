-- ===== src/Redis/Poll/Opening.antt =====
-- POLL_OPEN_LUA (packages/pulsefm-redis): what a poll is after its opening.
use pulse_fm.Base.{
  ℕ, max, ◌≡◌, refl, ◌∙◌, sym, ◌≢◌, String, false, ◌&&◌, none, some, List, [], ◌∷◌, arith, ◌==◌,
  eq_iff, eq_refl, if◌then◌else◌,
}
use pulse_fm.Base.Dict.{contains, lookup}
use pulse_fm.Snapshot.{Snapshot}
use pulse_fm.Redis.{json, number, Commands, IsLawful, hget}
use pulse_fm.Redis.Keys.{
  playback_current_key, poll_tally_key, poll_voted_key, poll_tally_key-injective,
  poll_voted_key-injective, tally-ne-voted, current-ne-tally, current-ne-voted,
}
use pulse_fm.Redis.Playback.{get_playback_current_snapshot}
use pulse_fm.Redis.Poll.{hset_all, zeros, poll_open_lua, init_poll_open_atomic, has_voted_session}

module _ {S : Type 0} {c : Commands S} (laws : IsLawful c) where
  hget-hset_all :
      (k : String) (options : List String) (s : S) (j o : String)
      → hget c (hset_all c k (zeros c options) s) j o
        ≡ (if (k == j) && contains options o then some (number 0) else hget c s j o)
  unfolding hset_all zeros contains
  hget-hset_all k [] s j o = ground arith
  hget-hset_all k (option ∷ options) s j o = ground (
    arith,
    hget-hset_all k options (c.hset s k option (number 0)) j o,
    laws.hget-hset s k option (number 0) j o,
  )

  get-hset_all :
      (k : String) (options : List String) (s : S) (j : String)
      → c.get (hset_all c k (zeros c options) s) j ≡ c.get s j
  unfolding hset_all zeros
  get-hset_all k [] s j = refl
  get-hset_all k (option ∷ options) s j =
      get-hset_all k options _ j ∙ laws.get-hset s k option (number 0) j

  sismember-hset_all :
      (k : String) (options : List String) (s : S) (j m : String)
      → c.sismember (hset_all c k (zeros c options) s) j m ≡ c.sismember s j m
  unfolding hset_all zeros
  sismember-hset_all k [] s j m = refl
  sismember-hset_all k (option ∷ options) s j m =
      sismember-hset_all k options _ j m ∙ laws.sismember-hset s k option (number 0) j m

  -- The script over any three different keys, as it is read afterwards.
  module _ (playback_key tally_key voted_key : String) (snapshot : Snapshot) (ttl state_ttl : ℕ)
      (options : List String) (s : S) where
    opened : S
    unfolding poll_open_lua
    opened =
        poll_open_lua c playback_key tally_key voted_key snapshot ttl state_ttl (zeros c options) s

    -- The states between the commands.
    abbrev with_snapshot : S
    with_snapshot = c.set s playback_key (json snapshot) (some ttl)

    abbrev with_tallies : S
    with_tallies = hset_all c tally_key (zeros c options) (c.del with_snapshot tally_key)

    abbrev without_voters : S
    without_voters = c.del (c.expire with_tallies tally_key state_ttl) voted_key

    abbrev with_voted_set : S
    with_voted_set = c.srem (c.sadd without_voters voted_key "__init__").1 voted_key "__init__"

    get-opened :
        (j : String)
        → tally_key ≢ j
        → voted_key ≢ j
        → c.get opened j ≡ (if playback_key == j then some (json snapshot) else c.get s j)
    unfolding opened
    get-opened j h k = ground (
      arith,
      laws.get-set s playback_key j (json snapshot) (some ttl),
      laws.get-del with_snapshot tally_key j,
      get-hset_all tally_key options (c.del with_snapshot tally_key) j,
      laws.get-expire with_tallies tally_key state_ttl j,
      laws.get-del (c.expire with_tallies tally_key state_ttl) voted_key j,
      laws.get-sadd without_voters voted_key "__init__" j,
      laws.get-srem (c.sadd without_voters voted_key "__init__").1 voted_key "__init__" j,
      laws.get-expire with_voted_set voted_key state_ttl j,
      eq_iff tally_key j,
      eq_iff voted_key j,
    )

    hget-opened :
        (j o : String)
        → playback_key ≢ j
        → voted_key ≢ j
        → hget c opened j o ≡ (
            if tally_key == j
            then (if contains options o then some (number 0) else none)
            else hget c s j o)
    unfolding opened lookup
    hget-opened j o h k = ground (
      arith,
      laws.hgetall-set s playback_key j (json snapshot) (some ttl) h,
      laws.hgetall-del with_snapshot tally_key j,
      hget-hset_all tally_key options (c.del with_snapshot tally_key) j o,
      laws.hgetall-expire with_tallies tally_key state_ttl j,
      laws.hgetall-del (c.expire with_tallies tally_key state_ttl) voted_key j,
      laws.hgetall-sadd without_voters voted_key "__init__" j,
      laws.hgetall-srem (c.sadd without_voters voted_key "__init__").1 voted_key "__init__" j,
      laws.hgetall-expire with_voted_set voted_key state_ttl j,
      eq_iff voted_key j,
    )

    sismember-opened :
        (j x : String)
        → playback_key ≢ j
        → tally_key ≢ j
        → c.sismember opened j x ≡ (if voted_key == j then false else c.sismember s j x)
    unfolding opened
    sismember-opened j x h k = ground (
      arith,
      laws.sismember-set s playback_key j (json snapshot) (some ttl) x h,
      laws.sismember-del with_snapshot tally_key j x,
      sismember-hset_all tally_key options (c.del with_snapshot tally_key) j x,
      laws.sismember-expire with_tallies tally_key state_ttl j x,
      laws.sismember-del (c.expire with_tallies tally_key state_ttl) voted_key j x,
      laws.sismember-sadd without_voters voted_key "__init__" j x,
      laws.sismember-srem (c.sadd without_voters voted_key "__init__").1 voted_key "__init__" j x,
      laws.sismember-expire with_voted_set voted_key state_ttl j x,
      eq_iff tally_key j,
    )

  -- An opened poll: its snapshot is the current one, every option has the count 0 and no other
  -- field is left, nobody has voted in it, and no other poll has changed.
  pub init_poll_open_atomic_opens :
      (vote_id : String) (snapshot : Snapshot) (ttl state_ttl : ℕ) (options : List String) (s : S)
      → (v o x : String)
      → let s' = init_poll_open_atomic c vote_id snapshot ttl state_ttl options s in
        (get_playback_current_snapshot c s' ≡ some snapshot)
        × (hget c s' (poll_tally_key v) o ≡ (
            if vote_id == v
            then (if contains options o then some (number 0) else none)
            else hget c s (poll_tally_key v) o))
        × (has_voted_session c v x s' ≡ (if vote_id == v then false else has_voted_session c v x s))
  unfolding init_poll_open_atomic opened has_voted_session get_playback_current_snapshot
  init_poll_open_atomic_opens vote_id snapshot ttl state_ttl options s v o x =
      let tally = poll_tally_key vote_id in
      let voted = poll_voted_key vote_id in
      let current = playback_current_key in
      ground (
        arith,
        get-opened current tally voted snapshot (max 1 ttl) (max 1 state_ttl) options s current
            (λ e. current-ne-tally vote_id (sym e)) (λ e. current-ne-voted vote_id (sym e)),
        hget-opened current tally voted snapshot (max 1 ttl) (max 1 state_ttl) options s
            (poll_tally_key v) o (current-ne-tally v) (λ e. tally-ne-voted v vote_id (sym e)),
        sismember-opened current tally voted snapshot (max 1 ttl) (max 1 state_ttl) options s
            (poll_voted_key v) x (current-ne-voted v) (tally-ne-voted vote_id v),
        eq_refl current,
        eq_iff tally (poll_tally_key v),
        eq_iff voted (poll_voted_key v),
        eq_iff vote_id v,
        poll_tally_key-injective vote_id v,
        poll_voted_key-injective vote_id v,
      )
