-- ===== src/Stream/Events/Tallying.antt =====
-- A vote on its way to the listeners: functions/tally-function counts it in Redis and announces it, and
-- services/playback-stream/pulsefm_playback_stream/main.py reads the tallies again.
use pulse_fm.Base.{
  ℕ, ◌+◌, ◌≡◌, refl, ap, subst, sym, Bool-cases, ◌∙◌, String, true, false, Option, none, some, [],
  ◌∷◌, map, arith, eq_refl, inl, inr,
}
use pulse_fm.Base.Dict.{Dict, lookup, lookup-insert}
use pulse_fm.Base.Value.{Fields, str, member, Result, ok, truthy}
use pulse_fm.Outbox.PubSub.{Codec, decode_pubsub_json}
use pulse_fm.Snapshot.{Snapshot}
use pulse_fm.Redis.{Commands, IsLawful, HashValue, number, hget}
use pulse_fm.Redis.Keys.{poll_tally_key, playback_current_key}
use pulse_fm.Redis.Playback.{get_playback_current_snapshot}
use pulse_fm.Redis.Poll.{count_of, get_poll_tallies, has_voted_session, record_vote_atomic}
use pulse_fm.Redis.Poll.Voting.{votes, record_vote_first}
use pulse_fm.Stream.Cache.{CachedValue}
use pulse_fm.Stream.State.{given, is_tally_dirty, mark_tally_dirty, is_str, dirty_cache}
use pulse_fm.Stream.Fetch.{get_tallies_cached}
use pulse_fm.Stream.Fetch.Tallies.{IsDirty, get_tallies_cached-reads}
use pulse_fm.Stream.Events.{
  Answer, handled, ignored, tally_event, dirty_value, mark_if_current, read_and_mark, same_text,
  current_vote_id,
}
use pulse_fm.Stream.{World, StreamState, Calls}

lookup-counts :
    (d : Dict HashValue) (o : String) (n : ℕ)
    → lookup o d ≡ some (number n)
    → lookup o (map (λ (entry : String × HashValue). (entry.0, count_of entry.1)) d) ≡ some n
unfolding lookup count_of
lookup-counts [] o n e = ground arith
lookup-counts ((k, h) ∷ d) o n e = ground (arith, lookup-counts d o n)

lookup-get_poll_tallies :
    {S : Type 0} (c : Commands S) (v o : String) (s : S) (n : ℕ)
    → hget c s (poll_tally_key v) o ≡ some (number n)
    → lookup o (get_poll_tallies c v s) ≡ some n
unfolding get_poll_tallies
lookup-get_poll_tallies c v o s n e = lookup-counts (c.hgetall s (poll_tally_key v)) o n e

is_tally_dirty-IsDirty :
    (v : String) (s : StreamState) (o : Option (CachedValue (Dict ℕ)))
    → lookup v s.tally_caches ≡ o
    → given (some v) ≡ true
    → is_tally_dirty (some v) s ≡ true
    → IsDirty o
unfolding is_tally_dirty
is_tally_dirty-IsDirty v s none e named dirty = tt
is_tally_dirty-IsDirty v s (some cache) e named dirty = ground arith

dirty_cache-IsDirty : (o : Option (CachedValue (Dict ℕ))) → IsDirty (some (dirty_cache o))
unfolding dirty_cache
dirty_cache-IsDirty none = refl
dirty_cache-IsDirty (some c) = refl

mark_tally_dirty-IsDirty :
    (v : String) (s : StreamState)
    → given (some v) ≡ true
    → IsDirty (lookup v (mark_tally_dirty (some v) s).tally_caches)
unfolding mark_tally_dirty
mark_tally_dirty-IsDirty v s named =
    let cache = dirty_cache (lookup v s.tally_caches) in
    let marked : lookup v (mark_tally_dirty (some v) s).tally_caches ≡ some cache =
      ground (arith, lookup-insert v v cache s.tally_caches, eq_refl v) in
    subst IsDirty (sym marked) (dirty_cache-IsDirty (lookup v s.tally_caches))

module _ {S : Type 0} (c : Commands S) (calls : Calls) (codec : Codec) where
  -- The tally event of the current vote leaves that vote's tallies dirty, and Redis as it was.
  tally_event-IsDirty :
      (payload message : Fields) (v : String) (snapshot : Snapshot) (w : World S)
      → decode_pubsub_json codec payload ≡ ok message
      → member "voteId" message ≡ str v
      → given (some v) ≡ true
      → calls.client_up ≡ true
      → calls.snapshot_up ≡ true
      → get_playback_current_snapshot c w.redis ≡ some snapshot
      → current_vote_id snapshot ≡ ok (some v)
      → let w' = (tally_event c calls codec payload w).1 in
        IsDirty (lookup v w'.state.tally_caches) × (w'.redis ≡ w.redis)
  unfolding tally_event dirty_value read_and_mark mark_if_current same_text is_str truthy
  tally_event-IsDirty payload message v snapshot w decoded named is_given client reads found
        current =
      elim (Bool-cases (is_tally_dirty (some v) w.state)) [
        | inl dirty ↦
            let same : tally_event c calls codec payload w ≡ (ok ignored, w) = ground arith in
            (
              subst (λ (r : Result Answer × World S). IsDirty (lookup v r.1.state.tally_caches))
                  (sym same)
                  (is_tally_dirty-IsDirty v w.state (lookup v w.state.tally_caches) refl is_given
                    dirty),
              ap (λ (r : Result Answer × World S). r.1.redis) same,
            )
        | inr clean ↦
            let marks : tally_event c calls codec payload w
                ≡ (ok handled, record w { state = mark_tally_dirty (some v) w.state }) =
              ground (arith, eq_refl v) in
            (
              subst (λ (r : Result Answer × World S). IsDirty (lookup v r.1.state.tally_caches))
                  (sym marks) (mark_tally_dirty-IsDirty v w.state is_given),
              ap (λ (r : Result Answer × World S). r.1.redis) marks,
            )
      ]

module _ {S : Type 0} {c : Commands S} (laws : IsLawful c) (calls : Calls) (codec : Codec) where
  -- When the first vote of a session in the current poll has been counted in Redis and its tally event has been
  -- handled, the next tallies that a listener of that poll is sent count the vote.
  pub vote_reaches_listeners :
      (payload message : Fields) (v x o : String) (snapshot : Snapshot) (n : ℕ) (w : World S)
      → has_voted_session c v x w.redis ≡ false
      → votes c w.redis v o ≡ some n
      → get_playback_current_snapshot c w.redis ≡ some snapshot
      → current_vote_id snapshot ≡ ok (some v)
      → decode_pubsub_json codec payload ≡ ok message
      → member "voteId" message ≡ str v
      → given (some v) ≡ true
      → calls.client_up ≡ true
      → calls.snapshot_up ≡ true
      → calls.tallies_up ≡ true
      → let counted = record w { redis = (record_vote_atomic c v x o w.redis).1 } in
        let announced = (tally_event c calls codec payload counted).1 in
        (tallies : Dict ℕ) × ((get_tallies_cached c true calls (some v) announced).0 ≡ ok tallies)
        × (lookup o tallies ≡ some (n + 1))
  unfolding get_playback_current_snapshot
  vote_reaches_listeners payload message v x o snapshot n w fresh counter found current decoded
        named is_given client reads tallies_up =
      let s = (record_vote_atomic c v x o w.redis).1 in
      let counts =
        record_vote_first laws v x o w.redis n fresh counter v o x playback_current_key in
      let still : get_playback_current_snapshot c s ≡ some snapshot = ground (arith, counts) in
      let (dirty, same) =
        tally_event-IsDirty c calls codec payload message v snapshot (record w { redis = s })
          decoded named is_given client reads still current in
      let announced = (tally_event c calls codec payload (record w { redis = s })).1 in
      let gained : hget c s (poll_tally_key v) o ≡ some (number (n + 1)) =
        ground (arith, counts, eq_refl v, eq_refl o) in
      (
        get_poll_tallies c v announced.redis,
        ap (λ r. r.0) (get_tallies_cached-reads c calls v announced is_given tallies_up dirty),
        ap (λ z. lookup o (get_poll_tallies c v z)) same
            ∙ lookup-get_poll_tallies c v o s (n + 1) gained,
      )
