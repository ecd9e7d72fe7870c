-- ===== src/Stream/Fetch/Sharing.antt =====
-- The caches of the tallies are shared by all connections of
-- services/playback-stream/pulsefm_playback_stream/main.py, with or without a Redis client.
use pulse_fm.Base.{ℕ, ◌+◌, ◌<◌, ◌≡◌, refl, ◌∙◌, ap, String, true, false, some, [], arith, eq_refl}
use pulse_fm.Base.Dict.{Dict, lookup, insert, lookup-insert}
use pulse_fm.Base.Value.{Result, ok}
use pulse_fm.Redis.{Commands}
use pulse_fm.Stream.Cache.{is_fresh, set, empty_cache}
use pulse_fm.Stream.State.{given}
use pulse_fm.Stream.Fetch.{
  check_fresh, fresh_tallies, get_tallies, fetch_tallies, get_tallies_cached,
}
use pulse_fm.Stream.Fetch.Tallies.{IsDirty, fresh_tallies-dirty}
use pulse_fm.Stream.{World, Calls, now, next, tally_cache_staleness_ms}

module _ {S : Type 0} (c : Commands S) (calls : Calls) (v : String) (w : World S) where
  -- The world once a connection without a client has read the tallies of `v`.
  emptied : World S
  emptied = record w {
    state = record (w.state) {
      tally_caches =
          insert v (set (now w.utc) [] (empty_cache tally_cache_staleness_ms)) w.state.tally_caches;
    };
    utc = next w.utc;
  }

  reads_nothing :
      given (some v) ≡ true
      → IsDirty (lookup v w.state.tally_caches)
      → get_tallies_cached c false calls (some v) w ≡ (ok [], emptied)
  unfolding emptied get_tallies_cached fetch_tallies get_tallies
  reads_nothing named dirty =
      ground (arith, fresh_tallies-dirty c v w (lookup v w.state.tally_caches) refl dirty)

  answers_nothing :
      (calls' : Calls)
      → given (some v) ≡ true
      → 0 < now w.utc
      → now (next w.utc) < now w.utc + tally_cache_staleness_ms
      → (get_tallies_cached c true calls' (some v) emptied).0 ≡ ok []
  unfolding emptied get_tallies_cached fresh_tallies check_fresh is_fresh
  answers_nothing calls' named later soon =
      let cache = set (now w.utc) [] (empty_cache tally_cache_staleness_ms) in
      ground (arith, lookup-insert v v cache w.state.tally_caches, eq_refl v)

  -- When a connection without a Redis client reads tallies that are not cached or are dirty, a connection that
  -- has one is answered no tallies at all until the cache is stale, whatever Redis holds.
  pub get_tallies_cached_empties :
      (calls' : Calls)
      → given (some v) ≡ true
      → IsDirty (lookup v w.state.tally_caches)
      → 0 < now w.utc
      → now (next w.utc) < now w.utc + tally_cache_staleness_ms
      → let w' = (get_tallies_cached c false calls (some v) w).1 in
        (get_tallies_cached c true calls' (some v) w').0 ≡ ok []
  get_tallies_cached_empties calls' named dirty later soon =
      ap (λ (r : Result (Dict ℕ) × World S). (get_tallies_cached c true calls' (some v) r.1).0)
        (reads_nothing named dirty)
      ∙ answers_nothing calls' named later soon
