-- ===== src/Stream/Fetch/Tallies.antt =====
-- When the tallies are read from Redis, and how old they can be
-- (services/playback-stream/pulsefm_playback_stream/main.py).
use pulse_fm.Base.{
  ℕ, suc, ◌+◌, ◌<◌, ◌≤◌, ◌≡◌, refl, ◌∙◌, ◌⊎◌, inl, inr, String, true, false, ◌||◌, Option, none,
  some, [], arith, or_else, eqb, Bool-cases, Option-cases,
}
use pulse_fm.Base.Dict.{Dict, lookup, insert}
use pulse_fm.Base.Value.{ok}
use pulse_fm.Redis.{Commands}
use pulse_fm.Redis.Poll.{get_poll_tallies}
use pulse_fm.Stream.Cache.{CachedValue, is_fresh, set, empty_cache}
use pulse_fm.Stream.State.{given}
use pulse_fm.Stream.Fetch.{
  check_fresh, fresh_tallies, get_tallies, fetch_tallies, get_tallies_cached,
}
use pulse_fm.Stream.{World, Calls, now, next, tally_cache_staleness_ms}

-- The vote's tallies are not cached, or are marked as dirty.
abbrev pub IsDirty : Option (CachedValue (Dict ℕ)) → Type 0
IsDirty none = Unit
IsDirty (some cache) = cache.dirty ≡ true

module _ {S : Type 0} (c : Commands S) where
  pub fresh_tallies-dirty :
      (v : String) (w : World S) (o : Option (CachedValue (Dict ℕ)))
      → lookup v w.state.tally_caches ≡ o
      → IsDirty o
      → fresh_tallies v w ≡ (ok none, w)
  unfolding fresh_tallies check_fresh
  fresh_tallies-dirty v w none e dirty = ground arith
  fresh_tallies-dirty v w (some cache) e dirty = ground arith

  -- Tallies that are marked as dirty are read from Redis, and cached.
  pub get_tallies_cached-reads :
      (calls : Calls) (v : String) (w : World S)
      → given (some v) ≡ true
      → calls.tallies_up ≡ true
      → IsDirty (lookup v w.state.tally_caches)
      → get_tallies_cached c true calls (some v) w ≡ (
        ok (get_poll_tallies c v w.redis),
        record w {
          state = record (w.state) {
            tally_caches =
                insert v
                  (set
                    (now w.utc)
                    (get_poll_tallies c v w.redis)
                    (empty_cache tally_cache_staleness_ms))
                  w.state.tally_caches;
          };
          utc = next w.utc;
        },
      )
  unfolding get_tallies_cached fetch_tallies get_tallies get_poll_tallies
  get_tallies_cached-reads calls v w named up dirty =
      ground (arith, fresh_tallies-dirty v w (lookup v w.state.tally_caches) refl dirty)

  -- The tallies come from the cache.
  abbrev pub IsCached : String → World S → ℕ → Dict ℕ → Type 0
  IsCached v w t tallies =
      (cache : CachedValue (Dict ℕ)) × (lookup v w.state.tally_caches ≡ some cache)
      × (cache.dirty ≡ false)
      × (tallies ≡ or_else cache.value [])
      × (t < cache.fetched_at_ms + cache.staleness_ms)

  fresh_tallies-IsCached :
      (v : String) (w : World S)
      → ((tallies : Dict ℕ) × (fresh_tallies v w
            ≡ (ok (some tallies), record w { utc = next w.utc }))
          × IsCached v w (now w.utc) tallies)
        ⊎ ((k : ℕ) × (w.utc.used ≤ k)
            × (fresh_tallies v w ≡ (ok none, record w { utc = record (w.utc) { used = k } })))
  unfolding fresh_tallies check_fresh is_fresh
  fresh_tallies-IsCached v w = elim (Option-cases (lookup v w.state.tally_caches)) [
    | inl missing ↦ inr (w.utc.used, omega arith, ground arith)
    | inr (cache, found) ↦ elim (Bool-cases (cache.dirty || eqb cache.fetched_at_ms 0)) [
      | inl old ↦ inr (w.utc.used, omega arith, ground arith)
      | inr asks ↦ elim (Bool-cases (is_fresh (now w.utc) cache)) [
        | inr stale ↦ inr (suc w.utc.used, omega arith, ground arith)
        | inl fresh ↦
            inl (
              or_else cache.value [],
              ground arith,
              (cache, found, ground arith, refl, ground arith),
            )
      ]
    ]
  ]

  -- The tallies that are answered for a named vote while there is a client are those that Redis holds, or
  -- come from a cache that is not marked as dirty and was filled less than its staleness before a reading of
  -- the clock that this call takes.
  pub get_tallies_cached_recent :
      (calls : Calls) (v : String) (w : World S) {tallies : Dict ℕ}
      → given (some v) ≡ true
      → (get_tallies_cached c true calls (some v) w).0 ≡ ok tallies
      → (tallies ≡ get_poll_tallies c v w.redis)
        ⊎ ((k : ℕ) × (w.utc.used ≤ k)
            × (k < (get_tallies_cached c true calls (some v) w).1.utc.used)
            × IsCached v w (w.utc.readings k) tallies)
  unfolding get_tallies_cached fetch_tallies get_tallies get_poll_tallies
  get_tallies_cached_recent calls v w {tallies} named answers = elim (fresh_tallies-IsCached v w) [
    | inl (cached, first, (cache, found, clean, is_value, young)) ↦
        let same : tallies ≡ cached = ground arith in
        inr (w.utc.used, omega arith, ground arith, (cache, found, clean, same ∙ is_value, young))
    | inr (k, later, first) ↦
        elim (fresh_tallies-IsCached v (record w { utc = record (w.utc) { used = k } })) [
          | inl (cached, second, (cache, found, clean, is_value, young)) ↦
              let same : tallies ≡ cached = ground arith in
              inr (k, later, ground arith, (cache, found, clean, same ∙ is_value, young))
          | inr (k2, _, second) ↦ inl (ground arith)
        ]
  ]
