-- ===== src/Stream/Fetch/Keeping.antt =====
-- What the reads through a cache leave alone: all but their own cache, and the readings of the clock.
use pulse_fm.Base.{
  ℕ, suc, Bool-cases, Option-cases, inl, inr, ◌≡◌, refl, String, Bool, true, false, ◌||◌, Option,
  none, some, [], or_else, eqb, arith, if◌then◌else◌,
}
use pulse_fm.Base.Dict.{Dict, lookup}
use pulse_fm.Base.Value.{ok}
use pulse_fm.Base.Action.{Action}
use pulse_fm.Base.Keeps.{Keeps}
use pulse_fm.Redis.{Commands}
use pulse_fm.Stream.Cache.{CachedValue, empty_cache, is_fresh, set}
use pulse_fm.Stream.Scan.{Scan, count_active_listeners}
use pulse_fm.Stream.State.{set_snapshot}
use pulse_fm.Stream.Fetch.{
  stored, snapshot_of, redis_snapshot, build_state_snapshot, check_fresh, fetch_snapshot,
  get_state_snapshot, get_tallies, fresh_tallies, fetch_tallies, get_tallies_cached,
  fetch_listeners, get_listener_count_cached,
}
use pulse_fm.Stream.{World, now, next, StateSnapshot, Calls}

-- The world with its snapshot cache blanked, and so for the other caches; the clock is at its start.
abbrev pub but_snapshot : {S : Type 0} → World S → World S
but_snapshot w = record w {
  state = record (w.state) { snapshot_cache = empty_cache 0 };
  utc = record (w.utc) { used = 0 };
}

abbrev pub but_tallies : {S : Type 0} → World S → World S
but_tallies w = record w {
  state = record (w.state) { tally_caches = [] };
  utc = record (w.utc) { used = 0 };
}

abbrev pub but_listeners : {S : Type 0} → World S → World S
but_listeners w = record w {
  state = record (w.state) { listener_cache = empty_cache 0 };
  utc = record (w.utc) { used = 0 };
}

module _ {S : Type 0} where
  -- Only the clock moves.
  pub check_fresh_lem :
      {A : Type 0} (c : CachedValue A) (w : World S)
      → (r : Bool) × (n : ℕ) × (check_fresh c w
          ≡ (ok r, record w { utc = record (w.utc) { used = n } }))
  unfolding check_fresh
  check_fresh_lem c w = elim (Bool-cases (c.dirty || eqb c.fetched_at_ms 0)) [
    | inl old ↦ (false, w.utc.used, ground arith)
    | inr asks ↦ (is_fresh (now w.utc) c, suc w.utc.used, ground arith)
  ]

  set_snapshot-Keeps : (s : StateSnapshot) → Keeps {W = World S} but_snapshot (set_snapshot s)
  unfolding set_snapshot
  set_snapshot-Keeps s w = ground arith

  build_state_snapshot-Keeps :
      (calls : Calls) → Keeps {W = World S} but_snapshot (build_state_snapshot calls)
  unfolding build_state_snapshot
  build_state_snapshot-Keeps calls w = ground (
    arith,
    set_snapshot-Keeps (snapshot_of w.station w.vote_state (now w.utc))
        (record w { utc = next w.utc }),
  )

  fresh_tallies_lem :
      (v : String) (w : World S)
      → (r : Option (Dict ℕ)) × (n : ℕ) × (fresh_tallies v w
          ≡ (ok r, record w { utc = record (w.utc) { used = n } }))
  unfolding fresh_tallies
  fresh_tallies_lem v w = elim (Option-cases (lookup v w.state.tally_caches)) [
    | inl missing ↦ (none, w.utc.used, ground arith)
    | inr (cache, found) ↦
        let (r, n, checked) = check_fresh_lem cache w in
        (if r then some (or_else cache.value []) else none, n, ground (arith, checked))
  ]

module _ {S : Type 0} (c : Commands S) where
  fetch_snapshot-Keeps : (calls : Calls) → Keeps but_snapshot (fetch_snapshot c calls)
  unfolding fetch_snapshot
  fetch_snapshot-Keeps calls w = elim (Option-cases (redis_snapshot c calls w.redis)) [
    | inl nothing ↦ ground (arith, build_state_snapshot-Keeps calls w)
    | inr (s, found) ↦ ground (arith, set_snapshot-Keeps (stored s) w)
  ]

  -- Nothing changes but the snapshot's cache.
  pub get_state_snapshot-Keeps : (calls : Calls) → Keeps but_snapshot (get_state_snapshot c calls)
  unfolding get_state_snapshot
  get_state_snapshot-Keeps calls w =
      let (r, n, checked) = check_fresh_lem w.state.snapshot_cache w in
      ground (
        arith,
        checked,
        fetch_snapshot-Keeps calls (record w { utc = record (w.utc) { used = n } }),
      )

  fetch_tallies-Keeps :
      (connected : Bool) (calls : Calls) (v : String)
      → Keeps but_tallies (fetch_tallies c connected calls v)
  unfolding fetch_tallies get_tallies
  fetch_tallies-Keeps connected calls v w = ground arith

  -- Nothing changes but the caches of the tallies.
  pub get_tallies_cached-Keeps :
      (connected : Bool) (calls : Calls) (vote_id : Option String)
      → Keeps but_tallies (get_tallies_cached c connected calls vote_id)
  unfolding get_tallies_cached
  get_tallies_cached-Keeps connected calls vote_id w =
      let v = or_else vote_id "" in
      let (r, n, first) = fresh_tallies_lem v w in
      let w1 = record w { utc = record (w.utc) { used = n } } in
      let (r2, n2, second) = fresh_tallies_lem v w1 in
      let w2 = record w { utc = record (w.utc) { used = n2 } } in
      ground (arith, first, second, fetch_tallies-Keeps connected calls v w2)

module _ {S : Type 0} (c : Commands S) (sc : Scan S) where
  -- Reading the number of listeners answers, and changes nothing but that number's cache.
  CountsListeners : Action (World S) (Option ℕ) → World S → Type 0
  CountsListeners m w =
      (n : Option ℕ) × (cache : CachedValue ℕ) × (used : ℕ) × (m w ≡ (
        ok n,
        record w {
          state = record (w.state) { listener_cache = cache };
          utc = record (w.utc) { used = used };
        },
      ))

  fetch_listeners_lem :
      (up : Bool) (calls : Calls) (w : World S)
      → calls.listeners_up ≡ up
      → CountsListeners (fetch_listeners c sc calls) w
  unfolding CountsListeners fetch_listeners
  fetch_listeners_lem true calls w e =
      let count = count_active_listeners c sc true w.redis in
      (some count, set (now w.utc) count w.state.listener_cache, suc w.utc.used, ground arith)
  fetch_listeners_lem false calls w e = (
    none,
    record (w.state.listener_cache) { value = none; fetched_at_ms = now w.utc },
    suc w.utc.used,
    ground arith,
  )

  checked_twice :
      (first second : Bool) (n n2 : ℕ) (calls : Calls) (w : World S)
      → let cache = w.state.listener_cache in
        check_fresh cache w ≡ (ok first, record w { utc = record (w.utc) { used = n } })
        → check_fresh cache (record w { utc = record (w.utc) { used = n } })
          ≡ (ok second, record w { utc = record (w.utc) { used = n2 } })
        → CountsListeners (get_listener_count_cached c sc true calls) w
  unfolding CountsListeners get_listener_count_cached
  checked_twice true second n n2 calls w e e2 =
      (w.state.listener_cache.value, w.state.listener_cache, n, ground arith)
  checked_twice false true n n2 calls w e e2 =
      (w.state.listener_cache.value, w.state.listener_cache, n2, ground arith)
  checked_twice false false n n2 calls w e e2 =
      let (count, cache, used, fetches) =
        fetch_listeners_lem calls.listeners_up calls
          (record w { utc = record (w.utc) { used = n2 } }) refl in
      (count, cache, used, ground arith)

  pub get_listener_count_cached_lem :
      (connected : Bool) (calls : Calls) (w : World S)
      → (n : Option ℕ) × (cache : CachedValue ℕ) × (used : ℕ) × (get_listener_count_cached c sc
            connected calls w
          ≡ (
            ok n,
            record w {
              state = record (w.state) { listener_cache = cache };
              utc = record (w.utc) { used = used };
            },
          ))
  unfolding CountsListeners get_listener_count_cached
  get_listener_count_cached_lem false calls w = (none, w.state.listener_cache, w.utc.used, refl)
  get_listener_count_cached_lem true calls w =
      let (first, n, e) = check_fresh_lem w.state.listener_cache w in
      let (second, n2, e2) =
        check_fresh_lem w.state.listener_cache (record w { utc = record (w.utc) { used = n } }) in
      checked_twice first second n n2 calls w e e2
