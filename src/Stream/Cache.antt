-- ===== src/Stream/Cache.antt =====
-- services/playback-stream/pulsefm_playback_stream/main.py: `CachedValue`, one value that was fetched
-- from elsewhere. A method that reads the clock takes the reading, `now`.
use pulse_fm.Base.{
  ℕ, ◌+◌, max, Bool, true, false, ◌||◌, Option, none, some, ltb, eqb, if◌then◌else◌,
}

pub record CachedValue (A : Type 0) : Type 0 where
  pub value : Option A
  pub fetched_at_ms : ℕ
  pub staleness_ms : ℕ
  pub dirty : Bool

module _ {A : Type 0} where
  -- `CachedValue(staleness_ms)`
  abbrev pub empty_cache : ℕ → CachedValue A
  empty_cache staleness_ms = record {
    value = none;
    fetched_at_ms = 0;
    staleness_ms = staleness_ms;
    dirty = false;
  }

  -- `now - fetched_at_ms < staleness_ms`, also where the clock went back.
  unfoldable pub is_fresh : ℕ → CachedValue A → Bool
  is_fresh now c =
      if c.dirty || eqb c.fetched_at_ms 0 then false else ltb now (c.fetched_at_ms + c.staleness_ms)

  abbrev pub set : ℕ → A → CachedValue A → CachedValue A
  set now v c = record c { value = some v; fetched_at_ms = now; dirty = false }

  abbrev pub set_with_ttl : ℕ → A → ℕ → CachedValue A → CachedValue A
  set_with_ttl now v ttl_ms c = record {
    value = some v;
    fetched_at_ms = now;
    staleness_ms = max ttl_ms 0;
    dirty = false;
  }

  abbrev pub clear : CachedValue A → CachedValue A
  clear c = record c { value = none; fetched_at_ms = 0; dirty = false }

  abbrev pub mark_dirty : CachedValue A → CachedValue A
  mark_dirty c = record c { dirty = true }
