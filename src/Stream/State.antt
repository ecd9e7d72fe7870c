-- ===== src/Stream/State.antt =====
-- services/playback-stream/pulsefm_playback_stream/main.py: the methods of `StreamState`, and
-- `_snapshot_ttl_ms`.
use pulse_fm.Base.{
  ℕ, ◌-◌, max, String, Bool, true, false, Option, none, some, [], ◌==◌, or_else, if◌then◌else◌,
}
use pulse_fm.Base.Int.{ℤ, ltb_ℤ}
use pulse_fm.Base.Dict.{Dict, lookup, insert}
use pulse_fm.Base.Text.{non_empty}
use pulse_fm.Base.Value.{Value, str, attribute_error}
use pulse_fm.Base.Action.{Action, pure, raise, from_result, ◌>>=◌}
use pulse_fm.Snapshot.{Snapshot, malformed, dict}
use pulse_fm.Playback.Ids.{parse_int}
use pulse_fm.Stream.Cache.{CachedValue, empty_cache, set_with_ttl, clear, mark_dirty}
use pulse_fm.Stream.{StateSnapshot, StreamState, World, utc_ms, update, tally_cache_staleness_ms}

module _ {S : Type 0} where
  -- The clock is read only if the snapshot names the end of its song.
  unfoldable pub snapshot_ttl_ms : Snapshot → Action (World S) ℕ
  snapshot_ttl_ms snapshot = elim snapshot.current_song [
    | dict song ↦ elim song.end_at [
      | none ↦ pure 0
      | some ends_at ↦ do now ← utc_ms; pure (ends_at - now)
    ]
    | malformed ↦ raise attribute_error
    | _ ↦ pure 0
  ]

  unfoldable pub set_snapshot : StateSnapshot → Action (World S) (Unit {0})
  unfolding snapshot_ttl_ms
  set_snapshot snapshot = do
    ttl ← snapshot_ttl_ms snapshot.shared
    now ← utc_ms
    update λ s. record s { snapshot_cache = set_with_ttl now snapshot ttl s.snapshot_cache }

  abbrev pub clear_snapshot : Action (World S) (Unit {0})
  clear_snapshot = update λ s. record s { snapshot_cache = clear s.snapshot_cache }

abbrev pub given : Option String → Bool
given none = false
given (some v) = non_empty v

unfoldable pub is_tally_dirty : Option String → StreamState → Bool
is_tally_dirty vote_id s =
    if given vote_id
    then (elim (lookup (or_else vote_id "") s.tally_caches) [ none ↦ false | some c ↦ c.dirty ])
    else false

unfoldable pub dirty_cache : Option (CachedValue (Dict ℕ)) → CachedValue (Dict ℕ)
dirty_cache none = record (empty_cache tally_cache_staleness_ms) { dirty = true }
dirty_cache (some c) = mark_dirty c

unfoldable pub mark_tally_dirty : Option String → StreamState → StreamState
unfolding dirty_cache
mark_tally_dirty vote_id s =
    if given vote_id
    then (let v = or_else vote_id "" in
        record s { tally_caches = insert v (dirty_cache (lookup v s.tally_caches)) s.tally_caches })
    else s

abbrev pub reset_tallies : StreamState → StreamState
reset_tallies s = record s { tally_caches = [] }

module _ {S : Type 0} where
  unfoldable pub invalidate : Option String → Option ℤ → Action (World S) (Unit {0})
  invalidate vote_id version = do
    now ← utc_ms
    update λ s. record s {
      last_invalidated = some (record { vote_id = vote_id; ts = now; version = version });
    }

  unfoldable pub record_vote_closed : Value → Value → Action (World S) (Unit {0})
  record_vote_closed vote_id winner_option = do
    now ← utc_ms
    update λ s. record s {
      last_vote_closed =
          some (record { vote_id = vote_id; winner_option = winner_option; ts = now });
    }

  unfoldable pub record_next_song_changed : Value → Value → Option ℤ → Action (World S) (Unit {0})
  record_next_song_changed vote_id duration_ms version = do
    duration ← from_result (parse_int duration_ms)
    now ← utc_ms
    update λ s. record s {
      last_next_song_changed =
          some (record { vote_id = vote_id; duration_ms = duration; version = version; ts = now });
    }

unfoldable pub is_stale_event : Option ℤ → StreamState → Bool
is_stale_event none s = false
is_stale_event (some version) s = ltb_ℤ version s.last_playback_version

-- A value that equals the text.
unfoldable pub is_str : String → Value → Bool
is_str s (str t) = t == s
is_str s _ = false

-- A winner that is a text with content.
winner_text : Value → Option String
winner_text (str w) = if non_empty w then some w else none
winner_text _ = none

unfoldable pub winner_for_vote : Option String → StreamState → Option String
unfolding is_str winner_text
winner_for_vote vote_id s =
    if given vote_id
    then (elim s.last_vote_closed [
      | none ↦ none
      | some closed ↦
          if is_str (or_else vote_id "") closed.vote_id
          then winner_text closed.winner_option
          else none
    ])
    else none

pub record Markers : Type 0 where
  pub last_invalidated_at : ℕ
  pub last_vote_closed_at : ℕ
  pub last_next_song_changed_at : ℕ

unfoldable pub stream_event_markers : ℕ → StreamState → Markers
stream_event_markers connected_at_ms s = record {
  last_invalidated_at = max connected_at_ms (elim s.last_invalidated [ none ↦ 0 | some e ↦ e.ts ]);
  last_vote_closed_at = max connected_at_ms (elim s.last_vote_closed [ none ↦ 0 | some e ↦ e.ts ]);
  last_next_song_changed_at =
      max connected_at_ms (elim s.last_next_song_changed [ none ↦ 0 | some e ↦ e.ts ]);
}
