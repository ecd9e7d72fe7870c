-- ===== src/Stream.antt =====
-- services/playback-stream/pulsefm_playback_stream/main.py: the state of the process, what it reads, and
-- its clocks. A handler runs without another between its calls of Redis and Firestore.
pub mod Cache
pub mod State
pub mod Scan
pub mod Fetch
pub mod Events
pub mod Status
pub mod Sse
pub mod Deltas
pub mod Listener
pub mod Connection
pub mod Tests
use pulse_fm.Base.{ℕ, suc, String, Bool, true, false, ◌||◌, Option, none, some, List, [], is_some}
use pulse_fm.Base.Int.{ℤ, pos}
use pulse_fm.Base.Dict.{Dict}
use pulse_fm.Base.Value.{Value, Exception, Result, ok, err, service_error}
use pulse_fm.Base.Action.{Action}
use pulse_fm.Snapshot.{Snapshot, Poll, Member, dict, has_members}
use pulse_fm.Playback.{Station, VoteState}
use pulse_fm.Stream.Cache.{CachedValue, empty_cache}

abbrev pub tally_cache_staleness_ms : ℕ
tally_cache_staleness_ms = 500

abbrev pub listener_cache_staleness_ms : ℕ
listener_cache_staleness_ms = 1000

-- The snapshot as this service holds it: what playback-service stored, or what was built from
-- Firestore, with the members that only this service writes. `winner_option` belongs to the poll,
-- and stands for a member that is missing or null.
pub record StateSnapshot : Type 0 where
  pub shared : Snapshot
  pub winner_option : Option String
  pub tallies : Option (Dict ℕ)
  pub listeners : Option ℕ
  pub redis_available : Option Bool
  pub ts : Option ℕ

-- `if snapshot:`
unfoldable pub not_empty : StateSnapshot → Bool
not_empty s = has_members s.shared || is_some s.redis_available || is_some s.ts

-- The recorded events, each with the time of its record.
pub record Invalidated : Type 0 where
  pub vote_id : Option String
  pub ts : ℕ
  pub version : Option ℤ

pub record VoteClosed : Type 0 where
  pub vote_id : Value
  pub winner_option : Value
  pub ts : ℕ

pub record NextSongChanged : Type 0 where
  pub vote_id : Value
  pub duration_ms : Option ℤ
  pub version : Option ℤ
  pub ts : ℕ

-- `StreamState`, without its locks.
pub record StreamState : Type 0 where
  pub snapshot_cache : CachedValue StateSnapshot
  pub tally_caches : Dict (CachedValue (Dict ℕ))
  pub listener_cache : CachedValue ℕ
  pub last_invalidated : Option Invalidated
  pub last_vote_closed : Option VoteClosed
  pub last_next_song_changed : Option NextSongChanged
  pub last_playback_version : ℤ

-- `StreamState()`
abbrev pub initial_state : StreamState
initial_state = record {
  snapshot_cache = empty_cache 0;
  tally_caches = [];
  listener_cache = empty_cache listener_cache_staleness_ms;
  last_invalidated = none;
  last_vote_closed = none;
  last_next_song_changed = none;
  last_playback_version = pos 0;
}

-- The readings of a clock, of which `used` are over.
pub record Clock : Type 0 where
  pub readings : ℕ → ℕ
  pub used : ℕ

abbrev pub now : Clock → ℕ
now c = c.readings c.used

abbrev pub next : Clock → Clock
next c = record c { used = suc c.used }

pub record World (S : Type 0) : Type 0 where
  pub state : StreamState
  pub station : Option Station
  pub vote_state : Option VoteState
  pub redis : S
  -- Milliseconds since the epoch, and microseconds of the event loop's clock.
  pub utc : Clock
  pub monotonic : Clock

-- Which calls of other services succeed, each on its own.
pub record Calls : Type 0 where
  pub station_up : Bool
  pub vote_state_up : Bool
  -- `get_redis_client()`, and the call that reads.
  pub client_up : Bool
  pub snapshot_up : Bool
  pub tallies_up : Bool
  pub listeners_up : Bool
  -- `await ping_redis(client)`
  pub ping_up : Bool

module _ {S : Type 0} where
  -- `_utc_ms()`
  abbrev pub utc_ms : Action (World S) ℕ
  utc_ms w = (ok (now w.utc), record w { utc = next w.utc })

  -- `_monotonic_now()`
  abbrev pub monotonic_now : Action (World S) ℕ
  monotonic_now w = (ok (now w.monotonic), record w { monotonic = next w.monotonic })

  -- A read that fails, or gives what `f` reads.
  abbrev pub reading : {A : Type 0} → Bool → (World S → A) → Action (World S) A
  reading up f w = elim up [ true ↦ (ok (f w), w) | false ↦ (err service_error, w) ]

  abbrev pub update : (StreamState → StreamState) → Action (World S) (Unit {0})
  update f w = (ok tt, record w { state = f w.state })

-- `_extract_poll`: `none` for what is no dict, which counts as an empty one.
unfoldable pub extract_poll : StateSnapshot → Option Poll
extract_poll s = elim s.shared.poll [ dict poll ↦ some poll | _ ↦ none ]

-- `poll.get("winnerOption")` of that poll.
unfoldable pub poll_winner : StateSnapshot → Option String
unfolding extract_poll
poll_winner s = elim (extract_poll s) [ none ↦ none | some _ ↦ s.winner_option ]

unfoldable pub poll_vote_id : StateSnapshot → Option String
unfolding extract_poll
poll_vote_id s = elim (extract_poll s) [ none ↦ none | some poll ↦ poll.vote_id ]
