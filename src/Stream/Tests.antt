-- ===== src/Stream/Tests.antt =====
-- Concrete events and connections of playback-stream.
use pulse_fm.Base.{ℕ, ◌+◌, ◌<◌, ◌≤◌, ◌≡◌, ◌⊎◌, refl, ap, true, false, none, some, [], ◌∷◌, arith}
use pulse_fm.Base.Int.{pos, ◌≤ℤ◌}
use pulse_fm.Base.Dict.{Dict, lookup}
use pulse_fm.Base.Value.{str, int, obj, Fields, field, end, member, ok, int_of}
use pulse_fm.Base.Text.{non_empty}
use pulse_fm.Outbox.PubSub.{Codec, decode_pubsub_json}
use pulse_fm.Snapshot.{CurrentSong, dict, has_members}
use pulse_fm.Playback.Ids.{parse_int}
use pulse_fm.Redis.Memory.{Memory, commands, commands-IsLawful}
use pulse_fm.Redis.Keys.{playback_current_key}
use pulse_fm.Redis.Playback.{get_playback_current_snapshot}
use pulse_fm.Redis.Poll.{get_poll_tallies, record_vote_atomic}
use pulse_fm.Redis.Tests.{open_snapshot, polled, polled_jazz, bob_fresh}
use pulse_fm.Stream.Cache.{is_fresh}
use pulse_fm.Stream.State.{given, set_snapshot, snapshot_ttl_ms, is_stale_event}
use pulse_fm.Stream.Scan.{Scan, intro}
use pulse_fm.Stream.Fetch.{stored, get_tallies_cached}
use pulse_fm.Stream.Fetch.Tallies.{
  IsDirty, IsCached, get_tallies_cached_recent, get_tallies_cached-reads,
}
use pulse_fm.Stream.Fetch.Sharing.{get_tallies_cached_empties}
use pulse_fm.Stream.Fetch.Snapshots.{set_snapshot-is_fresh}
use pulse_fm.Stream.Events.{
  handled, current_vote_id, tally_event, playback_event, handle_changeover_event,
}
use pulse_fm.Stream.Events.Versions.{playback_event-Versions}
use pulse_fm.Stream.Events.Changeover.{told, handle_changeover_event-Shows}
use pulse_fm.Stream.Events.Tallying.{vote_reaches_listeners}
use pulse_fm.Stream.{World, StateSnapshot, Clock, Calls, initial_state, poll_vote_id}

abbrev pub from : ℕ → Clock
from t = record { readings = λ n. t + n; used = 0 }

abbrev pub world : World Memory
world = record {
  state = initial_state;
  station = none;
  vote_state = none;
  redis = polled;
  utc = from 1000;
  monotonic = from 5;
}

abbrev pub all_up : Calls
all_up = record {
  station_up = true;
  vote_state_up = true;
  client_up = true;
  snapshot_up = true;
  tallies_up = true;
  listeners_up = true;
  ping_up = true;
}

-- Every session is on one page.
pub one_page : Scan Memory
one_page = record {
  scan = λ s cursor. (0, "pulsefm:heartbeat:session:ann" ∷ []);
  ends = λ s. intro 0 (λ more. absurd (more refl));
}

-- A decoder that gives one message.
abbrev gives : Fields → Codec
gives message = record { b64decode = λ _. ok "raw"; loads = λ _. ok (obj message) }

abbrev payload : Fields
payload = field "message" (obj (field "data" (str "eyJ9") end)) end

abbrev changeover_message : Fields
changeover_message = field "event" (str "CHANGEOVER") (field "version" (int (pos 7)) end)

-- The service knows version 9.
abbrev later : World Memory
later = record world { state = record initial_state { last_playback_version = pos 9 } }

playback_event-Versions_example :
    pos 0
    ≤ℤ (playback_event commands all_up
        (gives changeover_message)
        payload
        world).1.state.last_playback_version
playback_event-Versions_example =
    playback_event-Versions commands all_up (gives changeover_message) payload world

changeover_decoded : decode_pubsub_json (gives changeover_message) payload ≡ ok changeover_message
unfolding decode_pubsub_json member
changeover_decoded = refl

version_7 : parse_int (member "version" changeover_message) ≡ ok (some (pos 7))
unfolding parse_int member int_of
version_7 = refl

-- What the store holds.
found : get_playback_current_snapshot commands polled ≡ some open_snapshot
unfolding get_playback_current_snapshot playback_current_key
found = refl

full : has_members open_snapshot ≡ true
unfolding has_members
full = refl

current : current_vote_id open_snapshot ≡ ok (some "v1")
unfolding current_vote_id
current = refl

v1_given : given (some "v1") ≡ true
unfolding non_empty
v1_given = refl

fresh_event : is_stale_event (some (pos 7)) world.state ≡ false
unfolding is_stale_event
fresh_event = refl

handle_changeover_event-Shows_example :
    let (r, w') = handle_changeover_event commands all_up (some (pos 7)) world in
    (r ≡ ok handled)
    × (w'.state.snapshot_cache.value ≡ some (stored open_snapshot))
    × (w'.state.tally_caches ≡ [])
    × (w'.state.listener_cache.fetched_at_ms ≡ 0)
    × ((ts : ℕ) × (w'.state.last_invalidated
          ≡ some (record {
            vote_id = poll_vote_id (stored open_snapshot);
            ts = ts;
            version = told (some (pos 7)) open_snapshot;
          })))
    × (w'.state.last_vote_closed ≡ none)
    × (w'.state.last_next_song_changed ≡ none)
    × (w'.redis ≡ polled)
handle_changeover_event-Shows_example =
    handle_changeover_event-Shows commands all_up (some (pos 7)) open_snapshot world fresh_event
      refl refl found full tt

abbrev tally_message : Fields
tally_message = field "voteId" (str "v1") end

tally_decoded : decode_pubsub_json (gives tally_message) payload ≡ ok tally_message
unfolding decode_pubsub_json member
tally_decoded = refl

tally_vote : member "voteId" tally_message ≡ str "v1"
unfolding member
tally_vote = refl

vote_reaches_listeners_example :
    let counted = record world {
      redis = (record_vote_atomic commands "v1" "bob" "jazz" polled).1;
    } in
    let announced = (tally_event commands all_up (gives tally_message) payload counted).1 in
    (tallies : Dict ℕ) × ((get_tallies_cached commands true all_up (some "v1") announced).0
      ≡ ok tallies)
    × (lookup "jazz" tallies ≡ some 1)
vote_reaches_listeners_example =
    vote_reaches_listeners commands-IsLawful all_up (gives tally_message) payload tally_message "v1"
      "bob" "jazz" open_snapshot 0 world bob_fresh polled_jazz found current tally_decoded
      tally_vote v1_given refl refl refl

not_cached : IsDirty (lookup "v1" world.state.tally_caches)
unfolding lookup
not_cached = tt

reads_v1 :
    (get_tallies_cached commands true all_up (some "v1") world).0
    ≡ ok (get_poll_tallies commands "v1" polled)
reads_v1 =
    ap (λ r. r.0) (get_tallies_cached-reads commands all_up "v1" world v1_given refl not_cached)

get_tallies_cached_recent_example :
    (get_poll_tallies commands "v1" polled ≡ get_poll_tallies commands "v1" polled)
    ⊎ ((k : ℕ) × (0 ≤ k)
        × (k < (get_tallies_cached commands true all_up (some "v1") world).1.utc.used)
        × IsCached commands "v1" world (1000 + k) (get_poll_tallies commands "v1" polled))
get_tallies_cached_recent_example =
    get_tallies_cached_recent commands all_up "v1" world v1_given reads_v1

get_tallies_cached_empties_example :
    let w' = (get_tallies_cached commands false all_up (some "v1") world).1 in
    (get_tallies_cached commands true all_up (some "v1") w').0 ≡ ok []
get_tallies_cached_empties_example =
    get_tallies_cached_empties commands all_up "v1" world all_up v1_given not_cached (omega arith)
      (omega arith)

abbrev song : CurrentSong
song = record {
  vote_id = some "v0";
  start_at = some 0;
  end_at = some 5000;
  duration_ms = some 5000;
}

abbrev with_song : StateSnapshot
with_song = stored (record open_snapshot { current_song = dict song })

still_fresh : is_fresh 2000 (set_snapshot with_song world).1.state.snapshot_cache ≡ true
unfolding is_fresh set_snapshot snapshot_ttl_ms
still_fresh = refl

set_snapshot-is_fresh_example : 2000 + 1000 < 5000 + 1001
set_snapshot-is_fresh_example =
    set_snapshot-is_fresh world with_song song 5000 2000 refl refl (omega arith) still_fresh
