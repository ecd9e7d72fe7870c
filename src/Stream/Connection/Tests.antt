-- ===== src/Stream/Connection/Tests.antt =====
-- Concrete connections of playback-stream.
use mathlib.Core.List.{◌++◌}
use pulse_fm.Base.{ℕ, ◌+◌, ◌≡◌, refl, ap, arith, String, true, false, none, some, [], ◌∷◌, is_some}
use pulse_fm.Base.Int.{pos}
use pulse_fm.Base.Dict.{Dict, lookup, insert}
use pulse_fm.Base.Value.{str, ok}
use pulse_fm.Redis.Memory.{Memory, commands}
use pulse_fm.Redis.Keys.{playback_current_key, poll_tally_key}
use pulse_fm.Redis.Playback.{get_playback_current_snapshot}
use pulse_fm.Redis.Poll.{count_of}
use pulse_fm.Snapshot.{has_members}
use pulse_fm.Base.Text.{non_empty}
use pulse_fm.Redis.Tests.{open_snapshot}
use pulse_fm.Stream.Cache.{is_fresh}
use pulse_fm.Stream.State.{
  set_snapshot, snapshot_ttl_ms, stream_event_markers, mark_tally_dirty, dirty_cache,
}
use pulse_fm.Stream.Deltas.{count, apply_deltas}
use pulse_fm.Stream.Deltas.Adding.{IsDict}
use pulse_fm.Stream.Fetch.{
  stored, get_state_snapshot, get_state_snapshot_during, check_fresh, fetch_snapshot,
  get_tallies_cached, fresh_tallies, fetch_tallies, get_tallies, get_listener_count_cached,
  fetch_listeners,
}
use pulse_fm.Stream.Sse.{TallyDelta, song_changed, vote_closed, tally_delta}
use pulse_fm.Stream.Listener.{
  Settings, LoopState, Sending, Others, check_marker_events, check_invalidated, check_vote_closed,
  check_next_song_changed, send_tally_delta, build_tally_snapshot,
}
use pulse_fm.Stream.Listener.Announcing.{AreSilent, pending, check_marker_events_once}
use pulse_fm.Stream.Listener.Overtaking.{check_invalidated_doubles}
use pulse_fm.Stream.Listener.Counting.{send_tally_delta_shows, send_tally_delta_doubles}
use pulse_fm.Stream.Connection.{stream_start}
use pulse_fm.Stream.Connection.Starting.{stream_start_misses}
use pulse_fm.Stream.Tests.{one_page, world, all_up}
use pulse_fm.Stream.{World, Invalidated, VoteClosed, Calls, poll_vote_id, extract_poll}

abbrev settings : Settings
settings = record { stream_interval_ms = 500; tally_snapshot_interval_sec = 10; heartbeat_sec = 15 }

abbrev tallies : Dict ℕ
tallies = ("rock", 4) ∷ ("jazz", 0) ∷ []

abbrev loop : LoopState
loop = record {
  vote_id = some "v1";
  last_tallies = tallies;
  last_snapshot_at = 5;
  last_delta_at = 0;
  last_heartbeat_at = 0;
  markers = record {
    last_invalidated_at = 1000;
    last_vote_closed_at = 1000;
    last_next_song_changed_at = 1000;
  };
}

abbrev closed : VoteClosed
closed = record { vote_id = str "v1"; winner_option = str "rock"; ts = 1500 }

abbrev connection : Sending Memory
connection = record { world = world; sent = [] }

-- A vote that was closed, and what the listener is sent of it.
abbrev closing : Sending Memory
closing = record connection {
  world = record world { state = record (world.state) { last_vote_closed = some closed } };
}

-- Other handlers that write Firestore's vote and announce nothing.
abbrev busy : Others Memory
busy = record {
  before = λ w. record w { vote_state = none };
  after = λ w. w;
  sending = λ w. record w { station = none };
}

abbrev told_loop : LoopState
told_loop = record loop { markers = record (loop.markers) { last_vote_closed_at = 1500 } }

abbrev told : Sending Memory
told = record { world = busy.sending closing.world; sent = vote_closed closed ∷ [] }

busy-AreSilent : AreSilent busy
busy-AreSilent = record {
  before = λ w. (refl, refl, refl);
  after = λ w. (refl, refl, refl);
  sending = λ w. (refl, refl, refl);
}

tells : check_marker_events commands busy all_up loop closing ≡ (ok told_loop, told)
unfolding check_marker_events check_invalidated check_vote_closed check_next_song_changed
tells = refl

check_marker_events_once_example :
    (told.sent ≡ [] ++ pending closing.world.state loop.markers)
    × ((others : Others Memory) (again : Calls)
        → check_marker_events commands others again told_loop told ≡ (ok told_loop, told))
check_marker_events_once_example =
    check_marker_events_once commands busy busy-AreSilent all_up loop told_loop closing told tells

-- A changeover to the vote "v2", and one to "v3" while the snapshot is read for it.
abbrev changeover_v2 : Invalidated
changeover_v2 = record { vote_id = some "v2"; ts = 1500; version = some (pos 7) }

abbrev changeover_v3 : Invalidated
changeover_v3 = record { vote_id = some "v3"; ts = 1600; version = some (pos 8) }

abbrev announcing : Invalidated → World Memory → World Memory
announcing e w = record w { state = record (w.state) { last_invalidated = some e } }

abbrev overtaking : Others Memory
overtaking = record { before = announcing changeover_v3; after = λ w. w; sending = λ w. w }

abbrev before_v3 : Sending Memory
before_v3 = record { world = announcing changeover_v2 world; sent = [] }

abbrev v3_sent : Sending Memory
v3_sent = (check_invalidated commands overtaking all_up loop before_v3).1

abbrev following : ℕ → LoopState
following ts = record loop {
  last_tallies = [];
  last_snapshot_at = 0;
  last_delta_at = 0;
  markers = record (loop.markers) { last_invalidated_at = ts };
}

abbrev v3_again : Sending Memory
v3_again = (check_invalidated commands busy all_up (following 1500) v3_sent).1

overtaken :
    (get_state_snapshot_during commands overtaking.before overtaking.after all_up
      before_v3.world).1.state.last_invalidated
    ≡ some changeover_v3
unfolding get_state_snapshot_during check_fresh get_playback_current_snapshot playback_current_key
    has_members set_snapshot snapshot_ttl_ms
overtaken = refl

v3_result : (check_invalidated commands overtaking all_up loop before_v3).0 ≡ ok (following 1500)
unfolding check_invalidated get_state_snapshot_during check_fresh get_playback_current_snapshot
    playback_current_key has_members set_snapshot snapshot_ttl_ms poll_vote_id extract_poll
v3_result = refl

v3_again_result :
    (check_invalidated commands busy all_up (following 1500) v3_sent).0 ≡ ok (following 1600)
unfolding check_invalidated get_state_snapshot_during check_fresh get_playback_current_snapshot
    playback_current_key has_members set_snapshot snapshot_ttl_ms poll_vote_id extract_poll is_fresh
v3_again_result = refl

check_invalidated_doubles_example :
    v3_again.sent ≡ ([] ++ song_changed changeover_v3 ∷ []) ++ song_changed changeover_v3 ∷ []
check_invalidated_doubles_example =
    check_invalidated_doubles commands overtaking busy (λ w. (refl, refl, refl)) busy-AreSilent
      all_up all_up loop (following 1500) (following 1600) before_v3 v3_sent v3_again changeover_v2
      changeover_v3 (ap (λ r. (r, v3_sent)) v3_result) (ap (λ r. (r, v3_again)) v3_again_result)
      refl (omega arith) overtaken (omega arith)

-- A changeover to the vote "v2" while HELLO is sent.
abbrev changes_over : World Memory → World Memory
changes_over w = record w {
  state = record (w.state) {
    last_invalidated = some (record { vote_id = some "v2"; ts = 1002; version = some (pos 7) });
  };
}

reads_open : (get_state_snapshot commands all_up world).0 ≡ ok (stored open_snapshot)
unfolding get_state_snapshot check_fresh fetch_snapshot get_playback_current_snapshot has_members
    set_snapshot snapshot_ttl_ms playback_current_key
reads_open = refl

abbrev started : Sending Memory
started =
    (stream_start commands one_page settings all_up all_up changes_over (true, true) connection).1

abbrev start_loop : LoopState
start_loop = record loop {
  markers = record {
    last_invalidated_at = 1004;
    last_vote_closed_at = 1004;
    last_next_song_changed_at = 1004;
  };
}

start_result :
    (stream_start commands one_page settings all_up all_up changes_over (true, true) connection).0
    ≡ ok start_loop
unfolding stream_start get_state_snapshot check_fresh fetch_snapshot get_playback_current_snapshot
    playback_current_key has_members set_snapshot snapshot_ttl_ms get_tallies_cached poll_vote_id
    non_empty poll_tally_key stream_event_markers count_of is_fresh build_tally_snapshot
    fresh_tallies fetch_tallies get_tallies extract_poll mark_tally_dirty lookup insert dirty_cache
start_result = refl

starts :
    stream_start commands one_page settings all_up all_up changes_over (true, true) connection
    ≡ (ok start_loop, started)
starts = ap (λ r. (r, started)) start_result

stream_start_misses_example :
    (some "v1" ≡ poll_vote_id (stored open_snapshot))
    × ((o : Others Memory) (calls : Calls)
        → check_marker_events commands o calls start_loop started ≡ (ok start_loop, started))
stream_start_misses_example =
    stream_start_misses commands one_page settings all_up all_up changes_over (true, true)
      start_loop connection started (stored open_snapshot) reads_open starts

counts_shown : (o : String) → count o tallies ≡ count o loop.last_tallies
counts_shown o = refl

abbrev delta_loop : LoopState
delta_loop = record loop { last_delta_at = 5 }

abbrev delta_sent : Sending Memory
delta_sent = (send_tally_delta commands one_page all_up true true loop connection).1

delta_result :
    (send_tally_delta commands one_page all_up true true loop connection).0 ≡ ok delta_loop
unfolding send_tally_delta get_tallies_cached get_listener_count_cached fetch_listeners check_fresh
    fresh_tallies fetch_tallies get_tallies poll_tally_key count_of non_empty lookup insert
delta_result = refl

delta_sends :
    send_tally_delta commands one_page all_up true true loop connection
    ≡ (ok delta_loop, delta_sent)
delta_sends = ap (λ r. (r, delta_sent)) delta_result

tallies-IsDict : IsDict tallies
unfolding lookup
tallies-IsDict = (refl, (refl, tt))

reads_tallies : (get_tallies_cached commands true all_up (some "v1") world).0 ≡ ok tallies
unfolding get_tallies_cached check_fresh fresh_tallies fetch_tallies get_tallies poll_tally_key
    count_of non_empty lookup insert
reads_tallies = refl

send_tally_delta_shows_example :
    (e : TallyDelta) × (delta_sent.sent ≡ [] ++ tally_delta e ∷ [])
    × (e.vote_id ≡ some "v1")
    × (tallies ≡ tallies)
    × ((o : String)
        → is_some (lookup o tallies) ≡ true
        → count o (apply_deltas e.delta tallies) ≡ count o tallies)
send_tally_delta_shows_example =
    send_tally_delta_shows commands one_page all_up true true loop delta_loop connection delta_sent
      delta_sends tallies reads_tallies tallies-IsDict tallies counts_shown

-- The cache holds no tallies, as a connection without a client left it.
abbrev emptied : Sending Memory
emptied = record connection {
  world = record world {
    state = record (world.state) {
      tally_caches =
          ("v1", record { value = some []; fetched_at_ms = 900; staleness_ms = 500; dirty = false })
          ∷ [];
    };
  };
}

abbrev empty_loop : LoopState
empty_loop = record delta_loop { last_tallies = [] }

abbrev empty_sent : Sending Memory
empty_sent = (send_tally_delta commands one_page all_up true true loop emptied).1

empty_result : (send_tally_delta commands one_page all_up true true loop emptied).0 ≡ ok empty_loop
unfolding send_tally_delta get_tallies_cached get_listener_count_cached fetch_listeners check_fresh
    fresh_tallies non_empty lookup is_fresh
empty_result = refl

empty_sends :
    send_tally_delta commands one_page all_up true true loop emptied ≡ (ok empty_loop, empty_sent)
empty_sends = ap (λ r. (r, empty_sent)) empty_result

abbrev again_sent : Sending Memory
again_sent = (send_tally_delta commands one_page all_up true true empty_loop connection).1

again_result :
    (send_tally_delta commands one_page all_up true true empty_loop connection).0 ≡ ok delta_loop
unfolding send_tally_delta get_tallies_cached get_listener_count_cached fetch_listeners check_fresh
    fresh_tallies fetch_tallies get_tallies poll_tally_key count_of non_empty lookup insert
again_result = refl

again_sends :
    send_tally_delta commands one_page all_up true true empty_loop connection
    ≡ (ok delta_loop, again_sent)
again_sends = ap (λ r. (r, again_sent)) again_result

send_tally_delta_doubles_example :
    (e e' : TallyDelta) × (empty_sent.sent ≡ [] ++ tally_delta e ∷ [])
    × (again_sent.sent ≡ [] ++ tally_delta e' ∷ [])
    × ((o : String)
        → count o (apply_deltas e'.delta (apply_deltas e.delta tallies))
          ≡ count o tallies + count o tallies)
send_tally_delta_doubles_example =
    send_tally_delta_doubles commands one_page all_up all_up true true loop empty_loop delta_loop
      emptied empty_sent connection again_sent empty_sends again_sends refl refl tallies-IsDict
