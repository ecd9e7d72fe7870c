-- ===== src/Playback/Tick/Continuing.antt =====
-- POST /tick (services/playback-service/pulsefm_playback_service/main.py) while everything but Redis
-- works: the playback loop goes on.
use mathlib.Core.List.{◌++◌}
use pulse_fm.Base.{
  ℕ, ◌≡◌, ◌∙◌, ap, sym, subst, refl, ◌<◌, String, true, some, [], ◌∷◌, arith, ◌+◌, ◌-◌, ◌*◌, ◌/◌,
  max, or_else,
}
use pulse_fm.Base.Dict.{Dict}
use pulse_fm.Base.Int.{pos}
use pulse_fm.Base.Value.{Value, str, int, ok}
use pulse_fm.Base.Action.{try_except, pure}
use pulse_fm.Redis.{Commands}
use pulse_fm.Redis.Poll.{init_poll_open_atomic}
use pulse_fm.Snapshot.{Snapshot}
use pulse_fm.Playback.Ids.{vote_close_lead_seconds}
use pulse_fm.Outbox.{Outbox}
use pulse_fm.Playback.{
  World, Env, Site, Songs, IsLawful, Station, VoteState, or_zero, open_poll, publish_next_song,
  publish_changeover,
}
use pulse_fm.Playback.Ids.{validate_tick_version}
use pulse_fm.Playback.Rotation.{promoted}
use pulse_fm.Playback.Rotation.Updates.{IsValid}
use pulse_fm.Playback.Rotation.Validity.{rotate_song-Rotates}
use pulse_fm.Playback.Tick.Gate.{tick_rotates}
use pulse_fm.Playback.Votes.Keeping.{publish_json-tasks, rotate_vote-Same}
use pulse_fm.Playback.Refresh.{publish_playback_event}
use pulse_fm.Playback.Rotation.{SongRotationResult}
use pulse_fm.Playback.Tick.{
  tick, done, after_rotation, open_in_redis, update_redis_on_open, schedule_next_tasks,
  publish_changeover_events, build_playback_snapshot, state_ttl_seconds,
}
use pulse_fm.Playback.Votes.{build_vote, rotate_vote, next_version, get_window_options}
use pulse_fm.Playback.Votes.Success.{
  IsUp, IsNamed, opened, Succeeds, Succeeds-bind, publish_json_accepted, rotate_vote_opens,
}
use pulse_fm.Playback.Tick.Scheduling.{enqueued, close_task, tick_task, schedule_next_tasks_lem}

publish_playback_event_accepted :
    (env : Env) (up : IsUp env) (site : Site)
    → env.up site ≡ true
    → (event : String) (payload : Dict Value) (o : Outbox)
    → Succeeds (publish_playback_event env (env.up site) event payload) o
unfolding publish_playback_event
publish_playback_event_accepted env up site open_site event payload o = rw open_site (
    publish_json_accepted env.environment_project env.settings.project_id
      env.settings.playback_events_topic (("event", str event) ∷ payload) o up.project_id
      up.playback_topic)

publish_changeover_events-Succeeds :
    (env : Env) (up : IsUp env) (rotation : SongRotationResult) (v : ℕ) (o : Outbox)
    → Succeeds (publish_changeover_events env rotation v) o
unfolding publish_changeover_events
publish_changeover_events-Succeeds env up rotation v o =
    let first = publish_playback_event env (env.up publish_next_song) "NEXT-SONG-CHANGED" (
      ("voteId", str rotation.next_vote_id)
      ∷ ("durationMs", int (pos rotation.next_duration_ms))
      ∷ ("version", int (pos v))
      ∷ []) in
    let second =
      publish_playback_event env (env.up publish_changeover) "CHANGEOVER"
        (("durationMs", int (pos rotation.duration_ms)) ∷ ("version", int (pos v)) ∷ []) in
    Succeeds-bind first (λ _. second) o
      (publish_playback_event_accepted env up publish_next_song up.announces_next_song
        "NEXT-SONG-CHANGED" _ o)
      (λ _.
        publish_playback_event_accepted env up publish_changeover up.announces_changeover
          "CHANGEOVER" _ (first o).1)

publish_changeover_events-tasks :
    (env : Env) (rotation : SongRotationResult) (v : ℕ) (o : Outbox)
    → (publish_changeover_events env rotation v o).1.tasks ≡ o.tasks
unfolding publish_changeover_events publish_playback_event
publish_changeover_events-tasks env rotation v o = grind (arith, publish_json-tasks)

-- Redis holds a poll of the window that has just been opened, if it could be written.
abbrev pub IsPolled : {S : Type 0} → Commands S → Env → VoteState → S → Type 0
IsPolled {S} c env window s' =
    env.up open_poll ≡ true
    → (snapshot : Snapshot) × (ttl : ℕ) × (state_ttl : ℕ) × (s : S) × (s'
        ≡ init_poll_open_atomic c (or_else window.vote_id "") snapshot ttl state_ttl window.options
            s)

module _ {S D : Type 0} (c : Commands S) (env : Env) where
  -- What a changeover that was announced leaves.
  pub record Follows (rotation : SongRotationResult) (window : VoteState) (v : ℕ) (w : World S D)
      (after : World S D) : Type 0 where
    pub stored : after.vote_state ≡ some window
    pub polled : IsPolled c env window after.redis
    pub scheduled :
        after.outbox.tasks
        ≡ (w.outbox.tasks ++ enqueued env.queue (close_task env rotation window))
          ++ enqueued env.queue (tick_task env rotation (v + 1))

module _ {S D : Type 0} (c : Commands S) (f : Songs D) (env : Env) (up : IsUp env) where
  open_in_redis_tried :
      (rotation : SongRotationResult) (window : VoteState) (w : World S D)
      → let r = try_except (open_in_redis c f env rotation window) (λ _. pure tt) w in
        (r.0 ≡ ok tt)
        × (r.1.outbox ≡ w.outbox)
        × (r.1.station ≡ w.station)
        × (r.1.vote_state ≡ w.vote_state)
  unfolding open_in_redis update_redis_on_open
  open_in_redis_tried rotation window w = ground arith

  open_in_redis-IsPolled :
      (rotation : SongRotationResult) (window : VoteState) (w : World S D)
      → IsPolled c env window
          (try_except (open_in_redis c f env rotation window) (λ _. pure tt) w).1.redis
  unfolding open_in_redis update_redis_on_open
  open_in_redis-IsPolled rotation window w opens = (
    build_playback_snapshot rotation window,
    max 1 (rotation.duration_ms / 1000),
    state_ttl_seconds c env (or_zero window.end_at),
    w.redis,
    ground arith,
  )

  after_rotation_continues :
      (v : ℕ) (rotation : SongRotationResult) (w : World S D)
      → IsNamed w.vote_state
      → let window =
          opened env up
            (next_version w.vote_state)
            (rotation.duration_ms - vote_close_lead_seconds * 1000) in
        (after : World S D) × (after_rotation c f env v rotation w ≡ (ok (done v), after))
        × (after.station ≡ w.station)
        × Follows c env rotation window v w after
  unfolding after_rotation
  after_rotation_continues v rotation w named =
      let window =
        opened env up (next_version w.vote_state)
          (rotation.duration_ms - vote_close_lead_seconds * 1000) in
      let rotated = rotate_vote_opens c env up rotation.duration_ms w named in
      let same = rotate_vote-Same c env rotation.duration_ms w in
      let w2 = (rotate_vote c env rotation.duration_ms w).1 in
      let redis = open_in_redis_tried rotation window w2 in
      let w3 = (try_except (open_in_redis c f env rotation window) (λ _. pure tt) w2).1 in
      let (u, published) = publish_changeover_events-Succeeds env up rotation v w3.outbox in
      let kept = publish_changeover_events-tasks env rotation v w3.outbox in
      let o = (publish_changeover_events env rotation v w3.outbox).1 in
      let scheduled = schedule_next_tasks_lem env up rotation window v o in
      (
        record w3 { outbox = (schedule_next_tasks env rotation window v o).1 },
        ground (arith, rotated, redis, published, scheduled),
        redis.2 ∙ same.0,
        record {
          stored = redis.3 ∙ rotated.1;
          polled = open_in_redis-IsPolled rotation window w2;
          scheduled =
              ap (λ r. r.1.tasks) scheduled
              ∙ ap
                  (λ tasks.
                    (tasks ++ enqueued env.queue (close_task env rotation window))
                    ++ enqueued env.queue (tick_task env rotation (v + 1)))
                  (kept ∙ ap (λ out. out.tasks) redis.1 ∙ same.2);
        },
      )

module _ {S D : Type 0} (c : Commands S) (f : Songs D) (env : Env) where
  -- What a tick at version `v` that goes through does.
  pub record Continues (payload : Dict Value) (w : World S D) (station : Station) (v : ℕ)
      : Type 0 where
    pub rotation : SongRotationResult
    pub window : VoteState
    pub after : World S D
    pub runs : tick c f env payload w ≡ (ok (done v), after)
    pub promotes : some rotation.vote_id ≡ station.next.vote_id
    pub now_playing : Station
    pub station_stored : after.station ≡ some now_playing
    pub versioned : now_playing.version ≡ some v
    pub is_open : window.status ≡ some "OPEN"
    pub named : window.vote_id ≡ some env.uuid
    pub offers : get_window_options env ≡ ok window.options
    pub follows : Follows c env rotation window v w after

  pub tick-Continues :
      (laws : IsLawful f) (payload : Dict Value) (w : World S D) (v : ℕ) (valid : IsValid f w)
      → IsUp env
      → IsNamed w.vote_state
      → validate_tick_version payload ≡ ok v
      → or_zero valid.station.version < v
      → Continues payload w valid.station v
  unfolding promoted build_vote
  tick-Continues laws payload w v valid up named validated newer =
      let rotates = rotate_song-Rotates laws env w v valid up.transaction newer in
      let rotation = rotates.result in
      let middle = rotates.after in
      let same_votes : middle.vote_state ≡ w.vote_state = ap (λ u. u.vote_state) rotates.rest in
      let (after, runs, same_station, follows) =
        after_rotation_continues c f env up v rotation middle
          (subst IsNamed (sym same_votes) named) in
      record {
        rotation = rotation;
        window =
            opened env up (next_version middle.vote_state)
              (rotation.duration_ms - vote_close_lead_seconds * 1000);
        after = after;
        runs = tick_rotates c f env payload w middle v rotation validated rotates.runs ∙ runs;
        promotes = rotates.promotes;
        now_playing = _;
        station_stored = same_station ∙ rotates.versioned;
        versioned = refl;
        is_open = refl;
        named = refl;
        offers = up.has_options;
        follows = record {
          stored = follows.stored;
          polled = follows.polled;
          scheduled =
              follows.scheduled
              ∙ ap
                  (λ u.
                    (u.outbox.tasks
                      ++ enqueued env.queue (
                          close_task env rotation (
                            opened env up (next_version middle.vote_state)
                              (rotation.duration_ms - vote_close_lead_seconds * 1000))))
                    ++ enqueued env.queue (tick_task env rotation (v + 1)))
                  rotates.rest;
        };
      }
