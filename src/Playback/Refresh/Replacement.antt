-- ===== src/Playback/Refresh/Replacement.antt =====
-- POST /next/refresh (services/playback-service/pulsefm_playback_service/main.py) keeps to the
-- invariant of stations/main and songs/*.
use pulse_fm.Base.{
  ◌≡◌, ◌⊎◌, ◌∙◌, sym, subst, inl, inr, refl, String, Bool, true, false, Option, none, some, arith,
  eq_iff, Bool-cases, Option-cases,
}
use pulse_fm.Base.Value.{ok}
use pulse_fm.Base.Action.{raise, pure, try_except, try_except-ok, >>=-ok, ◌>>◌}
use pulse_fm.Redis.{Commands}
use pulse_fm.Redis.Playback.{is_text-true}
use pulse_fm.Playback.{
  World, Env, Song, Songs, Station, IsReady, IsLawful, or_zero, run_transaction, calling,
  calling_up,
}
use pulse_fm.Playback.Rotation.{
  Candidate, first_candidate, select_ready_song_candidate, update_status, mark_played, mark_queued,
  promoted, as_server_error,
}
use pulse_fm.Playback.Rotation.Candidates.{first_candidate_sound}
use pulse_fm.Playback.Rotation.Updates.{HasStub, IsNext, IsValid, Choice, stub_kept, rotated-IsNext}
use pulse_fm.Playback.Votes.Keeping.{publish_json-tasks}
use pulse_fm.Playback.Refresh.{
  Refreshed, keep_next, with_next, replace_stub, refresh_txn, refresh_next, reconcile,
  announce_next, refresh_next_song, stub_is_next, publish_playback_event,
}

module _ {D : Type 0} (f : Songs D) where
  chosen_from :
      (current : Option String) (songs : D) (candidate : Candidate)
      → select_ready_song_candidate f current songs ≡ some candidate
      → first_candidate current (f.ready songs) ≡ some candidate
  unfolding select_ready_song_candidate
  chosen_from current songs candidate e = e

  queues :
      (songs : D) (candidate : Candidate) (song : Song)
      → f.get songs candidate.id ≡ some song
      → update_status f candidate.id "queued" songs
        ≡ ok (f.put songs candidate.id (record song { status = some "queued" }))
  unfolding update_status
  queues songs candidate song stored = ground arith

  marks :
      (songs songs' : D) (candidate : Candidate)
      → candidate.stubbed ≡ false
      → update_status f candidate.id "queued" songs ≡ ok songs'
      → mark_queued f candidate songs ≡ ok songs'
  unfolding mark_queued
  marks songs songs' candidate real e = ground arith

  plays_stub :
      (id : String) (songs : D) → some id ≡ some "stubbed" → mark_played f id songs ≡ ok songs
  unfolding mark_played
  plays_stub id songs e = ground (arith, eq_iff id "stubbed")

module _ {S D : Type 0} (c : Commands S) (f : Songs D) (env : Env) where
  -- What a refresh does to a world whose station is `station`: the station keeps everything but its
  -- next song, and that too unless it is the stub.
  pub record Refreshes (w : World S D) (station : Station) : Type 0 where
    pub result : Refreshed
    pub after : World S D
    pub runs : refresh_next_song c f env w ≡ (ok result, after)
    pub valid : IsValid f after
    pub kept : record (valid.station) { next = station.next } ≡ station
    pub replaces :
        (station.next.vote_id ≡ some "stubbed")
        ⊎ ((valid.station ≡ station) × (after.songs ≡ w.songs))
    pub same_vote : after.vote_state ≡ w.vote_state
    pub same_tasks : after.outbox.tasks ≡ w.outbox.tasks

  -- The same for the transaction alone.
  record Replaces (w : World S D) (station : Station) : Type 0 where
    result : Refreshed
    station' : Station
    songs : D
    runs : refresh_txn c f env w ≡ (ok result, record w { station = some station'; songs = songs })
    stub : HasStub f songs
    next : IsNext f station' songs
    kept : record station' { next = station.next } ≡ station
    replaces : (station.next.vote_id ≡ some "stubbed") ⊎ ((station' ≡ station) × (songs ≡ w.songs))

  announce_next_same :
      (result : Refreshed) (changed : Bool) (w : World S D)
      → let w' = (announce_next c f env result changed w).1 in
        (w'.station ≡ w.station)
        × (w'.songs ≡ w.songs)
        × (w'.vote_state ≡ w.vote_state)
        × (w'.outbox.tasks ≡ w.outbox.tasks)
  unfolding announce_next publish_playback_event
  announce_next_same result false w = (refl, refl, refl, refl)
  announce_next_same result true w =
      (refl, refl, refl, publish_json-tasks env.environment_project _ _ _ _ w.outbox)

  reconcile_tried :
      (result : Refreshed) (w : World S D)
      → let r = try_except (reconcile c f env result) (λ _. pure tt) w in
        (r.0 ≡ ok tt)
        × (r.1.station ≡ w.station)
        × (r.1.songs ≡ w.songs)
        × (r.1.vote_state ≡ w.vote_state)
        × (r.1.outbox.tasks ≡ w.outbox.tasks)
  unfolding reconcile
  reconcile_tried result w = grind (arith, announce_next_same)

  refresh_txn-Replaces :
      (laws : IsLawful f) (w : World S D) (valid : IsValid f w) → Replaces w valid.station
  unfolding refresh_txn replace_stub keep_next with_next promoted
  refresh_txn-Replaces laws w valid = elim (Bool-cases (stub_is_next valid.station)) [
    | inr other ↦ record {
      result = record {
        action = "noop";
        reason = some "next_not_stubbed";
        vote_id = valid.station.next.vote_id;
        duration_ms = some valid.next.duration;
        version = or_zero valid.station.version;
      };
      station' = valid.station;
      songs = w.songs;
      runs = ground (arith, valid.found, other, valid.next.timed);
      stub = valid.stub;
      next = valid.next;
      kept = refl;
      replaces = inr (refl, refl);
    }
    | inl is_stub ↦
        let named : valid.station.next.vote_id ≡ some "stubbed" =
          is_text-true valid.station.next.vote_id "stubbed" is_stub in
        elim (Option-cases (select_ready_song_candidate f valid.station.vote_id w.songs)) [
          | inl none_ready ↦ record {
            result = record {
              action = "noop";
              reason = some "no_ready_song";
              vote_id = valid.station.next.vote_id;
              duration_ms = none;
              version = or_zero valid.station.version;
            };
            station' = valid.station;
            songs = w.songs;
            runs = ground (arith, valid.found, is_stub, none_ready);
            stub = valid.stub;
            next = valid.next;
            kept = refl;
            replaces = inl named;
          }
          | inr (candidate, chosen) ↦
              let (song, (stored, ready), real, _, _) =
                first_candidate_sound (IsReady f w.songs) valid.station.vote_id (f.ready w.songs)
                  candidate (laws.ready-sound w.songs)
                  (chosen_from f valid.station.vote_id w.songs candidate chosen) in
              let songs = f.put w.songs candidate.id (record song { status = some "queued" }) in
              let updated = queues f w.songs candidate song stored in
              let choice : Choice laws w.songs candidate = inr (song, real, stored, ready) in
              let was_played = plays_stub f valid.next.id w.songs (sym valid.next.named ∙ named) in
              let was_queued = marks f w.songs songs candidate real updated in
              let next =
                rotated-IsNext laws valid.station w.songs w.songs songs candidate valid.stub
                  valid.next choice was_played was_queued env candidate.duration 0 in
              record {
                result = record {
                  action = "updated";
                  reason = none;
                  vote_id = some candidate.id;
                  duration_ms = some candidate.duration;
                  version = or_zero valid.station.version;
                };
                station' = with_next c f env valid.station candidate;
                songs = songs;
                runs = ground (arith, valid.found, is_stub, chosen, updated);
                stub =
                    stub_kept laws valid.station w.songs w.songs songs candidate valid.stub
                      valid.next choice was_played was_queued;
                next = record {
                  id = next.id;
                  duration = next.duration;
                  named = next.named;
                  timed = next.timed;
                  waits = next.waits;
                  only = next.only;
                };
                kept = refl;
                replaces = inl named;
              }
        ]
  ]

  refresh_next_runs :
      (w w' : World S D) (result : Refreshed)
      → env.up run_transaction ≡ true
      → refresh_txn c f env w ≡ (ok result, w')
      → refresh_next c f env w ≡ (ok result, w')
  unfolding refresh_next
  refresh_next_runs w w' result up e =
      try_except-ok (calling env run_transaction (refresh_txn c f env))
        (λ x. raise (as_server_error "Failed to refresh next song" x))
        (calling_up env run_transaction (refresh_txn c f env) up e)

  refresh_next_song_runs :
      (w w' : World S D) (result : Refreshed)
      → refresh_next c f env w ≡ (ok result, w')
      → refresh_next_song c f env w
        ≡ (ok result, (try_except (reconcile c f env result) (λ _. pure tt) w').1)
  unfolding refresh_next_song
  refresh_next_song_runs w w' result e =
      let done = reconcile_tried result w' in
      >>=-ok (refresh_next c f env) (λ r. try_except (reconcile c f env r) (λ _. pure tt) >> pure r)
        e
      ∙ ground (arith, done.0)

  -- From a valid world a refresh cannot fail while Firestore answers, whatever Redis and Pub/Sub do:
  -- it keeps the invariant, the vote and the tasks, and of the station everything but the next song;
  -- where the next song is not the stub, it keeps the whole station and the songs.
  pub refresh_next_song-Refreshes :
      (laws : IsLawful f) (w : World S D) (valid : IsValid f w)
      → env.up run_transaction ≡ true
      → Refreshes w valid.station
  refresh_next_song-Refreshes laws w valid up =
      let r = refresh_txn-Replaces laws w valid in
      let middle : World S D = record w { station = some r.station'; songs = r.songs } in
      let tried = reconcile_tried r.result middle in
      record {
        result = r.result;
        after = (try_except (reconcile c f env r.result) (λ _. pure tt) middle).1;
        runs =
            refresh_next_song_runs w middle r.result
              (refresh_next_runs w middle r.result up r.runs);
        valid = record {
          station = r.station';
          found = tried.1;
          stub = subst (HasStub f) (sym tried.2) r.stub;
          next = subst (IsNext f r.station') (sym tried.2) r.next;
        };
        kept = r.kept;
        replaces = elim r.replaces [
          | inl stub ↦ inl stub
          | inr (same, songs) ↦ inr (same, tried.2 ∙ songs)
        ];
        same_vote = tried.3;
        same_tasks = tried.4;
      }
