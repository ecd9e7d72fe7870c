-- ===== src/Playback/Tick/Lost.antt =====
-- POST /tick (services/playback-service/pulsefm_playback_service/main.py) where the vote cannot be
-- opened behind the changeover.
use pulse_fm.Base.{
  ℕ, ◌≡◌, ◌⊎◌, inl, inr, Bool-cases, ◌∙◌, ap, refl, ◌<◌, String, true, false, Option, some, arith,
  ◌-◌, ◌*◌,
}
use pulse_fm.Base.Dict.{Dict}
use pulse_fm.Base.Value.{Value, Exception, http, service_error, ok, err}
use pulse_fm.Base.Action.{Action, Result-cases, ◌>>=◌, ◌>>◌}
use pulse_fm.Redis.{Commands}
use pulse_fm.Outbox.{Outbox}
use pulse_fm.Playback.{
  World, Env, Songs, IsLawful, Station, or_zero, run_transaction, publish_opened, write_opened,
}
use pulse_fm.Playback.Ids.{validate_tick_version, vote_close_lead_seconds}
use pulse_fm.Playback.Rotation.{SongRotationResult, promoted}
use pulse_fm.Playback.Rotation.Updates.{IsValid}
use pulse_fm.Playback.Rotation.Validity.{rotate_song-Rotates}
use pulse_fm.Playback.Votes.{
  rotate_vote, open_next_vote, set_current_state, close_if_open, next_version, publish_vote_event,
  get_window_options, get_current_state,
}
use pulse_fm.Playback.Votes.Keeping.{rotate_vote-Same}
use pulse_fm.Playback.Tick.{stale, after_rotation, tick}
use pulse_fm.Playback.Tick.Gate.{tick_stale, tick_rotates}
use pulse_fm.Outbox.PubSub.{publish_json, topic_path, resolve_project_id}

-- Firestore refuses the document of the new vote, or its event cannot be published.
abbrev pub CannotOpen : Env → Type 0
CannotOpen env = (env.up write_opened ≡ false) ⊎ (env.up publish_opened ≡ false)

abbrev Fails : {W A : Type 0} → Action W A → W → Type 0
Fails m w = (x : Exception) × ((m w).0 ≡ err x)

Fails-bind :
    {W A B : Type 0} (m : Action W A) (k : A → Action W B) (w : W)
    → ((a : A) (u : W) → Fails (k a) u)
    → Fails (m >>= k) w
Fails-bind m k w later = elim (Result-cases (m w).0) [
  | inr (x, e) ↦ (x, ground arith)
  | inl (a, e) ↦ let (x, e2) = later a (m w).1 in (x, ground arith)
]

publish_vote_event_refused :
    (env : Env) (event vote_id : String) (winner : Option String) (end_at : Option ℕ) (o : Outbox)
    → Fails (publish_vote_event env false event vote_id winner end_at) o
unfolding publish_vote_event publish_json topic_path resolve_project_id
publish_vote_event_refused env event vote_id winner end_at o = (service_error, ground arith)

module _ {S D : Type 0} (c : Commands S) (env : Env) (down : CannotOpen env) where
  open_next_vote-Fails :
      (version duration_ms : ℕ) (w : World S D) → Fails (open_next_vote c env version duration_ms) w
  unfolding open_next_vote set_current_state publish_vote_event publish_json topic_path
      resolve_project_id
  open_next_vote-Fails version duration_ms w = elim (Result-cases (get_window_options env)) [
    | inr (x, e) ↦ (x, ground arith)
    | inl (options, e) ↦ elim down [
      | inl no_write ↦ (service_error, ground arith)
      | inr no_event ↦ elim (Bool-cases (env.up write_opened)) [
        | inl up ↦ (service_error, ground arith)
        | inr no_write ↦ (service_error, ground arith)
      ]
    ]
  ]

  rotate_vote-Fails :
      (song_duration_ms : ℕ) (w : World S D) → Fails (rotate_vote c env song_duration_ms) w
  unfolding rotate_vote
  rotate_vote-Fails song_duration_ms w =
      Fails-bind (get_current_state c env)
        (λ state.
          close_if_open c env state
          >> open_next_vote c env (next_version state)
              (song_duration_ms - vote_close_lead_seconds * 1000))
        w
        (λ state u.
          Fails-bind (close_if_open c env state)
            (λ _.
              open_next_vote c env (next_version state)
                (song_duration_ms - vote_close_lead_seconds * 1000))
            u (λ _. open_next_vote-Fails _ _))

module _ {S D : Type 0} (c : Commands S) (f : Songs D) (env : Env) where
  after_rotation_lost :
      (v : ℕ) (rotation : SongRotationResult) (w : World S D)
      → CannotOpen env
      → after_rotation c f env v rotation w
        ≡ (err (http 500 "Failed to rotate vote"), (rotate_vote c env rotation.duration_ms w).1)
  unfolding after_rotation
  after_rotation_lost v rotation w down =
      let (x, failed) = rotate_vote-Fails c env down rotation.duration_ms w in ground arith

module _ {S D : Type 0} (c : Commands S) (f : Songs D) (env later : Env) where
  -- What a tick at version `v` leaves behind that could not open the next vote, and what the
  -- same tick does when it is delivered again.
  pub record Loses (payload : Dict Value) (w : World S D) (v : ℕ) : Type 0 where
    pub after : World S D
    pub fails : tick c f env payload w ≡ (err (http 500 "Failed to rotate vote"), after)
    pub station : Station
    pub stored : after.station ≡ some station
    pub versioned : station.version ≡ some v
    pub no_task : after.outbox.tasks ≡ w.outbox.tasks
    pub ignored : tick c f later payload after ≡ (ok (stale v), after)

  -- From a valid world, a tick of a newer version that runs the transaction but cannot write the new
  -- vote to Firestore, or cannot publish its event, answers 500 once the station has the new version, and creates no task;
  -- delivered again, when the transaction can run, it counts as stale and changes nothing, so that
  -- no next tick and no closing of the vote is ever scheduled by it.
  pub tick-Loses :
      (laws : IsLawful f) (payload : Dict Value) (w : World S D) (v : ℕ) (valid : IsValid f w)
      → validate_tick_version payload ≡ ok v
      → or_zero valid.station.version < v
      → env.up run_transaction ≡ true
      → CannotOpen env
      → later.up run_transaction ≡ true
      → Loses payload w v
  unfolding promoted
  tick-Loses laws payload w v valid validated newer up down up_later =
      let rotates = rotate_song-Rotates laws env w v valid up newer in
      let rotation = rotates.result in
      let middle = rotates.after in
      let after = (rotate_vote c env rotation.duration_ms middle).1 in
      let same = rotate_vote-Same c env rotation.duration_ms middle in
      let stored : after.station
          ≡ some (
              promoted env valid.station rotation.vote_id rotation.duration_ms
                (record {
                  id = rotation.next_vote_id;
                  duration = rotation.next_duration_ms;
                  stubbed = rotation.next_stubbed;
                })
                v) =
        same.0 ∙ rotates.versioned in
      record {
        after = after;
        fails =
            tick_rotates c f env payload w middle v rotation validated rotates.runs
            ∙ after_rotation_lost c f env v rotation middle down;
        station = _;
        stored = stored;
        versioned = refl;
        no_task = same.2 ∙ ap (λ u. u.outbox.tasks) rotates.rest;
        ignored = tick_stale c f later payload after _ v validated up_later stored (omega arith);
      }
