-- ===== src/Dispatch.antt =====
-- services/modal-dispatch-service/pulsefm_modal_dispatch_service/main.py: the events of a vote, which
-- warm the music generator up and run it. The generator on Modal is a list of the calls that it took.
pub mod Keys
pub mod Events
pub mod Closing
pub mod Lock
pub mod Stranding
pub mod Tests
use mathlib.Core.List.{◌++◌}
use pulse_fm.Base.{
  ℕ, zero, suc, ◌-◌, ◌*◌, max, String, Bool, true, false, not, Option, none, some, List, [], ◌∷◌,
  ◌==◌, is_some, or_else, if◌then◌else◌,
}
use pulse_fm.Base.Int.{ℤ, pos, negsuc}
use pulse_fm.Base.Dict.{Dict, lookup}
use pulse_fm.Base.Text.{non_empty, has_content, rstrip_slash}
use pulse_fm.Base.Value.{
  Value, null, str, int, obj, arr, Fields, member, Exception, http, Result, ok, err, value_error,
  service_error, type_error, int_of,
}
use pulse_fm.Base.Action.{Action, pure, gets, raise, from_result, raise_if, try_except, ◌>>=◌, ◌>>◌}
use pulse_fm.Descriptors.{Descriptor, descriptors}
use pulse_fm.Outbox.{Outbox}
use pulse_fm.Outbox.PubSub.{Codec, decode_pubsub_json}
use pulse_fm.Outbox.Tasks.{Queue, enqueue_json_task_with_delay}
use pulse_fm.Redis.{Stored, json, text, Commands}
use pulse_fm.Dispatch.Keys.{close_done_key, close_lock_key, warmup_url}

-- A call of the generator: the number of containers that stay up, or a song for a vote.
pub data ModalCall : Type 0 where
  min_containers : ℕ → ModalCall
  generate : Descriptor → String → ModalCall

pub record Dispatcher (S : Type 0) : Type 0 where
  pub redis : S
  pub outbox : Outbox
  pub modal : List ModalCall

-- The calls of Redis and Modal, each of which may fail on its own.
pub data Site : Type 0 where
  check_listeners check_done acquire mark_done release scale_up generation : Site

-- The settings of services/modal-dispatch-service/pulsefm_modal_dispatch_service/config.py, the clients,
-- the clock, and `attempts`: how the attempts to scale down go that start before the deadline.
pub record Env : Type 0 where
  pub modal_queue_name : String
  pub modal_dispatch_service_url : String
  pub heartbeat_active_key : String
  pub warmup_lead_seconds : ℕ
  pub close_done_ttl_seconds : ℕ
  pub close_lock_ttl_seconds : ℕ
  pub queue : Queue
  pub codec : Codec
  pub now_ms : ℕ
  pub up : Site → Bool
  pub attempts : List Bool

-- What the handlers answer.
pub data Answer : Type 0 where
  done already_processed in_progress skipped ignored : Answer

-- `isinstance(value, str) and value.strip()`, else the detail.
unfoldable pub required_text : Value → String → Result String
unfolding has_content
required_text value detail = elim value [
  | str s ↦ if has_content s then ok s else err (http 400 detail)
  | _ ↦ err (http 400 detail)
]

unfoldable pub get_descriptor : String → Result Descriptor
unfolding lookup
get_descriptor winner_option = elim (lookup winner_option descriptors) [
  | none ↦ err (value_error "Unknown winner option")
  | some descriptor ↦ ok descriptor
]

-- `bool(value)` of a stored text.
unfoldable pub holds : Option Stored → Bool
unfolding non_empty
holds none = false
holds (some (text s)) = non_empty s
holds (some (json _)) = true

module _ {S : Type 0} (c : Commands S) (env : Env) where
  -- A call at `site` that fails with no effect.
  abbrev pub calling : {A : Type 0} → Site → Action (Dispatcher S) A → Action (Dispatcher S) A
  calling site m w = elim (env.up site) [ true ↦ m w | false ↦ (err service_error, w) ]

  -- `try: return bool(m)`, `except Exception: return False`
  abbrev pub or_false : Action (Dispatcher S) Bool → Action (Dispatcher S) Bool
  or_false m = try_except m (λ _. pure false)

  unfoldable pub has_active_listeners : Action (Dispatcher S) Bool
  has_active_listeners =
      or_false (calling check_listeners (gets λ w. holds (c.get w.redis env.heartbeat_active_key)))

  unfoldable pub is_close_done : String → Action (Dispatcher S) Bool
  is_close_done vote_id =
      or_false (calling check_done (gets λ w. holds (c.get w.redis (close_done_key vote_id))))

  unfoldable pub mark_close_done : String → Action (Dispatcher S) (Unit {0})
  mark_close_done vote_id =
      try_except
        (calling mark_done (λ w. (
          ok tt,
          record w {
            redis =
                c.set w.redis (close_done_key vote_id) (text "1")
                  (some (max 1 env.close_done_ttl_seconds));
          },
        )))
        (λ _. pure tt)

  -- SET with NX and EX.
  set_if_absent : String → ℕ → Action (Dispatcher S) Bool
  set_if_absent key ttl_seconds w = elim (c.get w.redis key) [
    | some _ ↦ (ok false, w)
    | none ↦ (ok true, record w { redis = c.set w.redis key (text "1") (some ttl_seconds) })
  ]

  unfoldable pub acquire_close_lock : String → Action (Dispatcher S) Bool
  unfolding set_if_absent
  acquire_close_lock vote_id =
      or_false (
        calling acquire (set_if_absent (close_lock_key vote_id) (max 1 env.close_lock_ttl_seconds)))

  unfoldable pub release_close_lock : String → Action (Dispatcher S) (Unit {0})
  release_close_lock vote_id =
      try_except
        (calling release
          (λ w. (ok tt, record w { redis = c.del w.redis (close_lock_key vote_id) })))
        (λ _. pure tt)

  -- A call that Modal takes.
  abbrev pub on_modal : ModalCall → Action (Dispatcher S) (Unit {0})
  on_modal call w = (ok tt, record w { modal = w.modal ++ call ∷ [] })

  unfoldable pub dispatch_modal_generation : String → String → Action (Dispatcher S) (Unit {0})
  dispatch_modal_generation vote_id winner_option = do
    descriptor ← from_result (get_descriptor winner_option)
    calling generation (on_modal (generate descriptor vote_id))

  -- The attempts up to the deadline; the last error, or the RuntimeError for no attempt, is raised.
  unfoldable pub scale_down : List Bool → Action (Dispatcher S) (Unit {0})
  scale_down [] w = (err service_error, w)
  scale_down (true ∷ _) w = on_modal (min_containers 0) w
  scale_down (false ∷ attempts) w = scale_down attempts w

  -- The body of `try` in `_handle_close_event`.
  unfoldable pub generate_song : String → String → Action (Dispatcher S) Answer
  generate_song vote_id winner_option = do
    calling scale_up (on_modal (min_containers 1))
    dispatch_modal_generation vote_id winner_option
    scale_down env.attempts
    mark_close_done vote_id
    pure done

  unfoldable pub with_lock : String → String → Action (Dispatcher S) Answer
  with_lock vote_id winner_option = do
    active ← has_active_listeners
    (λ w. elim active [
      | true ↦ generate_song vote_id winner_option w
      | false ↦ (mark_close_done vote_id >> pure skipped) w
    ])

  -- `try: m`, `finally: cleanup`, for a cleanup that raises nothing.
  abbrev pub try_finally :
      {A : Type 0}
      → Action (Dispatcher S) A
      → Action (Dispatcher S) (Unit {0})
      → Action (Dispatcher S) A
  try_finally m cleanup w = let (r, w') = m w in (r, (cleanup w').1)

  unfoldable pub run_close : String → String → Action (Dispatcher S) Answer
  run_close vote_id winner_option = do
    processed ← is_close_done vote_id
    (λ w. elim processed [
      | true ↦ (ok already_processed, w)
      | false ↦
          (acquire_close_lock vote_id >>= λ acquired. λ u. elim acquired [
            | true ↦ try_finally (with_lock vote_id winner_option) (release_close_lock vote_id) u
            | false ↦ (ok in_progress, u)
          ])
            w
    ])

  unfoldable pub handle_close_event : Fields → Action (Dispatcher S) Answer
  handle_close_event message = do
    vote_id ← from_result (required_text (member "voteId" message) "voteId is required")
    winner_option ←
        from_result (required_text (member "winnerOption" message) "winnerOption is required")
    run_close vote_id winner_option
