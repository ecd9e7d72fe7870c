-- ===== src/Dispatch/Events.antt =====
-- services/modal-dispatch-service/pulsefm_modal_dispatch_service/main.py: POST /events/vote and POST
-- /warmup.
use pulse_fm.Base.{ℕ, ◌-◌, ◌*◌, String, Bool, true, false, none, [], ◌∷◌, ◌==◌, if◌then◌else◌}
use pulse_fm.Base.Int.{ℤ, pos, negsuc}
use pulse_fm.Base.Value.{
  Value, null, str, int, obj, arr, Fields, member, Exception, http, Result, ok, err, value_error,
  type_error, int_of,
}
use pulse_fm.Base.Action.{Action, pure, raise, from_result, try_except, ◌>>=◌, ◌>>◌}
use pulse_fm.Outbox.{Outbox}
use pulse_fm.Outbox.PubSub.{decode_pubsub_json}
use pulse_fm.Outbox.Tasks.{enqueue_json_task_with_delay}
use pulse_fm.Redis.{Commands}
use pulse_fm.Dispatch.Keys.{warmup_url}
use pulse_fm.Dispatch.{
  Dispatcher, Env, Answer, done, skipped, ignored, scale_up, min_containers, calling, on_modal,
  required_text, has_active_listeners, handle_close_event,
}

unfoldable pub parse_end_at_ms : Value → Result ℤ
unfolding int_of
parse_end_at_ms null = err (value_error "endAt must be epoch milliseconds")
parse_end_at_ms (arr _) = err (value_error "endAt must be epoch milliseconds")
parse_end_at_ms (obj _) = err (value_error "endAt must be epoch milliseconds")
parse_end_at_ms value = int_of value

-- Microseconds from now to the warmup; a time that has passed gives 0.
warmup_delay : Env → ℤ → ℕ
warmup_delay env (pos end_at_ms) = (end_at_ms - env.warmup_lead_seconds * 1000 - env.now_ms) * 1000
warmup_delay env (negsuc _) = 0

module _ {S : Type 0} (c : Commands S) (env : Env) where
  on_outbox : {A : Type 0} → Action Outbox A → Action (Dispatcher S) A
  on_outbox m w = let (r, o) = m w.outbox in (r, record w { outbox = o })

  unfoldable pub enqueue_warmup : String → ℤ → Action (Dispatcher S) (Unit {0})
  unfolding on_outbox warmup_delay
  enqueue_warmup vote_id end_at_ms = do
    url ← from_result (warmup_url env.modal_dispatch_service_url)
    on_outbox (
        enqueue_json_task_with_delay env.queue env.modal_queue_name url
          (("voteId", str vote_id) ∷ ("endAt", int end_at_ms) ∷ []) (warmup_delay env end_at_ms)
          none true)
    pure tt

  -- `except (TypeError, ValueError): raise HTTPException(400)`; an OverflowError goes through.
  end_at_error : Exception → Exception
  end_at_error type_error = http 400 "endAt is required"
  end_at_error (value_error _) = http 400 "endAt is required"
  end_at_error e = e

  unfoldable pub handle_open_event : Fields → Action (Dispatcher S) Answer
  unfolding end_at_error
  handle_open_event message = do
    vote_id ← from_result (required_text (member "voteId" message) "voteId is required")
    end_at_ms ←
        try_except (from_result (parse_end_at_ms (member "endAt" message)))
          (λ e. raise (end_at_error e))
    active ← has_active_listeners c env
    (λ w. elim active [
      | false ↦ (ok skipped, w)
      | true ↦
          (try_except (enqueue_warmup vote_id end_at_ms)
                (λ _. raise (http 500 "Failed to enqueue warmup"))
              >> pure done)
            w
    ])

  is_event : Value → String → Bool
  is_event (str s) name = s == name
  is_event _ name = false

  -- POST /events/vote
  unfoldable pub vote_event : Fields → Action (Dispatcher S) Answer
  unfolding is_event
  vote_event payload = do
    message ← from_result (decode_pubsub_json env.codec payload)
    (λ w.
        if is_event (member "event" message) "OPEN"
        then handle_open_event message w
        else if is_event (member "event" message) "CLOSE"
        then handle_close_event c env message w
        else (ok ignored, w))

  -- POST /warmup
  unfoldable pub warmup : Fields → Action (Dispatcher S) Answer
  warmup payload = do
    vote_id ← from_result (required_text (member "voteId" payload) "voteId is required")
    active ← has_active_listeners c env
    (λ w. elim active [
      | false ↦ (ok skipped, w)
      | true ↦
          (try_except (calling c env scale_up (on_modal c env (min_containers 1)))
                (λ _. raise (http 500 "Failed to warm modal"))
              >> pure done)
            w
    ])
