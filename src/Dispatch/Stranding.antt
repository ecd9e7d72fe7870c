-- ===== src/Dispatch/Stranding.antt =====
-- `_handle_close_event` (services/modal-dispatch-service/pulsefm_modal_dispatch_service/main.py) where no song
-- can be generated behind the raised number of containers.
use pulse_fm.Base.{
  ◌≡◌, ◌≢◌, ◌⊎◌, inl, inr, max, String, true, false, none, some, [], ◌∷◌, arith, eq_iff,
}
use mathlib.Core.List.{◌++◌}
use pulse_fm.Base.Value.{Exception, ok, err, service_error}
use pulse_fm.Base.Action.{Result-cases}
use pulse_fm.Redis.{Commands, IsLawful, text}
use pulse_fm.Dispatch.Keys.{close_done_key, close_lock_key}
use pulse_fm.Dispatch.{
  min_containers, Dispatcher, Env, check_listeners, acquire, scale_up, generation, holds,
  get_descriptor, has_active_listeners, acquire_close_lock, dispatch_modal_generation,
  generate_song, with_lock, run_close,
}
use pulse_fm.Dispatch.Closing.{release_close_lock_modal}
use pulse_fm.Dispatch.Lock.{is_close_done_unmarked}

-- Nobody handles the vote yet, and there are listeners.
pub record IsDue {S : Type 0} (c : Commands S) (env : Env) (vote_id : String) (s : S) : Type 0 where
  pub unmarked : c.get s (close_done_key vote_id) ≡ none
  pub free : c.get s (close_lock_key vote_id) ≡ none
  pub listeners : holds (c.get s env.heartbeat_active_key) ≡ true
  pub other_key : close_lock_key vote_id ≢ env.heartbeat_active_key

-- Redis and the scaling of Modal answer.
pub record IsUp (env : Env) : Type 0 where
  pub checks_listeners : env.up check_listeners ≡ true
  pub acquires : env.up acquire ≡ true
  pub scales : env.up scale_up ≡ true

module _ {S : Type 0} {c : Commands S} (laws : IsLawful c) (env : Env) where
  dispatch_fails :
      (vote_id winner_option : String) (w : Dispatcher S)
      → ((x : Exception) × (get_descriptor winner_option ≡ err x)) ⊎ (env.up generation ≡ false)
      → (x : Exception) × (dispatch_modal_generation c env vote_id winner_option w ≡ (err x, w))
  unfolding dispatch_modal_generation
  dispatch_fails vote_id winner_option w (inl (x, unknown)) = (x, ground arith)
  dispatch_fails vote_id winner_option w (inr down) =
      elim (Result-cases (get_descriptor winner_option)) [
        | inl (descriptor, known) ↦ (service_error, ground arith)
        | inr (x, unknown) ↦ (x, ground arith)
      ]

  with_lock_fails :
      (vote_id winner_option : String) (w : Dispatcher S)
      → env.up check_listeners ≡ true
      → holds (c.get w.redis env.heartbeat_active_key) ≡ true
      → env.up scale_up ≡ true
      → ((x : Exception) × (get_descriptor winner_option ≡ err x)) ⊎ (env.up generation ≡ false)
      → (x : Exception) × (with_lock c env vote_id winner_option w
          ≡ (err x, record w { modal = w.modal ++ min_containers 1 ∷ [] }))
  unfolding with_lock generate_song has_active_listeners
  with_lock_fails vote_id winner_option w checks listeners scales fails =
      let (x, e) =
        dispatch_fails vote_id winner_option (record w { modal = w.modal ++ min_containers 1 ∷ [] })
          fails in
      (x, ground arith)

  acquires_free :
      (vote_id : String) (w : Dispatcher S)
      → env.up acquire ≡ true
      → c.get w.redis (close_lock_key vote_id) ≡ none
      → acquire_close_lock c env vote_id w ≡ (
        ok true,
        record w {
          redis =
              c.set w.redis
                (close_lock_key vote_id)
                (text "1")
                (some (max 1 env.close_lock_ttl_seconds));
        },
      )
  unfolding acquire_close_lock
  acquires_free vote_id w up free = ground arith

  -- Where a vote is due and no song can be generated, since the winner has no descriptor or Modal fails,
  -- the event raises with the containers raised to 1 as its only call: they are not set to 0 again.
  pub run_close_strands :
      (vote_id winner_option : String) (w : Dispatcher S)
      → IsUp env
      → IsDue c env vote_id w.redis
      → ((x : Exception) × (get_descriptor winner_option ≡ err x)) ⊎ (env.up generation ≡ false)
      → let (r, w') = run_close c env vote_id winner_option w in
        ((x : Exception) × (r ≡ err x)) × (w'.modal ≡ w.modal ++ min_containers 1 ∷ [])
  unfolding run_close
  run_close_strands vote_id winner_option w up due fails =
      let held : Dispatcher S = record w {
        redis =
            c.set w.redis (close_lock_key vote_id) (text "1")
              (some (max 1 env.close_lock_ttl_seconds));
      } in
      let (x, e) =
        with_lock_fails vote_id winner_option held up.checks_listeners
          (ground (
            arith,
            due.listeners,
            due.other_key,
            laws.get-set w.redis (close_lock_key vote_id) env.heartbeat_active_key (text "1")
                (some (max 1 env.close_lock_ttl_seconds)),
            eq_iff (close_lock_key vote_id) env.heartbeat_active_key,
          ))
          up.scales fails in
      let fresh = is_close_done_unmarked c env vote_id w due.unmarked in
      let acquired = acquires_free vote_id w up.acquires due.free in
      let cleaned =
        release_close_lock_modal c env vote_id
          (record held { modal = w.modal ++ min_containers 1 ∷ [] }) in
      ((x, ground (arith, fresh, acquired, e)), ground (arith, fresh, acquired, e, cleaned))
