-- ===== src/Dispatch/Closing.antt =====
-- `_handle_close_event` (services/modal-dispatch-service/pulsefm_modal_dispatch_service/main.py): the lock,
-- and how often a song is generated.
use mathlib.Core.List.{◌++◌}
use pulse_fm.Base.{
  ◌≡◌, ◌⊎◌, inl, inr, refl, ap, sym, subst, ◌∙◌, String, Bool, true, false, List, [], ◌∷◌, arith,
  Bool-cases, Option-cases,
}
use pulse_fm.Base.Value.{ok, err, service_error}
use pulse_fm.Base.Action.{Result-cases}
use pulse_fm.Descriptors.{Descriptor}
use pulse_fm.Redis.{Commands}
use pulse_fm.Dispatch.Keys.{close_done_key, close_lock_key}
use pulse_fm.Dispatch.{
  ModalCall, min_containers, generate, Dispatcher, Env, Answer, done, already_processed,
  in_progress, skipped, ignored, check_listeners, check_done, acquire, scale_up, generation, holds,
  get_descriptor, has_active_listeners, is_close_done, mark_close_done, acquire_close_lock,
  release_close_lock, dispatch_modal_generation, scale_down, generate_song, with_lock, run_close,
}

-- The calls of one generated song.
abbrev pub one_song : Descriptor → String → List ModalCall
one_song descriptor vote_id = min_containers 1 ∷ generate descriptor vote_id ∷ min_containers 0 ∷ []

three :
    (calls : List ModalCall) (a b d : ModalCall)
    → ((calls ++ a ∷ []) ++ b ∷ []) ++ d ∷ [] ≡ calls ++ a ∷ b ∷ d ∷ []
three [] a b d = refl
three (x ∷ calls) a b d = ap (λ xs. x ∷ xs) (three calls a b d)

-- What a run with this answer has called: the calls of one song for `done`, nothing otherwise.
abbrev pub Calls : {S : Type 0} → Answer → String → String → Dispatcher S → Dispatcher S → Type 0
Calls done vote_id winner_option w w' =
    (descriptor : Descriptor) × (get_descriptor winner_option ≡ ok descriptor)
    × (w'.modal ≡ w.modal ++ one_song descriptor vote_id)
Calls _ vote_id winner_option w w' = w'.modal ≡ w.modal

Calls-kept :
    {S : Type 0} (answer : Answer) (vote_id winner_option : String) (v w v' w' : Dispatcher S)
    → v.modal ≡ w.modal
    → w'.modal ≡ v'.modal
    → Calls answer vote_id winner_option v v'
    → Calls answer vote_id winner_option w w'
Calls-kept done vote_id winner_option v w v' w' before after (descriptor, known, calls) =
    (descriptor, known, after ∙ calls ∙ ap (λ l. l ++ one_song descriptor vote_id) before)
Calls-kept already_processed vote_id winner_option v w v' w' before after calls =
    after ∙ calls ∙ before
Calls-kept in_progress vote_id winner_option v w v' w' before after calls = after ∙ calls ∙ before
Calls-kept skipped vote_id winner_option v w v' w' before after calls = after ∙ calls ∙ before
Calls-kept ignored vote_id winner_option v w v' w' before after calls = after ∙ calls ∙ before

module _ {S : Type 0} (c : Commands S) (env : Env) where
  pub has_active_listeners_reads :
      (w : Dispatcher S) → (b : Bool) × (has_active_listeners c env w ≡ (ok b, w))
  unfolding has_active_listeners
  has_active_listeners_reads w = elim (Bool-cases (env.up check_listeners)) [
    | inl up ↦ (holds (c.get w.redis env.heartbeat_active_key), ground arith)
    | inr down ↦ (false, ground arith)
  ]

  pub is_close_done_reads :
      (vote_id : String) (w : Dispatcher S)
      → (b : Bool) × (is_close_done c env vote_id w ≡ (ok b, w))
  unfolding is_close_done
  is_close_done_reads vote_id w = elim (Bool-cases (env.up check_done)) [
    | inl up ↦ (holds (c.get w.redis (close_done_key vote_id)), ground arith)
    | inr down ↦ (false, ground arith)
  ]

  mark_close_done_modal :
      (vote_id : String) (w : Dispatcher S)
      → ((mark_close_done c env vote_id w).0 ≡ ok tt)
        × ((mark_close_done c env vote_id w).1.modal ≡ w.modal)
  unfolding mark_close_done
  mark_close_done_modal vote_id w = (grind arith, grind arith)

  pub release_close_lock_modal :
      (vote_id : String) (w : Dispatcher S) → (release_close_lock c env vote_id w).1.modal ≡ w.modal
  unfolding release_close_lock
  release_close_lock_modal vote_id w = grind arith

  acquire_close_lock_modal :
      (vote_id : String) (w : Dispatcher S)
      → (b : Bool) × ((acquire_close_lock c env vote_id w).0 ≡ ok b)
        × ((acquire_close_lock c env vote_id w).1.modal ≡ w.modal)
  unfolding acquire_close_lock
  acquire_close_lock_modal vote_id w = elim (Bool-cases (env.up acquire)) [
    | inr down ↦ (false, ground arith, ground arith)
    | inl up ↦ elim (Option-cases (c.get w.redis (close_lock_key vote_id))) [
      | inl free ↦ (true, ground arith, ground arith)
      | inr (held, e) ↦ (false, ground arith, ground arith)
    ]
  ]

  pub scale_down_calls :
      (attempts : List Bool) (w : Dispatcher S)
      → (scale_down c env attempts w
          ≡ (ok tt, record w { modal = w.modal ++ min_containers 0 ∷ [] }))
        ⊎ (scale_down c env attempts w ≡ (err service_error, w))
  unfolding scale_down
  scale_down_calls [] w = inr refl
  scale_down_calls (true ∷ attempts) w = inl refl
  scale_down_calls (false ∷ attempts) w = scale_down_calls attempts w

  generate_song-Calls :
      (vote_id winner_option : String) (w : Dispatcher S) (answer : Answer)
      → (generate_song c env vote_id winner_option w).0 ≡ ok answer
      → (answer ≡ done)
        × Calls done vote_id winner_option w (generate_song c env vote_id winner_option w).1
  unfolding generate_song dispatch_modal_generation
  generate_song-Calls vote_id winner_option w answer e = elim (Bool-cases (env.up scale_up)) [
    | inr down ↦ absurd (ground arith)
    | inl up ↦ elim (Result-cases (get_descriptor winner_option)) [
      | inr (x, unknown) ↦ absurd (ground arith)
      | inl (descriptor, known) ↦ elim (Bool-cases (env.up generation)) [
        | inr fails ↦ absurd (ground arith)
        | inl runs ↦
            let warm : Dispatcher S = record w { modal = w.modal ++ min_containers 1 ∷ [] } in
            let sung : Dispatcher S = record w {
              modal = warm.modal ++ generate descriptor vote_id ∷ [];
            } in
            elim (scale_down_calls env.attempts sung) [
              | inr stuck ↦ absurd (ground arith)
              | inl cooled ↦
                  let marked =
                    mark_close_done_modal vote_id
                      (record w { modal = sung.modal ++ min_containers 0 ∷ [] }) in
                  (
                    ground (arith, marked),
                    (
                      descriptor,
                      known,
                      ground (
                        arith,
                        marked,
                        three w.modal (min_containers 1) (generate descriptor vote_id)
                            (min_containers 0),
                      ),
                    ),
                  )
            ]
      ]
    ]
  ]

  with_lock-Calls :
      (vote_id winner_option : String) (w : Dispatcher S) (answer : Answer)
      → (with_lock c env vote_id winner_option w).0 ≡ ok answer
      → Calls answer vote_id winner_option w (with_lock c env vote_id winner_option w).1
  unfolding with_lock
  with_lock-Calls vote_id winner_option w answer e =
      let (active, reads) = has_active_listeners_reads w in
      let marked = mark_close_done_modal vote_id w in
      elim (Bool-cases active) [
        | inl listeners ↦
            let same : with_lock c env vote_id winner_option w
                ≡ generate_song c env vote_id winner_option w =
              ground (arith, reads) in
            let (is_done, calls) =
              generate_song-Calls vote_id winner_option w answer (ap (λ r. r.0) (sym same) ∙ e) in
            subst (λ r. Calls answer vote_id winner_option w r.1) (sym same)
              (subst
                (λ a.
                  Calls a vote_id winner_option w (generate_song c env vote_id winner_option w).1)
                (sym is_done) calls)
        | inr nobody ↦
            let is_skipped : answer ≡ skipped = ground (arith, reads, marked) in
            subst (λ a. Calls a vote_id winner_option w (with_lock c env vote_id winner_option w).1)
              (sym is_skipped) (ground (arith, reads, marked))
      ]

  -- What a close event that is answered has called: for `done` the containers are raised to 1, one song
  -- is generated for the vote from the winner's descriptor, and the containers are set to 0; for any
  -- other answer nothing is called.
  pub run_close-Calls :
      (vote_id winner_option : String) (w : Dispatcher S) (answer : Answer)
      → (run_close c env vote_id winner_option w).0 ≡ ok answer
      → Calls answer vote_id winner_option w (run_close c env vote_id winner_option w).1
  unfolding run_close
  run_close-Calls vote_id winner_option w answer e =
      let (processed, reads) = is_close_done_reads vote_id w in
      let (acquired, tried, kept) = acquire_close_lock_modal vote_id w in
      let held = (acquire_close_lock c env vote_id w).1 in
      let locked = with_lock c env vote_id winner_option held in
      elim (Bool-cases processed) [
        | inl before ↦
            let is_answer : answer ≡ already_processed = ground (arith, reads) in
            subst (λ a. Calls a vote_id winner_option w (run_close c env vote_id winner_option w).1)
              (sym is_answer) (ground (arith, reads))
        | inr fresh ↦ elim (Bool-cases acquired) [
          | inr busy ↦
              let is_answer : answer ≡ in_progress = ground (arith, reads, tried) in
              subst
                (λ a. Calls a vote_id winner_option w (run_close c env vote_id winner_option w).1)
                (sym is_answer) (ground (arith, reads, tried, kept))
          | inl mine ↦
              let same : run_close c env vote_id winner_option w
                  ≡ (locked.0, (release_close_lock c env vote_id locked.1).1) =
                ground (arith, reads, tried) in
              subst (λ r. Calls answer vote_id winner_option w r.1) (sym same)
                (Calls-kept answer vote_id winner_option held w locked.1
                  (release_close_lock c env vote_id locked.1).1 kept
                  (release_close_lock_modal vote_id locked.1)
                  (with_lock-Calls vote_id winner_option held answer
                    (ap (λ r. r.0) (sym same) ∙ e)))
        ]
      ]
