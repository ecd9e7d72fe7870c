-- ===== src/Dispatch/Lock.antt =====
-- `_handle_close_event` (services/modal-dispatch-service/pulsefm_modal_dispatch_service/main.py): the marks in
-- Redis, the lock and the processed vote.
use pulse_fm.Base.{
  ◌≡◌, ◌≢◌, inl, inr, ap, sym, ◌∙◌, max, String, Bool, true, false, none, some, arith, eq_iff,
  eq_refl, Bool-cases, Option-cases,
}
use pulse_fm.Base.Text.{non_empty}
use pulse_fm.Base.Value.{ok}
use pulse_fm.Base.Action.{Action, ok_bind, pure, ◌>>◌}
use pulse_fm.Redis.{Commands, IsLawful, text}
use pulse_fm.Dispatch.Keys.{close_done_key, close_lock_key, done-ne-lock}
use pulse_fm.Dispatch.{
  min_containers, Dispatcher, Env, Answer, done, in_progress, on_modal, already_processed,
  check_done, acquire, mark_done, release, scale_up, holds, calling, is_close_done, mark_close_done,
  acquire_close_lock, release_close_lock, dispatch_modal_generation, scale_down, generate_song,
  with_lock, run_close,
}
use pulse_fm.Dispatch.Closing.{has_active_listeners_reads, is_close_done_reads}

module _ {S : Type 0} {c : Commands S} (laws : IsLawful c) (env : Env) where
  release_close_lock_frees :
      (vote_id : String) (w : Dispatcher S)
      → env.up release ≡ true
      → c.get (release_close_lock c env vote_id w).1.redis (close_lock_key vote_id) ≡ none
  unfolding release_close_lock
  release_close_lock_frees vote_id w up = ground (
    arith,
    laws.get-del w.redis (close_lock_key vote_id) (close_lock_key vote_id),
    eq_refl (close_lock_key vote_id),
  )

  release_close_lock_keeps :
      (vote_id : String) (w : Dispatcher S)
      → c.get (release_close_lock c env vote_id w).1.redis (close_done_key vote_id)
        ≡ c.get w.redis (close_done_key vote_id)
  unfolding release_close_lock
  release_close_lock_keeps vote_id w =
      let lock-ne-done : close_lock_key vote_id ≢ close_done_key vote_id =
        λ e. done-ne-lock vote_id vote_id (sym e) in
      ground (
        arith,
        laws.get-del w.redis (close_lock_key vote_id) (close_done_key vote_id),
        eq_iff (close_lock_key vote_id) (close_done_key vote_id),
        lock-ne-done,
      )

  -- The lock was not free, or it is taken, or Redis did not answer.
  acquire_close_lock_refused :
      (vote_id : String) (w : Dispatcher S)
      → (b : Bool) × ((acquire_close_lock c env vote_id w).0 ≡ ok b)
        × ((b ≡ false) → (acquire_close_lock c env vote_id w).1 ≡ w)
  unfolding acquire_close_lock
  acquire_close_lock_refused vote_id w = elim (Bool-cases (env.up acquire)) [
    | inr down ↦ (false, ground arith, λ e. ground arith)
    | inl up ↦ elim (Option-cases (c.get w.redis (close_lock_key vote_id))) [
      | inl free ↦ (true, ground arith, λ e. ground arith)
      | inr (held, e) ↦ (false, ground arith, λ e2. ground arith)
    ]
  ]

  -- Where the lock of a vote is free and Redis answers the release, it is free again however the event
  -- ends, exceptions included.
  pub run_close_releases :
      (vote_id winner_option : String) (w : Dispatcher S)
      → env.up release ≡ true
      → c.get w.redis (close_lock_key vote_id) ≡ none
      → c.get (run_close c env vote_id winner_option w).1.redis (close_lock_key vote_id) ≡ none
  unfolding run_close
  run_close_releases vote_id winner_option w up free =
      let (processed, reads) = is_close_done_reads c env vote_id w in
      let (acquired, tried, kept) = acquire_close_lock_refused vote_id w in
      let locked = with_lock c env vote_id winner_option (acquire_close_lock c env vote_id w).1 in
      elim (Bool-cases processed) [
        | inl before ↦ ground (arith, reads)
        | inr fresh ↦ elim (Bool-cases acquired) [
          | inr busy ↦ ground (arith, reads, tried, kept busy)
          | inl mine ↦ ground (arith, reads, tried, release_close_lock_frees vote_id locked.1 up)
        ]
      ]

  mark_close_done_marks :
      (vote_id : String) (w : Dispatcher S)
      → env.up mark_done ≡ true
      → c.get (mark_close_done c env vote_id w).1.redis (close_done_key vote_id) ≡ some (text "1")
  unfolding mark_close_done
  mark_close_done_marks vote_id w up = ground (
    arith,
    laws.get-set w.redis (close_done_key vote_id) (close_done_key vote_id) (text "1")
        (some (max 1 env.close_done_ttl_seconds)),
    eq_refl (close_done_key vote_id),
  )

  mark_close_done_ok :
      (vote_id : String) (w : Dispatcher S) → (mark_close_done c env vote_id w).0 ≡ ok tt
  unfolding mark_close_done
  mark_close_done_ok vote_id w = grind arith

  generate_song_marks :
      (vote_id winner_option : String) (w : Dispatcher S) (answer : Answer)
      → env.up mark_done ≡ true
      → (generate_song c env vote_id winner_option w).0 ≡ ok answer
      → c.get (generate_song c env vote_id winner_option w).1.redis (close_done_key vote_id)
        ≡ some (text "1")
  unfolding generate_song
  generate_song_marks vote_id winner_option w answer up e =
      let marks : Action (Dispatcher S) Answer = mark_close_done c env vote_id >> pure done in
      let cools : Action (Dispatcher S) Answer = scale_down c env env.attempts >> marks in
      let sings : Action (Dispatcher S) Answer =
        dispatch_modal_generation c env vote_id winner_option >> cools in
      let warms = calling c env scale_up (on_modal c env (min_containers 1)) in
      let (u1, _, runs1) = ok_bind warms (λ _. sings) w e in
      let w1 = (warms w).1 in
      let (u2, _, runs2) =
        ok_bind (dispatch_modal_generation c env vote_id winner_option) (λ _. cools) w1
          (ap (λ r. r.0) (sym runs1) ∙ e) in
      let w2 = (dispatch_modal_generation c env vote_id winner_option w1).1 in
      let (u3, _, runs3) =
        ok_bind (scale_down c env env.attempts) (λ _. marks) w2
          (ap (λ r. r.0) (sym (runs1 ∙ runs2)) ∙ e) in
      let w3 = (scale_down c env env.attempts w2).1 in
      ap (λ r. c.get r.1.redis (close_done_key vote_id)) (runs1 ∙ runs2 ∙ runs3)
      ∙ ground (arith, mark_close_done_marks vote_id w3 up, mark_close_done_ok vote_id w3)

  with_lock_marks :
      (vote_id winner_option : String) (w : Dispatcher S) (answer : Answer)
      → env.up mark_done ≡ true
      → (with_lock c env vote_id winner_option w).0 ≡ ok answer
      → c.get (with_lock c env vote_id winner_option w).1.redis (close_done_key vote_id)
        ≡ some (text "1")
  unfolding with_lock
  with_lock_marks vote_id winner_option w answer up e =
      let (active, reads) = has_active_listeners_reads c env w in
      elim (Bool-cases active) [
        | inl listeners ↦
            let same : with_lock c env vote_id winner_option w
                ≡ generate_song c env vote_id winner_option w =
              ground (arith, reads) in
            ap (λ r. c.get r.1.redis (close_done_key vote_id)) same
            ∙ generate_song_marks vote_id winner_option w answer up (ap (λ r. r.0) (sym same) ∙ e)
        | inr nobody ↦
            ground (arith, reads, mark_close_done_marks vote_id w up, mark_close_done_ok vote_id w)
      ]

module _ {S : Type 0} (c : Commands S) (env : Env) where
  pub is_close_done_unmarked :
      (vote_id : String) (w : Dispatcher S)
      → c.get w.redis (close_done_key vote_id) ≡ none
      → is_close_done c env vote_id w ≡ (ok false, w)
  unfolding is_close_done holds
  is_close_done_unmarked vote_id w unmarked = ground arith

  run_close_marked :
      (vote_id winner_option : String) (w : Dispatcher S)
      → env.up check_done ≡ true
      → c.get w.redis (close_done_key vote_id) ≡ some (text "1")
      → run_close c env vote_id winner_option w ≡ (ok already_processed, w)
  unfolding run_close is_close_done holds non_empty
  run_close_marked vote_id winner_option w up marked = ground arith

module _ {S : Type 0} {c : Commands S} (laws : IsLawful c) (env later : Env) where
  run_close_marks :
      (vote_id winner_option : String) (w : Dispatcher S) (answer : Answer)
      → env.up mark_done ≡ true
      → c.get w.redis (close_done_key vote_id) ≡ none
      → (run_close c env vote_id winner_option w).0 ≡ ok answer
      → answer ≢ in_progress
      → c.get (run_close c env vote_id winner_option w).1.redis (close_done_key vote_id)
        ≡ some (text "1")
  unfolding run_close
  run_close_marks vote_id winner_option w answer up unmarked e finished =
      let (acquired, tried, kept) = acquire_close_lock_refused laws env vote_id w in
      let locked = with_lock c env vote_id winner_option (acquire_close_lock c env vote_id w).1 in
      let fresh = is_close_done_unmarked c env vote_id w unmarked in
      elim (Bool-cases acquired) [
        | inr busy ↦ absurd (finished (ground (arith, fresh, tried)))
        | inl mine ↦
            let returned : locked.0 ≡ ok answer = ground (arith, fresh, tried) in
            ground (
              arith,
              fresh,
              tried,
              release_close_lock_keeps laws env vote_id locked.1,
              with_lock_marks laws env vote_id winner_option (acquire_close_lock c env vote_id w).1
                  answer up returned,
            )
      ]

  -- A close event that has generated a song, or was skipped for want of listeners, and whose vote Redis
  -- has marked, is answered as already processed when it comes again and Redis answers the check, and
  -- nothing changes.
  pub run_close_again :
      (vote_id winner_option : String) (w : Dispatcher S) (answer : Answer)
      → env.up mark_done ≡ true
      → c.get w.redis (close_done_key vote_id) ≡ none
      → (run_close c env vote_id winner_option w).0 ≡ ok answer
      → answer ≢ in_progress
      → later.up check_done ≡ true
      → let w' = (run_close c env vote_id winner_option w).1 in
        run_close c later vote_id winner_option w' ≡ (ok already_processed, w')
  run_close_again vote_id winner_option w answer up unmarked e finished reads_later =
      run_close_marked c later vote_id winner_option (run_close c env vote_id winner_option w).1
        reads_later (run_close_marks vote_id winner_option w answer up unmarked e finished)
