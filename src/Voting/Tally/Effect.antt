-- ===== src/Voting/Tally/Effect.antt =====
-- What any call of tally-function can do to Redis (functions/tally-function/main.py).
use pulse_fm.Base.{
  ◌≡◌, ◌∙◌, ap, refl, String, Bool, true, false, not, ◌&&◌, Option, none, some, is_some,
  Option-cases, ◌⊎◌, arith, ◌==◌, eq_iff, if◌then◌else◌, Bool-cases, inl, inr,
}
use pulse_fm.Base.Value.{
  Value, null, str, obj, Fields, end, field, attribute_error, Result, ok, err, truthy,
}
use pulse_fm.Redis.{Commands, hget}
use pulse_fm.Redis.Keys.{poll_tally_key}
use pulse_fm.Redis.Playback.{get_playback_current_snapshot}
use pulse_fm.Redis.Poll.{record_vote_atomic}
use pulse_fm.Base.Action.{Result-cases}
use pulse_fm.Voting.{Backend, member, equals}
use pulse_fm.Voting.Tally.{
  Request, Response, Env, success, current_vote_id, tally_function, tally_redis, Outcome, text_of,
  count_vote, tally_fields, reply, added, duplicate, vote_not_open, invalid_option,
}

module _ {S : Type 0} (c : Commands S) (env : Env) where
  -- The one way in which a call can change Redis: the script for the poll that is current, for an
  -- option that the poll has.
  abbrev pub Counts : S → S → Type 0
  Counts s s' =
      (v x o : String) × (current_vote_id (get_playback_current_snapshot c s) ≡ ok (some v))
      × (is_some (hget c s (poll_tally_key v) o) ≡ true)
      × (s' ≡ (record_vote_atomic c v x o s).1)

  count_vote_effect :
      (v : String) (session_id option : Value) (w : Backend S)
      → current_vote_id (get_playback_current_snapshot c w.redis) ≡ ok (some v)
      → let w' = (count_vote c env v session_id option w).1 in
        (w'.redis ≡ w.redis) ⊎ Counts w.redis w'.redis
  unfolding count_vote
  count_vote_effect v session_id option w current = elim (Option-cases (env.encode option)) [
    | inl e ↦ inl (ground arith)
    | inr (o, e) ↦ elim (Bool-cases (is_some (hget c w.redis (poll_tally_key v) o))) [
      | inl known ↦ elim (Option-cases (env.encode session_id)) [
        | inl e' ↦ inl (ground arith)
        | inr (x, e') ↦ inr (v, x, o, current, known, ground arith)
      ]
      | inr unknown ↦ inl (ground arith)
    ]
  ]

  equals-text :
      (o : Option String) (value : Value)
      → equals o value ≡ true
      → truthy value ≡ true
      → (v : String) × (o ≡ some v) × (text_of value ≡ v)
  unfolding equals truthy text_of
  equals-text (some s) (str t) e h = (s, refl, ground (arith, eq_iff s t))
  equals-text none null e h = cc
  equals-text none (str t) e h = cc
  equals-text none _ e h = cc
  equals-text (some s) null e h = cc
  equals-text (some s) _ e h = cc

  tally_redis_effect :
      (vote_id session_id option : Value) (w : Backend S)
      → truthy vote_id ≡ true
      → let w' = (tally_redis c env vote_id session_id option w).1 in
        (w'.redis ≡ w.redis) ⊎ Counts w.redis w'.redis
  unfolding tally_redis
  tally_redis_effect vote_id session_id option w named = elim (Bool-cases env.redis_up) [
    | inr down ↦ inl (ground arith)
    | inl up ↦ elim (Result-cases (current_vote_id (get_playback_current_snapshot c w.redis))) [
      | inr (e, raised) ↦ inl (ground arith)
      | inl (current, found) ↦ elim (Bool-cases (equals current vote_id)) [
        | inr other ↦ inl (ground arith)
        | inl same ↦
            let (v, is_v, text) = equals-text current vote_id same named in
            elim (count_vote_effect v session_id option w (found ∙ ap ok is_v)) [
              | inl kept ↦ inl (ground arith)
              | inr (v', x, o, h, known, e) ↦ inr (v', x, o, h, known, ground arith)
            ]
      ]
    ]
  ]

  reply-redis :
      (vote_id : Value) (r : Result Outcome × Backend S)
      → (reply c env vote_id r).1.redis ≡ r.1.redis
  unfolding reply
  reply-redis vote_id (err e, w) = refl
  reply-redis vote_id (ok vote_not_open, w) = refl
  reply-redis vote_id (ok invalid_option, w) = refl
  reply-redis vote_id (ok duplicate, w) = refl
  reply-redis vote_id (ok added, w) = ground arith

  tally_fields_effect :
      (fields : Fields) (w : Backend S)
      → let w' = (tally_fields c env fields w).1 in (w'.redis ≡ w.redis) ⊎ Counts w.redis w'.redis
  unfolding tally_fields
  tally_fields_effect fields w =
      let vote_id = member "voteId" fields in
      let session_id = member "sessionId" fields in
      let option = member "option" fields in
      elim (Bool-cases (truthy vote_id && truthy session_id && truthy option)) [
        | inr missing ↦ inl (ground arith)
        | inl given ↦
            let effect = tally_redis_effect vote_id session_id option w (ground arith) in
            let kept = reply-redis vote_id (tally_redis c env vote_id session_id option w) in
            elim effect [
              | inl same ↦ inl (ground (arith, kept))
              | inr (v, x, o, h, known, e) ↦ inr (v, x, o, h, known, ground (arith, kept))
            ]
      ]

  abbrev Effect : Backend S → Result Response × Backend S → Type 0
  Effect w r = (r.1.redis ≡ w.redis) ⊎ Counts w.redis r.1.redis

  if_posted :
      (posted : Bool) (w : Backend S) (r : Result Response × Backend S)
      → Effect w r
      → Effect w (if not posted then (ok (success "method_not_allowed" 405), w) else r)
  if_posted true w r h = h
  if_posted false w r h = inl refl

  body-Effect :
      (method : String) (body : Value) (w : Backend S)
      → Effect w (tally_function c env (record { method = method; body = body }) w)
  unfolding tally_function truthy
  body-Effect method (obj end) w = if_posted (method == "POST") w _ (tally_fields_effect end w)
  body-Effect method (obj (field k v fields)) w =
      if_posted (method == "POST") w _ (tally_fields_effect (field k v fields) w)
  body-Effect method null w = if_posted (method == "POST") w _ (tally_fields_effect end w)
  body-Effect method (str String.[]) w =
      if_posted (method == "POST") w _ (tally_fields_effect end w)
  body-Effect method body w = if_posted (method == "POST") w _ (other_effect (truthy body) w)
    where
      other_effect :
          (b : Bool) (w : Backend S)
          → Effect w (if not b then tally_fields c env end w else (err attribute_error, w))
      other_effect false w = tally_fields_effect end w
      other_effect true w = inl refl

  -- Whatever the request, a call leaves Redis as it was, or runs the script once: for the poll that
  -- the snapshot names as current, and for an option in that poll's tally.
  pub tally_function_effect :
      (request : Request) (w : Backend S)
      → let w' = (tally_function c env request w).1 in
        (w'.redis ≡ w.redis) ⊎ Counts w.redis w'.redis
  tally_function_effect request w = body-Effect request.method request.body w
