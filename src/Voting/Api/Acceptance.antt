-- ===== src/Voting/Api/Acceptance.antt =====
-- What vote-api does with the votes that it takes (services/vote-api/pulsefm_vote_api/main.py).
use mathlib.Core.List.{◌++◌}
use pulse_fm.Base.{
  ◌≡◌, ◌∙◌, ap, subst, refl, String, true, Option, none, some, [], ◌∷◌, arith, or_else,
}
use pulse_fm.Base.Dict.{Dict, lookup}
use pulse_fm.Base.Text.{non_empty}
use pulse_fm.Base.Value.{Value, null, str, ok, truthy}
use pulse_fm.Outbox.Tasks.{enqueue_json_task}
use pulse_fm.Redis.{Commands}
use pulse_fm.Voting.{Backend}
use pulse_fm.Voting.Api.{Env, validate_vote, submit_vote, event}
use pulse_fm.Voting.Api.Validation.{
  IsAdmissible, validate_vote_reads, validate_vote-admissible, validate_vote_sound,
}

-- What one accepted vote adds.
abbrev pub with_vote_task : {S : Type 0} → Env → Value → Value → String → Backend S → Backend S
with_vote_task env vote_id option x w = record w {
  outbox = record (w.outbox) {
    tasks =
        w.outbox.tasks
        ++ (record {
          queue = env.vote_queue_name;
          url = env.tally_function_url;
          payload = event env vote_id option x;
          delay = none;
          name = none;
        })
          ∷ [];
  };
}

-- The service is configured, and Redis and Cloud Tasks answer.
pub record IsReady (env : Env) : Type 0 where
  pub url : non_empty env.tally_function_url ≡ true
  pub redis_up : env.redis_up ≡ true
  pub project_id : non_empty env.queue.project_id ≡ true
  pub location : non_empty env.queue.location ≡ true
  pub answers : env.queue.answers ≡ true

module _ {S : Type 0} (c : Commands S) (env : Env) where
  -- A vote for an option of the current, open poll by a session that has not voted is accepted, if
  -- the service is configured and its clients answer: exactly one task with the vote is enqueued for
  -- tally-function, and nothing else changes.
  pub submit_vote_complete :
      (payload : Dict Value) (v o x : String) (w : Backend S)
      → IsReady env
      → lookup "voteId" payload ≡ some (str v)
      → lookup "option" payload ≡ some (str o)
      → non_empty o ≡ true
      → non_empty x ≡ true
      → IsAdmissible c w.redis v o x
      → submit_vote c env payload (some x) w ≡ (ok tt, with_vote_task env (str v) (str o) x w)
  unfolding submit_vote enqueue_json_task
  submit_vote_complete payload v o x w ready ev eo ho hx a =
      ground (arith, validate_vote-admissible c env v o x w ready.redis_up a)

  text_member : (m : Option Value) (v : String) → or_else m null ≡ str v → m ≡ some (str v)
  text_member none v e = cc
  text_member (some value) v e = ap some e

  submit_vote_parts :
      (payload : Dict Value) (x : String) (w : Backend S)
      → (submit_vote c env payload (some x) w).0 ≡ ok tt
      → let vote_id = or_else (lookup "voteId" payload) null in
        let option = or_else (lookup "option" payload) null in
        (non_empty x ≡ true) × ((validate_vote c env vote_id option x w).0 ≡ ok tt)
  unfolding submit_vote
  submit_vote_parts payload x w h = (ground arith, ground arith)

  submit_vote_task :
      (payload : Dict Value) (x : String) (w : Backend S)
      → (submit_vote c env payload (some x) w).0 ≡ ok tt
      → let vote_id = or_else (lookup "voteId" payload) null in
        let option = or_else (lookup "option" payload) null in
        (submit_vote c env payload (some x) w).1 ≡ with_vote_task env vote_id option x w
  unfolding submit_vote enqueue_json_task
  submit_vote_task payload x w h =
      let vote_id = or_else (lookup "voteId" payload) null in
      let option = or_else (lookup "option" payload) null in
      ground (arith, validate_vote_reads c env vote_id option x w)

  -- A vote that is accepted was a vote of a named session for an option of the current, open poll
  -- in which that session had not voted; exactly one task with this vote has been enqueued, and
  -- nothing else has changed.
  pub submit_vote_sound :
      (payload : Dict Value) (x_session_id : Option String) (w : Backend S)
      → (submit_vote c env payload x_session_id w).0 ≡ ok tt
      → (v : String) × (o : String) × (x : String) × (lookup "voteId" payload ≡ some (str v))
        × (lookup "option" payload ≡ some (str o))
        × (x_session_id ≡ some x)
        × (non_empty x ≡ true)
        × IsAdmissible c w.redis v o x
        × ((submit_vote c env payload x_session_id w).1 ≡ with_vote_task env (str v) (str o) x w)
  unfolding submit_vote
  submit_vote_sound payload none w h = absurd (ground arith)
  submit_vote_sound payload (some x) w h =
      let vote_id = or_else (lookup "voteId" payload) null in
      let option = or_else (lookup "option" payload) null in
      let (named, passed) = submit_vote_parts payload x w h in
      let (v, o, is_v, is_o, a) = validate_vote_sound c env vote_id option x w passed in
      let after : Value → Value → Type 0 =
        λ p q. (submit_vote c env payload (some x) w).1 ≡ with_vote_task env p q x w in
      (
        v,
        o,
        x,
        text_member (lookup "voteId" payload) v is_v,
        text_member (lookup "option" payload) o is_o,
        refl,
        named,
        a,
        subst (λ q. after (str v) q) is_o
            (subst (λ p. after p option) is_v (submit_vote_task payload x w h)),
      )

  -- The same for a request whose members are known.
  pub accepted_lem :
      (payload : Dict Value) (v o x : String) (w : Backend S)
      → lookup "voteId" payload ≡ some (str v)
      → lookup "option" payload ≡ some (str o)
      → (submit_vote c env payload (some x) w).0 ≡ ok tt
      → (non_empty o ≡ true)
        × (non_empty x ≡ true)
        × IsAdmissible c w.redis v o x
        × ((submit_vote c env payload (some x) w).1 ≡ with_vote_task env (str v) (str o) x w)
  unfolding submit_vote truthy
  accepted_lem payload v o x w ev eo accepted =
      let (v', o', x', ev', eo', ex, named, a, added) =
        submit_vote_sound payload (some x) w accepted in
      let same_v : v' ≡ v = ground arith in
      let same_o : o' ≡ o = ground arith in
      let same_x : x' ≡ x = ground arith in
      (
        ground arith,
        subst (λ q. non_empty q ≡ true) same_x named,
        subst (λ q. IsAdmissible c w.redis v o q) same_x
            (subst (λ q. IsAdmissible c w.redis v q x') same_o
              (subst (λ q. IsAdmissible c w.redis q o' x') same_v a)),
        added ∙ ground arith,
      )
