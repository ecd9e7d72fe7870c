-- ===== src/Voting/Delivery.antt =====
-- From vote-api through Cloud Tasks to tally-function: a task is delivered at least once, so the
-- handler may see the same vote several times.
use mathlib.Core.List.{◌++◌}
use pulse_fm.Base.{
  ℕ, ◌+◌, ◌≡◌, ◌∙◌, refl, ap, String, true, none, some, List, [], ◌∷◌, arith, ◌==◌, eq_refl, eq_iff,
  inl, inr, Bool-cases, if◌then◌else◌,
}
use pulse_fm.Base.Dict.{Dict, lookup, contains}
use pulse_fm.Base.Text.{non_empty}
use pulse_fm.Base.Value.{Value, str, Fields, end, field, ok}
use pulse_fm.Outbox.{Task}
use pulse_fm.Redis.{number, Commands, IsLawful, hget}
use pulse_fm.Redis.Keys.{playback_current_key, poll_tally_key}
use pulse_fm.Redis.Playback.{get_playback_current_snapshot}
use pulse_fm.Redis.Poll.Voting.{Ballot, Seen, first_votes}
use pulse_fm.Voting.{Backend, member}
use pulse_fm.Voting.Tally.{current_vote_id, tally_function}
use pulse_fm.Voting.Tally
use pulse_fm.Voting.Tally.Counting.{IsBallot, post, tally_function_counts, tally_function_duplicate}
use pulse_fm.Voting.Api
use pulse_fm.Voting.Api.{event, submit_vote}
use pulse_fm.Voting.Api.Validation.{option_names}
use pulse_fm.Voting.Api.Acceptance.{accepted_lem}

-- `json.loads(json.dumps(payload))`
unfoldable pub to_fields : Dict Value → Fields
to_fields [] = end
to_fields ((k, v) ∷ d) = field k v (to_fields d)

module _ {S : Type 0} (c : Commands S) (env : Tally.Env) where
  -- The handler run with each of the payloads in turn.
  pub deliver_all : List (Dict Value) → Backend S → Backend S
  deliver_all [] w = w
  deliver_all (payload ∷ payloads) w =
      deliver_all payloads (tally_function c env (post (to_fields payload)) w).1

  -- The payloads are those of the ballots, which name options of the poll `v`.
  unfoldable pub AreBallots : String → List String → List (Dict Value) → List Ballot → Type 0
  AreBallots v options [] [] = Unit
  AreBallots v options (payload ∷ payloads) ((x, o) ∷ ballots) =
      IsBallot env (to_fields payload) v x o
      × (contains options o ≡ true)
      × AreBallots v options payloads ballots
  AreBallots v options _ _ = ⊥

  -- The poll is current, and Redis counts each of its options.
  pub record IsOpen (v : String) (options : List String) (s : S) : Type 0 where
    pub current : current_vote_id (get_playback_current_snapshot c s) ≡ ok (some v)
    pub counts :
        (o : String)
        → contains options o ≡ true
        → (n : ℕ) × (hget c s (poll_tally_key v) o ≡ some (number n))

-- The tally function is up, and its Redis client writes texts as they are.
pub record IsWorking (env : Tally.Env) : Type 0 where
  pub redis_up : env.redis_up ≡ true
  pub texts : (s : String) → env.encode (str s) ≡ some s

pub event-IsBallot :
    (tally_env : Tally.Env) (env : Api.Env) (v o x : String)
    → IsWorking tally_env
    → non_empty v ≡ true
    → non_empty o ≡ true
    → non_empty x ≡ true
    → IsBallot tally_env (to_fields (event env (str v) (str o) x)) v x o
unfolding to_fields event member
event-IsBallot tally_env env v o x working hv ho hx = record {
  vote_id = refl;
  session_id = refl;
  option = refl;
  vote_named = hv;
  session_named = hx;
  option_named = ho;
  redis_up = working.redis_up;
  session_text = working.texts x;
  option_text = working.texts o;
}

module _ {S : Type 0} {c : Commands S} (laws : IsLawful c) (env : Tally.Env) where
  -- `current` reads one text of Redis, so it stays when no text changes.
  current_kept :
      (s s' : S) {v : String}
      → c.get s' playback_current_key ≡ c.get s playback_current_key
      → current_vote_id (get_playback_current_snapshot c s) ≡ ok (some v)
      → current_vote_id (get_playback_current_snapshot c s') ≡ ok (some v)
  unfolding get_playback_current_snapshot
  current_kept s s' same current = rw (same, get_playback_current_snapshot) current

  -- In whatever order and however often ballots of an open poll are delivered, the counter of each of its
  -- options grows by the number of sessions that had not voted and whose first ballot names it.
  deliver_all-first_votes :
      (v : String) (options : List String) (payloads : List (Dict Value)) (ballots : List Ballot)
      → (w : Backend S) (seen : List String) → AreBallots c env v options payloads ballots
      → IsOpen c env v options w.redis
      → Seen laws w.redis v seen
      → (p : String) (n : ℕ) → contains options p ≡ true
      → hget c w.redis (poll_tally_key v) p ≡ some (number n)
      → hget c (deliver_all c env payloads w).redis (poll_tally_key v) p
        ≡ some (number (n + first_votes seen ballots p))
  unfolding deliver_all AreBallots first_votes
  deliver_all-first_votes v options [] [] w seen are open_poll h p n is_option e = ground arith
  deliver_all-first_votes v options [] (b ∷ bs) w seen are open_poll h p n is_option e = absurd are
  deliver_all-first_votes v options (l ∷ ls) [] w seen are open_poll h p n is_option e = absurd are
  deliver_all-first_votes v options (l ∷ ls) ((x, o) ∷ bs) w seen (b, known, are) open_poll h p n
        is_option e =
      let (m, counted) = open_poll.counts o known in
      let w' = (tally_function c env (post (to_fields l)) w).1 in
      elim (Bool-cases (contains seen x)) [
        | inl old ↦
            let again =
              tally_function_duplicate laws env (to_fields l) v x o w m b open_poll.current counted
                (h x ∙ old) in
            let kept : IsOpen c env v options w'.redis = record {
              current =
                  current_kept w.redis w'.redis (again v o x playback_current_key).3
                    open_poll.current;
              counts = λ q is_q.
                  ((open_poll.counts q is_q).0, (again v q x "").1 ∙ (open_poll.counts q is_q).1);
            } in
            rw old (
              deliver_all-first_votes v options ls bs w' seen are kept
                (λ y. (again v o y "").2 ∙ h y) p n is_option ((again v p x "").1 ∙ e))
        | inr new ↦
            let first =
              tally_function_counts laws env (to_fields l) v x o w m b open_poll.current counted
                (h x ∙ new) in
            let kept : IsOpen c env v options w'.redis = record {
              current =
                  current_kept w.redis w'.redis (first v o x playback_current_key).3
                    open_poll.current;
              counts = λ q is_q. (
                if o == q then m + 1 else (open_poll.counts q is_q).0,
                ground (arith, first v q x "", (open_poll.counts q is_q).1, eq_refl v),
              );
            } in
            let rest =
              deliver_all-first_votes v options ls bs w' (x ∷ seen) are kept
                (λ y. ground (arith, first v o y "", h y, eq_refl v)) p
                (if o == p then n + 1 else n) is_option
                (ground (arith, first v p x "", counted, eq_refl v, eq_iff o p)) in
            rw new (ground (arith, rest))
      ]

  AreBallots-append :
      (v : String) (options : List String) (before after : List (Dict Value)) (bs cs : List Ballot)
      → AreBallots c env v options before bs
      → AreBallots c env v options after cs
      → AreBallots c env v options (before ++ after) (bs ++ cs)
  unfolding AreBallots
  AreBallots-append v options [] after [] cs one two = two
  AreBallots-append v options [] after (b ∷ bs) cs one two = absurd one
  AreBallots-append v options (l ∷ ls) after [] cs one two = absurd one
  AreBallots-append v options (l ∷ ls) after ((x, o) ∷ bs) cs (b, known, one) two =
      (b, known, AreBallots-append v options ls after bs cs one two)

  -- A vote for `o` by the session `x` in the poll `v` that vote-api accepts adds one task for
  -- tally-function. Whatever runs before it is delivered, if the poll is then still current, its options are
  -- counted, `seen` are the sessions that have voted and tally-function and its Redis work: delivering the task, and in any order other ballots
  -- of the poll and further copies of this one, adds to the counter of each option the number of the
  -- sessions outside `seen` whose first delivered ballot names it. So the vote is counted once if it is the
  -- first of its session to be delivered, and else not at all.
  pub vote_counts_once :
      (api_env : Api.Env) (payload : Dict Value) (v o x : String) (w : Backend S)
      → IsWorking env
      → lookup "voteId" payload ≡ some (str v)
      → lookup "option" payload ≡ some (str o)
      → (submit_vote c api_env payload (some x) w).0 ≡ ok tt
      → (w1 : Backend S) (seen : List String) → IsOpen c env v (option_names c w.redis v) w1.redis
      → Seen laws w1.redis v seen
      → (before after : List (Dict Value)) (bs cs : List Ballot)
      → AreBallots c env v (option_names c w.redis v) before bs
      → AreBallots c env v (option_names c w.redis v) after cs
      → (p : String) (n : ℕ) → contains (option_names c w.redis v) p ≡ true
      → hget c w1.redis (poll_tally_key v) p ≡ some (number n)
      → (t : Task) × ((submit_vote c api_env payload (some x) w).1.outbox.tasks
          ≡ w.outbox.tasks ++ t ∷ [])
        × (t.url ≡ api_env.tally_function_url)
        × (hget c (deliver_all c env (before ++ t.payload ∷ after) w1).redis (poll_tally_key v) p
            ≡ some (number (n + first_votes seen (bs ++ (x, o) ∷ cs) p)))
  unfolding AreBallots
  vote_counts_once api_env payload v o x w working ev eo accepted w1 seen open_poll h before after
        bs cs one two p n is_option counted =
      let (ho, hx, a, added) = accepted_lem c api_env payload v o x w ev eo accepted in
      let b = event-IsBallot env api_env v o x working a.named ho hx in
      (
        record {
          queue = api_env.vote_queue_name;
          url = api_env.tally_function_url;
          payload = event api_env (str v) (str o) x;
          delay = none;
          name = none;
        },
        ap (λ z. z.outbox.tasks) added,
        refl,
        deliver_all-first_votes v (option_names c w.redis v)
            (before ++ event api_env (str v) (str o) x ∷ after) (bs ++ (x, o) ∷ cs) w1 seen
            (AreBallots-append v (option_names c w.redis v) before
              (event api_env (str v) (str o) x ∷ after) bs ((x, o) ∷ cs) one (b, a.known, two))
            open_poll h p n is_option counted,
      )
