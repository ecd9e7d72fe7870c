-- ===== src/Redis/Keys.antt =====
-- packages/pulsefm-redis/pulsefm_redis/client.py: the names of the keys, and that they differ.
use pulse_fm.Base.{◌≡◌, ap, ◌∙◌, ◌≢◌, String, ◌++◌, arith, eq_iff}
use text.Mathlib.TextLemmas.{
  append_cancel_left, append_cancel_right, append_inj, append_assoc, cons-append, length-append,
  head-eq_of_cons-eq,
}
use Prim.Native.Char.{code}
use Prim.Native.String.{count}

unfoldable pub playback_current_key : String
playback_current_key = "pulsefm:playback:current"

unfoldable pub poll_tally_key : String → String
poll_tally_key vote_id = "pulsefm:poll:" ++ vote_id ++ ":tally"

unfoldable pub poll_voted_key : String → String
poll_voted_key vote_id = "pulsefm:poll:" ++ vote_id ++ ":voted"

-- Equal keys name the same vote.
pub poll_tally_key-injective : (v w : String) → poll_tally_key v ≡ poll_tally_key w → v ≡ w
unfolding poll_tally_key
poll_tally_key-injective v w e =
    append_cancel_right v w ":tally" (append_cancel_left "pulsefm:poll:" _ _ e)

pub poll_voted_key-injective : (v w : String) → poll_voted_key v ≡ poll_voted_key w → v ≡ w
unfolding poll_voted_key
poll_voted_key-injective v w e =
    append_cancel_right v w ":voted" (append_cancel_left "pulsefm:poll:" _ _ e)

pub tally-ne-voted : (v w : String) → poll_tally_key v ≢ poll_voted_key w
unfolding poll_tally_key poll_voted_key
tally-ne-voted v w e =
    let tails = append_cancel_left "pulsefm:poll:" (v ++ ":tally") (w ++ ":voted") e in
    let lengths = ap count tails in
    let split =
      append_inj tails
        (omega (arith, length-append v ":tally", length-append w ":voted", lengths)) in
    ground (arith, split.1, eq_iff ":tally" ":voted")

current-ne-poll : (rest : String) → playback_current_key ≢ "pulsefm:poll:" ++ rest
unfolding playback_current_key
current-ne-poll rest e =
    let tails =
      append_cancel_left "pulsefm:p" "layback:current" ("oll:" ++ rest)
        (e ∙ append_assoc "pulsefm:p" "oll:" rest) in
    absurd (omega (arith, ap code (head-eq_of_cons-eq (tails ∙ cons-append "o" "ll:" rest))))

pub current-ne-tally : (v : String) → playback_current_key ≢ poll_tally_key v
unfolding poll_tally_key
current-ne-tally v = current-ne-poll (v ++ ":tally")

pub current-ne-voted : (v : String) → playback_current_key ≢ poll_voted_key v
unfolding poll_voted_key
current-ne-voted v = current-ne-poll (v ++ ":voted")
