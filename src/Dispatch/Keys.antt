-- ===== src/Dispatch/Keys.antt =====
-- services/modal-dispatch-service/pulsefm_modal_dispatch_service/main.py: the keys in Redis and the URL.
use pulse_fm.Base.{◌≡◌, ◌≢◌, ap, String, ◌++◌, arith, eq_iff, if◌then◌else◌}
use pulse_fm.Base.Text.{non_empty, rstrip_slash}
use pulse_fm.Base.Value.{Result, ok, err, value_error}
use text.Mathlib.TextLemmas.{append_cancel_left, append_cancel_right, append_inj, length-append}
use Prim.Native.String.{count}

unfoldable pub close_done_key : String → String
close_done_key vote_id = "pulsefm:modal:close:" ++ vote_id ++ ":done"

unfoldable pub close_lock_key : String → String
close_lock_key vote_id = "pulsefm:modal:close:" ++ vote_id ++ ":lock"

unfoldable pub warmup_url : String → Result String
unfolding rstrip_slash non_empty
warmup_url service_url =
    let base = rstrip_slash service_url in
    if non_empty base
    then ok (base ++ "/warmup")
    else err (value_error "MODAL_DISPATCH_SERVICE_URL is required")

pub close_done_key-injective : (v w : String) → close_done_key v ≡ close_done_key w → v ≡ w
unfolding close_done_key
close_done_key-injective v w e =
    append_cancel_right v w ":done" (append_cancel_left "pulsefm:modal:close:" _ _ e)

pub done-ne-lock : (v w : String) → close_done_key v ≢ close_lock_key w
unfolding close_done_key close_lock_key
done-ne-lock v w e =
    let tails = append_cancel_left "pulsefm:modal:close:" (v ++ ":done") (w ++ ":lock") e in
    let lengths = ap count tails in
    let split =
      append_inj tails (omega (arith, length-append v ":done", length-append w ":lock", lengths)) in
    ground (arith, split.1, eq_iff ":done" ":lock")
