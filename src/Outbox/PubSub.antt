-- ===== src/Outbox/PubSub.antt =====
-- packages/pulsefm-pubsub/pulsefm_pubsub/client.py: publishing. Pub/Sub itself is the parameter
-- `accepts`, which tells whether it takes a message; a message that it takes is delivered later.
use mathlib.Core.List.{◌++◌}
use pulse_fm.Base.{String, Bool, not, Option, [], ◌∷◌, or_else, if◌then◌else◌}
use pulse_fm.Base.Dict.{Dict}
use pulse_fm.Base.Text.{non_empty}
use pulse_fm.Base.Value.{
  Value, null, str, obj, Fields, end, field, member, Result, ok, err, service_error,
  attribute_error, value_error, truthy,
}
use pulse_fm.Base.Action.{Action, from_result, ◌>>=◌}
use pulse_fm.Outbox.{Outbox, Message}

-- `project_id or os.getenv("PROJECT_ID", "")`; `PubSubClientError` is a RuntimeError.
unfoldable pub resolve_project_id : String → Option String → Result String
unfolding non_empty
resolve_project_id environment project_id =
    let given = or_else project_id "" in
    let resolved = if non_empty given then given else environment in
    if non_empty resolved then ok resolved else err service_error

unfoldable pub topic_path : String → Option String → String → Result String
unfolding resolve_project_id
topic_path environment project_id topic = elim (resolve_project_id environment project_id) [
  | err e ↦ err e
  | ok _ ↦ if non_empty topic then ok topic else err service_error
]

append_message : Bool → Message → Action Outbox (Unit {0})
append_message accepted m o =
    if accepted
    then (ok tt, record o { published = o.published ++ m ∷ [] })
    else (err service_error, o)

unfoldable pub publish_json :
    String → Bool → Option String → String → Dict Value → Action Outbox (Unit {0})
unfolding topic_path append_message
publish_json environment accepted project_id topic payload = do
  path ← from_result (topic_path environment project_id topic)
  append_message accepted (record { topic = path; payload = payload })

-- The decoders of the standard library: `base64.b64decode`, and `json.loads` of a value or of bytes.
pub record Codec : Type 0 where
  pub b64decode : Value → Result String
  pub loads : Value → Result Value

-- `except (ValueError, json.JSONDecodeError)`
decoded_again : Codec → Value → Result Value → Result Value
decoded_again codec encoded (ok value) = ok value
decoded_again codec encoded (err e) = elim e [
  | value_error _ ↦ codec.loads encoded
  | other ↦ err other
]

message_data : Value → Result Value
message_data (obj message) = ok (member "data" message)
message_data value = if truthy value then err attribute_error else ok null

as_fields : Value → Fields
as_fields (obj fields) = fields
as_fields value = field "data" value end

unfoldable pub decode_pubsub_json : Codec → Fields → Result Fields
unfolding message_data truthy decoded_again as_fields
decode_pubsub_json codec payload = elim (message_data (member "message" payload)) [
  | err e ↦ err e
  | ok encoded ↦
      if not (truthy encoded)
      then ok end
      else elim (decoded_again codec encoded
          (elim (codec.b64decode encoded) [ ok raw ↦ codec.loads (str raw) | err e ↦ err e ])) [
            | err e ↦ err e
            | ok value ↦ ok (as_fields value)
          ]
]
