-- ===== src/Encoder/Events.antt =====
-- services/encoder/pulsefm_encoder/main.py: which uploads an event is about (`_parse_and_filter`).
pub mod Generated
use mathlib.Core.List.{◌++◌}
use pulse_fm.Base.{
  ℕ, suc, ◌*◌, String, Bool, true, false, not, ◌&&◌, ◌||◌, Option, none, some, List, [], ◌∷◌, ◌==◌,
  ltb, is_some, or_else, if◌then◌else◌,
}
use pulse_fm.Base.Int.{ℤ, pos, negsuc, ltb_ℤ}
use pulse_fm.Base.Text.{non_empty}
use pulse_fm.Base.Value.{
  Value, null, str, obj, Fields, field, end, member, Exception, http, Result, ok, err, value_error,
  service_error, int_of_text,
}
use pulse_fm.Base.Action.{Action, pure, raise, raise_if, from_result, ◌>>=◌, ◌>>◌}
use pulse_fm.Playback.{Songs, Song}
use pulse_fm.Encoder.Names.{starts_with, ends_with_lower, stem, output_name}

-- MAX_BYTES
abbrev pub max_bytes : ℕ
max_bytes = 100 * 1024 * 1024

-- config.py, with its prefixes normalised
pub record Settings : Type 0 where
  pub raw_bucket : String
  pub raw_prefix : String
  pub encoded_bucket : String
  pub encoded_prefix : String
  pub encoded_cache_control : String

pub record GcsObject : Type 0 where
  pub bucket : String
  pub name : String
  pub size : Option String
  pub content_type : Option String

-- The header ce-type and the body; `none` is a body that is no JSON.
pub record Request : Type 0 where
  pub ce_type : Option String
  pub body : Option Fields

has_key : String → Fields → Bool
has_key key end = false
has_key key (field k v rest) = let others = has_key key rest in if k == key then true else others

-- What pydantic raises, a ValueError.
invalid {ℓ} : {A : Type ℓ} → Result A
invalid = err (value_error "validation error")

-- A required text, and a text that may be missing or null.
text_field : String → Fields → Result String
unfolding member invalid
text_field key fields = elim (member key fields) [ str s ↦ ok s | _ ↦ invalid ]

optional_text : String → Fields → Result (Option String)
unfolding member invalid
optional_text key fields = elim (member key fields) [
  | str s ↦ ok (some s)
  | null ↦ ok none
  | _ ↦ invalid
]

-- `CloudEventEnvelope(**body)`
envelope : Fields → Result (String × Fields)
unfolding text_field member invalid
envelope body = elim (text_field "type" body) [
  | err e ↦ err e
  | ok type ↦ elim (member "data" body) [ obj fields ↦ ok (type, fields) | _ ↦ invalid ]
]

parse_cloud_event : Option String → Fields → Result (String × Fields)
unfolding envelope has_key non_empty
parse_cloud_event ce_type body =
    let header = or_else ce_type "" in
    if non_empty header
    then ok (header, body)
    else if has_key "type" body && has_key "data" body
    then envelope body
    else err (http 400 "Missing CloudEvent headers or structured envelope")

-- `GcsObject(**data)`
gcs_object : Fields → Result GcsObject
unfolding text_field optional_text
gcs_object fields = elim (text_field "bucket" fields) [
  | err e ↦ err e
  | ok bucket ↦ elim (text_field "name" fields) [
    | err e ↦ err e
    | ok name ↦ elim (optional_text "size" fields) [
      | err e ↦ err e
      | ok size ↦ elim (optional_text "contentType" fields) [
        | err e ↦ err e
        | ok content_type ↦
            ok (record { bucket = bucket; name = name; size = size; content_type = content_type })
      ]
    ]
  ]
]

unfoldable pub size_ok : Option String → Bool
unfolding int_of_text
size_ok none = true
size_ok (some text) = elim (int_of_text text) [
  | none ↦ true
  | some n ↦ not (ltb_ℤ (pos max_bytes) n)
]

-- The object is one to encode.
unfoldable pub accepts : Settings → GcsObject → Bool
unfolding size_ok
accepts s o =
    (o.bucket == s.raw_bucket)
    && starts_with s.raw_prefix o.name
    && ends_with_lower ".wav" o.name
    && size_ok o.size

unfoldable pub parse_and_filter : Settings → Option String → Fields → Result (Option GcsObject)
unfolding parse_cloud_event gcs_object
parse_and_filter s ce_type body = elim (parse_cloud_event ce_type body) [
  | err e ↦ err e
  | ok event ↦
      if not (event.0 == "google.cloud.storage.object.v1.finalized")
      then ok none
      else elim (gcs_object event.1) [
        | err e ↦ err e
        | ok o ↦ ok (if accepts s o then some o else none)
      ]
]
