-- ===== src/Playback/Ids.antt =====
-- services/playback-service/pulsefm_playback_service/main.py: utilities.
use pulse_fm.Base.{ℕ, zero, suc, ◌-◌, ◌/◌, String, ◌++◌, Option, none, some, or_else}
use pulse_fm.Base.Int.{ℤ, pos, negsuc}
use pulse_fm.Base.Dict.{Dict, lookup}
use pulse_fm.Base.Text.{decimal, rstrip_slash}
use pulse_fm.Base.Value.{Value, null, http, Result, ok, err, value_error, type_error, int_of}
use pulse_fm.Playback.{Settings}

abbrev pub microseconds_per_ms : ℕ
microseconds_per_ms = 1000

abbrev pub microseconds_per_second : ℕ
microseconds_per_second = 1000000

abbrev pub default_startup_delay_seconds : ℕ
default_startup_delay_seconds = 30

abbrev pub vote_close_lead_seconds : ℕ
vote_close_lead_seconds = 60

abbrev pub default_snapshot_ttl_seconds : ℕ
default_snapshot_ttl_seconds = 3600

-- `_to_epoch_ms` of a datetime or of None.
abbrev pub to_epoch_ms : Option ℕ → Option ℕ
to_epoch_ms none = none
to_epoch_ms (some t) = some (t / microseconds_per_ms)

-- `_parse_int`: TypeError and ValueError give None; OverflowError goes through.
unfoldable pub parse_int : Value → Result (Option ℤ)
parse_int v = elim (int_of v) [
  | ok n ↦ ok (some n)
  | err e ↦ elim e [ type_error ↦ ok none | value_error _ ↦ ok none | other ↦ err other ]
]

-- `_remaining_delay_seconds` at the instant `now`, of a datetime or of None.
unfoldable pub remaining_delay_seconds : ℕ → Option ℕ → Option ℕ
remaining_delay_seconds now none = none
remaining_delay_seconds now (some ends_at) = some ((ends_at - now) / microseconds_per_second)

unfoldable pub tick_url : Settings → String
unfolding rstrip_slash
tick_url settings = rstrip_slash settings.playback_tick_url ++ "/tick"

unfoldable pub vote_close_url : Settings → String
unfolding rstrip_slash
vote_close_url settings = rstrip_slash settings.playback_tick_url ++ "/vote/close"

positive_version : ℤ → Result ℕ
positive_version (pos zero) = err (http 400 "version must be positive")
positive_version (pos (suc n)) = ok (suc n)
positive_version (negsuc _) = err (http 400 "version must be positive")

-- `int(version_raw)` with its `except` clause.
unfoldable pub version_of : Value → Result ℤ
version_of raw = elim (int_of raw) [
  | ok n ↦ ok n
  | err e ↦ elim e [
    | type_error ↦ err (http 400 "version must be an integer")
    | value_error _ ↦ err (http 400 "version must be an integer")
    | other ↦ err other
  ]
]

-- `payload.get("version")`, which is required and must be an integer.
unfoldable pub required_version : Dict Value → Result ℤ
unfolding version_of
required_version payload = elim (or_else (lookup "version" payload) null) [
  | null ↦ err (http 400 "version is required")
  | raw ↦ version_of raw
]

unfoldable pub validate_tick_version : Dict Value → Result ℕ
unfolding positive_version
validate_tick_version payload = elim (required_version payload) [
  | ok version ↦ positive_version version
  | err e ↦ err e
]

unfoldable pub build_tick_task_id : Option String → Option ℕ → Option ℕ → String
unfolding decimal
build_tick_task_id vote_id ends_at version =
    let suffix = or_else vote_id "" in
    let timestamp : String = elim ends_at [
      | none ↦ ""
      | some t ↦ decimal (t / microseconds_per_second)
    ] in
    let version_suffix : String = elim version [ none ↦ "" | some n ↦ decimal n ] in
    "playback-" ++ suffix ++ "-" ++ timestamp ++ "-" ++ version_suffix

unfoldable pub build_vote_close_task_id : String → ℕ → String
unfolding decimal
build_vote_close_task_id vote_id version = "vote-close-" ++ vote_id ++ "-" ++ decimal version
