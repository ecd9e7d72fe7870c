-- ===== src/Heartbeat.antt =====
-- The listeners' heartbeats: functions/heartbeat-ingress/main.py publishes them, and
-- functions/heartbeat-receiver/main.py keeps them in Redis. Its copy of `decode_pubsub_json` is that of
-- packages/pulsefm-pubsub and is modelled there.
pub mod Keys
pub mod Listening
pub mod Ingress
pub mod Tests
use mathlib.Core.List.{◌++◌}
use pulse_fm.Base.{
  ℕ, max, String, Bool, true, false, not, ◌&&◌, Option, none, some, [], ◌∷◌, ◌==◌, or_else,
  if◌then◌else◌,
}
use pulse_fm.Base.Text.{non_empty}
use pulse_fm.Base.Value.{Value, str, Fields, member, Result, ok, err, service_error, truthy}
use pulse_fm.Base.Action.{Action}
use pulse_fm.Outbox.{Outbox}
use pulse_fm.Outbox.PubSub.{Codec, decode_pubsub_json}
use pulse_fm.Redis.{Commands, text}
use pulse_fm.Heartbeat.Keys.{heartbeat_active_key, session_key}

-- HEARTBEAT_TTL_SECONDS, PROJECT_ID, HEARTBEAT_TOPIC, the decoders, and how Python formats a value. The client
-- of Pub/Sub either raises at once or takes the message and returns a Future; `pubsub_up` tells whether
-- that Future succeeds, so that the message is published.
pub record Env : Type 0 where
  pub heartbeat_ttl_seconds : ℕ
  pub project_id : String
  pub heartbeat_topic : String
  pub publisher_up : Bool
  pub pubsub_up : Bool
  pub redis_up : Bool
  pub codec : Codec
  pub format : Value → String

pub record Request : Type 0 where
  pub method : String
  pub session_id : Option String

pub record Response : Type 0 where
  pub status : String
  pub code : ℕ

-- The Future is not awaited, so that its failure is not seen.
publish_heartbeat : Env → String → Action Outbox (Unit {0})
unfolding non_empty
publish_heartbeat env session_id o =
    if non_empty env.project_id && env.publisher_up
    then (
      ok tt,
      if env.pubsub_up
          then record o {
            published =
                o.published
                ++ (record {
                  topic = env.heartbeat_topic;
                  payload = ("sessionId", str session_id) ∷ [];
                })
                  ∷ [];
          }
          else o,
    )
    else (err service_error, o)

unfoldable pub heartbeat_ingress : Env → Request → Outbox → Response × Outbox
unfolding publish_heartbeat non_empty
heartbeat_ingress env request o =
    let session_id = or_else request.session_id "" in
    if not (request.method == "POST")
    then (record { status = "method_not_allowed"; code = 405 }, o)
    else if not (non_empty session_id)
    then (record { status = "missing_session_id"; code = 400 }, o)
    else let (r, o') = publish_heartbeat env session_id o in
      (
        elim r [
          | ok _ ↦ record { status = "ok"; code = 200 }
          | err _ ↦ record { status = "error"; code = 500 }
        ],
        o',
      )

module _ {S : Type 0} (c : Commands S) where
  -- HEARTBEAT_LUA
  unfoldable pub heartbeat_lua : String → String → ℕ → S → S
  heartbeat_lua session active ttl s =
      c.set (c.set s session (text "1") (some ttl)) active (text "1") (some ttl)

  unfoldable pub heartbeat_receiver : Env → Fields → Action S (Unit {0})
  unfolding truthy
  heartbeat_receiver env payload s = elim (decode_pubsub_json env.codec payload) [
    | err e ↦ (err e, s)
    | ok message ↦
        let session_id = member "sessionId" message in
        if not (truthy session_id)
        then (ok tt, s)
        else if env.redis_up
        then (
          ok tt,
          heartbeat_lua (session_key (env.format session_id)) heartbeat_active_key
              (max 1 env.heartbeat_ttl_seconds) s,
        )
        else (err service_error, s)
  ]
