-- ===== src/Heartbeat/Tests.antt =====
-- A concrete heartbeat.
use pulse_fm.Base.{String, true, false, some, [], ◌∷◌}
use pulse_fm.Base.Value.{Value, str, obj, Fields, field, end, ok}
use pulse_fm.Redis.Memory.{Memory, nothing}
use pulse_fm.Heartbeat.{Env, Request}
use pulse_fm.Heartbeat.Keys.{heartbeat_active_key}
use pulse_fm.Dispatch.{Dispatcher}
use pulse_fm.Dispatch

text_of : Value → String
text_of (str s) = s
text_of _ = "None"

abbrev message : Fields
message = field "sessionId" (str "ann") end

abbrev env : Env
env = record {
  heartbeat_ttl_seconds = 30;
  project_id = "pulse";
  heartbeat_topic = "heartbeat";
  publisher_up = true;
  pubsub_up = false;
  redis_up = true;
  codec = record { b64decode = λ _. ok "raw"; loads = λ _. ok (obj message) };
  format = text_of;
}

abbrev dispatch : Dispatch.Env
dispatch = record {
  modal_queue_name = "playback";
  modal_dispatch_service_url = "https://dispatch";
  heartbeat_active_key = "pulsefm:heartbeat:active";
  warmup_lead_seconds = 30;
  close_done_ttl_seconds = 86400;
  close_lock_ttl_seconds = 600;
  queue = record {
    project_id = "pulse";
    location = "europe-west1";
    answers = true;
    knows = λ _. true;
  };
  codec = record { b64decode = λ _. ok "raw"; loads = λ _. ok (obj message) };
  now_ms = 0;
  up = λ _. true;
  attempts = true ∷ [];
}

abbrev payload : Fields
payload = field "message" (obj (field "data" (str "eyJ9") end)) end

abbrev start : Dispatcher Memory
start = record { redis = nothing; outbox = record { published = []; tasks = [] }; modal = [] }

abbrev request : Request
request = record { method = "POST"; session_id = some "ann" }
