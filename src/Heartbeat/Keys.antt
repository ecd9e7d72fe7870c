-- ===== src/Heartbeat/Keys.antt =====
-- functions/heartbeat-receiver/main.py: the keys in Redis.
use pulse_fm.Base.{String, ◌++◌}

unfoldable pub heartbeat_active_key : String
heartbeat_active_key = "pulsefm:heartbeat:active"

unfoldable pub session_key : String → String
session_key session_id = "pulsefm:heartbeat:session:" ++ session_id
