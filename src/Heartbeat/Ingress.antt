-- ===== src/Heartbeat/Ingress.antt =====
-- What heartbeat-ingress answers (functions/heartbeat-ingress/main.py).
use pulse_fm.Outbox.{Outbox}
