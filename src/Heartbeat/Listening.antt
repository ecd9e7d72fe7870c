-- ===== src/Heartbeat/Listening.antt =====
-- From a heartbeat to the listeners that modal-dispatch-service sees.
use pulse_fm.Dispatch.{calling}
use pulse_fm.Dispatch
