-- ===== src/Stream/Status/Serving.antt =====
-- What GET /state answers of the poll in Redis (services/playback-stream/pulsefm_playback_stream/main.py).
use pulse_fm.Base.Dict.{Dict}
use pulse_fm.Snapshot.{Snapshot, Poll}
use pulse_fm.Stream.Scan.{Scan}
