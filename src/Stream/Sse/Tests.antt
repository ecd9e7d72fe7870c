-- ===== src/Stream/Sse/Tests.antt =====
-- An event as text.
use pulse_fm.Base.{◌≡◌, refl, true, some}
use pulse_fm.Stream.Sse.Reading.{read_event, one_line, format_sse-read_event}
use pulse_fm.Stream.Sse.{Event, format_sse, event_name}

abbrev beat : Event
beat = Event.heartbeat (record { vote_id = some "v1"; ts = 7; redis_available = true })

one_text : one_line "{}" ≡ true
unfolding one_line
one_text = refl

format_sse-read_event_example :
    read_event (format_sse (λ _. "{}") beat) ≡ some (event_name beat, "{}")
format_sse-read_event_example = format_sse-read_event (λ _. "{}") beat one_text
