-- ===== src/Stream/Sse.antt =====
-- services/playback-stream/pulsefm_playback_stream/main.py: the events of the stream, their payloads and
-- `_format_sse`, with the reading of such a text by the EventSource standard.
pub mod Reading
pub mod Tests
use Prim.Native.Char.{Char, code}
use pulse_fm.Base.{
  ℕ, String, ◌++◌, Bool, true, false, Option, none, some, [], ◌∷◌, eqb, or_else, if◌then◌else◌,
}
use pulse_fm.Base.Int.{ℤ, pos}
use pulse_fm.Base.Dict.{Dict}
use pulse_fm.Base.Value.{Value, Fields, field, end, str, int, bool, null, obj}
use pulse_fm.Stream.{Invalidated, VoteClosed, NextSongChanged}

pub record Hello : Type 0 where
  pub vote_id : Option String
  pub ts : ℕ
  pub version : Option ℕ
  pub heartbeat_sec : ℕ
  pub redis_available : Bool

pub record TallySnapshot : Type 0 where
  pub vote_id : Option String
  pub ts : ℕ
  pub tallies : Dict ℕ
  pub status : Option String
  pub winner_option : Option String
  pub redis_available : Bool

pub record TallyDelta : Type 0 where
  pub vote_id : Option String
  pub ts : ℕ
  pub delta : Dict ℤ
  pub listeners : Option ℕ
  pub redis_available : Bool

pub record Heartbeat : Type 0 where
  pub vote_id : Option String
  pub ts : ℕ
  pub redis_available : Bool

pub data Event : Type 0 where
  hello : Hello → Event
  song_changed : Invalidated → Event
  vote_closed : VoteClosed → Event
  next_song_changed : NextSongChanged → Event
  tally_snapshot : TallySnapshot → Event
  tally_delta : TallyDelta → Event
  heartbeat : Heartbeat → Event

unfoldable pub event_name : Event → String
event_name (hello _) = "HELLO"
event_name (song_changed _) = "SONG_CHANGED"
event_name (vote_closed _) = "VOTE_CLOSED"
event_name (next_song_changed _) = "NEXT-SONG-CHANGED"
event_name (tally_snapshot _) = "TALLY_SNAPSHOT"
event_name (tally_delta _) = "TALLY_DELTA"
event_name (heartbeat _) = "HEARTBEAT"

text_value : Option String → Value
text_value none = null
text_value (some s) = str s

int_value : Option ℤ → Value
int_value none = null
int_value (some n) = int n

nat_value : Option ℕ → Value
nat_value none = null
nat_value (some n) = int (pos n)

counts : Dict ℕ → Fields
counts [] = end
counts ((option, n) ∷ rest) = field option (int (pos n)) (counts rest)

changes : Dict ℤ → Fields
changes [] = end
changes ((option, n) ∷ rest) = field option (int n) (changes rest)

unfoldable pub event_payload : Event → Fields
unfolding text_value int_value nat_value counts changes
event_payload (hello e) = field "voteId" (text_value e.vote_id) (
    field "ts" (int (pos e.ts)) (
      field "version" (nat_value e.version) (
        field "heartbeatSec" (int (pos e.heartbeat_sec))
          (field "redisAvailable" (bool e.redis_available) end))))
event_payload (song_changed e) =
    field "voteId" (text_value e.vote_id)
      (field "ts" (int (pos e.ts)) (field "version" (int_value e.version) end))
event_payload (vote_closed e) =
    field "voteId" e.vote_id
      (field "winnerOption" e.winner_option (field "ts" (int (pos e.ts)) end))
event_payload (next_song_changed e) = field "voteId" e.vote_id (
    field "durationMs" (int_value e.duration_ms)
      (field "version" (int_value e.version) (field "ts" (int (pos e.ts)) end)))
event_payload (tally_snapshot e) = field "voteId" (text_value e.vote_id) (
    field "ts" (int (pos e.ts)) (
      field "tallies" (obj (counts e.tallies)) (
        field "status" (text_value e.status) (
          field "winnerOption" (text_value e.winner_option)
            (field "redisAvailable" (bool e.redis_available) end)))))
event_payload (tally_delta e) = field "voteId" (text_value e.vote_id) (
    field "ts" (int (pos e.ts)) (
      field "delta" (obj (changes e.delta)) (
        field "listeners" (nat_value e.listeners)
          (field "redisAvailable" (bool e.redis_available) end))))
event_payload (heartbeat e) =
    field "voteId" (text_value e.vote_id)
      (field "ts" (int (pos e.ts)) (field "redisAvailable" (bool e.redis_available) end))

-- `dumps` is `json.dumps(data, separators=(",", ":"))`.
unfoldable pub format_sse : (Fields → String) → Event → String
unfolding event_name event_payload
format_sse dumps e = "event: " ++ event_name e ++ "\ndata: " ++ dumps (event_payload e) ++ "\n\n"
