-- ===== src/Snapshot.antt =====
-- The JSON document under the Redis key pulsefm:playback:current, which playback-service writes and
-- vote-api, tally-function and playback-stream read. Times are epoch milliseconds.
use pulse_fm.Base.{ℕ, String, Bool, true, false, ◌||◌, Option, List}
use pulse_fm.Base.Value.{Value}

-- A member of a JSON object that the code looks up: absent, a dict, or no dict (`falsy`, such as
-- `null`, or `malformed`, a value that counts as true).
pub data Member (A : Type 0) : Type 0 where
  absent falsy malformed : Member A
  dict : A → Member A

pub record CurrentSong : Type 0 where
  pub vote_id : Option String
  pub start_at : Option ℕ
  pub end_at : Option ℕ
  pub duration_ms : Option ℕ

-- `duration_ms` is `null` where the member is missing.
pub record NextSong : Type 0 where
  pub vote_id : Option String
  pub duration_ms : Value

pub record Poll : Type 0 where
  pub vote_id : Option String
  pub options : Option (List String)
  pub version : Option ℕ
  pub status : Option String
  pub end_at : Option ℕ

pub record Snapshot : Type 0 where
  pub current_song : Member CurrentSong
  pub next_song : Member NextSong
  pub poll : Member Poll

present : {A : Type 0} → Member A → Bool
present absent = false
present _ = true

-- `if snapshot:`, false of a dict with no members.
unfoldable pub has_members : Snapshot → Bool
unfolding present
has_members s = present s.current_song || present s.next_song || present s.poll
