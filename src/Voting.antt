-- ===== src/Voting.antt =====
-- The way of a vote: vote-api checks it and enqueues a task (Voting/Api), and tally-function, which
-- Cloud Tasks calls with the task, counts it in Redis (Voting/Tally).
pub mod Tally
pub mod Api
pub mod Delivery
pub mod Tests
unfoldable pub use pulse_fm.Base.Value.{member}
use pulse_fm.Base.{String, Bool, true, false, Option, none, some, ◌==◌, if◌then◌else◌}
use pulse_fm.Base.Value.{Value, null, str, Fields, end, field}
use pulse_fm.Outbox.{Outbox}

-- What the handlers change.
pub record Backend (S : Type 0) : Type 0 where
  pub redis : S
  pub outbox : Outbox

-- `x == value` for an optional text and a JSON value.
unfoldable pub equals : Option String → Value → Bool
equals none null = true
equals (some s) (str t) = s == t
equals _ _ = false
