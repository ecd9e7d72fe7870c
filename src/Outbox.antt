-- ===== src/Outbox.antt =====
-- What leaves a service: Pub/Sub messages and Cloud Tasks, with the two shared clients
-- (packages/pulsefm-pubsub, packages/pulsefm-tasks).
pub mod PubSub
pub mod Tasks
use pulse_fm.Base.{ℕ, String, Option, List}
use pulse_fm.Base.Dict.{Dict}
use pulse_fm.Base.Value.{Value}

pub record Message : Type 0 where
  pub topic : String
  pub payload : Dict Value

-- `delay` is in microseconds; a task with no delay is due at once.
pub record Task : Type 0 where
  pub queue : String
  pub url : String
  pub payload : Dict Value
  pub delay : Option ℕ
  pub name : Option String

-- Newest last.
pub record Outbox : Type 0 where
  pub published : List Message
  pub tasks : List Task
