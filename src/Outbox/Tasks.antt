-- ===== src/Outbox/Tasks.antt =====
-- packages/pulsefm-tasks/pulsefm_tasks/client.py. Cloud Tasks is the parameter `Queue`: whether it
-- answers, and which task names it knows already, also of tasks that have run.
use mathlib.Core.List.{◌++◌}
use pulse_fm.Base.{
  ℕ, String, Bool, true, false, not, ◌||◌, Option, none, some, [], ◌∷◌, if◌then◌else◌,
}
use pulse_fm.Base.Dict.{Dict}
use pulse_fm.Base.Text.{non_empty}
use pulse_fm.Base.Value.{Value, ok, err, service_error, value_error}
use pulse_fm.Base.Action.{Action, raise_if, ◌>>◌}
use pulse_fm.Outbox.{Outbox, Task}

pub record Queue : Type 0 where
  pub project_id : String
  pub location : String
  pub answers : Bool
  pub knows : String → Bool

abbrev missing_location : Queue → Bool
missing_location q = not (non_empty q.project_id) || not (non_empty q.location)

append_task : Task → Outbox → Outbox
append_task t o = record o { tasks = o.tasks ++ t ∷ [] }

-- `client.create_task`: a name that is known is refused as AlreadyExists (`some false`).
create_task : Queue → Task → Outbox → Option Bool × Outbox
unfolding append_task
create_task q t o = if not q.answers then (none, o) else elim t.name [
  | none ↦ (some true, append_task t o)
  | some n ↦ if q.knows n then (some false, o) else (some true, append_task t o)
]

-- An empty `task_id` gives the task no name of its own.
task_name : Option String → Option String
unfolding non_empty
task_name none = none
task_name (some n) = if non_empty n then some n else none

unfoldable pub enqueue_json_task : Queue → String → String → Dict Value → Action Outbox (Unit {0})
unfolding create_task non_empty
enqueue_json_task q queue_name target_url payload = do
  raise_if (missing_location q) (value_error "PROJECT_ID and LOCATION are required")
  λ o.
      let (created, o') =
        create_task q
          (record {
            queue = queue_name;
            url = target_url;
            payload = payload;
            delay = none;
            name = none;
          })
          o in
      elim created [ none ↦ (err service_error, o') | some _ ↦ (ok tt, o') ]

-- The result tells whether a task was created.
unfoldable pub enqueue_json_task_with_delay :
    Queue → String → String → Dict Value → ℕ → Option String → Bool → Action Outbox Bool
unfolding create_task task_name non_empty
enqueue_json_task_with_delay q queue_name target_url payload delay task_id ignore_already_exists =
    do
      raise_if (missing_location q) (value_error "PROJECT_ID and LOCATION are required")
      λ o.
          let (created, o') =
            create_task q
              (record {
                queue = queue_name;
                url = target_url;
                payload = payload;
                delay = some delay;
                name = task_name task_id;
              })
              o in
          elim created [
            | none ↦ (err service_error, o')
            | some true ↦ (ok true, o')
            | some false ↦ if ignore_already_exists then (ok false, o') else (err service_error, o')
          ]
