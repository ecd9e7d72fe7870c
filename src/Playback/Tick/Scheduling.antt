-- ===== src/Playback/Tick/Scheduling.antt =====
-- `_schedule_next_tasks` (services/playback-service/pulsefm_playback_service/main.py): the tasks that a
-- changeover leaves.
use mathlib.Core.List.{◌++◌, append-nil}
use text.Mathlib.TextLemmas.{cons-append}
use pulse_fm.Base.{
  ℕ, ◌≡◌, inl, inr, Bool-cases, ap, String, true, not, Option, some, none, List, [], ◌∷◌, arith,
  ◌+◌, ◌*◌, if◌then◌else◌, or_else,
}
use pulse_fm.Base.Dict.{Dict}
use pulse_fm.Base.Int.{pos}
use pulse_fm.Base.Text.{non_empty}
use pulse_fm.Base.Value.{Value, null, str, int, ok}
use pulse_fm.Playback.Ids.{tick_url, vote_close_url, build_tick_task_id, build_vote_close_task_id}
use pulse_fm.Outbox.{Outbox, Task}
use pulse_fm.Outbox.Tasks.{Queue, enqueue_json_task_with_delay}
use pulse_fm.Playback.{Env, VoteState, or_zero}
use pulse_fm.Playback.Rotation.{SongRotationResult}
use pulse_fm.Playback.Tick.{schedule_next_tasks, close_delay}
use pulse_fm.Playback.Votes.Success.{IsUp}

-- The task, unless its name is known.
abbrev pub enqueued : Queue → Task → List Task
enqueued q t = elim t.name [ none ↦ t ∷ [] | some n ↦ if q.knows n then [] else t ∷ [] ]

abbrev pub delayed_task : String → String → Dict Value → ℕ → String → Task
delayed_task queue url payload delay id = record {
  queue = queue;
  url = url;
  payload = payload;
  delay = some delay;
  name = some id;
}

enqueue_delayed :
    (q : Queue) (queue url : String) (payload : Dict Value) (delay : ℕ) (id : String) (o : Outbox)
    → non_empty q.project_id ≡ true
    → non_empty q.location ≡ true
    → q.answers ≡ true
    → non_empty id ≡ true
    → enqueue_json_task_with_delay q queue url payload delay (some id) true o ≡ (
      ok (not (q.knows id)),
      record o { tasks = o.tasks ++ enqueued q (delayed_task queue url payload delay id) },
    )
unfolding enqueue_json_task_with_delay
enqueue_delayed q queue url payload delay id o h k a named = elim (Bool-cases (q.knows id)) [
  | inl known ↦ ground (arith, append-nil o.tasks)
  | inr unknown ↦ ground arith
]

build_tick_task_id-non_empty :
    (vote_id : Option String) (ends_at version : Option ℕ)
    → non_empty (build_tick_task_id vote_id ends_at version) ≡ true
unfolding build_tick_task_id non_empty
build_tick_task_id-non_empty vote_id ends_at version = ap non_empty (cons-append "p" "layback-" _)

build_vote_close_task_id-non_empty :
    (vote_id : String) (version : ℕ) → non_empty (build_vote_close_task_id vote_id version) ≡ true
unfolding build_vote_close_task_id non_empty
build_vote_close_task_id-non_empty vote_id version = ap non_empty (cons-append "v" "ote-close-" _)

-- The two tasks of a changeover: the closing of the new vote, and the tick of the next version at the
-- end of the song.
abbrev pub close_task : Env → SongRotationResult → VoteState → Task
close_task env rotation window =
    let vote_id = or_else window.vote_id "None" in
    let version = or_zero window.version in
    delayed_task env.settings.playback_queue (vote_close_url env.settings)
      (("voteId", elim window.vote_id [ none ↦ null | some v ↦ str v ])
        ∷ ("version", int (pos version))
        ∷ [])
      (close_delay env rotation window) (build_vote_close_task_id vote_id version)

abbrev pub tick_task : Env → SongRotationResult → ℕ → Task
tick_task env rotation version =
    delayed_task env.settings.playback_queue (tick_url env.settings)
      (("version", int (pos version)) ∷ []) (rotation.duration_ms * 1000)
      (build_tick_task_id (some rotation.vote_id) (some rotation.ends_at) (some version))

pub schedule_next_tasks_lem :
    (env : Env) (up : IsUp env) (rotation : SongRotationResult) (window : VoteState) (v : ℕ)
    (o : Outbox)
    → schedule_next_tasks env rotation window v o ≡ (
      ok tt,
      record o {
        tasks =
            (o.tasks ++ enqueued env.queue (close_task env rotation window))
            ++ enqueued env.queue (tick_task env rotation (v + 1));
      },
    )
unfolding schedule_next_tasks
schedule_next_tasks_lem env up rotation window v o =
    let close = close_task env rotation window in
    let first =
      enqueue_delayed env.queue env.settings.playback_queue (vote_close_url env.settings)
        close.payload (close_delay env rotation window)
        (build_vote_close_task_id (or_else window.vote_id "None") (or_zero window.version)) o
        up.tasks_project up.location up.answers
        (build_vote_close_task_id-non_empty (or_else window.vote_id "None")
          (or_zero window.version)) in
    let second =
      enqueue_delayed env.queue env.settings.playback_queue (tick_url env.settings)
        (("version", int (pos (v + 1))) ∷ []) (rotation.duration_ms * 1000)
        (build_tick_task_id (some rotation.vote_id) (some rotation.ends_at) (some (v + 1)))
        (record o { tasks = o.tasks ++ enqueued env.queue close }) up.tasks_project up.location
        up.answers
        (build_tick_task_id-non_empty (some rotation.vote_id) (some rotation.ends_at)
          (some (v + 1))) in
    ground (arith, up.url, first, second)
