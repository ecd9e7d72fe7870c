-- ===== src/Updater/Asking.antt =====
-- What an event of the bucket makes `next_song_updater` do (functions/next-song-updater/main.py).
use mathlib.Core.List.{◌++◌}
use pulse_fm.Base.{
  ◌≡◌, ◌≢◌, ◌⊎◌, inl, inr, ap, String, true, false, ◌||◌, some, none, [], ◌∷◌, arith, eq_iff,
  eq_refl, if◌then◌else◌, ◌==◌, Option-cases, Bool-cases,
}
use pulse_fm.Base.Text.{non_empty}
use pulse_fm.Base.Value.{str, Fields, member, ok, err, key_error}
use pulse_fm.Outbox.{Outbox, Task}
use pulse_fm.Updater.Names.{extract_vote_id, build_task_id}
use pulse_fm.Updater.Extraction.{IsEncoded, extract_vote_id_iff}
use pulse_fm.Updater.Requests.{
  IsRefresh, IsUnasked, refresh_task-IsRefresh, build_task_id-injective, IsUnasked-knows,
  refresh_task-name,
}
use pulse_fm.Updater.{
  Env, vote, refresh_task, enqueue_refresh_next_task, updated_vote, next_song_updater,
}

-- The function is configured, and Cloud Tasks answers.
pub record IsReady (env : Env) : Type 0 where
  pub project_id : non_empty env.queue.project_id ≡ true
  pub location : non_empty env.queue.location ≡ true
  pub url : non_empty env.playback_service_url ≡ true
  pub answers : env.queue.answers ≡ true

-- The event names an object of the target bucket that is the song of a vote.
pub record IsSong (env : Env) (payload : Fields) (vote_id : String) : Type 0 where
  pub object_name : String
  pub bucket : member "bucket" payload ≡ str env.target_bucket
  pub name : member "name" payload ≡ str object_name
  pub encoded : IsEncoded env.encoded_prefix object_name vote_id

-- Cloud Tasks once it has taken a task: it knows that task's name too.
abbrev pub remembers : Env → Task → Env
remembers env t = record env {
  queue = record (env.queue) {
    knows = λ n. env.queue.knows n || (elim t.name [ none ↦ false | some m ↦ m == n ]);
  };
}

updated_vote-vote :
    (env : Env) (payload : Fields) (vote_id : String)
    → IsSong env payload vote_id
    → updated_vote env (member "bucket" payload) (member "name" payload) ≡ vote vote_id
unfolding updated_vote
updated_vote-vote env payload vote_id song = ground (
  arith,
  song.bucket,
  song.name,
  eq_refl env.target_bucket,
  (extract_vote_id_iff env.encoded_prefix song.object_name vote_id).1 song.encoded,
)

asks_once :
    (env : Env) (payload : Fields) (vote_id : String) (o : Outbox)
    → IsReady env
    → IsSong env payload vote_id
    → next_song_updater env payload o ≡ (
      ok tt,
      if env.queue.knows (build_task_id vote_id)
          then o
          else record o { tasks = o.tasks ++ refresh_task env vote_id ∷ [] },
    )
unfolding next_song_updater enqueue_refresh_next_task
asks_once env payload vote_id o ready song =
    ground (arith, updated_vote-vote env payload vote_id song)

-- The song of a vote for which Cloud Tasks has taken no task yet makes the function add one task, which asks
-- playback-service to refresh the next song for that vote; and once Cloud Tasks knows that task's name, the
-- song of the same vote adds nothing, while that of another vote adds its own task.
pub next_song_updater_asks :
    (env : Env) (payload payload' : Fields) (vote_id vote_id' : String) (o : Outbox)
    → IsReady env
    → IsSong env payload vote_id
    → IsSong env payload' vote_id'
    → IsUnasked env vote_id
    → IsUnasked env vote_id'
    → (t : Task) × IsRefresh env vote_id t
      × (let asked = record o { tasks = o.tasks ++ t ∷ [] } in
          (next_song_updater env payload o ≡ (ok tt, asked))
          × (((vote_id ≡ vote_id')
                × (next_song_updater (remembers env t) payload' asked ≡ (ok tt, asked)))
              ⊎ ((vote_id ≢ vote_id')
                  × ((t' : Task) × IsRefresh env vote_id' t'
                      × (next_song_updater (remembers env t) payload' asked
                          ≡ (ok tt, record asked { tasks = asked.tasks ++ t' ∷ [] }))))))
unfolding refresh_task
next_song_updater_asks env payload payload' vote_id vote_id' o ready song song' new new' =
    let t = refresh_task env vote_id in
    let asked : Outbox = record o { tasks = o.tasks ++ t ∷ [] } in
    let later = remembers env t in
    let again =
      asks_once later payload' vote_id' asked
        (record {
          project_id = ready.project_id;
          location = ready.location;
          url = ready.url;
          answers = ready.answers;
        })
        (record {
          object_name = song'.object_name;
          bucket = song'.bucket;
          name = song'.name;
          encoded = song'.encoded;
        }) in
    let name = refresh_task-name env vote_id in
    let known = IsUnasked-knows env vote_id new in
    let known' = IsUnasked-knows env vote_id' new' in
    (
      t,
      refresh_task-IsRefresh env vote_id,
      (
        ground (arith, asks_once env payload vote_id o ready song),
        (elim (Bool-cases (build_task_id vote_id == build_task_id vote_id')) [
          | inl same ↦ inl (
            build_task_id-injective vote_id vote_id'
                (ground (arith, eq_iff (build_task_id vote_id) (build_task_id vote_id'))),
            ground (arith, again),
          )
          | inr other ↦ inr (
            (λ e. ground (
              arith,
              ap build_task_id e,
              eq_iff (build_task_id vote_id) (build_task_id vote_id'),
            )),
            (
              refresh_task later vote_id',
              refresh_task-IsRefresh env vote_id',
              ground (arith, again),
            ),
          )
        ]),
      ),
    )

-- An object of the target bucket that is no vote's song, or any object of another bucket, makes the
-- function raise a KeyError, and nothing is added.
pub next_song_updater_raises :
    (env : Env) (payload : Fields) (bucket object_name : String) (o : Outbox)
    → member "bucket" payload ≡ str bucket
    → member "name" payload ≡ str object_name
    → (bucket ≢ env.target_bucket)
      ⊎ ((vote_id : String) → ¬ IsEncoded env.encoded_prefix object_name vote_id)
    → next_song_updater env payload o ≡ (err key_error, o)
unfolding next_song_updater updated_vote
next_song_updater_raises env payload bucket object_name o is_bucket is_name (inl other) =
    ground (arith, eq_iff bucket env.target_bucket)
next_song_updater_raises env payload bucket object_name o is_bucket is_name (inr nothing) =
    elim (Option-cases (extract_vote_id env.encoded_prefix object_name)) [
      | inl nobody ↦ grind arith
      | inr (vote_id, found) ↦
          absurd
            (nothing vote_id ((extract_vote_id_iff env.encoded_prefix object_name vote_id).0 found))
    ]
