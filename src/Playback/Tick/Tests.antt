-- ===== src/Playback/Tick/Tests.antt =====
-- A tick, two votes for the poll that it opens, and the closing of its vote.
use pulse_fm.Base.{ℕ, ◌≡◌, ◌∙◌, ap, sym, subst, refl, true, some, List, [], ◌∷◌, arith}
use pulse_fm.Base.Dict.{lookup, insert}
use pulse_fm.Base.Text.{non_empty, has_content}
use pulse_fm.Base.Value.{ok}
use pulse_fm.Snapshot.{Snapshot}
use pulse_fm.Redis.Keys.{poll_tally_key, poll_voted_key, playback_current_key}
use pulse_fm.Redis.Memory.{Memory, commands, commands-IsLawful}
use pulse_fm.Redis.Poll.{init_poll_open_atomic, record_vote_atomic}
use pulse_fm.Redis.Poll.Voting.{Ballot, record_votes}
use pulse_fm.Playback.{VoteState, or_zero}
use pulse_fm.Playback.Collection.{songs, songs-IsLawful}
use pulse_fm.Playback.Votes.{get_window_options}
use pulse_fm.Playback.Votes.Success.{IsUp}
use pulse_fm.Playback.Votes.Tests.{all_up-Answers}
use pulse_fm.Playback.Votes.Window.{IsDecided, distinct}
use pulse_fm.Playback.Tick.{tick, done, close_vote_route}
use pulse_fm.Playback.Tick.Continuing.{Continues, tick-Continues}
use pulse_fm.Playback.Tick.Windows.{
  close_payload, voted, IsDistinct, Continues-polled, tick-IsDecided,
}
use pulse_fm.Playback.Samples.{all_up, start, station, payload}
use pulse_fm.Playback.Tests.{start-IsValid, start-IsNamed, payload_valid}

abbrev ballots : List Ballot
ballots = ("ann", "jazz") ∷ ("bob", "jazz") ∷ []

all_up-IsUp : IsUp all_up
unfolding non_empty get_window_options
all_up-IsUp = record {
  transaction = refl;
  read = refl;
  closes = refl;
  opens = refl;
  announces_closed = refl;
  announces_opened = refl;
  announces_next_song = refl;
  announces_changeover = refl;
  project_id = refl;
  playback_topic = refl;
  vote_topic = refl;
  url = refl;
  tasks_project = refl;
  location = refl;
  answers = refl;
  options = "rock" ∷ "jazz" ∷ [];
  has_options = refl;
}

options_offered : get_window_options all_up ≡ ok ("rock" ∷ "jazz" ∷ [])
unfolding get_window_options
options_offered = refl

poll_distinct :
    (snapshot : Snapshot) (ttl state_ttl : ℕ) (s : Memory)
    → distinct (
        commands.hgetall
          (record_votes commands "v2" ballots
            (init_poll_open_atomic commands "v2" snapshot ttl state_ttl ("rock" ∷ "jazz" ∷ []) s))
          (poll_tally_key "v2"))
      ≡ true
unfolding distinct record_votes init_poll_open_atomic record_vote_atomic poll_voted_key
    poll_tally_key insert lookup playback_current_key
poll_distinct snapshot ttl state_ttl s = refl

goes : Continues commands (songs "s2") all_up (payload 5) start station 5
goes =
    tick-Continues commands (songs "s2") all_up (songs-IsLawful "s2") (payload 5) start 5
      start-IsValid all_up-IsUp start-IsNamed payload_valid.1 (omega arith)

after-IsDistinct :
    IsDistinct commands "v2"
      (voted commands "v2" ballots (tick commands (songs "s2") all_up (payload 5) start).1)
after-IsDistinct =
    let (snapshot, ttl, state_ttl, s, polled) =
      Continues-polled commands (songs "s2") all_up (payload 5) start station 5 goes "rock"
        ("jazz" ∷ []) refl options_offered in
    let redis : (tick commands (songs "s2") all_up (payload 5) start).1.redis
        ≡ init_poll_open_atomic commands "v2" snapshot ttl state_ttl ("rock" ∷ "jazz" ∷ []) s =
      ap (λ r. r.1.redis) goes.runs ∙ polled in
    subst
      (λ r.
        distinct (commands.hgetall (record_votes commands "v2" ballots r) (poll_tally_key "v2"))
        ≡ true)
      (sym redis) (poll_distinct snapshot ttl state_ttl s)

tick-IsDecided_example :
    let (r, w') = tick commands (songs "s2") all_up (payload 5) start in
    (r ≡ ok (done 5))
    × ((window : VoteState) × (w'.vote_state ≡ some window)
        × IsDecided commands-IsLawful all_up ballots
            (close_vote_route commands
              (songs "s2")
              all_up
              (close_payload "v2" (or_zero window.version))
              (voted commands "v2" ballots w')).1)
unfolding has_content
tick-IsDecided_example =
    tick-IsDecided commands-IsLawful (songs "s2") all_up (songs-IsLawful "s2") (payload 5) start 5
      start-IsValid "rock" ("jazz" ∷ []) ballots all_up all_up-IsUp refl start-IsNamed
      payload_valid.1 (omega arith) options_offered refl all_up-Answers after-IsDistinct
