-- ===== src/Playback/Votes/Tests.antt =====
-- Votes that are closed, and a concrete window: three sessions vote, one of them twice.
use pulse_fm.Base.{◌≡◌, refl, inr, some, [], ◌∷◌, true, List}
use pulse_fm.Base.Dict.{lookup, insert}
use pulse_fm.Base.Int.{pos}
use pulse_fm.Base.Text.{non_empty}
use pulse_fm.Redis.Keys.{poll_tally_key, poll_voted_key, playback_current_key}
use pulse_fm.Redis.Memory.{Memory, nothing, commands, commands-IsLawful}
use pulse_fm.Redis.Poll.{init_poll_open_atomic, record_vote_atomic, get_poll_tallies}
use pulse_fm.Redis.Poll.Voting.{Ballot, record_votes}
use pulse_fm.Redis.Tests.{open_snapshot}
use pulse_fm.Playback.{World}
use pulse_fm.Playback.Collection.{Collection}
use pulse_fm.Playback.Votes.{close_current_vote_if_matches}
use pulse_fm.Playback.Votes.Closing.Expected.{IsExpected}
use pulse_fm.Playback.Votes.Window.{Answers, IsDecided, distinct, window-IsDecided}
use pulse_fm.Base.{◌≡◌, inl, inr, refl, true, some, List, [], ◌∷◌}
use pulse_fm.Base.Int.{pos}
use pulse_fm.Base.Dict.{lookup}
use pulse_fm.Base.Value.{ok}
use pulse_fm.Redis.Memory.{Memory, commands}
use pulse_fm.Redis.Playback.{is_text, set_playback_poll_status}
use pulse_fm.Redis.Keys.{playback_current_key}
use pulse_fm.Outbox.PubSub.{publish_json, topic_path, resolve_project_id}
use pulse_fm.Base.Text.{non_empty}
use pulse_fm.Playback.{World}
use pulse_fm.Playback.Collection.{Collection}
use pulse_fm.Playback.Votes.{
  already_closed, closed, close_current_vote_if_matches, close_found, close_vote, write_closing,
  announce_closing, set_current_state, live_tallies, get_current_state, other_vote, other_version,
  publish_vote_event,
}
use pulse_fm.Playback.Votes.Closing.{Effect, close_current_vote-Effect, close_current_vote_again}
use pulse_fm.Playback.Votes.Winner.{IsChoice}
use pulse_fm.Playback.Samples.{first_of, all_up, vote, start}

close_current_vote-Effect_example :
    Effect {D = Collection} commands all_up
      (some "v1")
      (some (pos 3))
      start
      (close_current_vote_if_matches commands all_up (some "v1") (some (pos 3)) start).1
close_current_vote-Effect_example =
    close_current_vote-Effect commands all_up (some "v1") (some (pos 3)) start

first_of-IsChoice : IsChoice first_of
unfolding first_of
first_of-IsChoice x xs = inl refl

abbrev after_closing : World Memory Collection
after_closing = (close_current_vote_if_matches commands all_up (some "v1") (some (pos 3)) start).1

closes_first :
    close_current_vote_if_matches commands all_up (some "v1") (some (pos 3)) start
    ≡ (ok (closed (some "v1") 3), after_closing)
unfolding close_current_vote_if_matches get_current_state close_found other_vote other_version
    close_vote write_closing announce_closing set_current_state live_tallies is_text non_empty
    publish_vote_event publish_json topic_path resolve_project_id set_playback_poll_status
    playback_current_key
closes_first = refl

close_current_vote_again_example :
    close_current_vote_if_matches commands all_up (some "v1") (some (pos 3)) after_closing
    ≡ (ok (already_closed (some "v1") 3), after_closing)
close_current_vote_again_example =
    close_current_vote_again commands all_up all_up (some "v1") (some (pos 3)) start after_closing
      (some "v1") 3 closes_first refl

abbrev ballots : List Ballot
ballots = ("ann", "jazz") ∷ ("bob", "rock") ∷ ("ann", "rock") ∷ ("cid", "jazz") ∷ []

abbrev voted : Memory
voted =
    record_votes commands "v1" ballots
      (init_poll_open_atomic commands "v1" open_snapshot 180 3600 ("rock" ∷ "jazz" ∷ []) nothing)

voted_tallies : get_poll_tallies commands "v1" voted ≡ ("rock", 1) ∷ ("jazz", 2) ∷ []
unfolding get_poll_tallies record_votes init_poll_open_atomic record_vote_atomic poll_voted_key
    poll_tally_key insert lookup
voted_tallies = refl

voted-distinct : distinct (commands.hgetall voted (poll_tally_key "v1")) ≡ true
unfolding distinct record_votes init_poll_open_atomic record_vote_atomic poll_voted_key
    poll_tally_key insert lookup
voted-distinct = refl

abbrev window : World Memory Collection
window = record start { redis = voted }

pub all_up-Answers : Answers all_up
all_up-Answers = record { looks = refl; reads = refl; writes = refl; choosing = first_of-IsChoice }

window-IsExpected : IsExpected (some "v1") (some (pos 3)) vote
window-IsExpected = record { this_vote = inr refl; this_version = inr refl; was_open = refl }

window-IsDecided_example :
    IsDecided commands-IsLawful all_up ballots
      (close_current_vote_if_matches commands all_up (some "v1") (some (pos 3)) window).1
unfolding non_empty
window-IsDecided_example =
    window-IsDecided commands-IsLawful all_up "v1" open_snapshot 180 3600 "rock" ("jazz" ∷ [])
      nothing ballots (some (pos 3)) vote window all_up-Answers refl refl window-IsExpected refl
      refl voted-distinct
