-- ===== src/Redis/Tests.antt =====
-- Runs of the Redis client on the store of Redis/Memory.
use pulse_fm.Base.{ℕ, ◌≡◌, refl, String, true, false, some, [], ◌∷◌, arith, ◌==◌, if◌then◌else◌}
use pulse_fm.Base.Dict.{contains, lookup}
use pulse_fm.Snapshot.{Snapshot, absent, dict}
use pulse_fm.Redis.{number, json, hget}
use pulse_fm.Redis.Keys.{poll_tally_key, poll_voted_key}
use pulse_fm.Redis.Memory.{Memory, at, nothing, commands, commands-IsLawful}
use pulse_fm.Redis.Poll.{init_poll_open_atomic, has_voted_session}
use pulse_fm.Redis.Playback.{get_playback_current_snapshot}
use pulse_fm.Redis.Poll.Voting.{first_votes, record_votes, votes, Seen, record_votes-first_votes}
use pulse_fm.Redis.Poll.Opening.{init_poll_open_atomic_opens}

-- An open poll with two options, in which the session "ann" has voted.
abbrev pub open_snapshot : Snapshot
open_snapshot = record {
  current_song = absent;
  next_song = absent;
  poll = dict (record {
    vote_id = some "v1";
    options = some ("rock" ∷ "jazz" ∷ []);
    version = some 3;
    status = some "OPEN";
    end_at = some 170000;
  });
}

abbrev pub polled : Memory
polled = record nothing {
  texts = at (nothing.texts) "pulsefm:playback:current" (some (json open_snapshot));
  hashes = at (nothing.hashes) (poll_tally_key "v1") (("rock", number 4) ∷ ("jazz", number 0) ∷ []);
  members = at (nothing.members) (poll_voted_key "v1") (at (λ _. false) "ann" true);
}

polled-Seen : Seen commands-IsLawful polled "v1" ("ann" ∷ [])
unfolding has_voted_session contains poll_voted_key
polled-Seen x = ground arith

polled_counts : (o : String) → (n : ℕ) × (votes commands polled "v1" o ≡ some n)
unfolding lookup poll_tally_key
polled_counts o = (if "rock" == o then 4 else 0, ground arith)

pub polled_jazz : votes commands polled "v1" "jazz" ≡ some 0
unfolding lookup poll_tally_key
polled_jazz = refl

record_votes-first_votes_example :
    votes commands
      (record_votes commands "v1" (("bob", "jazz") ∷ ("ann", "jazz") ∷ ("bob", "rock") ∷ []) polled)
      "v1"
      "jazz"
    ≡ some 1
unfolding first_votes contains
record_votes-first_votes_example =
    record_votes-first_votes commands-IsLawful "v1"
      (("bob", "jazz") ∷ ("ann", "jazz") ∷ ("bob", "rock") ∷ []) polled ("ann" ∷ []) polled-Seen
      polled_counts "jazz" 0 polled_jazz

pub bob_fresh : has_voted_session commands "v1" "bob" polled ≡ false
unfolding has_voted_session poll_voted_key
bob_fresh = refl

init_poll_open_atomic_opens_example :
    let s' = init_poll_open_atomic commands "v2" open_snapshot 180 3600 ("folk" ∷ []) polled in
    (get_playback_current_snapshot commands s' ≡ some open_snapshot)
    × (hget commands s' (poll_tally_key "v2") "folk" ≡ some (number 0))
    × (has_voted_session commands "v2" "ann" s' ≡ false)
unfolding contains
init_poll_open_atomic_opens_example =
    init_poll_open_atomic_opens commands-IsLawful "v2" open_snapshot 180 3600 ("folk" ∷ []) polled
      "v2" "folk" "ann"
