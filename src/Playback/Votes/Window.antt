-- ===== src/Playback/Votes/Window.antt =====
-- A whole window: a poll that is opened, voted in and closed (packages/pulsefm-redis and
-- services/playback-service/pulsefm_playback_service/main.py).
use pulse_fm.Base.{
  ℕ, ◌≡◌, ◌≤◌, ◌∙◌, ap, sym, refl, inl, inr, String, Bool, true, not, ◌&&◌, Option, some, List, [],
  ◌∷◌, map, arith, eq_iff, eq_refl, is_some, or_else, ◌==◌, Bool-cases, Option-cases,
}
use pulse_fm.Base.Int.{ℤ}
use pulse_fm.Base.Dict.{Dict, lookup, contains}
use pulse_fm.Base.Value.{ok}
use pulse_fm.Base.Text.{non_empty}
use pulse_fm.Snapshot.{Snapshot}
use pulse_fm.Redis.{HashValue, number, word, counter, Commands, IsLawful, hget}
use pulse_fm.Redis.Keys.{poll_tally_key}
use pulse_fm.Redis.Poll.{count_of, get_poll_tallies, init_poll_open_atomic}
use pulse_fm.Redis.Poll.Voting.{Ballot, first_votes, record_votes}
use pulse_fm.Redis.Poll.Window.{window_counts, window_listed}
use pulse_fm.Playback.{World, Env, VoteState, read_vote_state, read_tallies, write_closed}
use pulse_fm.Playback.Votes.{
  pick_winner, or_zeros, live_tallies, closing_doc, close_vote, get_current_state,
  close_current_vote_if_matches,
}
use pulse_fm.Playback.Votes.Winner.{IsEntry, IsBound, IsChoice, pick_winner_maximal}
use pulse_fm.Playback.Votes.Closing.Expected.{IsExpected}
use pulse_fm.Playback.Votes.Closing.{write_closing_stores, expected-found}

-- No field is named twice.
unfoldable pub distinct : Dict HashValue → Bool
unfolding lookup
distinct [] = true
distinct ((k, _) ∷ d) = let rest = distinct d in not (is_some (lookup k d)) && rest

-- The tallies as `get_poll_tallies` reads them.
abbrev read : Dict HashValue → Dict ℕ
read d = map (λ (entry : String × HashValue). (entry.0, count_of entry.1)) d

IsEntry-lookup :
    (o : String) (n : ℕ) (d : Dict HashValue)
    → distinct d ≡ true
    → IsEntry o n (read d)
    → (v : HashValue) × (lookup o d ≡ some v) × (n ≡ count_of v)
unfolding distinct lookup
IsEntry-lookup o n [] unique found = elim found [ ]
IsEntry-lookup o n ((j, v) ∷ d) unique (inl (here, count)) = (v, ground (arith, eq_iff j o), count)
IsEntry-lookup o n ((j, v) ∷ d) unique (inr later) =
    let (u, found, count) = IsEntry-lookup o n d (ground arith) later in
    elim (Bool-cases (j == o)) [
      | inr other ↦ (u, ground arith, count)
      | inl same ↦ absurd (ground (arith, eq_iff j o))
    ]

IsBound-lookup :
    (best : ℕ) (o : String) (v : HashValue) (d : Dict HashValue)
    → IsBound best (read d)
    → lookup o d ≡ some v
    → count_of v ≤ best
unfolding lookup
IsBound-lookup best o v [] bound found = absurd (ground arith)
IsBound-lookup best o v ((j, u) ∷ d) (here, later) found = elim (Bool-cases (j == o)) [
  | inl same ↦ ground arith
  | inr other ↦ IsBound-lookup best o v d later (ground arith)
]

-- A field that counts is read as its count.
count_of-counter : (v : HashValue) (n : ℕ) → counter (some v) ≡ some n → count_of v ≡ n
unfolding count_of
count_of-counter (number m) n e = ground arith
count_of-counter (word t) n e = ground arith

counter_field :
    (o : String) (v : HashValue) (n : ℕ) (d : Dict HashValue)
    → counter (lookup o d) ≡ some n
    → lookup o d ≡ some v
    → count_of v ≡ n
counter_field o v n d count found = count_of-counter v n (sym (ap counter found) ∙ count)

-- The winner of tallies that are read from a hash in which every field counts.
winner_counts :
    (choice : List String → String) (options : List String) (counts : String → ℕ) (first : String)
    (d : Dict HashValue)
    → IsChoice choice
    → distinct d ≡ true
    → is_some (lookup first d) ≡ true
    → ((o : String) → counter (lookup o d) ≡ some (counts o))
    → (winner : String) × (pick_winner choice (or_zeros (read d) options) ≡ some winner)
      × ((o : String) → counts o ≤ counts winner)
unfolding or_zeros lookup
winner_counts choice options counts first [] choosing unique there count = absurd (ground arith)
winner_counts choice options counts first ((j, v) ∷ d) choosing unique there count =
    let (winner, best, picked, entry, bound) =
      pick_winner_maximal choice choosing j (count_of v) (read d) in
    let (u, found, is_best) = IsEntry-lookup winner best ((j, v) ∷ d) unique entry in
    let most : count_of u ≡ counts winner =
      counter_field winner u (counts winner) ((j, v) ∷ d) (count winner) found in
    (
      winner,
      picked,
      λ o. elim (Option-cases (lookup o ((j, v) ∷ d))) [
        | inl missing ↦
            let none_counted : counts o ≡ 0 = ground (arith, sym (ap counter missing) ∙ count o) in
            omega (arith, none_counted)
        | inr (x, stands) ↦
            let below = IsBound-lookup best o x ((j, v) ∷ d) bound stands in
            let less = counter_field o x (counts o) ((j, v) ∷ d) (count o) stands in
            omega (arith, below, less, most, is_best)
      ],
    )

module _ {S D : Type 0} (c : Commands S) (env : Env) where
  live_tallies_reads :
      (vote_id : String) (w : World S D)
      → env.up read_tallies ≡ true
      → live_tallies c env vote_id w ≡ (ok (get_poll_tallies c vote_id w.redis), w)
  unfolding live_tallies
  live_tallies_reads vote_id w reads = ground arith

  -- While Redis and Firestore answer, closing an open vote stores it with the tallies that Redis holds.
  close_vote_stores :
      (state : VoteState) (w : World S D)
      → non_empty (or_else state.vote_id "") ≡ true
      → env.up read_tallies ≡ true
      → env.up write_closed ≡ true
      → (close_vote c env state w).1.vote_state
        ≡ some (closing_doc env state (get_poll_tallies c (or_else state.vote_id "") w.redis))
  unfolding close_vote
  close_vote_stores state w named reads writes =
      let vote_id = or_else state.vote_id "" in
      let doc = closing_doc env state (get_poll_tallies c vote_id w.redis) in
      ground
        (arith, live_tallies_reads vote_id w reads, write_closing_stores c env vote_id doc w writes)

  close_current_vote_stores :
      (vote_id : Option String) (version : Option ℤ) (state : VoteState) (w : World S D)
      → IsExpected vote_id version state
      → w.vote_state ≡ some state
      → non_empty (or_else state.vote_id "") ≡ true
      → env.up read_vote_state ≡ true
      → env.up read_tallies ≡ true
      → env.up write_closed ≡ true
      → (close_current_vote_if_matches c env vote_id version w).1.vote_state
        ≡ some (closing_doc env state (get_poll_tallies c (or_else state.vote_id "") w.redis))
  unfolding close_current_vote_if_matches get_current_state
  close_current_vote_stores vote_id version state w expected found named looks reads writes =
      ground (
        arith,
        expected-found c env vote_id version state w expected,
        close_vote_stores state w named reads writes,
      )

-- Firestore and Redis answer a request to close, and the random choice takes an element of its list.
pub record Answers (env : Env) : Type 0 where
  pub looks : env.up read_vote_state ≡ true
  pub reads : env.up read_tallies ≡ true
  pub writes : env.up write_closed ≡ true
  pub choosing : IsChoice env.choice

module _ {S D : Type 0} {c : Commands S} (laws : IsLawful c) (env : Env) where
  -- What became of a window: its vote is stored CLOSED, with a winner that as many sessions as any other
  -- option named on their first ballot.
  abbrev pub IsDecided : List Ballot → World S D → Type 0
  IsDecided ballots w =
      (doc : VoteState) × (winner : String) × (w.vote_state ≡ some doc)
      × (doc.status ≡ some "CLOSED")
      × (doc.winner_option ≡ some winner)
      × ((o : String) → first_votes [] ballots o ≤ first_votes [] ballots winner)

  -- Redis opens a poll with an option or more and counts any ballots, and then the poll's vote, which is open
  -- and stored, is closed by a request that names it: the vote is stored CLOSED with a winner, and no option was
  -- named on the first ballots of more sessions than the winner. Redis and Firestore answer, the tallies name no
  -- field twice, and the random choice takes an element of its list.
  pub window-IsDecided :
      (vote_id : String) (snapshot : Snapshot) (ttl state_ttl : ℕ) (option : String)
      (options : List String) (s : S) (ballots : List Ballot) (version : Option ℤ)
      (state : VoteState) (w : World S D)
      → Answers env
      → non_empty vote_id ≡ true
      → state.vote_id ≡ some vote_id
      → IsExpected (some vote_id) version state
      → w.vote_state ≡ some state
      → w.redis
        ≡ record_votes c vote_id ballots
            (init_poll_open_atomic c vote_id snapshot ttl state_ttl (option ∷ options) s)
      → distinct (c.hgetall w.redis (poll_tally_key vote_id)) ≡ true
      → IsDecided ballots (close_current_vote_if_matches c env (some vote_id) version w).1
  unfolding closing_doc get_poll_tallies contains
  window-IsDecided vote_id snapshot ttl state_ttl option options s ballots version state w answers
        named this expected found holds unique =
      let is_vote : or_else state.vote_id "" ≡ vote_id = ap (λ v. or_else v "") this in
      let stored =
        close_current_vote_stores c env (some vote_id) version state w expected found
          (ap non_empty is_vote ∙ named) answers.looks answers.reads answers.writes in
      let key = poll_tally_key vote_id in
      let listed : is_some (hget c w.redis key option) ≡ true =
        ap (λ r. is_some (hget c r key option)) holds
        ∙ window_listed laws vote_id snapshot ttl state_ttl (option ∷ options) s ballots option
            (ground (arith, eq_refl option)) in
      let count : (o : String) → counter (hget c w.redis key o) ≡ some (first_votes [] ballots o) =
        λ o.
          ap (λ r. counter (hget c r key o)) holds
          ∙ window_counts laws vote_id snapshot ttl state_ttl (option ∷ options) s ballots o in
      let (winner, picked, most) =
        winner_counts env.choice state.options (first_votes [] ballots) option
          (c.hgetall w.redis key) answers.choosing unique listed count in
      (
        closing_doc env state (get_poll_tallies c vote_id w.redis),
        winner,
        stored ∙ ap (λ v. some (closing_doc env state (get_poll_tallies c v w.redis))) is_vote,
        refl,
        picked,
        most,
      )
