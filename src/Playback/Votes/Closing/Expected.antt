-- ===== src/Playback/Votes/Closing/Expected.antt =====
-- The vote that a request to close names (services/playback-service/pulsefm_playback_service/main.py).
use pulse_fm.Base.{
  ℕ, ◌≡◌, refl, ap, sym, ◌⊎◌, inl, inr, String, true, false, Option, none, some, arith, eq_iff,
  eq_refl,
}
use pulse_fm.Base.Int.{ℤ, pos, negsuc}
use pulse_fm.Redis.Playback.{is_text, is_text-true}
use pulse_fm.Playback.{VoteState, or_zero}
use pulse_fm.Playback.Votes.{other_vote, other_version}

-- The vote that a request names, where it names one, is `state`, and `state` is open.
pub record IsExpected (vote_id : Option String) (version : Option ℤ) (state : VoteState)
    : Type 0 where
  pub this_vote : (vote_id ≡ none) ⊎ (vote_id ≡ state.vote_id)
  pub this_version : (version ≡ none) ⊎ (version ≡ some (pos (or_zero state.version)))
  pub was_open : state.status ≡ some "OPEN"

other_vote-false :
    (expected current : Option String)
    → other_vote expected current ≡ false
    → (expected ≡ none) ⊎ (expected ≡ current)
unfolding other_vote
other_vote-false none current e = inl refl
other_vote-false (some t) current e = inr (sym (is_text-true current t (ground arith)))

other_version-false :
    (expected : Option ℤ) (current : ℕ)
    → other_version expected current ≡ false
    → (expected ≡ none) ⊎ (expected ≡ some (pos current))
unfolding other_version
other_version-false none current e = inl refl
other_version-false (some (pos n)) current e = inr (ap (λ k. some (pos k)) (ground arith))
other_version-false (some (negsuc n)) current e = ground arith

pub other_vote-same :
    (expected current : Option String)
    → (expected ≡ none) ⊎ (expected ≡ current)
    → other_vote expected current ≡ false
unfolding other_vote is_text
other_vote-same none current e = refl
other_vote-same (some t) none e = ground arith
other_vote-same (some t) (some u) e = ground (arith, eq_iff u t, eq_refl t)

pub other_version-same :
    (expected : Option ℤ) (current : ℕ)
    → (expected ≡ none) ⊎ (expected ≡ some (pos current))
    → other_version expected current ≡ false
unfolding other_version
other_version-same none current e = refl
other_version-same (some (pos n)) current e = ground arith
other_version-same (some (negsuc n)) current e = ground arith

pub IsExpected-intro :
    (vote_id : Option String) (version : Option ℤ) (state : VoteState)
    → other_vote vote_id state.vote_id ≡ false
    → other_version version (or_zero state.version) ≡ false
    → is_text state.status "OPEN" ≡ true
    → IsExpected vote_id version state
IsExpected-intro vote_id version state same same_version opened = record {
  this_vote = other_vote-false vote_id state.vote_id same;
  this_version = other_version-false version (or_zero state.version) same_version;
  was_open = is_text-true state.status "OPEN" opened;
}
