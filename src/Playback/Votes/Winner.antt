-- ===== src/Playback/Votes/Winner.antt =====
-- `_pick_winner` (services/playback-service/pulsefm_playback_service/main.py) against what a winner is.
use pulse_fm.Base.{
  ℕ, ◌≡◌, ◌≤◌, ◌⊎◌, inl, inr, refl, String, max, some, List, [], ◌∷◌, eqb, ltb, sym, subst, arith,
  Bool-cases,
}
use pulse_fm.Base.Dict.{Dict}
use pulse_fm.Playback.Votes.{max_votes, tied, pick_winner}

-- `option` stands in the tallies with the count `n`.
abbrev pub IsEntry : String → ℕ → Dict ℕ → Type 0
IsEntry option n [] = ⊥
IsEntry option n ((o, m) ∷ tallies) = ((option ≡ o) × (n ≡ m)) ⊎ IsEntry option n tallies

-- No count of the tallies is above `n`.
abbrev pub IsBound : ℕ → Dict ℕ → Type 0
IsBound n [] = Unit
IsBound n ((o, m) ∷ tallies) = (m ≤ n) × IsBound n tallies

abbrev pub IsElement : String → List String → Type 0
IsElement x [] = ⊥
IsElement x (y ∷ ys) = (x ≡ y) ⊎ IsElement x ys

-- The random choice takes an element of a list that has one, as `random.choice` does.
abbrev pub IsChoice : (List String → String) → Type 0
IsChoice choice = (x : String) (xs : List String) → IsElement (choice (x ∷ xs)) (x ∷ xs)

max_votes_above : (best : ℕ) (tallies : Dict ℕ) → best ≤ max_votes best tallies
unfolding max_votes
max_votes_above best [] = omega arith
max_votes_above best ((o, n) ∷ tallies) = ground (arith, max_votes_above (max best n) tallies)

max_votes-IsBound : (best : ℕ) (tallies : Dict ℕ) → IsBound (max_votes best tallies) tallies
unfolding max_votes
max_votes-IsBound best [] = tt
max_votes-IsBound best ((o, n) ∷ tallies) =
    (ground (arith, max_votes_above (max best n) tallies), max_votes-IsBound (max best n) tallies)

-- The maximum is the starting value or the count of an option that is tied for it.
abbrev HasTied : ℕ → Dict ℕ → Type 0
HasTied n tallies = (x : String) × (xs : List String) × (tied n tallies ≡ x ∷ xs)

tied_here : (o : String) (n : ℕ) (tallies : Dict ℕ) → HasTied n ((o, n) ∷ tallies)
unfolding tied
tied_here o n tallies = (o, tied n tallies, ground arith)

tied_later :
    (o : String) (m n : ℕ) (tallies : Dict ℕ) → HasTied n tallies → HasTied n ((o, m) ∷ tallies)
unfolding tied
tied_later o m n tallies (x, xs, e) = elim (Bool-cases (eqb m n)) [
  | inl same ↦ (o, tied n tallies, ground arith)
  | inr differ ↦ (x, xs, ground arith)
]

max_votes_reached :
    (best : ℕ) (tallies : Dict ℕ)
    → (max_votes best tallies ≡ best) ⊎ HasTied (max_votes best tallies) tallies
unfolding max_votes
max_votes_reached best [] = inl refl
max_votes_reached best ((o, n) ∷ tallies) = elim (max_votes_reached (max best n) tallies) [
  | inr found ↦ inr (tied_later o n (max_votes (max best n) tallies) tallies found)
  | inl same ↦ elim (Bool-cases (ltb best n)) [
    | inl more ↦
        let top : max_votes (max best n) tallies ≡ n = ground arith in
        inr (subst (λ k. HasTied k ((o, n) ∷ tallies)) (sym top) (tied_here o n tallies))
    | inr less ↦ inl (ground arith)
  ]
]

best_tied :
    (o : String) (n : ℕ) (tallies : Dict ℕ) → HasTied (max_votes n tallies) ((o, n) ∷ tallies)
best_tied o n tallies = elim (max_votes_reached n tallies) [
  | inl same ↦ subst (λ k. HasTied k ((o, n) ∷ tallies)) (sym same) (tied_here o n tallies)
  | inr found ↦ tied_later o n (max_votes n tallies) tallies found
]

tied_sound :
    (option : String) (n : ℕ) (tallies : Dict ℕ)
    → IsElement option (tied n tallies)
    → IsEntry option n tallies
unfolding tied
tied_sound option n [] found = elim found [ ]
tied_sound option n ((o, m) ∷ tallies) found = elim (Bool-cases (eqb m n)) [
  | inl same ↦
      let listed : IsElement option (o ∷ tied n tallies) = ground arith in
      elim listed [
        | inl here ↦ inl (here, ground arith)
        | inr later ↦ inr (tied_sound option n tallies later)
      ]
  | inr differ ↦ inr (tied_sound option n tallies (ground arith))
]

-- Where the random choice takes an element of its list, the winner of tallies that are not empty is
-- one of their options, with a count that no other count exceeds.
pub pick_winner_maximal :
    (choice : List String → String) (choosing : IsChoice choice)
    → (o : String) (n : ℕ) (tallies : Dict ℕ)
    → (winner : String) × (best : ℕ) × (pick_winner choice ((o, n) ∷ tallies) ≡ some winner)
      × IsEntry winner best ((o, n) ∷ tallies)
      × IsBound best ((o, n) ∷ tallies)
unfolding pick_winner
pick_winner_maximal choice choosing o n tallies =
    let best = max_votes n tallies in
    let all = (o, n) ∷ tallies in
    let (x, xs, listed) = best_tied o n tallies in
    (
      choice (x ∷ xs),
      best,
      ground arith,
      tied_sound (choice (x ∷ xs)) best all
          (subst (IsElement (choice (x ∷ xs))) (sym listed) (choosing x xs)),
      (max_votes_above n tallies, max_votes-IsBound n tallies),
    )
