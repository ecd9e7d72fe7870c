-- ===== src/Stream/Scan.antt =====
-- services/playback-stream/pulsefm_playback_stream/main.py: `_count_active_listeners`, whose loop
-- follows the cursor of Redis's SCAN for the pattern pulsefm:heartbeat:session:*.
use mathlib.Core.Logic.{dite}
use native.Mathlib.Decide.{ℕ_discrete}
use pulse_fm.Base.{
  ℕ, suc, ◌+◌, ◌≢◌, String, Bool, true, false, Option, none, some, List, [], ◌∷◌, if◌then◌else◌,
}
use pulse_fm.Base.Text.{non_empty}
use pulse_fm.Redis.{Stored, json, text, Commands}
use pulse_fm.Heartbeat.Keys.{heartbeat_active_key}

-- An iteration that goes on from `cursor` comes back to the cursor 0.
pub data Ends (scan : ℕ → ℕ × List String) : ℕ → Type 0 where
  intro : (cursor : ℕ) → ((scan cursor).0 ≢ 0 → Ends scan (scan cursor).0) → Ends scan cursor

-- SCAN on a store: the next cursor, with the keys of one page. What its documentation promises of a
-- full iteration, one from the cursor 0, is that it ends.
pub record Scan (S : Type 0) : Type 0 where
  pub scan : S → ℕ → ℕ × List String
  pub ends : (s : S) → Ends (scan s) 0

abbrev pub length {ℓ} : {A : Type ℓ} → List A → ℕ
length [] = 0
length (x ∷ xs) = suc (length xs)

-- The loop: a page is counted, and the loop ends at the cursor 0.
unfoldable pub count_pages : (scan : ℕ → ℕ × List String) (cursor : ℕ) → Ends scan cursor → ℕ → ℕ
count_pages scan cursor (intro _ goes_on) count =
    let count' = count + length (scan cursor).1 in
    dite (ℕ_discrete (scan cursor).0 0) (λ _. count')
      (λ more. count_pages scan (scan cursor).0 (goes_on more) count')

-- `if not active`
unfoldable pub is_active : Option Stored → Bool
unfolding non_empty
is_active none = false
is_active (some (json _)) = true
is_active (some (text t)) = non_empty t

module _ {S : Type 0} (c : Commands S) (sc : Scan S) where
  unfoldable pub count_active_listeners : Bool → S → ℕ
  unfolding is_active count_pages
  count_active_listeners connected s =
      if connected
      then (if is_active (c.get s heartbeat_active_key)
          then count_pages (sc.scan s) 0 (sc.ends s) 0
          else 0)
      else 0
