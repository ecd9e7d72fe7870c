-- ===== src/Stream/Deltas.antt =====
-- services/playback-stream/pulsefm_playback_stream/main.py: the deltas of TALLY_DELTA, and how a listener
-- adds them up (client/hooks/useStreamPlayer.ts).
pub mod Adding
use pulse_fm.Base.{ℕ, suc, ◌+◌, ◌-◌, String, some, [], ◌∷◌, is_some, or_else, if◌then◌else◌}
use pulse_fm.Base.Int.{ℤ, pos, negsuc, sub_ℕ}
use pulse_fm.Base.Dict.{Dict, lookup, insert}

-- The loop over the tallies that were read, against the last ones sent.
unfoldable pub changed : Dict ℕ → Dict ℕ → Dict ℤ → Dict ℤ
changed last [] deltas = deltas
changed last ((option, n) ∷ rest) deltas =
    changed last rest (insert option (sub_ℕ n (or_else (lookup option last) 0)) deltas)

-- The loop over the last tallies: an option that is not among the new ones has the delta 0.
unfoldable pub vanished : Dict ℕ → Dict ℤ → Dict ℤ
vanished [] deltas = deltas
vanished ((option, _) ∷ rest) deltas =
    vanished rest (if is_some (lookup option deltas) then deltas else insert option (pos 0) deltas)

abbrev pub tally_deltas : Dict ℕ → Dict ℕ → Dict ℤ
tally_deltas last tallies = vanished last (changed last tallies [])

-- `tallies[option] || 0`
abbrev pub count : String → Dict ℕ → ℕ
count option tallies = or_else (lookup option tallies) 0

-- `Math.max(0, n + delta)`
abbrev pub add_delta : ℕ → ℤ → ℕ
add_delta n (pos d) = n + d
add_delta n (negsuc d) = n - suc d

-- What the listener shows after the deltas.
unfoldable pub apply_deltas : Dict ℤ → Dict ℕ → Dict ℕ
apply_deltas [] shown = shown
apply_deltas ((option, delta) ∷ rest) shown =
    apply_deltas rest (insert option (add_delta (count option shown) delta) shown)
