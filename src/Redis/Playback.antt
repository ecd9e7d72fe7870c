-- ===== src/Redis/Playback.antt =====
-- packages/pulsefm-redis/pulsefm_redis/client.py: the snapshot of what is playing.
use pulse_fm.Base.{
  ℕ, suc, zero, max, String, Bool, true, false, ◌≡◌, arith, eq_iff, Option, none, some, ◌==◌,
  if◌then◌else◌,
}
use pulse_fm.Base.Int.{ℤ, pos, negsuc}
use pulse_fm.Base.Value.{ok, err, value_error}
use pulse_fm.Base.Action.{Action}
use pulse_fm.Snapshot.{Snapshot, dict, has_members}
use pulse_fm.Redis.{json, text, Commands}
use pulse_fm.Redis.Keys.{playback_current_key}

-- `x == s` for an optional text.
unfoldable pub is_text : Option String → String → Bool
is_text none s = false
is_text (some t) s = t == s

pub is_text-true : (t : Option String) (u : String) → is_text t u ≡ true → t ≡ some u
unfolding is_text
is_text-true none u e = ground arith
is_text-true (some t) u e = ground (arith, eq_iff t u)

-- A time to live as `int(ttl)`, if it is positive.
unfoldable pub positive_ttl : ℤ → Option ℕ
positive_ttl (pos zero) = none
positive_ttl (pos (suc n)) = some (suc n)
positive_ttl (negsuc _) = none

module _ {S : Type 0} (c : Commands S) where
  unfoldable pub set_playback_current_snapshot : Snapshot → ℕ → S → S
  set_playback_current_snapshot snapshot ttl_seconds s =
      c.set s playback_current_key (json snapshot) (some (max 1 ttl_seconds))

  unfoldable pub get_playback_current_snapshot : S → Option Snapshot
  get_playback_current_snapshot s = elim (c.get s playback_current_key) [
    | none ↦ none
    | some stored ↦ elim stored [ json snapshot ↦ some snapshot | text _ ↦ none ]
  ]

  write_back : Snapshot → S → S
  unfolding positive_ttl
  write_back snapshot s =
      c.set s playback_current_key (json snapshot) (positive_ttl (c.ttl s playback_current_key))

  unfoldable pub set_playback_poll_status : String → String → Action S (Unit {0})
  unfolding get_playback_current_snapshot write_back is_text has_members
  set_playback_poll_status vote_id status s = elim (get_playback_current_snapshot s) [
    | none ↦ (err (value_error "playback current snapshot missing"), s)
    | some snapshot ↦
        if has_members snapshot
        then (elim snapshot.poll [
          | dict poll ↦
              if is_text poll.vote_id vote_id
              then (
                ok tt,
                write_back (record snapshot { poll = dict (record poll { status = some status }) })
                    s,
              )
              else (err (value_error "playback current snapshot voteId mismatch"), s)
          | _ ↦ (err (value_error "playback current snapshot missing poll"), s)
        ])
        else (err (value_error "playback current snapshot missing"), s)
  ]
