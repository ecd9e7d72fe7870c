-- ===== src/Stream/Listener/Counting.antt =====
-- What a listener shows who adds up the TALLY_DELTA events of
-- services/playback-stream/pulsefm_playback_stream/main.py.
use mathlib.Core.List.{◌++◌}
use pulse_fm.Base.{
  ℕ, ◌+◌, ◌≡◌, refl, ap, ◌∙◌, String, Bool, true, [], ◌∷◌, arith, is_some, inl, inr,
}
use pulse_fm.Base.Dict.{Dict, lookup}
use pulse_fm.Base.Value.{ok}
use pulse_fm.Base.Action.{Result-cases}
use pulse_fm.Redis.{Commands}
use pulse_fm.Stream.Scan.{Scan}
use pulse_fm.Stream.Deltas.{tally_deltas, count, apply_deltas}
use pulse_fm.Stream.Deltas.Adding.{IsDict, count-tally_deltas}
use pulse_fm.Stream.Fetch.{get_tallies_cached, get_listener_count_cached}
use pulse_fm.Stream.Sse.{TallyDelta, tally_delta}
use pulse_fm.Stream.Listener.{LoopState, Sending, send_tally_delta}
use pulse_fm.Stream.{Calls, now}

-- Down to nothing and up again.
twice :
    (t : Dict ℕ)
    → IsDict t
    → (o : String)
    → count o (apply_deltas (tally_deltas [] t) (apply_deltas (tally_deltas t []) t))
      ≡ count o t + count o t
unfolding lookup
twice t unique o =
    let emptied = apply_deltas (tally_deltas t []) t in
    ground (arith, count-tally_deltas [] t emptied o unique, count-tally_deltas t [] t o tt)

module _ {S : Type 0} (c : Commands S) (sc : Scan S) where
  -- The event that was sent, where sending ended, and the tallies that were read for it.
  send_tally_delta_lem :
      (calls : Calls) (connected available : Bool) (loop loop' : LoopState) (w w' : Sending S)
      → send_tally_delta c sc calls connected available loop w ≡ (ok loop', w')
      → (e : TallyDelta) × (w'.sent ≡ w.sent ++ tally_delta e ∷ [])
        × (e.vote_id ≡ loop.vote_id)
        × (e.delta ≡ tally_deltas loop.last_tallies loop'.last_tallies)
        × ((get_tallies_cached c connected calls loop.vote_id w.world).0 ≡ ok loop'.last_tallies)
  unfolding send_tally_delta
  send_tally_delta_lem calls connected available loop loop' w w' ends =
      let (r, w1) = get_tallies_cached c connected calls loop.vote_id w.world in
      elim (Result-cases r) [
        | inr (x, raises) ↦ absurd (ground arith)
        | inl (tallies, gives) ↦
            let (r2, w2) = get_listener_count_cached c sc connected calls w1 in
            elim (Result-cases r2) [
              | inr (x, raises) ↦ absurd (ground arith)
              | inl (listeners, counts) ↦ (
                record {
                  vote_id = loop.vote_id;
                  ts = now w2.utc;
                  delta = tally_deltas loop.last_tallies tallies;
                  listeners = listeners;
                  redis_available = available;
                },
                ground arith,
                refl,
                ground arith,
                ground arith,
              )
            ]
      ]

  -- Where sending the delta ends, the tallies that were read are those that the loop keeps, and a listener
  -- that shows the counts which were sent last, and adds the deltas that it is sent, shows the count of every
  -- option among the tallies that were read.
  pub send_tally_delta_shows :
      (calls : Calls) (connected available : Bool) (loop loop' : LoopState) (w w' : Sending S)
      → send_tally_delta c sc calls connected available loop w ≡ (ok loop', w')
      → (tallies : Dict ℕ)
      → (get_tallies_cached c connected calls loop.vote_id w.world).0 ≡ ok tallies
      → IsDict tallies
      → (shown : Dict ℕ) → ((o : String) → count o shown ≡ count o loop.last_tallies)
      → (e : TallyDelta) × (w'.sent ≡ w.sent ++ tally_delta e ∷ [])
        × (e.vote_id ≡ loop.vote_id)
        × (loop'.last_tallies ≡ tallies)
        × ((o : String)
            → is_some (lookup o tallies) ≡ true
            → count o (apply_deltas e.delta shown) ≡ count o tallies)
  send_tally_delta_shows calls connected available loop loop' w w' ends tallies reads unique shown
        same =
      let (e, sent, vote, delta, kept) =
        send_tally_delta_lem calls connected available loop loop' w w' ends in
      let keeps : loop'.last_tallies ≡ tallies = ground arith in
      let of_read : e.delta ≡ tally_deltas loop.last_tallies tallies =
        delta ∙ ap (tally_deltas loop.last_tallies) keeps in
      (
        e,
        sent,
        vote,
        keeps,
        λ o known.
            ground (arith, count-tally_deltas loop.last_tallies tallies shown o unique, same o),
      )

  -- A listener that shows the tallies of its vote, is sent the deltas of a read that found none, and then
  -- those of a read that found the same tallies again, shows every count twice.
  pub send_tally_delta_doubles :
      (calls calls' : Calls) (available available' : Bool) (loop loop1 loop2 : LoopState)
      → (w w1 v v1 : Sending S) → send_tally_delta c sc calls true available loop w ≡ (ok loop1, w1)
      → send_tally_delta c sc calls' true available' loop1 v ≡ (ok loop2, v1)
      → loop1.last_tallies ≡ []
      → loop2.last_tallies ≡ loop.last_tallies
      → IsDict loop.last_tallies
      → (e e' : TallyDelta) × (w1.sent ≡ w.sent ++ tally_delta e ∷ [])
        × (v1.sent ≡ v.sent ++ tally_delta e' ∷ [])
        × ((o : String)
            → count o (apply_deltas e'.delta (apply_deltas e.delta loop.last_tallies))
              ≡ count o loop.last_tallies + count o loop.last_tallies)
  send_tally_delta_doubles calls calls' available available' loop loop1 loop2 w w1 v v1 first second
        nothing again unique =
      let t = loop.last_tallies in
      let (e, sent, _, delta, _) =
        send_tally_delta_lem calls true available loop loop1 w w1 first in
      let (e', sent', _, delta', _) =
        send_tally_delta_lem calls' true available' loop1 loop2 v v1 second in
      let down : e.delta ≡ tally_deltas t [] = delta ∙ ap (tally_deltas t) nothing in
      let up : e'.delta ≡ tally_deltas [] t = ground arith in
      (e, e', sent, sent', λ o. rw (down, up) (twice t unique o))
