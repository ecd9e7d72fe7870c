-- ===== src/Encoder/Encoding.antt =====
-- What POST / does to the songs (services/encoder/pulsefm_encoder/main.py).
use mathlib.Core.List.{◌++◌}
use pulse_fm.Base.{◌≡◌, ◌≢◌, ◌⊎◌, inl, inr, ◌&&◌, some, [], ◌∷◌, arith, Bool-cases, Option-cases}
use pulse_fm.Base.Value.{Fields, Result, ok}
use pulse_fm.Base.Action.{Result-cases}
use pulse_fm.Playback.{Songs, Song}
use pulse_fm.Encoder.Names.{stem}
use pulse_fm.Encoder.Events.{GcsObject, Request, parse_and_filter}
use pulse_fm.Encoder.{
  Env, World, Answer, done, too_large, encoded_upload, encode_audio, persist_metadata,
  handle_object, handle_event,
}

-- The document of a song that has been encoded.
abbrev pub ready_song : Env → Song
ready_song env = record {
  duration_ms = some env.audio_ms;
  status = some "ready";
  created_at = some env.server_time;
}

module _ {D : Type 0} (f : Songs D) (env : Env) where
  -- The world with the object's song encoded and ready.
  abbrev pub encoded : GcsObject → World D → World D
  encoded o w = record w {
    uploads = w.uploads ++ encoded_upload env.settings o ∷ [];
    songs = f.put w.songs (stem o.name) (ready_song env);
  }

  -- What comes of an object: its song is encoded and ready, or no song has changed.
  abbrev pub Effect : GcsObject → World D → Result Answer × World D → Type 0
  Effect o w (r, w') = ((r ≡ ok done) × (w' ≡ encoded o w)) ⊎ ((r ≢ ok done) × (w'.songs ≡ w.songs))

  handle_object-Effect : (o : GcsObject) (w : World D) → Effect o w (handle_object f env o w)
  unfolding handle_object encode_audio persist_metadata
  handle_object-Effect o w = elim (Bool-cases env.initialized) [
    | inr early ↦ inr (ground arith, ground arith)
    | inl started ↦ elim (Bool-cases env.reload_up) [
      | inr down ↦ inr (ground arith, ground arith)
      | inl reloads ↦ elim (Bool-cases (too_large env.blob_size)) [
        | inl large ↦ inr (ground arith, ground arith)
        | inr small ↦ elim (Bool-cases (env.encode_up && env.upload_up)) [
          | inr down ↦ inr (ground arith, ground arith)
          | inl encodes ↦ elim (Bool-cases env.persist_up) [
            | inr down ↦ inr (ground arith, ground arith)
            | inl persists ↦ inl (ground arith, ground arith)
          ]
        ]
      ]
    ]
  ]

  -- A request is answered with "ok" exactly when an object that passes the filter has been encoded and its song
  -- stored as ready; with any other answer no song has changed.
  pub handle_event-Effect :
      (request : Request) (w : World D)
      → let (r, w') = handle_event f env request w in
        ((body : Fields) × (o : GcsObject) × (request.body ≡ some body)
          × (parse_and_filter env.settings request.ce_type body ≡ ok (some o))
          × (r ≡ ok done)
          × (w' ≡ encoded o w))
        ⊎ ((r ≢ ok done) × (w'.songs ≡ w.songs))
  unfolding handle_event
  handle_event-Effect request w = elim (Option-cases request.body) [
    | inl invalid ↦ inr (ground arith, ground arith)
    | inr (body, is_body) ↦
        elim (Result-cases (parse_and_filter env.settings request.ce_type body)) [
          | inr (e, raises) ↦ inr (ground arith, ground arith)
          | inl (found, parsed) ↦ elim (Option-cases found) [
            | inl nothing ↦ inr (ground arith, ground arith)
            | inr (o, is_object) ↦ elim (handle_object-Effect o w) [
              | inl (answers, encodes) ↦
                  inl (body, o, is_body, ground arith, ground arith, ground arith)
              | inr (other, same) ↦ inr (ground arith, ground arith)
            ]
          ]
        ]
  ]
