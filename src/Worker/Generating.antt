-- ===== src/Worker/Generating.antt =====
-- What `generate` leaves behind (services/worker/pulsefm_worker/app.py).
use mathlib.Core.List.{◌++◌}
use pulse_fm.Base.{
  ◌≡◌, ◌⊎◌, refl, subst, sym, inl, inr, String, true, [], ◌∷◌, arith, eq_refl, Bool-cases,
  Option-cases,
}
use pulse_fm.Base.Text.{non_empty}
use pulse_fm.Base.Value.{Result, ok, err, service_error}
use pulse_fm.Worker.Names.{gcs_bucket_name, blob_name}
use pulse_fm.Worker.Prompt.{build_prompt}
use pulse_fm.Worker.{Env, Machine, next_seed, into_file, with_file, remove, step_if, generate}

-- Either nothing is uploaded that is not answered by an error, or the song that was generated is uploaded.
abbrev pub Leaves :
    Env → String → String → String → String → Machine → Result (Unit {0}) × Machine → Type 0
Leaves env genre mood energy vote_id m (r, m') =
    (m'.files ≡ m.files)
    × (((path : String) × (r ≡ ok tt)
          × (m'.generations
              ≡ m.generations
                ++ (record {
                  prompt = build_prompt genre mood energy;
                  seed = next_seed env;
                  save_path = path;
                })
                  ∷ [])
          × (m'.uploads
              ≡ m.uploads
                ++ (record { bucket = gcs_bucket_name; name = blob_name vote_id; path = path })
                  ∷ []))
        ⊎ (r ≡ err service_error))

module _ (env : Env) (genre mood energy vote_id : String) (m : Machine) where
  generated : String → Machine
  generated path = record m {
    generations =
        m.generations
        ++ (record {
          prompt = build_prompt genre mood energy;
          seed = next_seed env;
          save_path = path;
        })
          ∷ [];
  }

  uploaded : String → Machine
  unfolding generated
  uploaded path = record (generated path) {
    uploads =
        m.uploads
        ++ (record { bucket = gcs_bucket_name; name = blob_name vote_id; path = path }) ∷ [];
  }

  with_file-Leaves :
      (path : String)
      → Leaves env genre mood energy vote_id m
          (with_file env (build_prompt genre mood energy) path vote_id m)
  unfolding with_file into_file remove step_if generated uploaded
  with_file-Leaves path =
      let prompt = build_prompt genre mood energy in
      elim (Bool-cases env.pipeline_up) [
        | inr down ↦
            let run : with_file env prompt path vote_id m ≡ (err service_error, m) =
              rw (down, eq_refl path) refl in
            subst (Leaves env genre mood energy vote_id m) (sym run) (refl, inr refl)
        | inl generates ↦ elim (Bool-cases env.upload_up) [
          | inr down ↦
              let run : with_file env prompt path vote_id m ≡ (err service_error, generated path) =
                rw (generates, down, eq_refl path) refl in
              subst (Leaves env genre mood energy vote_id m) (sym run) (refl, inr refl)
          | inl uploads ↦ elim (Bool-cases env.reload_up) [
            | inr down ↦
                let run : with_file env prompt path vote_id m ≡ (err service_error, uploaded path) =
                  rw (generates, uploads, down, eq_refl path) refl in
                subst (Leaves env genre mood energy vote_id m) (sym run) (refl, inr refl)
            | inl reloads ↦
                let run : with_file env prompt path vote_id m ≡ (ok tt, uploaded path) =
                  rw (generates, uploads, reloads, eq_refl path) refl in
                subst (Leaves env genre mood energy vote_id m) (sym run)
                  (refl, inl (path, refl, refl, refl))
          ]
        ]
      ]

  -- A generation for a named vote, with nothing missing, leaves no temporary file behind; it fails, or it
  -- uploads the song that it generated from the vote's prompt, under the vote's name.
  pub generate-Leaves :
      non_empty genre ≡ true
      → non_empty mood ≡ true
      → non_empty energy ≡ true
      → non_empty vote_id ≡ true
      → Leaves env genre mood energy vote_id m (generate env genre mood energy vote_id m)
  unfolding generate
  generate-Leaves g o e v = elim (Bool-cases env.model_ready) [
    | inr cold ↦
        let run : generate env genre mood energy vote_id m ≡ (err service_error, m) =
          ground arith in
        subst (Leaves env genre mood energy vote_id m) (sym run) (refl, inr refl)
    | inl warm ↦ elim (Option-cases env.temp_path) [
      | inl nowhere ↦
          let run : generate env genre mood energy vote_id m ≡ (err service_error, m) =
            ground arith in
          subst (Leaves env genre mood energy vote_id m) (sym run) (refl, inr refl)
      | inr (path, is_path) ↦
          let run : generate env genre mood energy vote_id m
              ≡ with_file env (build_prompt genre mood energy) path vote_id m =
            ground arith in
          subst (Leaves env genre mood energy vote_id m) (sym run) (with_file-Leaves path)
    ]
  ]
