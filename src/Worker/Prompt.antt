-- ===== src/Worker/Prompt.antt =====
-- services/worker/pulsefm_worker/app.py: `build_prompt`, the text from which a song is generated.
pub mod Knowing
use pulse_fm.Base.{ℕ, String, ◌++◌, some, none, [], ◌∷◌, or_else}
use pulse_fm.Base.Dict.{Dict, lookup}
use pulse_fm.Base.Text.{decimal}

-- ENERGY_BPM
unfoldable pub energy_bpm : Dict ℕ
energy_bpm = ("low", 70) ∷ ("mid", 85) ∷ ("high", 100) ∷ []

unfoldable pub energy_descriptions : ℕ → Dict String
unfolding decimal
energy_descriptions bpm =
    ("low", decimal bpm ++ " BPM, slow tempo, sparse arrangement")
    ∷ ("mid", decimal bpm ++ " BPM, moderate tempo, steady groove")
    ∷ ("high", decimal bpm ++ " BPM, upbeat tempo, driving rhythm")
    ∷ []

unfoldable pub mood_descriptions : Dict String
mood_descriptions =
    ("happy", "uplifting, bright, positive, major key, cheerful melody")
    ∷ (
      "sad",
      "melancholic, somber, minor key, bittersweet, introspective, mournful undertones, emotional depth",
    )
    ∷ ("calm", "peaceful, serene, relaxed, ambient, gentle, soft dynamics")
    ∷ ("exciting", "dynamic, energetic, building tension, powerful, intense")
    ∷ ("romantic", "warm, intimate, tender, dreamy, lush harmonies")
    ∷ ("party", "fun, groovy, danceable, infectious rhythm, high energy")
    ∷ []

unfoldable pub genre_instruments : Dict String
genre_instruments =
    ("pop", "electric piano, acoustic guitar")
    ∷ ("rock", "clean electric guitar, organ")
    ∷ ("hip_hop", "rhodes piano, vinyl samples")
    ∷ ("jazz", "rhodes piano, upright bass")
    ∷ ("electronic", "analog synth, pad synth")
    ∷ ("rnb", "rhodes piano, electric bass")
    ∷ []

-- `d.get(key, d[other])`, where `other` is a key of `d`.
get_or_other {ℓ} : {V : Type ℓ} → String → V → Dict V → V
get_or_other key other d = or_else (lookup key d) other

unfoldable pub build_prompt : String → String → String → String
unfolding energy_bpm energy_descriptions mood_descriptions genre_instruments get_or_other lookup
build_prompt genre mood energy =
    let bpm = get_or_other energy 85 energy_bpm in
    let energies = energy_descriptions bpm in
    let energy_desc = get_or_other energy (or_else (lookup "mid" energies) "") energies in
    let mood_desc =
      get_or_other mood (or_else (lookup "calm" mood_descriptions) "") mood_descriptions in
    let instruments = get_or_other genre "rhodes piano, guitar" genre_instruments in
    "lofi hip hop instrumental, chillhop, " ++ energy_desc ++ ", " ++ mood_desc ++ " mood, "
    ++ "featuring " ++ instruments ++ ", " ++ "lofi drums with punchy kick and crisp snare, "
    ++ "warm sub bass, " ++ "clean mix, clear instrument separation, "
    ++ "subtle tape warmth, vinyl texture, " ++ "dry sound, minimal reverb, "
    ++ "structured arrangement, " ++ "no vocals, instrumental only, consistent tempo"
