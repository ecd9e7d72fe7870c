-- ===== src/Descriptors.antt =====
-- packages/pulsefm-descriptors/pulsefm_descriptors/data.py: what a vote option stands for.
use pulse_fm.Base.{String, List, [], ◌∷◌, map}
use pulse_fm.Base.Dict.{Dict}

pub record Descriptor : Type 0 where
  pub mood : String
  pub genre : String
  pub energy : String

unfoldable pub entry : String → String → String → String → String × Descriptor
entry key mood genre energy = (key, record { mood = mood; genre = genre; energy = energy })

unfoldable pub descriptors : Dict Descriptor
unfolding entry
descriptors =
    entry "alluring" "romantic" "rnb" "mid"
    ∷ entry "ambient" "happy" "electronic" "low"
    ∷ entry "anticipatory" "exciting" "pop" "low"
    ∷ entry "ardent" "romantic" "jazz" "high"
    ∷ entry "atmospheric" "sad" "electronic" "mid"
    ∷ entry "bittersweet" "sad" "pop" "mid"
    ∷ entry "bluesy" "sad" "jazz" "mid"
    ∷ entry "boisterous" "party" "jazz" "high"
    ∷ entry "bouncy" "party" "hip_hop" "low"
    ∷ entry "brooding" "sad" "rock" "mid"
    ∷ entry "bubbly" "happy" "pop" "high"
    ∷ entry "building" "exciting" "rock" "low"
    ∷ entry "buoyant" "calm" "pop" "high"
    ∷ entry "burning" "romantic" "rnb" "high"
    ∷ entry "cathartic" "sad" "pop" "high"
    ∷ entry "celebratory" "party" "pop" "high"
    ∷ entry "chill" "happy" "hip_hop" "low"
    ∷ entry "cozy" "romantic" "rock" "mid"
    ∷ entry "devoted" "romantic" "pop" "high"
    ∷ entry "dramatic" "sad" "electronic" "high"
    ∷ entry "dreamy" "happy" "pop" "low"
    ∷ entry "driving" "exciting" "rock" "mid"
    ∷ entry "dynamic" "exciting" "pop" "mid"
    ∷ entry "ecstatic" "happy" "electronic" "high"
    ∷ entry "effortless" "calm" "jazz" "high"
    ∷ entry "electrifying" "exciting" "pop" "high"
    ∷ entry "emotional" "sad" "rnb" "mid"
    ∷ entry "enchanting" "romantic" "electronic" "mid"
    ∷ entry "energetic" "happy" "rock" "high"
    ∷ entry "ethereal" "sad" "electronic" "low"
    ∷ entry "euphoric" "happy" "electronic" "mid"
    ∷ entry "explosive" "exciting" "rock" "high"
    ∷ entry "exuberant" "happy" "rnb" "high"
    ∷ entry "fervent" "romantic" "rock" "high"
    ∷ entry "festive" "party" "pop" "mid"
    ∷ entry "fierce" "exciting" "hip_hop" "high"
    ∷ entry "fiery" "exciting" "jazz" "high"
    ∷ entry "floating" "calm" "electronic" "low"
    ∷ entry "flowing" "calm" "rock" "high"
    ∷ entry "fluid" "calm" "rnb" "high"
    ∷ entry "frenetic" "party" "rnb" "high"
    ∷ entry "funky" "party" "rock" "low"
    ∷ entry "gentle" "happy" "rock" "low"
    ∷ entry "groovy" "happy" "hip_hop" "mid"
    ∷ entry "hypnotic" "calm" "electronic" "mid"
    ∷ entry "infectious" "party" "hip_hop" "mid"
    ∷ entry "intense" "sad" "rock" "high"
    ∷ entry "intimate" "romantic" "rock" "low"
    ∷ entry "introspective" "sad" "hip_hop" "low"
    ∷ entry "jazzy" "happy" "jazz" "high"
    ∷ entry "laidback" "calm" "jazz" "mid"
    ∷ entry "lively" "party" "jazz" "mid"
    ∷ entry "lush" "romantic" "jazz" "mid"
    ∷ entry "meditative" "calm" "jazz" "low"
    ∷ entry "melancholic" "sad" "pop" "low"
    ∷ entry "mellow" "happy" "rnb" "low"
    ∷ entry "mournful" "sad" "jazz" "low"
    ∷ entry "mystical" "romantic" "electronic" "low"
    ∷ entry "nostalgic" "romantic" "jazz" "low"
    ∷ entry "overwhelming" "exciting" "electronic" "high"
    ∷ entry "passionate" "sad" "jazz" "high"
    ∷ entry "peaceful" "calm" "pop" "mid"
    ∷ entry "playful" "party" "pop" "low"
    ∷ entry "powerful" "sad" "rnb" "high"
    ∷ entry "pulsing" "calm" "electronic" "high"
    ∷ entry "pumping" "exciting" "hip_hop" "mid"
    ∷ entry "raucous" "party" "electronic" "mid"
    ∷ entry "raving" "party" "electronic" "high"
    ∷ entry "raw" "sad" "hip_hop" "high"
    ∷ entry "reflective" "sad" "hip_hop" "mid"
    ∷ entry "relaxed" "calm" "hip_hop" "mid"
    ∷ entry "rising" "exciting" "electronic" "low"
    ∷ entry "rowdy" "party" "rock" "mid"
    ∷ entry "scorching" "exciting" "rnb" "high"
    ∷ entry "seductive" "romantic" "hip_hop" "high"
    ∷ entry "sensual" "romantic" "hip_hop" "low"
    ∷ entry "serene" "calm" "pop" "low"
    ∷ entry "silky" "romantic" "hip_hop" "mid"
    ∷ entry "sizzling" "exciting" "rnb" "mid"
    ∷ entry "slick" "party" "rnb" "low"
    ∷ entry "smooth" "happy" "jazz" "low"
    ∷ entry "soft" "calm" "rnb" "low"
    ∷ entry "somber" "sad" "rock" "low"
    ∷ entry "soothing" "calm" "rock" "mid"
    ∷ entry "soulful" "happy" "rnb" "mid"
    ∷ entry "spirited" "party" "rnb" "mid"
    ∷ entry "steady" "calm" "hip_hop" "high"
    ∷ entry "sultry" "exciting" "rnb" "low"
    ∷ entry "sunny" "happy" "pop" "mid"
    ∷ entry "swanky" "party" "jazz" "low"
    ∷ entry "sweet" "romantic" "pop" "mid"
    ∷ entry "swelling" "exciting" "jazz" "low"
    ∷ entry "swinging" "happy" "jazz" "mid"
    ∷ entry "syncopated" "exciting" "jazz" "mid"
    ∷ entry "tender" "romantic" "pop" "low"
    ∷ entry "thrilling" "exciting" "electronic" "mid"
    ∷ entry "throbbing" "exciting" "hip_hop" "low"
    ∷ entry "thumping" "party" "electronic" "low"
    ∷ entry "tranquil" "calm" "rock" "low"
    ∷ entry "transcendent" "romantic" "electronic" "high"
    ∷ entry "turnt" "party" "hip_hop" "high"
    ∷ entry "uplifting" "happy" "rock" "mid"
    ∷ entry "velvety" "romantic" "rnb" "low"
    ∷ entry "vibrant" "happy" "hip_hop" "high"
    ∷ entry "warm" "calm" "rnb" "mid"
    ∷ entry "wild" "party" "rock" "high"
    ∷ entry "wistful" "sad" "rnb" "low"
    ∷ entry "zen" "calm" "hip_hop" "low"
    ∷ []

-- `list(DESCRIPTORS.keys())`
unfoldable pub get_descriptor_keys : List String
get_descriptor_keys = map (λ (e : String × Descriptor). e.0) descriptors
