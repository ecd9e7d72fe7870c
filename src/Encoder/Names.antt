-- ===== src/Encoder/Names.antt =====
-- services/encoder: the names of the objects (config.py, main.py), with the parts of `str` and `pathlib.Path`
-- that they use. A name that is filtered ends in ".wav", so the last component of its path is the text
-- behind its last slash.
use Prim.Native.Char.{Char, code}
use pulse_fm.Base.{
  ◌+◌, String, ◌++◌, Bool, true, false, not, ◌&&◌, ◌||◌, Option, none, some, eqb, leb, is_some,
  if◌then◌else◌,
}
use pulse_fm.Base.Text.{non_empty}
use pulse_fm.Updater.Names.{without_prefix, has_slash, ends_in_slash}

-- `_normalize_prefix`: an empty prefix stays empty.
unfoldable pub normalize_prefix : String → String
unfolding non_empty ends_in_slash
normalize_prefix prefix =
    if not (non_empty prefix) then "" else if ends_in_slash prefix then prefix else prefix ++ "/"

-- `s.startswith(prefix)`
unfoldable pub starts_with : String → String → Bool
unfolding without_prefix
starts_with prefix s = is_some (without_prefix prefix s)

-- `c.lower() == d` for a letter or sign `d` of the suffix.
lower_is : Char → Char → Bool
lower_is d c =
    eqb (code c) (code d) || (leb b'A' (code c) && leb (code c) b'Z' && eqb (code c + 32) (code d))

-- The text is `suffix`, once it is lowered.
unfoldable pub lowers_to : String → String → Bool
unfolding lower_is
lowers_to String.[] String.[] = true
lowers_to String.[] (String.◌∷◌ c s) = false
lowers_to (String.◌∷◌ d suffix) String.[] = false
lowers_to (String.◌∷◌ d suffix) (String.◌∷◌ c s) =
    let rest = lowers_to suffix s in if lower_is d c then rest else false

-- `s.lower().endswith(suffix)`
unfoldable pub ends_with_lower : String → String → Bool
ends_with_lower suffix String.[] = lowers_to suffix String.[]
ends_with_lower suffix (String.◌∷◌ c s) =
    let rest = ends_with_lower suffix s in if lowers_to suffix (String.◌∷◌ c s) then true else rest

-- `Path(s).name`
unfoldable pub final_component : String → String
unfolding has_slash
final_component String.[] = String.[]
final_component (String.◌∷◌ c s) =
    let rest = final_component s in
    if has_slash s then rest else if eqb (code c) b'/' then s else String.◌∷◌ c s

-- What stands before the last dot.
unfoldable pub before_dot : String → Option String
before_dot String.[] = none
before_dot (String.◌∷◌ c s) = elim (before_dot s) [
  | some t ↦ some (String.◌∷◌ c t)
  | none ↦ if eqb (code c) b'.' then some String.[] else none
]

-- The last character is a dot.
unfoldable pub ends_in_dot : String → Bool
ends_in_dot String.[] = false
ends_in_dot (String.◌∷◌ c s) =
    let rest = ends_in_dot s in if non_empty s then rest else eqb (code c) b'.'

-- `Path(s).stem`: a dot at the start or at the end of the name is kept.
unfoldable pub stem : String → String
unfolding final_component before_dot ends_in_dot
stem s =
    let name = final_component s in
    elim (before_dot name) [
      | none ↦ name
      | some t ↦ if non_empty t && not (ends_in_dot name) then t else name
    ]

-- The name of the encoded object.
unfoldable pub output_name : String → String → String
output_name encoded_prefix name = encoded_prefix ++ stem name ++ ".m4a"
