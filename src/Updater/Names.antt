-- ===== src/Updater/Names.antt =====
-- functions/next-song-updater/main.py: the names of objects and tasks.
use Prim.Native.Char.{code}
use pulse_fm.Base.{
  String, ◌++◌, Bool, false, not, ◌||◌, Option, none, some, ◌==◌, eqb, if◌then◌else◌,
}
use pulse_fm.Base.Text.{non_empty, rstrip_slash}

-- `s[len(prefix):]` where `s.startswith(prefix)`.
unfoldable pub without_prefix : String → String → Option String
without_prefix String.[] s = some s
without_prefix (String.◌∷◌ c prefix) String.[] = none
without_prefix (String.◌∷◌ c prefix) (String.◌∷◌ d s) =
    let rest = without_prefix prefix s in if eqb (code c) (code d) then rest else none

-- `s[:-len(suffix)]` where `s.endswith(suffix)`, for a suffix that is not empty.
unfoldable pub without_suffix : String → String → Option String
without_suffix suffix String.[] = none
without_suffix suffix (String.◌∷◌ c s) =
    let rest = without_suffix suffix s in
    if String.◌∷◌ c s == suffix
    then some ""
    else elim rest [ none ↦ none | some t ↦ some (String.◌∷◌ c t) ]

-- `"/" in s`
unfoldable pub has_slash : String → Bool
has_slash String.[] = false
has_slash (String.◌∷◌ c s) = eqb (code c) b'/' || has_slash s

-- `prefix.endswith("/")`
unfoldable pub ends_in_slash : String → Bool
ends_in_slash String.[] = false
ends_in_slash (String.◌∷◌ c s) = if s == "" then eqb (code c) b'/' else ends_in_slash s

unfoldable pub normalize_prefix : String → String
unfolding ends_in_slash
normalize_prefix prefix = if ends_in_slash prefix then prefix else prefix ++ "/"

-- The leaf of an object's name, as the vote that it stands for.
unfoldable pub vote_of_leaf : String → Option String
vote_of_leaf leaf = if has_slash leaf then none else elim (without_suffix ".m4a" leaf) [
  | none ↦ none
  | some vote_id ↦ if not (non_empty vote_id) || vote_id == "stubbed" then none else some vote_id
]

unfoldable pub extract_vote_id : String → String → Option String
extract_vote_id encoded_prefix object_name =
    elim (without_prefix (normalize_prefix encoded_prefix) object_name) [
      | none ↦ none
      | some leaf ↦ vote_of_leaf leaf
    ]

unfoldable pub build_task_id : String → String
build_task_id vote_id = "next-song-refresh-" ++ vote_id

unfoldable pub refresh_url : String → String
unfolding rstrip_slash
refresh_url service_url = rstrip_slash service_url ++ "/next/refresh"
