-- ===== src/Stream/Sse/Reading.antt =====
-- How a browser reads the texts of `_format_sse` (services/playback-stream/pulsefm_playback_stream/main.py):
-- the EventSource rules for lines, fields and the dispatch at an empty line.
use Prim.Native.Char.{Char, code}
use pulse_fm.Base.{
  ◌≡◌, refl, ap, ◌∙◌, String, ◌++◌, Bool, true, false, not, Option, none, some, List, [], ◌∷◌,
  arith, eqb, ◌==◌, if◌then◌else◌,
}
use pulse_fm.Base.Prepend.{prepend, append-prepend}
use pulse_fm.Base.Text.{non_empty}
use pulse_fm.Base.Value.{Fields}
use pulse_fm.Stream.Sse.{Event, event_name, event_payload, format_sse}

is_newline : Char → Bool
is_newline c = eqb (code c) b'\n'

-- A character before the first line.
before : Char → List String → List String
before c [] = String.◌∷◌ c String.[] ∷ []
before c (line ∷ lines) = String.◌∷◌ c line ∷ lines

-- The lines of a text, the last of which ends with the text.
lines : String → List String
lines String.[] = String.[] ∷ []
lines (String.◌∷◌ c s) =
    let rest = lines s in if is_newline c then String.[] ∷ rest else before c rest

-- A field's name and value: the texts before and behind the first colon.
split_colon : String → String × String
split_colon String.[] = (String.[], String.[])
split_colon (String.◌∷◌ c s) =
    let (name, value) = split_colon s in
    if eqb (code c) b':' then (String.[], s) else (String.◌∷◌ c name, value)

-- The value without one space in front.
drop_space : String → String
drop_space String.[] = String.[]
drop_space (String.◌∷◌ c s) = if eqb (code c) b' ' then s else String.◌∷◌ c s

-- The data buffer of an event with one more line.
with_line : Option String → String → Option String
with_line none line = some line
with_line (some d) line = some (d ++ "\n" ++ line)

-- The first event that is dispatched: its name and its data.
read : List String → String → Option String → Option (String × String)
read [] name buffer = none
read (line ∷ rest) name buffer =
    let (field, value) = split_colon line in
    let value' = drop_space value in
    let on_event = read rest value' buffer in
    let on_data = read rest name (with_line buffer value') in
    let on_other = read rest name buffer in
    let on_blank = read rest String.[] none in
    if not (non_empty line)
    then (elim buffer [ some d ↦ some (name, d) | none ↦ on_blank ])
    else if field == "event"
    then on_event
    else if field == "data"
    then on_data
    else on_other

unfoldable pub read_event : String → Option (String × String)
unfolding read lines split_colon drop_space with_line is_newline before
read_event text = read (lines text) String.[] none

-- The text is one line.
unfoldable pub one_line : String → Bool
unfolding is_newline
one_line String.[] = true
one_line (String.◌∷◌ c s) = if is_newline c then false else one_line s

lines-prepend :
    (line rest : String)
    → one_line line ≡ true
    → lines (prepend line (prepend "\n" rest)) ≡ line ∷ lines rest
unfolding prepend one_line lines before is_newline
lines-prepend String.[] rest h = refl
lines-prepend (String.◌∷◌ c line) rest h = ground (arith, lines-prepend line rest)

event_name-one_line : (e : Event) → one_line (event_name e) ≡ true
unfolding event_name one_line
event_name-one_line (Event.hello _) = refl
event_name-one_line (Event.song_changed _) = refl
event_name-one_line (Event.vote_closed _) = refl
event_name-one_line (Event.next_song_changed _) = refl
event_name-one_line (Event.tally_snapshot _) = refl
event_name-one_line (Event.tally_delta _) = refl
event_name-one_line (Event.heartbeat _) = refl

-- The text of an event, with the name and the data given.
text_of : String → String → String
text_of name payload = "event: " ++ name ++ "\ndata: " ++ payload ++ "\n\n"

text_of-prepend :
    (name payload : String)
    → text_of name payload
      ≡ prepend
          (prepend "event: " name)
          (prepend "\n" (prepend (prepend "data: " payload) (prepend "\n" "\n")))
unfolding text_of prepend
text_of-prepend name payload =
    let data_line = "\ndata: " ++ payload ++ "\n\n" in
    append-prepend "event: " (name ++ data_line)
    ∙ ap (prepend "event: ") (
        append-prepend name data_line
        ∙ ap (prepend name) (
            append-prepend "\ndata: " (payload ++ "\n\n")
            ∙ ap (prepend "\ndata: ") (append-prepend payload "\n\n")))

text_of-lines :
    (name payload : String)
    → one_line name ≡ true
    → one_line payload ≡ true
    → lines (text_of name payload)
      ≡ prepend "event: " name ∷ prepend "data: " payload ∷ "" ∷ "" ∷ []
unfolding prepend one_line is_newline lines before
text_of-lines name payload h k =
    let first = prepend "event: " name in
    let second = prepend "data: " payload in
    ap lines (text_of-prepend name payload)
    ∙ lines-prepend first (prepend second (prepend "\n" "\n")) h
    ∙ ap (λ ls. first ∷ ls) (lines-prepend second "\n" k)

read-text_of :
    (name payload : String)
    → read (prepend "event: " name ∷ prepend "data: " payload ∷ "" ∷ "" ∷ []) String.[] none
      ≡ some (name, payload)
unfolding prepend read split_colon drop_space with_line non_empty
read-text_of name payload = refl

-- What a browser reads of an event's text is the event's name and its data, and nothing else.
pub format_sse-read_event :
    (dumps : Fields → String) (e : Event)
    → one_line (dumps (event_payload e)) ≡ true
    → read_event (format_sse dumps e) ≡ some (event_name e, dumps (event_payload e))
unfolding format_sse read_event text_of
format_sse-read_event dumps e h =
    ap (λ ls. read ls String.[] none)
      (text_of-lines (event_name e) (dumps (event_payload e)) (event_name-one_line e) h)
    ∙ read-text_of (event_name e) (dumps (event_payload e))
