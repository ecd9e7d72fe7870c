-- ===== src/Base/Value.antt =====
-- JSON values as `json.loads` returns them, and Python's exceptions, truth values and `int()`.
use Prim.Native.Char.{Char, code}
use pulse_fm.Base.{
  ℕ, suc, ◌+◌, ◌-◌, ◌*◌, ◌/◌, String, Bool, true, false, not, ◌&&◌, ◌||◌, Option, none, some, leb,
  ◌==◌, eqb, if◌then◌else◌,
}
use pulse_fm.Base.Int.{ℤ, pos, neg_of}
use pulse_fm.Base.Text.{is_space, has_content, non_empty}

-- A float: a fraction with its sign (`denom + 1` below the bar), an infinity, or not a number.
pub data Float : Type 0 where
  finite : Bool → ℕ → ℕ → Float
  infinite : Bool → Float
  nan : Float

-- A JSON value as Python holds it: None, a bool, an int, a float, a str, a dict with text keys in
-- their order, or a list.
mutual
  -- The members of a dict.
  pub data Fields : Type 0 where
    field : (key : String) (value : Value) (rest : Fields) → Fields
    end : Fields

  pub data Value : Type 0 where
    obj : Fields → Value
    arr : Items → Value
    str : String → Value
    float : Float → Value
    int : ℤ → Value
    bool : Bool → Value
    null : Value

  -- The items of a list.
  pub data Items : Type 0 where
    item : (first : Value) (rest : Items) → Items
    no_items : Items

-- What the handlers raise. `http` is FastAPI's HTTPException with its status and detail;
-- `service_error` is an exception of a client library, such as a lost connection.
pub data Exception : Type 0 where
  http : ℕ → String → Exception
  value_error : String → Exception
  type_error key_error overflow_error attribute_error service_error : Exception

pub data Result {ℓ} (A : Type ℓ) : Type ℓ where
  ok : A → Result A
  err : Exception → Result A

-- `d.get(key)` of a JSON object.
unfoldable pub member : String → Fields → Value
member key end = null
member key (field k v fields) = if k == key then v else member key fields

-- `if value:`
unfoldable pub truthy : Value → Bool
unfolding non_empty
truthy null = false
truthy (bool b) = b
truthy (int n) = elim n [ pos m ↦ not (eqb m 0) | _ ↦ true ]
truthy (float x) = elim x [ finite _ num _ ↦ not (eqb num 0) | _ ↦ true ]
truthy (str s) = non_empty s
truthy (arr xs) = elim xs [ no_items ↦ false | _ ↦ true ]
truthy (obj fs) = elim fs [ end ↦ false | _ ↦ true ]

is_digit : Char → Bool
is_digit c = leb b'0' (code c) && leb (code c) b'9'

-- The digits of an integer literal, single underscores between digits allowed, spaces behind it.
-- `prev` tells whether the last character was a digit.
scan_digits : Bool → ℕ → String → Option ℕ
unfolding is_digit is_space has_content
scan_digits prev acc String.[] = if prev then some acc else none
scan_digits prev acc (String.◌∷◌ c s) =
    let rest =
      scan_digits (is_digit c) (if is_digit c then acc * 10 + (code c - b'0') else acc) s in
    if is_digit c || (prev && eqb (code c) b'_')
    then rest
    else if prev && is_space c && not (has_content s)
    then some acc
    else none

signed : Bool → Option ℕ → Option ℤ
signed negative none = none
signed negative (some n) = some (if negative then neg_of n else pos n)

-- `int(s)` of a text, in ASCII digits.
unfoldable pub int_of_text : String → Option ℤ
unfolding scan_digits signed
int_of_text String.[] = none
int_of_text (String.◌∷◌ c s) =
    if is_space c
    then int_of_text s
    else if eqb (code c) b'-'
    then signed true (scan_digits false 0 s)
    else if eqb (code c) b'+'
    then signed false (scan_digits false 0 s)
    else signed false (scan_digits false 0 (String.◌∷◌ c s))

-- `int(value)`: a float is cut towards zero.
unfoldable pub int_of : Value → Result ℤ
unfolding int_of_text
int_of null = err type_error
int_of (bool b) = ok (pos (if b then 1 else 0))
int_of (int n) = ok n
int_of (float (finite negative num denom)) =
    let whole = num / suc denom in ok (if negative then neg_of whole else pos whole)
int_of (float (infinite _)) = err overflow_error
int_of (float nan) = err (value_error "cannot convert float NaN to integer")
int_of (str s) = elim (int_of_text s) [
  | none ↦ err (value_error "invalid literal for int()")
  | some n ↦ ok n
]
int_of (arr _) = err type_error
int_of (obj _) = err type_error
