-- ===== src/Base/Text.antt =====
-- Text operations that the services use on identifiers and URLs, over the native texts.
use Prim.Native.Nat.{ℕ, zero, suc, ◌/◌, ◌%◌}
use Prim.Native.Char.{Char, code}
use Prim.Native.String.{String, ◌++◌}
use mathlib.Core.Bool.{Bool, true, false, ◌&&◌, ◌||◌}
use pulse_fm.Base.Tests.{leb, eqb, if◌then◌else◌}

-- Python's truth value of a text.
unfoldable pub non_empty : String → Bool
non_empty String.[] = false
non_empty (String.◌∷◌ c s) = true

-- A character that `str.strip` removes.
unfoldable pub is_space : Char → Bool
is_space c =
    (leb 9 (code c) && leb (code c) 13)
    || (leb 28 (code c) && leb (code c) 32)
    || eqb (code c) 0x85
    || eqb (code c) 0xa0
    || eqb (code c) 0x1680
    || (leb 0x2000 (code c) && leb (code c) 0x200a)
    || eqb (code c) 0x2028
    || eqb (code c) 0x2029
    || eqb (code c) 0x202f
    || eqb (code c) 0x205f
    || eqb (code c) 0x3000

-- The truth value of `s.strip()`.
unfoldable pub has_content : String → Bool
unfolding is_space
has_content String.[] = false
has_content (String.◌∷◌ c s) = if is_space c then has_content s else true

-- `s.rstrip("/")`
unfoldable pub rstrip_slash : String → String
unfolding non_empty
rstrip_slash String.[] = String.[]
rstrip_slash (String.◌∷◌ c s) =
    let rest = rstrip_slash s in
    if non_empty rest
    then String.◌∷◌ c rest
    else if eqb (code c) b'/'
    then String.[]
    else String.◌∷◌ c String.[]

-- The last digit of a number.
digit_char : ℕ → String
digit_char n =
    let d = n % 10 in
    if eqb d 0
    then "0"
    else if eqb d 1
    then "1"
    else if eqb d 2
    then "2"
    else if eqb d 3
    then "3"
    else if eqb d 4
    then "4"
    else if eqb d 5
    then "5"
    else if eqb d 6
    then "6"
    else if eqb d 7
    then "7"
    else if eqb d 8
    then "8"
    else "9"

-- The digits of `n` before `acc`, given more fuel than `n` has digits.
show_digits : ℕ → ℕ → String → String
unfolding digit_char
show_digits zero n acc = acc
show_digits (suc fuel) n acc =
    let rest = show_digits fuel (n / 10) (digit_char n ++ acc) in
    if eqb (n / 10) 0 then digit_char n ++ acc else rest

-- `str(n)` for a natural number: `n + 1` rounds are enough, since `n / 10` falls.
unfoldable pub decimal : ℕ → String
unfolding show_digits
decimal n = show_digits (suc n) n String.[]
