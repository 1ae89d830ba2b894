-- ===== src/Common/Text.antt =====
-- The functions of Go's `strings`, `fmt` and `strconv` that the program calls.
use addon_manager.Common.Base.{
  ℕ, zero, suc, starts_with, Bool, ◌&&◌, ◌||◌, List, [], ◌∷◌, Char, code, String, ltb, ◌/◌, ◌%◌,
  ◌≡◌, refl, ◌==◌, leb, eqb, if◌then◌else◌,
}
use Prim.Native.String

-- `a + b` on strings.
infixr 65 ◌+++◌
abbrev pub ◌+++◌ : String → String → String
a +++ b = String.◌++◌ a b

-- `len(s)`: bytes.
abbrev pub len : String → ℕ
len s = String.len s

-- `unicode.IsSpace`.
unfoldable pub is_space : ℕ → Bool
is_space c =
    (leb 9 c && leb c 13)
    || eqb c 32
    || eqb c 0x85
    || eqb c 0xa0
    || eqb c 0x1680
    || (leb 0x2000 c && leb c 0x200a)
    || eqb c 0x2028
    || eqb c 0x2029
    || eqb c 0x202f
    || eqb c 0x205f
    || eqb c 0x3000

-- `strings.TrimLeftFunc(s, unicode.IsSpace)`.
unfoldable pub trim_left : String → String
unfolding is_space
trim_left String.[] = String.[]
trim_left (String.◌∷◌ c s) =
    let rest = trim_left s in if is_space (code c) then rest else String.◌∷◌ c s

unfoldable pub trim_right : String → String
unfolding is_space
trim_right String.[] = String.[]
trim_right (String.◌∷◌ c s) =
    let rest = trim_right s in if is_space (code c) && (rest == "") then "" else String.◌∷◌ c rest

-- `strings.TrimSpace`.
unfoldable pub trim_space : String → String
unfolding trim_left trim_right
trim_space s = trim_right (trim_left s)

-- The first piece of a split grows by one character.
abbrev pub cons_head : Char → List String → List String
cons_head c [] = (String.◌∷◌ c String.[]) ∷ []
cons_head c (p ∷ ps) = (String.◌∷◌ c p) ∷ ps

-- `strings.Split(s, sep)` for a separator of one character.
unfoldable pub split : ℕ → String → List String
split sep String.[] = String.[] ∷ []
split sep (String.◌∷◌ c s) =
    let rest = split sep s in if eqb (code c) sep then String.[] ∷ rest else cons_head c rest

-- `strings.Split(s, sep)` for a longer separator: `more` is the number of its characters behind the
-- first, and `skip` the number of those that still have to be passed over.
unfoldable pub split_on : String → ℕ → ℕ → String → List String
split_on sep more skip String.[] = String.[] ∷ []
split_on sep more (suc skip) (String.◌∷◌ c s) = split_on sep more skip s
split_on sep more zero (String.◌∷◌ c s) =
    let here = split_on sep more more s in
    let rest = split_on sep more zero s in
    if starts_with (String.◌∷◌ c s) sep then String.[] ∷ here else cons_head c rest

-- `strings.Join(parts, sep)`.
unfoldable pub join : String → List String → String
join sep [] = ""
join sep (p ∷ []) = p
join sep (p ∷ q ∷ ps) = p +++ sep +++ join sep (q ∷ ps)

-- A digit of `%x`.
unfoldable pub hex_digit : ℕ → String
hex_digit n =
    if eqb n 0
    then "0"
    else if eqb n 1
    then "1"
    else if eqb n 2
    then "2"
    else if eqb n 3
    then "3"
    else if eqb n 4
    then "4"
    else if eqb n 5
    then "5"
    else if eqb n 6
    then "6"
    else if eqb n 7
    then "7"
    else if eqb n 8
    then "8"
    else if eqb n 9
    then "9"
    else if eqb n 10
    then "a"
    else if eqb n 11
    then "b"
    else if eqb n 12
    then "c"
    else if eqb n 13
    then "d"
    else if eqb n 14
    then "e"
    else "f"

-- One character of `%q`: `strconv.Quote` writes a printable character as it stands.
escape_char : Char → String
unfolding hex_digit
escape_char c =
    let n = code c in
    if eqb n 34
    then "\\\""
    else if eqb n 92
    then "\\\\"
    else if eqb n 7
    then "\\a"
    else if eqb n 8
    then "\\b"
    else if eqb n 12
    then "\\f"
    else if eqb n 10
    then "\\n"
    else if eqb n 13
    then "\\r"
    else if eqb n 9
    then "\\t"
    else if eqb n 11
    then "\\v"
    else if ltb n 32 || eqb n 127
    then "\\x" +++ hex_digit (n / 16) +++ hex_digit (n % 16)
    else String.◌∷◌ c ""

escape : String → String
escape String.[] = ""
escape (String.◌∷◌ c s) = escape_char c +++ escape s

-- The verb `%q`. Characters above U+007F are taken to be printable.
unfoldable pub quote : String → String
unfolding escape escape_char
quote s = "\"" +++ escape s +++ "\""

quote_test : quote "a\"b" ≡ "\"a\\\"b\""
unfolding quote hex_digit
quote_test = refl

-- `strings.HasSuffix`.
unfoldable pub has_suffix : String → String → Bool
has_suffix suffix String.[] = "" == suffix
has_suffix suffix (String.◌∷◌ c s) = (String.◌∷◌ c s == suffix) || has_suffix suffix s

-- `strings.TrimSuffix`.
unfoldable pub trim_suffix : String → String → String
trim_suffix suffix String.[] = ""
trim_suffix suffix (String.◌∷◌ c s) =
    if String.◌∷◌ c s == suffix then "" else String.◌∷◌ c (trim_suffix suffix s)

trim_suffix_test : trim_suffix ".py" "a.py" ≡ "a"
unfolding trim_suffix
trim_suffix_test = refl
