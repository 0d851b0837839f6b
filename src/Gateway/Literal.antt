-- ===== src/Gateway/Literal.antt =====
-- main.py, `_rdf_literal`: a text as a SPARQL string, by json.dumps without its ASCII option.
pub mod Closed
use agent_workload_platform.Prelude.{
  ℕ, ◌/◌, ◌%◌, Char, code, String, Bool, true, false, ◌||◌, Option, none, some, [], ◌∷◌, ltb, eqb,
  if◌then◌else◌,
}

-- One hexadecimal digit
hex_digit : ℕ → Char
hex_digit n =
    if eqb n 0
    then "0"
    else if eqb n 1
    then "1"
    else if eqb n 2
    then "2"
    else if eqb n 3
    then "3"
    else if eqb n 4
    then "4"
    else if eqb n 5
    then "5"
    else if eqb n 6
    then "6"
    else if eqb n 7
    then "7"
    else if eqb n 8
    then "8"
    else if eqb n 9
    then "9"
    else if eqb n 10
    then "a"
    else if eqb n 11
    then "b"
    else if eqb n 12
    then "c"
    else if eqb n 13
    then "d"
    else if eqb n 14
    then "e"
    else "f"

-- A character between the quotes, before the text that follows
escape_before : Char → String → String
unfolding hex_digit
escape_before c t =
    if eqb (code c) 34
    then String.◌∷◌ "\\" (String.◌∷◌ "\"" t)
    else if eqb (code c) 92
    then String.◌∷◌ "\\" (String.◌∷◌ "\\" t)
    else if eqb (code c) 10
    then String.◌∷◌ "\\" (String.◌∷◌ "n" t)
    else if eqb (code c) 13
    then String.◌∷◌ "\\" (String.◌∷◌ "r" t)
    else if eqb (code c) 9
    then String.◌∷◌ "\\" (String.◌∷◌ "t" t)
    else if eqb (code c) 8
    then String.◌∷◌ "\\" (String.◌∷◌ "b" t)
    else if eqb (code c) 12
    then String.◌∷◌ "\\" (String.◌∷◌ "f" t)
    else if ltb (code c) 32
    then String.◌∷◌ "\\" (
        String.◌∷◌ "u" (
          String.◌∷◌ "0" (
            String.◌∷◌ "0"
              (String.◌∷◌ (hex_digit (code c / 16)) (String.◌∷◌ (hex_digit (code c % 16)) t)))))
    else String.◌∷◌ c t

escaped_before : String → String → String
unfolding escape_before
escaped_before String.[] t = t
escaped_before (String.◌∷◌ c s) t = escape_before c (escaped_before s t)

-- The literal before the rest of an update
unfoldable pub literal_before : String → String → String
unfolding escaped_before
literal_before s rest = String.◌∷◌ "\"" (escaped_before s (String.◌∷◌ "\"" rest))

-- `_rdf_literal`
unfoldable pub rdf_literal : String → String
unfolding literal_before
rdf_literal s = literal_before s String.[]

-- The letter of a SPARQL escape; `u` starts four more digits, which are read as they are.
is_escape : ℕ → Bool
is_escape n =
    eqb n b't'
    || eqb n b'b'
    || eqb n b'n'
    || eqb n b'r'
    || eqb n b'f'
    || eqb n 34
    || eqb n b'\''
    || eqb n 92
    || eqb n b'u'

-- What follows the string that the text is in, after a backslash or not: SPARQL's STRING_LITERAL2
-- ends at the first quote that is not escaped, and has no end of line.
after_string : Bool → String → Option String
unfolding is_escape
after_string b String.[] = none
after_string true (String.◌∷◌ c s) =
    let rest = after_string false s in if is_escape (code c) then rest else none
after_string false (String.◌∷◌ c s) =
    let escape = after_string true s in
    let rest = after_string false s in
    if eqb (code c) 34
    then some s
    else if eqb (code c) 92
    then escape
    else if eqb (code c) 10 || eqb (code c) 13
    then none
    else rest

-- What follows a literal at the start of the text
unfoldable pub after_literal : String → Option String
unfolding after_string
after_literal String.[] = none
after_literal (String.◌∷◌ c s) = if eqb (code c) 34 then after_string false s else none
