-- ===== src/Edge/Spoken/Hex.antt =====
-- Python's `int(text, 16)` where the result is a code point: signs, the prefix 0x, single
-- underscores between digits and blanks around them are read as Python does.
use agent_workload_platform.Prelude.{
  ℕ, zero, ◌+◌, ◌-◌, ◌*◌, ◌≡◌, Bool, true, false, ◌&&◌, ◌||◌, Option, none, some, List, [], ◌∷◌,
  map, arith, ltb, eqb, if◌then◌else◌, between, or_else, map_option, all, is_space_code,
}

-- Blanks and decimal digits beyond ASCII are read as their ASCII forms; the decimal values of the
-- Unicode database are a parameter.
as_ascii : (ℕ → Option ℕ) → ℕ → ℕ
as_ascii decimal_value c =
    if ltb c 128
    then c
    else if is_space_code c
    then 32
    else or_else (map_option (λ d. 48 + d) (decimal_value c)) b'?'

unfoldable pub hex_digit : ℕ → Option ℕ
hex_digit c =
    if between b'0' b'9' c
    then some (c - b'0')
    else if between b'a' b'f' c
    then some (10 + (c - b'a'))
    else if between b'A' b'F' c
    then some (10 + (c - b'A'))
    else none

is_blank : ℕ → Bool
is_blank c = between 9 13 c || eqb c 32

skip_blanks : List ℕ → List ℕ
skip_blanks [] = []
skip_blanks (c ∷ s) = if is_blank c then skip_blanks s else c ∷ s

pub data Last : Type 0 where
  nothing : Last
  digit : Last
  underscore : Last

after_digit : Last → Bool
after_digit digit = true
after_digit _ = false

-- One character of a number: a digit goes on, an underscore after a digit too, and blanks after a
-- digit end it.
number_step : (ℕ → Last → Option ℕ) → Bool → ℕ → Option ℕ → ℕ → Last → Option ℕ
unfolding after_digit is_blank
number_step rest blank c (some d) value last = rest (value * 16 + d) digit
number_step rest blank c none value last =
    if after_digit last
    then (if eqb c b'_'
        then rest value underscore
        else if is_blank c && blank
        then some value
        else none)
    else none

number : List ℕ → ℕ → Last → Option ℕ
unfolding number_step after_digit hex_digit is_blank
number [] value last = if after_digit last then some value else none
number (c ∷ s) value last = number_step (number s) (all is_blank s) c (hex_digit c) value last

skip_underscore : List ℕ → List ℕ
skip_underscore [] = []
skip_underscore (c ∷ s) = if eqb c b'_' then s else c ∷ s

prefixed : List ℕ → Option ℕ
unfolding number skip_underscore
prefixed (a ∷ b ∷ s) =
    if eqb a b'0' && (eqb b b'x' || eqb b b'X')
    then number (skip_underscore s) 0 nothing
    else number (a ∷ b ∷ s) 0 nothing
prefixed s = number s 0 nothing

-- chr refuses a negative number.
only_zero : Option ℕ → Option ℕ
only_zero (some zero) = some 0
only_zero _ = none

signed : List ℕ → Option ℕ
unfolding prefixed only_zero
signed [] = none
signed (c ∷ s) =
    if eqb c b'+'
    then prefixed s
    else if eqb c b'-'
    then only_zero (prefixed s)
    else prefixed (c ∷ s)

unfoldable pub int_16 : (ℕ → Option ℕ) → List ℕ → Option ℕ
unfolding as_ascii skip_blanks signed is_blank
int_16 decimal_value s = signed (skip_blanks (map (as_ascii decimal_value) s))

-- A hexadecimal digit is none of the other signs.
record IsPlain (c : ℕ) : Type 0 where
  ascii : ltb c 128 ≡ true
  not_blank : is_blank c ≡ false
  not_plus : eqb c b'+' ≡ false
  not_minus : eqb c b'-' ≡ false
  not_x : (eqb c b'x' || eqb c b'X') ≡ false

hex_digit-IsPlain : (c d : ℕ) → hex_digit c ≡ some d → IsPlain c
unfolding hex_digit is_blank
hex_digit-IsPlain c d h = record {
  ascii = ground arith;
  not_blank = ground arith;
  not_plus = ground arith;
  not_minus = ground arith;
  not_x = ground arith;
}

-- Four hexadecimal digits are the number that they write.
pub int_16-digits :
    (decimal_value : ℕ → Option ℕ) (c1 c2 c3 c4 d1 d2 d3 d4 : ℕ)
    → hex_digit c1 ≡ some d1
    → hex_digit c2 ≡ some d2
    → hex_digit c3 ≡ some d3
    → hex_digit c4 ≡ some d4
    → int_16 decimal_value (c1 ∷ c2 ∷ c3 ∷ c4 ∷ []) ≡ some (((d1 * 16 + d2) * 16 + d3) * 16 + d4)
unfolding int_16 as_ascii skip_blanks signed prefixed number number_step after_digit
int_16-digits decimal_value c1 c2 c3 c4 d1 d2 d3 d4 h1 h2 h3 h4 =
    let p1 : IsPlain c1 = hex_digit-IsPlain c1 d1 h1 in
    let p2 : IsPlain c2 = hex_digit-IsPlain c2 d2 h2 in
    let p3 : IsPlain c3 = hex_digit-IsPlain c3 d3 h3 in
    let p4 : IsPlain c4 = hex_digit-IsPlain c4 d4 h4 in
    simp
      (
        p1.ascii, p2.ascii, p3.ascii, p4.ascii, p1.not_blank, p1.not_plus, p1.not_minus, p2.not_x,
        h1, h2, h3, h4,
      )
      (ground arith)
