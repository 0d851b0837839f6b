-- ===== src/Prelude/Text.antt =====
-- Python's `str` over the native texts: length, slices, strip, split and join. A native text is a
-- sequence of Unicode scalar values; a lone surrogate, which a Python `str` can hold, is not one.
use Prim.Native.Nat.{Ordering, ℕ, zero, suc, ◌+◌, ◌/◌, ◌%◌, ◌≤◌}
use Prim.Native.Char.{Char, code}
use Prim.Native.String.{String}
use Prim.Native.String as Native
use mathlib.Core.Path.{◌≡◌, refl}
use mathlib.Core.Bool.{Bool, true, false, ◌&&◌, ◌||◌}
use mathlib.Core.List.{List, [], ◌∷◌}
use mathlib.Core.Option.{Option, none, some}
use native.Mathlib.Omega.{arith}
use agent_workload_platform.Prelude.Tests.{ltb, eqb, between, if◌then◌else◌}

-- len(s)
abbrev pub len : String → ℕ
len String.[] = 0
len (String.◌∷◌ c s) = suc (len s)

-- s[:n]
abbrev pub take_text : ℕ → String → String
take_text zero s = String.[]
take_text (suc n) String.[] = String.[]
take_text (suc n) (String.◌∷◌ c s) = String.◌∷◌ c (take_text n s)

-- not s
abbrev pub is_empty : String → Bool
is_empty String.[] = true
is_empty (String.◌∷◌ c s) = false

-- s + t, and the pieces of an f-string
abbrev pub concat : String → String → String
concat s t = Native.◌++◌ s t

-- str.isspace of a code point, and of one character
unfoldable pub is_space_code : ℕ → Bool
is_space_code n =
    between 9 13 n
    || between 28 32 n
    || eqb n 0x85
    || eqb n 0xa0
    || eqb n 0x1680
    || between 0x2000 0x200a n
    || between 0x2028 0x2029 n
    || eqb n 0x202f
    || eqb n 0x205f
    || eqb n 0x3000

unfoldable pub is_space : Char → Bool
unfolding is_space_code
is_space c = is_space_code (code c)

unfoldable pub lstrip : String → String
lstrip String.[] = String.[]
lstrip (String.◌∷◌ c s) = if is_space c then lstrip s else String.◌∷◌ c s

unfoldable pub rstrip : String → String
rstrip String.[] = String.[]
rstrip (String.◌∷◌ c s) =
    let r = rstrip s in if is_space c && is_empty r then String.[] else String.◌∷◌ c r

-- s.strip()
unfoldable pub strip : String → String
unfolding lstrip rstrip is_space
strip s = rstrip (lstrip s)

-- sep.join(parts)
unfoldable pub join : String → List String → String
join sep [] = String.[]
join sep (s ∷ []) = s
join sep (s ∷ rest) = concat s (concat sep (join sep rest))

-- character in s
abbrev pub contains : ℕ → String → Bool
contains x String.[] = false
contains x (String.◌∷◌ c s) = eqb (code c) x || contains x s

-- str.lower, for ASCII; other characters stay.
abbrev pub lower_code : ℕ → ℕ
lower_code n = if between 65 90 n then n + 32 else n

lstrip-strip : (s : String) → lstrip (rstrip (lstrip s)) ≡ rstrip (lstrip s)
unfolding lstrip rstrip
lstrip-strip String.[] = refl
lstrip-strip (String.◌∷◌ c s) = ground (arith, lstrip-strip s)

rstrip-rstrip : (s : String) → rstrip (rstrip s) ≡ rstrip s
unfolding rstrip
rstrip-rstrip String.[] = refl
rstrip-rstrip (String.◌∷◌ c s) = ground (arith, rstrip-rstrip s)

-- s.strip().strip() is s.strip().
pub strip-strip : (s : String) → strip (strip s) ≡ strip s
unfolding strip
strip-strip s = rw lstrip-strip (rstrip-rstrip (lstrip s))

len-rstrip-le : (s : String) → len (rstrip s) ≤ len s
unfolding rstrip
len-rstrip-le String.[] = omega arith
len-rstrip-le (String.◌∷◌ c s) = ground (arith, len-rstrip-le s)

len-lstrip-le : (s : String) → len (lstrip s) ≤ len s
unfolding lstrip
len-lstrip-le String.[] = omega arith
len-lstrip-le (String.◌∷◌ c s) = ground (arith, len-lstrip-le s)

pub len-strip-le : (s : String) → len (strip s) ≤ len s
unfolding strip
len-strip-le s = omega (arith, len-rstrip-le (lstrip s), len-lstrip-le s)

-- One decimal digit.
digit : ℕ → String
digit zero = "0"
digit (suc zero) = "1"
digit (suc (suc zero)) = "2"
digit (suc (suc (suc zero))) = "3"
digit (suc (suc (suc (suc zero)))) = "4"
digit (suc (suc (suc (suc (suc zero))))) = "5"
digit (suc (suc (suc (suc (suc (suc zero)))))) = "6"
digit (suc (suc (suc (suc (suc (suc (suc zero))))))) = "7"
digit (suc (suc (suc (suc (suc (suc (suc (suc zero)))))))) = "8"
digit _ = "9"

-- The digits of `n` before a tail; a number has fewer digits than its successor.
digits_before : ℕ → ℕ → String → String
unfolding digit
digits_before zero n tail = tail
digits_before (suc fuel) n tail =
    let rest = digits_before fuel (n / 10) (concat (digit (n % 10)) tail) in
    if ltb n 10 then concat (digit n) tail else rest

-- str(n)
unfoldable pub decimal : ℕ → String
unfolding digits_before
decimal n = digits_before (suc n) n ""

-- s.split(): the words between blanks. The helper carries the word that it is in, from its end.
words_from : String → String × List String
words_from String.[] = (String.[], [])
words_from (String.◌∷◌ c s) =
    let rest = words_from s in
    if is_space c then (String.[], closed rest) else (String.◌∷◌ c rest.0, rest.1)
  where
    closed : String × List String → List String
    closed (word, words) = if is_empty word then words else word ∷ words

unfoldable pub split : String → List String
unfolding words_from
split s = let rest = words_from s in if is_empty rest.0 then rest.1 else rest.0 ∷ rest.1

-- len(s.encode())
abbrev pub utf8_length : String → ℕ
utf8_length String.[] = 0
utf8_length (String.◌∷◌ c s) =
    utf8_length s
    + (if ltb (code c) 0x80
        then 1
        else if ltb (code c) 0x800
        then 2
        else if ltb (code c) 0x10000
        then 3
        else 4)

-- Every character has a code that satisfies `p`.
unfoldable pub all_chars : (ℕ → Bool) → String → Bool
all_chars p String.[] = true
all_chars p (String.◌∷◌ c s) = p (code c) && all_chars p s

-- The characters that end a line of str.splitlines
is_line_end : ℕ → Bool
is_line_end n = between 10 13 n || between 0x1c 0x1e n || eqb n 0x85 || between 0x2028 0x2029 n

-- The first line and the lines after it; a line that is empty at the end of the text is none.
lines_from : String → String × List String
unfolding is_line_end
lines_from String.[] = (String.[], [])
lines_from (String.◌∷◌ c s) =
    let rest = lines_from s in
    if is_line_end (code c)
    then (if eqb (code c) 13 && begins 10 s then rest else (String.[], listed s rest))
    else (String.◌∷◌ c rest.0, rest.1)
  where
    begins : ℕ → String → Bool
    begins n String.[] = false
    begins n (String.◌∷◌ c s) = eqb (code c) n

    listed : String → String × List String → List String
    listed s rest = if is_empty s then [] else rest.0 ∷ rest.1

-- s.splitlines()
unfoldable pub splitlines : String → List String
unfolding lines_from
splitlines s = let rest = lines_from s in if is_empty s then [] else rest.0 ∷ rest.1

-- s[:-1], where s ends with the character
unfoldable pub without_end : ℕ → String → Option String
without_end n String.[] = none
without_end n (String.◌∷◌ c s) =
    let rest = without_end n s in
    if is_empty s
    then (if eqb (code c) n then some String.[] else none)
    else elim rest [ none ↦ none | some r ↦ some (String.◌∷◌ c r) ]

abbrev pub IsText : String → Type 0
IsText s = is_empty s ≡ false

pub len-take_text-le : (n : ℕ) (s : String) → len (take_text n s) ≤ n
len-take_text-le zero s = omega arith
len-take_text-le (suc n) String.[] = omega arith
len-take_text-le (suc n) (String.◌∷◌ c s) = omega (arith, len-take_text-le n s)

pub take_text-IsText : (n : ℕ) (s : String) → IsText s → IsText (take_text (suc n) s)
take_text-IsText n String.[] h = h
take_text-IsText n (String.◌∷◌ c s) h = refl

-- s[n:]
abbrev pub drop_text : ℕ → String → String
drop_text zero s = s
drop_text (suc n) String.[] = String.[]
drop_text (suc n) (String.◌∷◌ c s) = drop_text n s

-- The texts one after the other, as an f-string has them
unfoldable pub cat : List String → String
cat [] = String.[]
cat (s ∷ rest) = concat s (cat rest)

-- s <= t, by code points
abbrev pub text_leb : String → String → Bool
text_leb s t = elim (Native.compare s t) [ Ordering.gt ↦ false | _ ↦ true ]
