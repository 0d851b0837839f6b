-- ===== src/Edge/Spoken.antt =====
-- apps/edge/presentation_response.py: StreamingSpokenExtractor. Its texts are lists of code points,
-- since `chr(int(digits, 16))` can be a lone surrogate, which a native text does not hold.
pub mod Hex
pub mod Tags
pub mod Search
pub mod Chunks
pub mod Decodes
use agent_workload_platform.Prelude.{
  ℕ, ◌-◌, code, String, Bool, true, false, ◌||◌, Option, none, some, List, [], ◌∷◌, ◌++◌, eqb,
  if◌then◌else◌, or_else, length, drop, is_nil, is_space_code,
}
use Hex.{int_16}

abbrev pub Text : Type 0
Text = List ℕ

pub record Extractor : Type 0 where
  pub prefix : Text
  pub started : Bool
  pub finished : Bool
  pub escaped : Bool
  pub unicode_digits : Option Text

abbrev pub new : Extractor
new = record {
  prefix = [];
  started = false;
  finished = false;
  escaped = false;
  unicode_digits = none;
}

-- The characters of a native text
abbrev pub code_points : String → Text
code_points String.[] = []
code_points (String.◌∷◌ c s) = code c ∷ code_points s

abbrev pub quote : ℕ
quote = 34

abbrev pub backslash : ℕ
backslash = 92

-- A literal at the start of a text, and what follows it.
unfoldable pub expect : Text → Text → Option Text
expect [] s = some s
expect (l ∷ literal) [] = none
expect (l ∷ literal) (c ∷ s) = let rest = expect literal s in if eqb l c then rest else none

-- `\s*` and then one character that is no space, and what follows it.
unfoldable pub spaced : ℕ → Text → Option Text
spaced d [] = none
spaced d (c ∷ s) =
    let rest = spaced d s in if eqb c d then some s else if is_space_code c then rest else none

then_spaced : ℕ → Option Text → Option Text
then_spaced d none = none
then_spaced d (some s) = spaced d s

-- What follows `"spoken"\s*:\s*"` at the start of a text.
unfoldable pub tag_at : Text → Option Text
unfolding then_spaced
tag_at s = then_spaced quote (then_spaced 58 (expect (code_points "\"spoken\"") s))

-- re.search: what follows the leftmost tag.
first_of : Option Text → Option Text → Option Text
first_of (some s) later = some s
first_of none later = later

unfoldable pub search : Text → Option Text
unfolding first_of
search [] = none
search (c ∷ s) = first_of (tag_at (c ∷ s)) (search s)

-- text[-64:]
unfoldable pub last_64 : Text → Text
last_64 s = drop (length s - 64) s

-- _ESCAPES.get(character, character)
unfoldable pub unescaped : ℕ → ℕ
unescaped c =
    if eqb c b'b'
    then 8
    else if eqb c b'f'
    then 12
    else if eqb c b'n'
    then 10
    else if eqb c b'r'
    then 13
    else if eqb c b't'
    then 9
    else c

-- chr(int(digits, 16)), or the replacement character
unfoldable pub decoded_digits : (ℕ → Option ℕ) → Text → ℕ
decoded_digits decimal_value digits = or_else (int_16 decimal_value digits) 0xfffd

module _ (decimal_value : ℕ → Option ℕ) where
  -- The fourth digit of an escape decodes it.
  with_digits : Text → Extractor → Text × Extractor
  unfolding decoded_digits
  with_digits digits e =
      if eqb (length digits) 4
      then (
        decoded_digits decimal_value digits ∷ [],
        record e { unicode_digits = none; escaped = false },
      )
      else ([], record e { unicode_digits = some digits })

  escape : ℕ → Extractor → Text × Extractor
  unfolding unescaped
  escape c e =
      if eqb c b'u'
      then ([], record e { unicode_digits = some [] })
      else (unescaped c ∷ [], record e { escaped = false })

  plain : ℕ → Extractor → Text × Extractor
  plain c e =
      if eqb c backslash
      then ([], record e { escaped = true })
      else if eqb c quote
      then ([], record e { finished = true })
      else (c ∷ [], e)

  -- The body of the loop of `feed` for one character: what it decodes, and the new state.
  character : ℕ → Option Text → Extractor → Text × Extractor
  unfolding with_digits escape plain
  character c (some digits) e = with_digits (digits ++ c ∷ []) e
  character c none e = if e.escaped then escape c e else plain c e

  -- The loop, which stops at the closing quote.
  unfoldable pub scan : Text → Extractor → Text × Extractor
  unfolding character
  scan [] e = ([], e)
  scan (c ∷ s) e =
      let step = character c e.unicode_digits e in
      let rest = scan s step.1 in if step.1.finished then step else (step.0 ++ rest.0, rest.1)

  begin : Text → Option Text → Extractor → Text × Extractor
  unfolding last_64
  begin text none e = ([], record e { prefix = last_64 text })
  begin text (some s) e = scan s (record e { prefix = []; started = true })

  unfoldable pub feed : Text → Extractor → Text × Extractor
  unfolding begin
  feed chunk e =
      if e.finished || is_nil chunk
      then ([], e)
      else if e.started
      then scan chunk e
      else begin (e.prefix ++ chunk) (search (e.prefix ++ chunk)) e

  -- The chunks one by one, with what they decode put together.
  unfoldable pub feed_all : List Text → Extractor → Text × Extractor
  feed_all [] e = ([], e)
  feed_all (chunk ∷ chunks) e =
      let fed = feed chunk e in let rest = feed_all chunks fed.1 in (fed.0 ++ rest.0, rest.1)
