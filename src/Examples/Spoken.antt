-- ===== src/Examples/Spoken.antt =====
-- The spoken text of a reply that arrives in chunks.
use agent_workload_platform.Prelude.{
  ℕ, zero, suc, ◌≡◌, refl, true, Option, none, some, List, [], ◌∷◌, ◌++◌, arith, is_space_code,
}
use agent_workload_platform.Edge.Spoken.{
  Text, new, code_points, quote, expect, spaced, tag_at, search, last_64, decoded_digits, scan,
  feed, feed_all,
}
use agent_workload_platform.Edge.Spoken.Hex.{hex_digit, int_16}
use agent_workload_platform.Edge.Spoken.Search.{IsShort, IsShort-brief}
use agent_workload_platform.Edge.Spoken.Chunks.{joined, feed_all-joined}
use agent_workload_platform.Edge.Spoken.Decodes.{
  feed_all-decodes, Spells, nothing, unescaped_char, escaped_char, code_unit, line_feed,
}

abbrev no_decimals : ℕ → Option ℕ
no_decimals _ = none

-- {"spoken": "a\n\u00e9"}, cut within the tag and the escapes.
abbrev chunks : List Text
chunks =
    code_points "{\"spo"
    ∷ code_points "ken\" : \"a\\"
    ∷ []
    ∷ code_points "n\\u00"
    ∷ code_points "e9\"}"
    ∷ []

abbrev body : Text
body = code_points "a\\n\\u00e9"

spells : Spells body (97 ∷ 10 ∷ 0xe9 ∷ [])
unfolding hex_digit
spells = unescaped_char refl refl (escaped_char line_feed (code_unit refl refl refl refl nothing))

chunks-IsShort : IsShort (joined chunks)
chunks-IsShort = IsShort-brief (joined chunks) (omega arith)

found : search (joined chunks) ≡ some (body ++ quote ∷ code_points "}")
unfolding search tag_at expect spaced is_space_code
found = refl

feed_all-decodes_example :
    feed_all no_decimals chunks new
    ≡ (97 ∷ 10 ∷ 0xe9 ∷ [], record new { started = true; finished = true })
feed_all-decodes_example =
    feed_all-decodes no_decimals chunks body (97 ∷ 10 ∷ 0xe9 ∷ []) (code_points "}") chunks-IsShort
      found spells

feed_all-joined_example : feed_all no_decimals chunks new ≡ feed no_decimals (joined chunks) new
feed_all-joined_example = feed_all-joined no_decimals chunks chunks-IsShort

-- A character beyond the basic plane, escaped as JSON has it, comes out as two surrogates.
surrogates :
    (feed no_decimals (code_points "\"spoken\":\"\\ud83d\\ude00\"") new).0 ≡ 0xd83d ∷ 0xde00 ∷ []
unfolding feed search tag_at expect spaced is_space_code scan decoded_digits int_16 hex_digit
surrogates = refl

abbrev blanks : ℕ → Text
blanks zero = []
blanks (suc n) = 32 ∷ blanks n

-- A tag that is longer than what the extractor keeps is lost where a chunk ends in it.
lost :
    (feed_all no_decimals
      ((code_points "\"spoken\"" ++ blanks 60) ∷ code_points ":\"a\"" ∷ [])
      new).0
    ≡ []
unfolding feed_all feed search tag_at expect spaced is_space_code last_64
lost = refl

not_lost :
    (feed no_decimals (code_points "\"spoken\"" ++ (blanks 60 ++ code_points ":\"a\"")) new).0
    ≡ code_points "a"
unfolding feed search tag_at expect spaced is_space_code scan
not_lost = refl
