-- ===== src/Gateway/Patterns.antt =====
-- main.py: the patterns and bounds of the fields of requests.
use agent_workload_platform.Prelude.{
  ℕ, ◌+◌, code, String, Bool, true, false, ◌&&◌, ◌||◌, Option, none, some, List, [], ◌∷◌, ◌==◌,
  starts_with, eqb, between, any, len, take_text,
}
use agent_workload_platform.Prelude.{all_chars, drop_text}

-- Literal[...]
unfoldable pub is_literal : List String → String → Bool
is_literal names s = any (λ n. s == n) names

abbrev pub entry_types : List String
entry_types =
    "thought" ∷ "idea" ∷ "question" ∷ "decision" ∷ "goal" ∷ "learning" ∷ "unclassified" ∷ []

-- Field(min_length=lo, max_length=hi)
unfoldable pub is_sized : ℕ → ℕ → String → Bool
is_sized lo hi s = between lo hi (len s)

unfoldable pub is_option : (String → Bool) → Option String → Bool
is_option p none = true
is_option p (some s) = p s

-- [a-f0-9], [0-9]
is_hex_char : ℕ → Bool
is_hex_char n = between b'a' b'f' n || between b'0' b'9' n

is_digit : ℕ → Bool
is_digit n = between b'0' b'9' n

-- ^[a-f0-9]{32}$
unfoldable pub is_capture_id : String → Bool
unfolding is_hex_char
is_capture_id s = all_chars is_hex_char s && eqb (len s) 32

-- [1-9][0-9]*
is_ordinal : String → Bool
unfolding is_digit
is_ordinal String.[] = false
is_ordinal (String.◌∷◌ c s) = between b'1' b'9' (code c) && all_chars is_digit s

-- ^[a-f0-9]{32}, the infix, and [1-9][0-9]*$
is_numbered : String → String → Bool
unfolding is_ordinal
is_numbered infix_text s =
    is_capture_id (take_text 32 s)
    && starts_with (drop_text 32 s) infix_text
    && is_ordinal (drop_text (32 + len infix_text) s)

unfoldable pub is_entry_id : String → Bool
unfolding is_numbered
is_entry_id = is_numbered ":entry:"

unfoldable pub is_candidate_id : String → Bool
unfolding is_numbered
is_candidate_id = is_numbered ":candidate:"

-- The checks of IdentityRequest and its subclasses
unfoldable pub is_identity : String → Bool
unfolding is_sized
is_identity = is_sized 3 320
