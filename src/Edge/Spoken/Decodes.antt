-- ===== src/Edge/Spoken/Decodes.antt =====
-- presentation_response.py: the extractor against the grammar of a JSON string, in any chunks.
use agent_workload_platform.Prelude.{
  ℕ, ◌+◌, ◌*◌, ◌≡◌, refl, ◌∙◌, true, false, Option, some, List, [], ◌∷◌, ◌++◌, arith, eqb,
}
use agent_workload_platform.Edge.Spoken.{
  Text, Extractor, new, quote, backslash, search, unescaped, decoded_digits, with_digits, escape,
  plain, character, scan, begin, feed, feed_all,
}
use agent_workload_platform.Edge.Spoken.Hex.{hex_digit, int_16-digits}
use agent_workload_platform.Edge.Spoken.Search.{IsShort}
use agent_workload_platform.Edge.Spoken.Chunks.{joined, feed_all-joined}

-- The escapes of one letter, of RFC 8259
pub data Escape : ℕ → ℕ → Type 0 where
  quotation : Escape 34 34
  reverse_solidus : Escape 92 92
  solidus : Escape 47 47
  backspace : Escape 98 8
  form_feed : Escape 102 12
  line_feed : Escape 110 10
  carriage_return : Escape 114 13
  tab : Escape 116 9

-- The characters between the quotes of a JSON string, and the code units that they stand for.
pub data Spells : Text → Text → Type 0 where
  nothing : Spells [] []
  unescaped_char :
      {c : ℕ} {s t : Text}
      → eqb c backslash ≡ false
      → eqb c quote ≡ false
      → Spells s t
      → Spells (c ∷ s) (c ∷ t)
  escaped_char :
      {e c : ℕ} {s t : Text} → Escape e c → Spells s t → Spells (backslash ∷ e ∷ s) (c ∷ t)
  code_unit :
      {c1 c2 c3 c4 d1 d2 d3 d4 : ℕ} {s t : Text}
      → hex_digit c1 ≡ some d1
      → hex_digit c2 ≡ some d2
      → hex_digit c3 ≡ some d3
      → hex_digit c4 ≡ some d4
      → Spells s t
      → Spells
          (backslash ∷ 117 ∷ c1 ∷ c2 ∷ c3 ∷ c4 ∷ s)
          ((((d1 * 16 + d2) * 16 + d3) * 16 + d4) ∷ t)

unescaped-Escape : (e c : ℕ) → Escape e c → (unescaped e ≡ c) × (eqb e 117 ≡ false)
unfolding unescaped
unescaped-Escape _ _ quotation = (refl, refl)
unescaped-Escape _ _ reverse_solidus = (refl, refl)
unescaped-Escape _ _ solidus = (refl, refl)
unescaped-Escape _ _ backspace = (refl, refl)
unescaped-Escape _ _ form_feed = (refl, refl)
unescaped-Escape _ _ line_feed = (refl, refl)
unescaped-Escape _ _ carriage_return = (refl, refl)
unescaped-Escape _ _ tab = (refl, refl)

-- The state between two characters of the string
abbrev within : Extractor
within = record new { started = true }

module _ (decimal_value : ℕ → Option ℕ) where
  decoded_digits-hex :
      (c1 c2 c3 c4 d1 d2 d3 d4 : ℕ)
      → hex_digit c1 ≡ some d1
      → hex_digit c2 ≡ some d2
      → hex_digit c3 ≡ some d3
      → hex_digit c4 ≡ some d4
      → decoded_digits decimal_value (c1 ∷ c2 ∷ c3 ∷ c4 ∷ []) ≡ ((d1 * 16 + d2) * 16 + d3) * 16 + d4
  unfolding decoded_digits
  decoded_digits-hex c1 c2 c3 c4 d1 d2 d3 d4 h1 h2 h3 h4 =
      rw (int_16-digits decimal_value c1 c2 c3 c4 d1 d2 d3 d4 h1 h2 h3 h4) refl

  scan-Spells :
      (s t rest : Text)
      → Spells s t
      → scan decimal_value (s ++ quote ∷ rest) within ≡ (t, record within { finished = true })
  unfolding scan character plain escape with_digits
  scan-Spells _ _ rest nothing = refl
  scan-Spells _ _ rest (unescaped_char {c} {s} {t} not_backslash not_quote more) =
      rw (not_backslash, not_quote) (rw (scan-Spells s t rest more) refl)
  scan-Spells _ _ rest (escaped_char {e} {c} {s} {t} escape more) =
      rw ((unescaped-Escape e c escape).0, (unescaped-Escape e c escape).1)
        (rw (scan-Spells s t rest more) refl)
  scan-Spells _ _ rest
        (code_unit {c1} {c2} {c3} {c4} {d1} {d2} {d3} {d4} {s} {t} h1 h2 h3 h4 more) =
      rw (decoded_digits-hex c1 c2 c3 c4 d1 d2 d3 d4 h1 h2 h3 h4)
        (rw (scan-Spells s t rest more) refl)

  feed-search :
      (text r : Text)
      → search text ≡ some r
      → feed decimal_value text new ≡ scan decimal_value r within
  unfolding feed begin search
  feed-search [] r h = absurd (ground arith)
  feed-search (x ∷ text) r h = rw h refl

  -- If a new extractor is fed a text in any chunks, the text's tags have at most 65 characters, and
  -- a JSON string follows the first of them, then what the chunks return together is what the
  -- string stands for, in code units, and the extractor has finished, whatever follows the string.
  pub feed_all-decodes :
      (chunks : List Text) (s t rest : Text)
      → IsShort (joined chunks)
      → search (joined chunks) ≡ some (s ++ quote ∷ rest)
      → Spells s t
      → feed_all decimal_value chunks new ≡ (t, record new { started = true; finished = true })
  feed_all-decodes chunks s t rest short found spells =
      feed_all-joined decimal_value chunks short
      ∙ feed-search (joined chunks) (s ++ quote ∷ rest) found
      ∙ scan-Spells s t rest spells
