-- ===== src/Song/Manifest/Pattern.antt =====
-- The two regular expressions of song_generation.py, as matchers over code points.
-- `_SECTION` ignores case: besides the ASCII letters, Python folds U+0130 and U+0131 to `i` and
-- U+017F to `s`.
use agent_workload_platform.Prelude.{
  ℕ, ◌+◌, String, code, ◌≡◌, refl, Bool, true, false, ◌&&◌, ◌||◌, Option, none, some, ◌==◌, eqb,
  between, if◌then◌else◌,
}

-- The case-folded code point.
fold : ℕ → ℕ
fold n =
    if between 65 90 n
    then n + 32
    else if eqb n 0x130 || eqb n 0x131
    then 105
    else if eqb n 0x17f
    then 115
    else n

-- What follows a literal (given folded) at the head of a text, with case ignored.
after : String → String → Option String
unfolding fold
after String.[] s = some s
after (String.◌∷◌ p ps) String.[] = none
after (String.◌∷◌ p ps) (String.◌∷◌ c s) =
    let rest = after ps s in if eqb (fold (code c)) (code p) then rest else none

-- ]
closes : Option String → Bool
closes (some (String.◌∷◌ c s)) = eqb (code c) b']'
closes _ = false

-- [0-9]*\]
digits_close : String → Bool
digits_close String.[] = false
digits_close (String.◌∷◌ c s) =
    if between b'0' b'9' (code c) then digits_close s else eqb (code c) b']'

-- [1-9][0-9]*\]
number_close : Option String → Bool
unfolding digits_close
number_close (some (String.◌∷◌ c s)) = between b'1' b'9' (code c) && digits_close s
number_close _ = false

-- (?: [1-9][0-9]*)?\]
verse_close : Option String → Bool
unfolding closes number_close after
verse_close none = false
verse_close (some s) = closes (some s) || number_close (after " " s)

-- One section marker at the head of the text.
section_here : String → Bool
unfolding after closes verse_close
section_here String.[] = false
section_here (String.◌∷◌ c s) =
    eqb (code c) b'['
    && (verse_close (after "verse" s)
        || closes (after "pre-chorus" s)
        || closes (after "chorus" s)
        || closes (after "bridge" s)
        || closes (after "outro" s))

-- _SECTION.search(lyrics)
unfoldable pub has_section : String → Bool
unfolding section_here
has_section String.[] = false
has_section (String.◌∷◌ c s) = section_here (String.◌∷◌ c s) || has_section s

is_mode : String → Bool
is_mode s = s == " Major" || s == " Minor"

-- (?:#|b)? (?:Major|Minor)
after_tonic : String → Bool
unfolding is_mode
after_tonic String.[] = false
after_tonic (String.◌∷◌ c s) =
    ((eqb (code c) b'#' || eqb (code c) b'b') && is_mode s) || is_mode (String.◌∷◌ c s)

-- _KEY_SCALE.fullmatch(key_scale)
unfoldable pub is_key_scale : String → Bool
unfolding after_tonic
is_key_scale String.[] = false
is_key_scale (String.◌∷◌ c s) = between b'A' b'G' (code c) && after_tonic s

section_found : has_section "la la [vERSE 12] la" ≡ true
unfolding has_section
section_found = refl

section_leading_zero : has_section "[Verse 02] [Verses]" ≡ false
unfolding has_section
section_leading_zero = refl

key_found : (is_key_scale "Bb Minor" ≡ true) × (is_key_scale "D  Minor" ≡ false)
unfolding is_key_scale
key_found = (refl, refl)
