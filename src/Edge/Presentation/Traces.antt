-- ===== src/Edge/Presentation/Traces.antt =====
-- presentation_response.py, `_normalize_presentation`: a trace that Grafana shows.
pub mod Grafana
use agent_workload_platform.Prelude.{
  ℕ, suc, Char, code, String, ◌≡◌, refl, ap, Bool, true, false, ◌&&◌, ◌||◌, Option, none, some,
  arith, eqb, if◌then◌else◌, between, len,
}
use agent_workload_platform.Json.{Value, null, str, Fields, dict_get}
use agent_workload_platform.Prelude.{all_chars}
use agent_workload_platform.Edge.Presentation.{
  Presentation, grafana_trace, fallback_presentation, title_or,
}

-- [0-9a-fA-F], and the same in lower case
is_any_hex : ℕ → Bool
is_any_hex n = between b'0' b'9' n || between b'a' b'f' n || between b'A' b'F' n

is_lower_hex : ℕ → Bool
is_lower_hex n = between b'0' b'9' n || between b'a' b'f' n

-- re.fullmatch(r"[0-9a-fA-F]{n}", s)
unfoldable pub is_hex_of : ℕ → String → Bool
unfolding is_any_hex
is_hex_of n s = all_chars is_any_hex s && eqb (len s) n

-- re.fullmatch(r"[0-9a-f]{32}", s)
unfoldable pub is_trace_id : String → Bool
unfolding is_lower_hex
is_trace_id s = all_chars is_lower_hex s && eqb (len s) 32

is_uid_char : ℕ → Bool
is_uid_char n =
    between b'A' b'Z' n || between b'a' b'z' n || between b'0' b'9' n || eqb n b'_' || eqb n b'-'

-- re.fullmatch(r"[A-Za-z0-9_-]{1,80}", s)
unfoldable pub is_uid : String → Bool
unfolding is_uid_char
is_uid s = all_chars is_uid_char s && between 1 80 (len s)

-- The lower case of a hexadecimal digit
lower_digit : Char → Char
lower_digit c =
    if eqb (code c) b'A'
    then "a"
    else if eqb (code c) b'B'
    then "b"
    else if eqb (code c) b'C'
    then "c"
    else if eqb (code c) b'D'
    then "d"
    else if eqb (code c) b'E'
    then "e"
    else if eqb (code c) b'F'
    then "f"
    else c

-- s.lower(), of hexadecimal digits
lower_hex : String → String
unfolding lower_digit
lower_hex String.[] = String.[]
lower_hex (String.◌∷◌ c s) = String.◌∷◌ (lower_digit c) (lower_hex s)

-- The span to look at: none for no span, and nothing for a value that is not one
focus_of : Value → Option (Option String)
unfolding lower_hex
focus_of null = some none
focus_of (str s) = if is_hex_of 16 s then some (some (lower_hex s)) else none
focus_of _ = none

grafana_with : Fields → String → Value → Value → Option (Option String) → Presentation
unfolding lower_hex
grafana_with value spoken (str trace_id) (str uid) (some focus) =
    if is_hex_of 32 trace_id && is_uid uid
    then grafana_trace (title_or "Grafana trace" (dict_get "title" value)) (lower_hex trace_id) uid
        focus
    else fallback_presentation spoken
grafana_with value spoken _ _ _ = fallback_presentation spoken

-- A presentation of the kind "grafana-trace"
unfoldable pub grafana_of : Fields → String → Presentation
unfolding grafana_with focus_of
grafana_of value spoken =
    grafana_with value spoken (dict_get "traceId" value) (dict_get "datasourceUid" value)
      (focus_of (dict_get "focusSpanId" value))

-- A conditional between two characters is a digit if both are, each under its condition.
if-is_lower_hex :
    (b : Bool) (c d : Char)
    → is_lower_hex (code c) ≡ true
    → (b ≡ false → is_lower_hex (code d) ≡ true)
    → is_lower_hex (code (if b then c else d)) ≡ true
if-is_lower_hex true c d h g = h
if-is_lower_hex false c d h g = g refl

is_lower_hex-lower :
    (c : Char) → is_any_hex (code c) ≡ true → is_lower_hex (code (lower_digit c)) ≡ true
unfolding is_any_hex is_lower_hex lower_digit
is_lower_hex-lower c h = if-is_lower_hex (eqb (code c) b'A') "a" _ refl λ not_a.
    if-is_lower_hex (eqb (code c) b'B') "b" _ refl λ not_b.
      if-is_lower_hex (eqb (code c) b'C') "c" _ refl λ not_c.
        if-is_lower_hex (eqb (code c) b'D') "d" _ refl λ not_d.
          if-is_lower_hex (eqb (code c) b'E') "e" _ refl
            λ not_e. if-is_lower_hex (eqb (code c) b'F') "f" c refl λ not_f. ground arith

lowered : (s : String) → all_chars is_any_hex s ≡ true → all_chars is_lower_hex (lower_hex s) ≡ true
unfolding all_chars lower_hex
lowered String.[] h = refl
lowered (String.◌∷◌ c s) h = ground (arith, is_lower_hex-lower c, lowered s)

len-lower_hex : (s : String) → len (lower_hex s) ≡ len s
unfolding lower_hex
len-lower_hex String.[] = refl
len-lower_hex (String.◌∷◌ c s) = ap suc (len-lower_hex s)

-- A trace id in either case is shown as one in lower case.
lower_hex-is_trace_id : (s : String) → is_hex_of 32 s ≡ true → is_trace_id (lower_hex s) ≡ true
unfolding is_hex_of is_trace_id
lower_hex-is_trace_id s h = ground (arith, lowered s, len-lower_hex s)
