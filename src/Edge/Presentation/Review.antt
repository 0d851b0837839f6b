-- ===== src/Edge/Presentation/Review.antt =====
-- presentation_response.py, `_normalize_journal_review`: a suggestion from a journal, for review.
pub mod Reviewed
use agent_workload_platform.Prelude.{
  ℕ, zero, suc, max, code, String, Bool, false, not, ◌&&◌, ◌||◌, Option, none, some, List, [], ◌∷◌,
  ◌==◌, ltb, leb, eqb, if◌then◌else◌, between, map_option, take, len, is_empty, take_text,
  utf8_length, strip, Result, ok, map_result, ◌>>=◌,
}
use agent_workload_platform.Json.{
  in_unit, pos, Value, null, int, str, arr, obj, Items, nil, cons, Fields, end, field, items,
  get_or, dict_get,
}
use agent_workload_platform.Prelude.{all_chars}
use agent_workload_platform.Json.{is_one_of, is_finite, clamp}
use agent_workload_platform.Edge.Presentation.{
  Presentation, review, fallback_presentation, title_or, max_label_length,
  max_journal_transcript_bytes,
}

abbrev pub journal_entry_types : List String
journal_entry_types =
    "thought" ∷ "idea" ∷ "question" ∷ "decision" ∷ "goal" ∷ "learning" ∷ "unclassified" ∷ []

abbrev pub journal_outcomes : List String
journal_outcomes = "pending" ∷ "accepted" ∷ "edited" ∷ "rejected" ∷ "missed" ∷ "empty" ∷ []

is_alphanumeric : ℕ → Bool
is_alphanumeric n = between b'A' b'Z' n || between b'a' b'z' n || between b'0' b'9' n

is_reference_char : ℕ → Bool
unfolding is_alphanumeric
is_reference_char n = is_alphanumeric n || eqb n b':' || eqb n b'.' || eqb n b'_' || eqb n b'-'

-- re.fullmatch(r"[A-Za-z0-9][A-Za-z0-9:._-]{0,199}", s)
unfoldable pub is_reference : String → Bool
unfolding is_alphanumeric is_reference_char
is_reference String.[] = false
is_reference (String.◌∷◌ c s) =
    is_alphanumeric (code c) && all_chars is_reference_char s && leb (len s) 199

-- isinstance, math.isfinite and 0 <= confidence <= 1, in the order of the code
is_confidence : Value → Result Bool
unfolding in_unit
is_confidence v = map_result (λ finite. finite && in_unit v) (is_finite v)

is_statement : Value → Bool
is_statement (str s) = not (is_empty (strip s)) && leb (len s) 2000
is_statement _ = false

-- topic.strip()[:100] of the texts that are not blank
topic_values : List Value → Items
topic_values [] = nil
topic_values (v ∷ vs) = topic_value v (topic_values vs)
  where
    topic_value : Value → Items → Items
    topic_value (str s) rest =
        if is_empty (strip s) then rest else cons (str (take_text 100 (strip s))) rest
    topic_value _ rest = rest

topics_of : Value → Option Items
unfolding topic_values
topics_of (arr vs) = some (topic_values (take 8 (items vs)))
topics_of _ = none

-- s[start:end]
unfoldable pub slice : ℕ → ℕ → String → String
slice zero n s = take_text n s
slice (suc start) n String.[] = String.[]
slice (suc start) zero s = String.[]
slice (suc start) (suc n) (String.◌∷◌ c s) = slice start n s

evidence_at : String → String → Value → Value → Option Value
unfolding slice
evidence_at transcript quote (int (pos from)) (int (pos to)) =
    if is_empty quote
      || ltb 4000 (len quote)
      || leb to from
      || not (slice from to transcript == quote)
    then none
    else some (
        obj (
          field "quote" (str quote)
            (field "start" (int (pos from)) (field "end" (int (pos to)) end))))
evidence_at transcript quote _ _ = none

evidence_with : String → Fields → Value → Option Value
unfolding evidence_at
evidence_with transcript evidence (str quote) =
    evidence_at transcript quote (dict_get "start" evidence) (dict_get "end" evidence)
evidence_with transcript evidence _ = none

-- The evidence's part of the suggestion: none at all where it is None, nothing where it is not the
-- transcript's.
evidence_of : String → Value → Option Fields
unfolding evidence_with
evidence_of transcript null = some end
evidence_of transcript (obj evidence) =
    map_option (λ v. field "evidence" v end)
      (evidence_with transcript evidence (dict_get "quote" evidence))
evidence_of transcript _ = none

stripped : Value → Value
stripped (str s) = str (strip s)
stripped v = v

suggestion_with : Fields → Option Items → Option Fields → Option Value
unfolding stripped
suggestion_with s (some topics) (some evidence) = some (
    obj (
      field "id" (dict_get "id" s) (
        field "type" (dict_get "type" s) (
          field "statement" (stripped (dict_get "statement" s)) (
            field "topics" (arr topics) (field "confidence" (dict_get "confidence" s) evidence))))))
suggestion_with s _ _ = none

is_reference_value : Value → Bool
is_reference_value (str s) = is_reference s
is_reference_value _ = false

-- The suggestion, or none where the code falls back
suggestion_of : String → Fields → Result (Option Value)
unfolding is_reference_value is_statement is_confidence topics_of evidence_of suggestion_with
suggestion_of transcript s =
    if not (is_reference_value (dict_get "id" s))
    then ok none
    else is_one_of journal_entry_types (dict_get "type" s) >>= λ known.
        if not (known && is_statement (dict_get "statement" s))
        then ok none
        else map_result
            (λ confident.
              if confident
              then suggestion_with s (topics_of (get_or "topics" (arr nil) s))
                  (evidence_of transcript (dict_get "evidence" s))
              else none)
            (is_confidence (dict_get "confidence" s))

-- `progress_number`
unfoldable pub progress_number : Fields → String → ℕ → ℕ
progress_number progress name d = number (dict_get name progress)
  where
    number : Value → ℕ
    number (int n) = clamp 10000 n
    number _ = d

dict_of : Value → Fields
dict_of (obj d) = d
dict_of _ = end

unfoldable pub progress_of : Fields → Value
unfolding progress_number
progress_of progress = obj (
    field "current" (int (pos (max 1 (progress_number progress "current" 1)))) (
      field "total" (int (pos (max 1 (progress_number progress "total" 1))))
        (field "reviewed" (int (pos (progress_number progress "reviewed" 0))) end)))

outcome_of : Value → Result Value
outcome_of v =
    map_result (λ known. if known then v else str "pending") (is_one_of journal_outcomes v)

source_of : Value → String
source_of (str s) =
    if is_empty (strip s) then "Voice session" else take_text max_label_length (strip s)
source_of _ = "Voice session"

review_with : Fields → String → String → String → Option Value → Result Presentation
unfolding outcome_of progress_of dict_of source_of
review_with value spoken transcript review_id none = ok (fallback_presentation spoken)
review_with value spoken transcript review_id (some suggestion) =
    map_result
      (λ outcome. review (
        field "reviewId" (str review_id) (
          field "title" (str (title_or "Review journal extraction" (dict_get "title" value))) (
            field "source" (str (source_of (dict_get "source" value))) (
              field "transcript" (str transcript) (
                field "suggestion" suggestion (
                  field "progress" (progress_of (dict_of (get_or "progress" (obj end) value)))
                    (field "outcome" outcome end))))))))
      (outcome_of (get_or "outcome" (str "pending") value))

reviewed : Fields → String → Value → Value → Value → Result Presentation
unfolding suggestion_of review_with
reviewed value spoken (str transcript) (str review_id) (obj suggestion) =
    if is_empty (strip transcript)
      || ltb max_journal_transcript_bytes (utf8_length transcript)
      || not (is_reference review_id)
    then ok (fallback_presentation spoken)
    else suggestion_of transcript suggestion >>= review_with value spoken transcript review_id
reviewed value spoken _ _ _ = ok (fallback_presentation spoken)

-- `_normalize_journal_review`
unfoldable pub normalize_journal_review : Fields → String → Result Presentation
unfolding reviewed
normalize_journal_review value spoken =
    reviewed value spoken (dict_get "transcript" value) (dict_get "reviewId" value)
      (dict_get "suggestion" value)
