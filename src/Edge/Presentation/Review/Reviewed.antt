-- ===== src/Edge/Presentation/Review/Reviewed.antt =====
-- presentation_response.py: what a journal review shows of the transcript, and that reading it only
-- raises as the other kinds do.
use agent_workload_platform.Edge.Presentation.{max_journal_transcript_bytes}
use agent_workload_platform.Prelude.{
  ◌≡◌, inl, inr, ◌||◌, arith, ltb, is_empty, strip, utf8_length, Bool-cases, String, Bool, true,
  false, not, ◌&&◌, Option, none, some, if◌then◌else◌, Result, ok,
}
use agent_workload_platform.Json.{Value, str, obj, Fields, get_or, dict_get}
use agent_workload_platform.Json.{is_one_of, is_finite}
use agent_workload_platform.Edge.Presentation.Shown.{
  IsTranscript, IsShown, Reads, Shows, fallback-IsShown, bind-Shows, map-Shows, map-Reads,
  is_one_of-Reads, is_finite-Reads,
}
use agent_workload_platform.Edge.Presentation.Review.{
  is_reference, journal_entry_types, journal_outcomes, is_reference_value, is_statement,
  is_confidence, suggestion_of, outcome_of, review_with, reviewed, normalize_journal_review,
}

is_confidence-Reads : (v : Value) → Reads (is_confidence v)
unfolding is_confidence
is_confidence-Reads v = map-Reads _ (is_finite v) (is_finite-Reads v)

if-Reads : {A : Type 0} (b : Bool) (a : A) (r : Result A) → Reads r → Reads (if b then ok a else r)
if-Reads true a r h = tt
if-Reads false a r h = h

suggestion_of-Reads : (transcript : String) (s : Fields) → Reads (suggestion_of transcript s)
unfolding suggestion_of
suggestion_of-Reads transcript s = if-Reads (not (is_reference_value (dict_get "id" s))) none _ (
    bind-Shows (λ b. Unit {0}) (is_one_of journal_entry_types (dict_get "type" s)) _
      (is_one_of-Reads journal_entry_types (dict_get "type" s))
      (λ known. if-Reads (not (known && is_statement (dict_get "statement" s))) none _ (
        map-Reads _ (is_confidence (dict_get "confidence" s))
          (is_confidence-Reads (dict_get "confidence" s)))))

review_with-Shows :
    (value : Fields) (spoken transcript review_id : String) (o : Option Value)
    → is_reference review_id ≡ true
    → IsTranscript (str transcript)
    → Shows (review_with value spoken transcript review_id o)
unfolding review_with outcome_of
review_with-Shows value spoken transcript review_id none is_ref is_text = fallback-IsShown spoken
review_with-Shows value spoken transcript review_id (some v) is_ref is_text =
    map-Shows IsShown _ _
      (map-Reads _ (is_one_of journal_outcomes (get_or "outcome" (str "pending") value))
        (is_one_of-Reads journal_outcomes (get_or "outcome" (str "pending") value)))
      (λ outcome. (is_ref, is_text))

reviewed-Shows :
    (value : Fields) (spoken : String) (transcript review_id suggestion : Value)
    → Shows (reviewed value spoken transcript review_id suggestion)
unfolding reviewed
reviewed-Shows value spoken (str t) (str r) (obj s) =
    elim (Bool-cases (
      is_empty (strip t)
      || ltb max_journal_transcript_bytes (utf8_length t)
      || not (is_reference r))) [
        | inl refused ↦ rw refused (fallback-IsShown spoken)
        | inr fine ↦ rw fine (
            bind-Shows IsShown (suggestion_of t s) _ (suggestion_of-Reads t s) (λ o.
              review_with-Shows value spoken t r o (ground (arith, fine))
                (ground (arith, fine), ground (arith, fine))))
      ]
reviewed-Shows value spoken _ _ _ = fallback-IsShown spoken

pub normalize_journal_review-Shows :
    (value : Fields) (spoken : String) → Shows (normalize_journal_review value spoken)
unfolding normalize_journal_review
normalize_journal_review-Shows value spoken = reviewed-Shows value spoken _ _ _
