-- ===== src/Gateway/Checks.antt =====
-- main.py: what the requests' fields and validators accept. pydantic checks the bounds that the
-- fields declare. `ZoneInfo`, the date of a moment in a zone and the decimal digits of Unicode are
-- parameters.
pub mod Topics
use agent_workload_platform.Prelude.{
  ℕ, zero, suc, ◌+◌, code, String, Bool, true, false, not, ◌&&◌, ◌||◌, Option, none, some, List, [],
  ◌∷◌, map, ◌==◌, ltb, leb, eqb, if◌then◌else◌, between, length, all, any, len, is_empty, is_space,
  lstrip, strip, value_error, Result, ok, raise,
}
use agent_workload_platform.Prelude.{is_space}
use agent_workload_platform.Json.{in_unit}
use agent_workload_platform.Gateway.Requests.{
  Moment, DailyJournalSource, DailyJournalTaskRequest, DailyJournalCapture, JournalEntry,
  JournalCapture, JournalFeedback, AssertionReview, JournalMissFeedback, ReviewDecision,
  ReviewCandidate, AssertionProbabilities, ReviewClassification, ReviewCapture,
}
use agent_workload_platform.Gateway.Patterns.{
  is_literal, entry_types, is_sized, is_option, is_capture_id, is_entry_id, is_candidate_id,
  is_identity,
}

is_task_submission : String → String → String → Bool
unfolding is_sized
is_task_submission identity instruction workspace =
    is_identity identity && is_sized 1 20000 instruction && is_sized 1 4096 workspace

is_song_generation : String → String → String → String → ℕ → Bool
unfolding is_sized
is_song_generation identity brief workspace style duration_seconds =
    is_identity identity
    && is_sized 1 20000 brief
    && is_sized 1 4096 workspace
    && is_sized 1 1000 style
    && between 30 300 duration_seconds

is_ingestion : String → String → String → String → Bool
unfolding is_sized
is_ingestion identity session_id message_id transcript =
    is_identity identity
    && is_sized 1 128 session_id
    && is_sized 1 128 message_id
    && is_sized 1 20000 transcript

is_journal_entry : JournalEntry → Bool
unfolding is_sized
is_journal_entry e =
    is_entry_id e.id
    && is_literal entry_types e.kind
    && is_sized 1 1000 e.text
    && leb (length e.topics) 8

is_journal_capture : JournalCapture → Bool
unfolding is_sized is_journal_entry
is_journal_capture c =
    is_identity c.identity
    && is_capture_id c.id
    && is_sized 1 300 c.source_ref
    && c.captured_at.aware
    && is_sized 1 20000 c.transcript
    && leb (length c.entries) 12
    && all is_journal_entry c.entries

is_source : DailyJournalSource → Bool
unfolding is_sized
is_source s =
    is_sized 1 512 s.source_ref
    && (s.speaker == "owner")
    && s.captured_at.aware
    && is_sized 1 20000 s.transcript

is_assertion_review : AssertionReview → Bool
unfolding is_sized is_option
is_assertion_review r =
    is_identity r.identity
    && is_option
        (is_literal ("none" ∷ "conversation_topic" ∷ "skill_evidence" ∷ "profile_update" ∷ []))
        r.expected_kind
    && is_option
        (is_literal ("none" ∷ "job_title" ∷ "home_location" ∷ "credential" ∷ "employment" ∷ []))
        r.expected_profile_field
    && is_sized 3 500 r.reason

is_miss : JournalMissFeedback → Bool
unfolding is_sized
is_miss m =
    is_identity m.identity
    && is_capture_id m.capture_id
    && is_literal entry_types m.expected_type
    && is_sized 1 1000 m.expected_text

-- Whether no two are the same: len(set(refs)) == len(refs)
unfoldable pub all_different : List String → Bool
all_different [] = true
all_different (s ∷ rest) = not (any (λ t. t == s) rest) && all_different rest

is_topic : String → Bool
is_topic t = not (is_empty t) && leb (len t) 80

topics_with : List String → Result (Option (List String))
unfolding is_topic
topics_with topics =
    if all is_topic topics && all_different topics
    then ok (some topics)
    else raise (value_error "topics must be unique nonempty strings of at most 80 characters")

-- `JournalFeedback.validate_topics`
unfoldable pub validate_topics : Option (List String) → Result (Option (List String))
unfolding topics_with
validate_topics none = ok none
validate_topics (some topics) = topics_with (map strip topics)

module _ (is_decimal : ℕ → Bool) where
  -- A mark of at most `n` more hashes and a blank
  heading : ℕ → String → Bool
  heading n String.[] = false
  heading zero (String.◌∷◌ c s) = is_space c
  heading (suc n) (String.◌∷◌ c s) = is_space c || (eqb (code c) b'#' && heading n s)

  blank_next : String → Bool
  blank_next String.[] = false
  blank_next (String.◌∷◌ c s) = is_space c

  -- The rest of \d+[.)]\s after a digit
  enumerated : String → Bool
  unfolding blank_next
  enumerated String.[] = false
  enumerated (String.◌∷◌ c s) =
      (is_decimal (code c) && enumerated s)
      || ((eqb (code c) b'.' || eqb (code c) b')') && blank_next s)

  -- #{1,6}\s|[-*]\s|\d+[.)]\s
  mark_here : String → Bool
  unfolding heading blank_next enumerated
  mark_here String.[] = false
  mark_here (String.◌∷◌ c s) =
      (eqb (code c) b'#' && heading 5 s)
      || ((eqb (code c) b'-' || eqb (code c) b'*') && blank_next s)
      || (is_decimal (code c) && enumerated s)

  -- A mark after the blanks at the start of one of the lines after the first
  later_mark : String → Bool
  unfolding mark_here
  later_mark String.[] = false
  later_mark (String.◌∷◌ c s) = (eqb (code c) 10 && mark_here (lstrip s)) || later_mark s

  story_must_be_prose : String → Result String
  unfolding mark_here later_mark
  story_must_be_prose value =
      if mark_here (lstrip value) || later_mark value
      then raise (value_error "daily journal story must be prose, not a list or outline")
      else ok value

module _ {Zone : Type 0} (zone_info : String → Option Zone) (date_in : Zone → Moment → String) where
  total : List DailyJournalSource → ℕ
  total [] = 0
  total (s ∷ rest) = len s.transcript + total rest

  validate_in : Option Zone → String → List DailyJournalSource → Result (Unit {0})
  unfolding total
  validate_in none journal_date sources =
      raise (value_error "timeZone must be a valid IANA timezone")
  validate_in (some zone) journal_date sources =
      if not (all_different (map (λ s. s.source_ref) sources))
      then raise (value_error "sourceRefs must be unique")
      else if not (all (λ s. date_in zone s.captured_at == journal_date) sources)
      then raise (value_error "every source must fall within journalDate in timeZone")
      else if ltb 200000 (total sources)
      then raise (value_error "daily journal sources exceed 200,000 characters")
      else ok tt

  -- `DailyJournalTaskRequest.validate_sources_and_timezone`
  unfoldable pub validate_task_request : DailyJournalTaskRequest → Result (Unit {0})
  unfolding validate_in
  validate_task_request r = validate_in (zone_info r.time_zone) r.journal_date r.sources

  -- `DailyJournalCapture.validate_sources_and_timezone`
  unfoldable pub validate_capture : DailyJournalCapture → Result (Unit {0})
  unfolding validate_in
  validate_capture c =
      if not c.captured_at.aware
      then raise (value_error "capturedAt must include a timezone")
      else validate_in (zone_info c.time_zone) c.journal_date c.sources

is_task_request : DailyJournalTaskRequest → Bool
unfolding is_sized is_source
is_task_request r =
    is_identity r.identity
    && is_sized 1 64 r.time_zone
    && between 1 300 (length r.sources)
    && all is_source r.sources

is_daily_capture : DailyJournalCapture → Bool
unfolding is_sized is_source is_option
is_daily_capture c =
    is_identity c.identity
    && is_capture_id c.id
    && is_option (λ t. leb (len t) 100) c.task_id
    && is_sized 1 64 c.time_zone
    && is_sized 1 200 c.title
    && is_sized 1 8000 c.story
    && between 1 300 (length c.sources)
    && all is_source c.sources

is_feedback : JournalFeedback → Bool
unfolding is_option is_sized
is_feedback f =
    is_identity f.identity
    && is_literal ("keep" ∷ "delete" ∷ "edit" ∷ "wrong_type" ∷ []) f.action
    && is_option (is_literal entry_types) f.corrected_type
    && is_option (is_sized 1 1000) f.corrected_text
    && (elim f.corrected_topics [ none ↦ true | some t ↦ leb (length t) 12 ])

is_candidate : ReviewCandidate → Bool
unfolding is_sized
is_candidate c = is_candidate_id c.id && is_sized 1 200 c.label && is_sized 1 1000 c.evidence_quote

is_probabilities : AssertionProbabilities → Bool
is_probabilities p =
    in_unit p.conversation_topic
    && in_unit p.skill_evidence
    && in_unit p.profile_update
    && in_unit p.none_probability

is_classification : ReviewClassification → Bool
unfolding is_probabilities is_sized
is_classification c =
    is_literal ("conversation_topic" ∷ "skill_evidence" ∷ "profile_update" ∷ []) c.kind
    && in_unit c.confidence
    && is_probabilities c.probabilities
    && is_literal ("job_title" ∷ "home_location" ∷ "credential" ∷ "employment" ∷ "none" ∷ [])
        c.profile_field
    && in_unit c.profile_field_confidence
    && is_sized 1 200 c.model

is_review_capture : ReviewCapture → Bool
unfolding is_sized is_candidate is_classification
is_review_capture c =
    is_identity c.identity
    && is_capture_id c.id
    && is_sized 1 300 c.source_ref
    && c.captured_at.aware
    && is_classification c.classification
    && between 1 8 (length c.candidates)
    && all is_candidate c.candidates

is_decision : ReviewDecision → Bool
is_decision d = is_identity d.identity && is_literal ("accept" ∷ "reject" ∷ []) d.decision
