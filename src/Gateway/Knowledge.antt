-- ===== src/Gateway/Knowledge.antt =====
-- main.py: the routes of the digital twin that read and write the knowledge store. The fresh ids of
-- `uuid4` and the moments of `datetime.now` are arguments.
pub mod Decided
pub mod Guarded
use agent_workload_platform.Prelude.{
  ℕ, String, Bool, true, false, not, ◌&&◌, ◌||◌, Option, none, some, List, [], ◌∷◌, ◌++◌, ◌==◌,
  if◌then◌else◌, is_some, length, take, is_nil, Result, ok, raise,
}
use agent_workload_platform.Json.{pos, Value, int, str, Fields, end, field}
use agent_workload_platform.Prelude.{http_error}
use agent_workload_platform.Gateway.{
  Gateway, authenticate, authenticate_digital_twin_reader, authenticate_digital_twin_writer,
  normalized_identity,
}
use agent_workload_platform.Gateway.Facts.{Row, row_get, filter_facts, max_digital_twin_facts}
use agent_workload_platform.Gateway.Store.{
  Store, Exec, pure, throw, lift, require, or_bad_gateway, ◌>>=◌, ◌>>◌, ask, sparql_update,
}
use agent_workload_platform.Gateway.Requests.{
  JournalCapture, DailyJournalCapture, JournalFeedback, AssertionReview, JournalMissFeedback,
  ReviewCapture, ReviewDecision,
}
use agent_workload_platform.Gateway.Patterns.{entry_types, is_literal}
use agent_workload_platform.Gateway.Constants.{
  profile_facts_query, learning_facts_query, journal_facts_query, journal_feedback_query,
  accepted_facts_query, pending_reviews_query,
}
use agent_workload_platform.Gateway.Journal.{journal_update, daily_journal_update}
use agent_workload_platform.Gateway.Queries.{
  journal_entry_query, assertion_review_query, review_candidate_query,
}
use agent_workload_platform.Gateway.Feedback.{journal_feedback_update, journal_miss_update}
use agent_workload_platform.Gateway.Decisions.{assertion_review_update, review_decision_update}
use agent_workload_platform.Gateway.Reviews.{review_update}

number : ℕ → Value
number n = int (pos n)

-- The previous type of an entry, if it is one of the types
previous_type : List Row → Result String
previous_type [] = raise (http_error 404 "journal entry not found")
previous_type (row ∷ rows) = known (row_get "kind" row)
  where
    known : Option String → Result String
    known none = raise (http_error 409 "journal entry has an invalid type")
    known (some kind) =
        if is_literal entry_types kind
        then ok kind
        else raise (http_error 409 "journal entry has an invalid type")

-- Whether the corrections fit the action
feedback_fits : JournalFeedback → Result (Unit {0})
feedback_fits f =
    if (f.action == "edit") && not (is_some f.corrected_text)
    then raise (http_error 422 "edit feedback requires correctedText")
    else if (f.action == "wrong_type") && not (is_some f.corrected_type)
    then raise (http_error 422 "wrong_type feedback requires correctedType")
    else if ((f.action == "keep") || (f.action == "delete"))
        && (is_some f.corrected_type || is_some f.corrected_text || is_some f.corrected_topics)
    then raise (http_error 422 "keep and delete do not accept corrections")
    else ok tt

-- field in {None, "none"}
no_field : Option String → Bool
no_field none = true
no_field (some s) = s == "none"

owner_fits : Option String → Option String → Result (Unit {0})
unfolding no_field
owner_fits none profile = raise (http_error 422 "owner assertion review requires expectedKind")
owner_fits (some kind) profile =
    if (kind == "profile_update") && no_field profile
    then raise (http_error 422 "profile update requires expectedProfileField")
    else if not (kind == "profile_update") && not (no_field profile)
    then raise (http_error 422 "non-profile kind cannot have a profile field")
    else ok tt

-- Whether the labels fit the source
review_fits : AssertionReview → Result (Unit {0})
unfolding owner_fits
review_fits r =
    if r.owner_authored
    then owner_fits r.expected_kind r.expected_profile_field
    else if is_some r.expected_kind || is_some r.expected_profile_field
    then raise (http_error 422 "non-owner source cannot have assertion labels")
    else ok tt

-- The status that a decision asks for
unfoldable pub requested : String → String
requested decision = if decision == "accept" then "accepted" else "rejected"

-- The status of the candidate
current_status : List Row → Result (Option String)
current_status [] = raise (http_error 404 "review candidate not found")
current_status (row ∷ rows) = ok (row_get "status" row)

module _ (gateway : Gateway) (store : Store) where
  entered : (Option String → Result (Unit {0})) → Option String → String → Exec String
  entered check authorization identity = do
    lift (check authorization)
    lift (normalized_identity gateway identity)

  asked_if : Bool → String → Exec (List Row)
  asked_if true q = ask store q
  asked_if false q = pure []

  -- The rows of a scope
  scoped : String → Exec (List Row)
  unfolding asked_if
  scoped scope = do
    profile ← asked_if ((scope == "profile") || (scope == "all")) profile_facts_query
    accepted ← asked_if ((scope == "profile") || (scope == "all")) accepted_facts_query
    learning ← asked_if ((scope == "learning") || (scope == "all")) learning_facts_query
    journal ← asked_if ((scope == "journal") || (scope == "all")) journal_facts_query
    pure (profile ++ accepted ++ learning ++ journal)

  -- `query_digital_twin`, with the facts that it returns
  pub query_digital_twin : Option String → String → String → String → Exec (List Row)
  unfolding entered scoped
  query_digital_twin authorization identity scope search = do
    mine ← entered (authenticate_digital_twin_reader gateway) authorization identity
    rows ← or_bad_gateway (scoped scope)
    pure (filter_facts gateway.casefold rows search)

  pub write_digital_twin_journal : Option String → JournalCapture → Exec Fields
  unfolding entered
  write_digital_twin_journal authorization body = do
    mine ← entered (authenticate_digital_twin_writer gateway) authorization body.identity
    or_bad_gateway (sparql_update store (journal_update body))
    pure (field "captureId" (str body.id) (field "entries" (number (length body.entries)) end))

  pub write_digital_twin_daily_journal : Option String → DailyJournalCapture → Exec Fields
  unfolding entered
  write_digital_twin_daily_journal authorization body = do
    mine ← entered (authenticate_digital_twin_writer gateway) authorization body.identity
    or_bad_gateway (sparql_update store (daily_journal_update gateway.sha256 mine body))
    pure (
        field "journalId" (str body.id) (
          field "journalDate" (str body.journal_date)
            (field "entries" (number 1) (field "sources" (number (length body.sources)) end))))

  pub record_journal_feedback :
      Option String → String → JournalFeedback → String → String → Exec Fields
  unfolding entered feedback_fits previous_type
  record_journal_feedback authorization entry_id body event_id now = do
    mine ← entered (authenticate gateway) authorization body.identity
    lift (feedback_fits body)
    or_bad_gateway (do
      rows ← ask store (journal_entry_query entry_id)
      kind ← lift (previous_type rows)
      sparql_update store (journal_feedback_update gateway.sha256 entry_id body kind event_id now))
    pure (
        field "entryId" (str entry_id)
          (field "action" (str body.action) (field "feedbackId" (str event_id) end)))

  pub record_assertion_review :
      Option String → String → AssertionReview → String → String → Exec Fields
  unfolding entered review_fits
  record_assertion_review authorization entry_id body event_id now = do
    mine ← entered (authenticate gateway) authorization body.identity
    lift (review_fits body)
    or_bad_gateway (do
      rows ← ask store (journal_entry_query entry_id)
      require (not (is_nil rows)) (http_error 404 "journal entry not found")
      sparql_update store (assertion_review_update gateway.sha256 mine entry_id body event_id now))
    pure (field "entryId" (str entry_id) (field "reviewId" (str event_id) end))

  -- The first row, or None
  first : List Row → Option Row
  first [] = none
  first (row ∷ rows) = some row

  pub get_assertion_review : Option String → String → String → Exec (Option Row)
  unfolding entered first
  get_assertion_review authorization entry_id identity = do
    mine ← entered (authenticate gateway) authorization identity
    rows ← or_bad_gateway (ask store (assertion_review_query entry_id))
    pure (first rows)

  pub record_journal_miss : Option String → JournalMissFeedback → String → String → Exec Fields
  unfolding entered
  record_journal_miss authorization body event_id now = do
    mine ← entered (authenticate gateway) authorization body.identity
    or_bad_gateway (sparql_update store (journal_miss_update gateway.sha256 body event_id now))
    pure (
        field "captureId" (str body.capture_id)
          (field "action" (str "missed") (field "feedbackId" (str event_id) end)))

  pub list_journal_feedback : Option String → String → Exec (List Row)
  unfolding entered
  list_journal_feedback authorization identity = do
    mine ← entered (authenticate_digital_twin_reader gateway) authorization identity
    rows ← or_bad_gateway (ask store journal_feedback_query)
    pure (take 500 rows)

  pub write_digital_twin_reviews : (Value → String) → Option String → ReviewCapture → Exec Fields
  unfolding entered
  write_digital_twin_reviews show authorization body = do
    mine ← entered (authenticate_digital_twin_writer gateway) authorization body.identity
    or_bad_gateway (sparql_update store (review_update gateway.sha256 show body))
    pure
        (field "captureId" (str body.id) (field "candidates" (number (length body.candidates)) end))

  pub list_digital_twin_reviews : Option String → String → Exec (List Row)
  unfolding entered
  list_digital_twin_reviews authorization identity = do
    mine ← entered (authenticate_digital_twin_reader gateway) authorization identity
    rows ← or_bad_gateway (ask store pending_reviews_query)
    pure (take max_digital_twin_facts rows)

  decide_status : String → String → String → String → String → Option String → Exec (Unit {0})
  decide_status candidate_id decision identity event_id now none =
      throw (http_error 409 "review candidate was already decided")
  decide_status candidate_id decision identity event_id now (some current) =
      if current == "pending"
      then sparql_update store
          (review_decision_update gateway.sha256 candidate_id decision identity event_id now)
      else if current == requested decision
      then pure tt
      else throw (http_error 409 "review candidate was already decided")

  pub decide_digital_twin_review :
      Option String → String → ReviewDecision → String → String → Exec String
  unfolding entered current_status decide_status
  decide_digital_twin_review authorization candidate_id body event_id now = do
    mine ← entered (authenticate gateway) authorization body.identity
    or_bad_gateway (do
      rows ← ask store (review_candidate_query candidate_id)
      current ← lift (current_status rows)
      decide_status candidate_id body.decision mine event_id now current)
    pure (requested body.decision)
