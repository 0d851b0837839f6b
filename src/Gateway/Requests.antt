-- ===== src/Gateway/Requests.antt =====
-- main.py: the requests of the gateway, as records. A Literal type is a text that is checked.
use agent_workload_platform.Prelude.{String, Bool, Option, List}
use agent_workload_platform.Json.{Value}

-- A datetime: its ISO form, and whether it has an offset to UTC
pub record Moment : Type 0 where
  pub iso : String
  pub aware : Bool

pub record DailyJournalSource : Type 0 where
  pub source_ref : String
  pub speaker : String
  pub captured_at : Moment
  pub transcript : String

pub record DailyJournalTaskRequest : Type 0 where
  pub identity : String
  pub journal_date : String
  pub time_zone : String
  pub sources : List DailyJournalSource

pub record DailyJournalCapture : Type 0 where
  pub identity : String
  pub id : String
  pub task_id : Option String
  pub journal_date : String
  pub time_zone : String
  pub captured_at : Moment
  pub title : String
  pub story : String
  pub sources : List DailyJournalSource

pub record JournalEntry : Type 0 where
  pub id : String
  pub kind : String
  pub text : String
  pub topics : List String

pub record JournalCapture : Type 0 where
  pub identity : String
  pub id : String
  pub source_ref : String
  pub captured_at : Moment
  pub transcript : String
  pub entries : List JournalEntry

pub record JournalFeedback : Type 0 where
  pub identity : String
  pub action : String
  pub corrected_type : Option String
  pub corrected_text : Option String
  pub corrected_topics : Option (List String)

pub record AssertionReview : Type 0 where
  pub identity : String
  pub owner_authored : Bool
  pub expected_kind : Option String
  pub expected_profile_field : Option String
  pub reason : String

pub record JournalMissFeedback : Type 0 where
  pub identity : String
  pub capture_id : String
  pub expected_type : String
  pub expected_text : String

pub record ReviewDecision : Type 0 where
  pub identity : String
  pub decision : String

pub record ReviewCandidate : Type 0 where
  pub id : String
  pub label : String
  pub evidence_quote : String

-- Floats as values of JSON
pub record AssertionProbabilities : Type 0 where
  pub conversation_topic : Value
  pub skill_evidence : Value
  pub profile_update : Value
  pub none_probability : Value

pub record ReviewClassification : Type 0 where
  pub kind : String
  pub confidence : Value
  pub probabilities : AssertionProbabilities
  pub profile_field : String
  pub profile_field_confidence : Value
  pub low_confidence : Bool
  pub model : String

pub record ReviewCapture : Type 0 where
  pub identity : String
  pub id : String
  pub source_ref : String
  pub captured_at : Moment
  pub classification : ReviewClassification
  pub candidates : List ReviewCandidate
