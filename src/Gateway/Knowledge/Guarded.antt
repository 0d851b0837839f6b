-- ===== src/Gateway/Knowledge/Guarded.antt =====
-- main.py: who is not let in makes the routes of the knowledge store send nothing.
use agent_workload_platform.Prelude.{
  inr, eq_iff, ap, none, ◌==◌, inl, if◌then◌else◌, ◌&&◌, Bool-cases, ◌≢◌, String, ◌≡◌, refl, Option,
  List, Exn, Result, raise,
}
use agent_workload_platform.Json.{Value}
use agent_workload_platform.Gateway.{
  not_ascii, is_ascii, concat, some, bearer, http_error, Gateway, authenticate,
  authenticate_digital_twin_reader, authenticate_digital_twin_writer,
}
use agent_workload_platform.Gateway.Store.{Message, Store, Exec, lift, ◌>>=◌}
use agent_workload_platform.Gateway.Requests.{
  JournalCapture, DailyJournalCapture, JournalFeedback, AssertionReview, JournalMissFeedback,
  ReviewCapture, ReviewDecision,
}
use agent_workload_platform.Gateway.Knowledge.{
  entered, query_digital_twin, write_digital_twin_journal, write_digital_twin_daily_journal,
  record_journal_feedback, record_assertion_review, get_assertion_review, record_journal_miss,
  list_journal_feedback, write_digital_twin_reviews, list_digital_twin_reviews,
  decide_digital_twin_review,
}

-- A route that raises and has sent nothing
Refuses : {A : Type 0} → Exn → Exec A → Type 0
Refuses e route = (ms : List Message) → route ms ≡ (raise e, ms)

bind-Refuses :
    {A : Type 0} {B : Type 0} (e : Exn) (m : Exec A) (f : A → Exec B)
    → Refuses e m
    → Refuses e (m >>= f)
unfolding Refuses ◌>>=◌
bind-Refuses e m f h ms = rw (h ms) refl

-- A request of each route, with its path, its query and what is fresh
pub record Attempt : Type 0 where
  pub identity : String
  pub scope : String
  pub search : String
  pub entry_id : String
  pub event_id : String
  pub now : String
  pub capture : JournalCapture
  pub daily : DailyJournalCapture
  pub feedback : JournalFeedback
  pub assertion : AssertionReview
  pub miss : JournalMissFeedback
  pub classified : ReviewCapture
  pub decision : ReviewDecision
  pub show : Value → String

-- Whose credential a route asks for
pub data Role : Type 0 where
  plain reader writer : Role

abbrev pub token_of : Gateway → Role → String
token_of gateway plain = gateway.gateway_token
token_of gateway reader = gateway.reader_token
token_of gateway writer = gateway.writer_token

abbrev pub detail_of : Role → String
detail_of plain = "invalid agent gateway credential"
detail_of reader = "invalid digital twin reader credential"
detail_of writer = "invalid digital twin writer credential"

-- What a caller without the credential gets
abbrev pub refusal : String → String → Option String → Exn
refusal token detail none = http_error 401 detail
refusal token detail (some authorization) =
    if is_ascii authorization && is_ascii (concat "Bearer " token)
    then http_error 401 detail
    else not_ascii

-- The routes of the knowledge store
pub data Route : Type 0 where
  query_facts write_journal write_daily_journal give_feedback review_assertion show_review
        report_miss list_feedback write_reviews list_reviews decide_review :
      Route

abbrev pub role_of : Route → Role
role_of query_facts = reader
role_of list_feedback = reader
role_of list_reviews = reader
role_of write_journal = writer
role_of write_daily_journal = writer
role_of write_reviews = writer
role_of _ = plain

-- The route raises the error, after the same messages.
abbrev pub IsRefused :
    Gateway → Store → Option String → Attempt → Exn → List Message → Route → Type 0
IsRefused gateway store authorization t e ms query_facts =
    query_digital_twin gateway store authorization t.identity t.scope t.search ms ≡ (raise e, ms)
IsRefused gateway store authorization t e ms write_journal =
    write_digital_twin_journal gateway store authorization t.capture ms ≡ (raise e, ms)
IsRefused gateway store authorization t e ms write_daily_journal =
    write_digital_twin_daily_journal gateway store authorization t.daily ms ≡ (raise e, ms)
IsRefused gateway store authorization t e ms give_feedback =
    record_journal_feedback gateway store authorization t.entry_id t.feedback t.event_id t.now ms
    ≡ (raise e, ms)
IsRefused gateway store authorization t e ms review_assertion =
    record_assertion_review gateway store authorization t.entry_id t.assertion t.event_id t.now ms
    ≡ (raise e, ms)
IsRefused gateway store authorization t e ms show_review =
    get_assertion_review gateway store authorization t.entry_id t.identity ms ≡ (raise e, ms)
IsRefused gateway store authorization t e ms report_miss =
    record_journal_miss gateway store authorization t.miss t.event_id t.now ms ≡ (raise e, ms)
IsRefused gateway store authorization t e ms list_feedback =
    list_journal_feedback gateway store authorization t.identity ms ≡ (raise e, ms)
IsRefused gateway store authorization t e ms write_reviews =
    write_digital_twin_reviews gateway store t.show authorization t.classified ms ≡ (raise e, ms)
IsRefused gateway store authorization t e ms list_reviews =
    list_digital_twin_reviews gateway store authorization t.identity ms ≡ (raise e, ms)
IsRefused gateway store authorization t e ms decide_review =
    decide_digital_twin_review gateway store authorization t.entry_id t.decision t.event_id t.now ms
    ≡ (raise e, ms)

bearer-refusal :
    (token detail : String) (authorization : Option String)
    → authorization ≢ some (concat "Bearer " token)
    → bearer token detail authorization ≡ raise (refusal token detail authorization)
unfolding bearer
bearer-refusal token detail none h = refl
bearer-refusal token detail (some a) h =
    elim (Bool-cases (is_ascii a && is_ascii (concat "Bearer " token))) [
      | inl e ↦ elim (Bool-cases (a == concat "Bearer " token)) [
        | inl f ↦ absurd (h (ap (λ s. some s) ((eq_iff a (concat "Bearer " token)).0 f)))
        | inr f ↦ rw (e, f) refl
      ]
      | inr e ↦ rw e refl
    ]

module _ (gateway : Gateway) (store : Store) where
  entered-Refuses :
      (check : Option String → Result (Unit {0})) (authorization : Option String)
      (identity : String) (e : Exn)
      → check authorization ≡ raise e
      → Refuses e (entered gateway store check authorization identity)
  unfolding Refuses entered lift ◌>>=◌
  entered-Refuses check authorization identity e h ms = rw h refl

  -- A route that starts with the check of a credential
  guarded-Refuses :
      {A : Type 0} (check : Option String → Result (Unit {0})) (authorization : Option String)
      (identity : String) (e : Exn) (rest : String → Exec A)
      → check authorization ≡ raise e
      → Refuses e (entered gateway store check authorization identity >>= rest)
  guarded-Refuses check authorization identity e rest h =
      bind-Refuses e (entered gateway store check authorization identity) rest
        (entered-Refuses check authorization identity e h)

  -- Each route of the knowledge store refuses every caller whose header is not the token of the
  -- route's own role: 401 with the role's detail, or the TypeError of a comparison of texts that
  -- are not ASCII. Nothing is sent to the store, whatever the request, and a token of another role
  -- is refused as any other.
  pub not_let_in :
      (route : Route) (authorization : Option String) (t : Attempt) (ms : List Message)
      → authorization ≢ some (concat "Bearer " (token_of gateway (role_of route)))
      → IsRefused gateway store authorization t
          (refusal (token_of gateway (role_of route)) (detail_of (role_of route)) authorization)
          ms
          route
  unfolding Refuses query_digital_twin write_digital_twin_journal write_digital_twin_daily_journal
      record_journal_feedback record_assertion_review get_assertion_review record_journal_miss
      list_journal_feedback write_digital_twin_reviews list_digital_twin_reviews
      decide_digital_twin_review authenticate authenticate_digital_twin_reader
      authenticate_digital_twin_writer
  not_let_in query_facts authorization t ms h =
      guarded-Refuses (authenticate_digital_twin_reader gateway) authorization t.identity _ _
        (bearer-refusal _ _ _ h) ms
  not_let_in write_journal authorization t ms h =
      guarded-Refuses (authenticate_digital_twin_writer gateway) authorization t.capture.identity _
        _ (bearer-refusal _ _ _ h) ms
  not_let_in write_daily_journal authorization t ms h =
      guarded-Refuses (authenticate_digital_twin_writer gateway) authorization t.daily.identity _ _
        (bearer-refusal _ _ _ h) ms
  not_let_in give_feedback authorization t ms h =
      guarded-Refuses (authenticate gateway) authorization t.feedback.identity _ _
        (bearer-refusal _ _ _ h) ms
  not_let_in review_assertion authorization t ms h =
      guarded-Refuses (authenticate gateway) authorization t.assertion.identity _ _
        (bearer-refusal _ _ _ h) ms
  not_let_in show_review authorization t ms h =
      guarded-Refuses (authenticate gateway) authorization t.identity _ _ (bearer-refusal _ _ _ h)
        ms
  not_let_in report_miss authorization t ms h =
      guarded-Refuses (authenticate gateway) authorization t.miss.identity _ _
        (bearer-refusal _ _ _ h) ms
  not_let_in list_feedback authorization t ms h =
      guarded-Refuses (authenticate_digital_twin_reader gateway) authorization t.identity _ _
        (bearer-refusal _ _ _ h) ms
  not_let_in write_reviews authorization t ms h =
      guarded-Refuses (authenticate_digital_twin_writer gateway) authorization t.classified.identity
        _ _ (bearer-refusal _ _ _ h) ms
  not_let_in list_reviews authorization t ms h =
      guarded-Refuses (authenticate_digital_twin_reader gateway) authorization t.identity _ _
        (bearer-refusal _ _ _ h) ms
  not_let_in decide_review authorization t ms h =
      guarded-Refuses (authenticate gateway) authorization t.decision.identity _ _
        (bearer-refusal _ _ _ h) ms
