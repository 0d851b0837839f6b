-- ===== src/Gateway/Knowledge/Decided.antt =====
-- main.py: the decisions on a review candidate, as a state machine of its status.
use agent_workload_platform.Prelude.{
  cat, String, ◌≡◌, refl, ap, ◌∙◌, ◌≢◌, inl, inr, Bool, true, false, Option, some, List, [], ◌∷◌,
  ◌++◌, ◌==◌, if◌then◌else◌, Bool-cases, All, Result, ok, raise, map_result,
}
use agent_workload_platform.Prelude.{http_error}
use agent_workload_platform.Gateway.{Gateway, authenticate, normalized_identity}
use agent_workload_platform.Gateway.Lines.{here, later}
use agent_workload_platform.Gateway.Literal.{rdf_literal}
use agent_workload_platform.Gateway.Facts.{occurs, Row, row_get, sparql_rows}
use agent_workload_platform.Gateway.Store.{
  continue, Message, query, update, Store, pure, throw, lift, unavailable, or_bad_gateway, ◌>>=◌,
  ask, sparql_update, updated,
}
use agent_workload_platform.Gateway.Requests.{ReviewDecision}
use agent_workload_platform.Gateway.Queries.{review_candidate_query}
use agent_workload_platform.Gateway.Decisions.{review_decision_update}
use agent_workload_platform.Gateway.Knowledge.{
  requested, entered, current_status, decide_status, decide_digital_twin_review,
}

pub data Status : Type 0 where
  pending accepted rejected : Status

-- How the store writes it
abbrev pub status_text : Status → String
status_text pending = "pending"
status_text accepted = "accepted"
status_text rejected = "rejected"

-- The status that a decision gives a candidate
abbrev pub after : String → Status
after decision = if decision == "accept" then accepted else rejected

-- One decision, abstractly: the first one counts, and the same again is no error.
abbrev pub step : Status → String → Result String × Status
step pending decision = (ok (status_text (after decision)), after decision)
step decided decision =
    if status_text decided == status_text (after decision)
    then (ok (status_text (after decision)), decided)
    else (raise (http_error 409 "review candidate was already decided"), decided)

-- The line of an update that inserts the status of a candidate
abbrev pub status_line : String → Status → String
status_line candidate_id s = cat (
    "    <urn:awp:digital-twin:review:"
    ∷ candidate_id
    ∷ "> awp:status \""
    ∷ status_text s
    ∷ "\" ; pk:reviewState <urn:voice-agent:personal-knowledge:concept:review-state:"
    ∷ status_text s
    ∷ "> ."
    ∷ [])

-- What the store documents of one candidate: its status is in the first row of the answer, queries
-- leave it, updates succeed, and an update of those considered that has the line for a status sets
-- that status. The status is a function of what was sent.
pub record Tracks (gateway : Gateway) (store : Store) (candidate_id mine : String)
    (Considered : String → String → String → Type 0) (status : List Message → Status) : Type 0 where
  pub row : List Message → Row
  pub shows :
      (ms : List Message)
      → sparql_rows (store.rows ms (review_candidate_query candidate_id)) ≡ ok (row ms ∷ [])
  pub in_row : (ms : List Message) → row_get "status" (row ms) ≡ some (status_text (status ms))
  pub asked : (ms : List Message) (q : String) → status (ms ++ query q ∷ []) ≡ status ms
  pub succeeds : (ms : List Message) (u : String) → store.status ms u ≡ some 204
  pub applied :
      (ms : List Message) (s : Status) (decision event_id now : String)
      → Considered decision event_id now
      → occurs
          (status_line candidate_id s)
          (review_decision_update gateway.sha256 candidate_id decision mine event_id now)
        ≡ true
      → status (
          ms
          ++ update (review_decision_update gateway.sha256 candidate_id decision mine event_id now)
            ∷ [])
        ≡ s

-- The update of a decision has the line of the status that the decision gives.
review_decision_update-status_line :
    (sha256 : String → String) (candidate_id decision identity event_id now : String)
    → occurs
        (status_line candidate_id (after decision))
        (review_decision_update sha256 candidate_id decision identity event_id now)
      ≡ true
unfolding review_decision_update cat rdf_literal
review_decision_update-status_line sha256 candidate_id decision identity event_id now =
    elim (Bool-cases (decision == "accept")) [
      | inl e ↦ rw e (
          later _ _ _ _ (
            later _ _ _ _ (
              later _ _ _ _ (
                later _ _ _ _ (
                  later _ _ _ _ (
                    later _ _ _ _ (
                      later _ _ _ _ (
                        later _ _ _ _
                          (later _ _ _ _ (later _ _ _ _ (later _ _ _ _ (here _ _ _))))))))))))
      | inr e ↦ rw e (
          later _ _ _ _ (
            later _ _ _ _ (
              later _ _ _ _ (
                later _ _ _ _ (
                  later _ _ _ _ (
                    later _ _ _ _ (
                      later _ _ _ _ (
                        later _ _ _ _
                          (later _ _ _ _ (later _ _ _ _ (later _ _ _ _ (here _ _ _))))))))))))
    ]

requested-after : (decision : String) → requested decision ≡ status_text (after decision)
unfolding requested
requested-after decision = elim (Bool-cases (decision == "accept")) [
  | inl e ↦ rw e refl
  | inr e ↦ rw e refl
]

module _ (gateway : Gateway) (store : Store) (candidate_id mine : String)
    (Considered : String → String → String → Type 0) (status : List Message → Status)
    (tracks : Tracks gateway store candidate_id mine Considered status) where
  continue-pure :
      (r : Result (Unit {0})) (v : String) (sent : List Message)
      → continue r (λ done. pure v) sent ≡ (map_result (λ done. v) r, sent)
  unfolding pure
  continue-pure (ok u) v sent = refl
  continue-pure (raise e) v sent = refl

  -- What a run returns for a decision, and the status that it leaves
  outcome : String → Result (Unit {0}) × List Message → Result String × Status
  outcome decision run =
      (map_result (λ done. status_text (after decision)) (unavailable run.0), status run.1)

  settled :
      (b : Bool) (s : Status) (decision : String) (ms : List Message)
      → status ms ≡ s
      → outcome decision (
          (if b then pure tt else throw (http_error 409 "review candidate was already decided")) ms)
        ≡ (if b
            then (ok (status_text (after decision)), s)
            else (raise (http_error 409 "review candidate was already decided"), s))
  unfolding outcome pure throw unavailable
  settled true s decision ms e = ap (λ t. (ok (status_text (after decision)), t)) e
  settled false s decision ms e =
      ap (λ t. (raise (http_error 409 "review candidate was already decided"), t)) e

  -- The part that talks to the store, after the row is read
  decide_status-step :
      (s : Status) (decision event_id now : String) (ms : List Message)
      → Considered decision event_id now
      → status ms ≡ s
      → outcome decision (
          decide_status gateway store candidate_id decision mine event_id now
            (some (status_text s))
            ms)
        ≡ step s decision
  unfolding outcome decide_status sparql_update updated pure throw unavailable
  decide_status-step pending decision event_id now ms k e =
      rw
        (tracks.succeeds ms
          (review_decision_update gateway.sha256 candidate_id decision mine event_id now))
        (ap (λ t. (ok (status_text (after decision)), t))
          (tracks.applied ms (after decision) decision event_id now k (
            review_decision_update-status_line gateway.sha256 candidate_id decision mine event_id
              now)))
  decide_status-step accepted decision event_id now ms k e =
      rw (requested-after decision)
        (settled ("accepted" == status_text (after decision)) accepted decision ms e)
  decide_status-step rejected decision event_id now ms k e =
      rw (requested-after decision)
        (settled ("rejected" == status_text (after decision)) rejected decision ms e)

  -- A result, and the status after it
  shown : Result String × List Message → Result String × Status
  shown run = (run.0, status run.1)

  -- For an owner who is let in, the route is one step of the machine: it returns what the step
  -- returns and leaves the candidate in the step's status, where the store tracks the candidate.
  decide_digital_twin_review-step :
      (authorization : Option String) (body : ReviewDecision) (event_id now : String)
      (ms : List Message)
      → Considered body.decision event_id now
      → authenticate gateway authorization ≡ ok tt
      → normalized_identity gateway body.identity ≡ ok mine
      → shown
          (decide_digital_twin_review gateway store authorization candidate_id body event_id now ms)
        ≡ step (status ms) body.decision
  unfolding shown decide_digital_twin_review entered current_status ◌>>=◌ or_bad_gateway lift pure
      ask outcome
  decide_digital_twin_review-step authorization body event_id now ms k let_in is_owner =
      let asked = ms ++ query (review_candidate_query candidate_id) ∷ [] in
      let run =
        decide_status gateway store candidate_id body.decision mine event_id now
          (some (status_text (status ms))) asked in
      rw (let_in, is_owner, tracks.shows ms, tracks.in_row ms)
        (ap (λ p. (p.0, status p.1))
            (continue-pure (unavailable run.0) (requested body.decision) run.1)
          ∙ ap (λ v. (map_result {A = Unit {0}} (λ done. v) (unavailable run.0), status run.1))
              (requested-after body.decision)
          ∙ decide_status-step (status ms) body.decision event_id now asked k
              (tracks.asked ms (review_candidate_query candidate_id)))

-- A decision with its fresh id and its moment
abbrev pub Asked : Type 0
Asked = ReviewDecision × String × String

-- The route, called for each decision after the other
unfoldable pub decide_all :
    Gateway
    → Store
    → Option String
    → String
    → List Asked
    → List Message
    → List (Result String) × List Message
decide_all gateway store authorization candidate_id [] ms = ([], ms)
decide_all gateway store authorization candidate_id ((body, event_id, now) ∷ rest) ms =
    let (r, sent) =
      decide_digital_twin_review gateway store authorization candidate_id body event_id now ms in
    let (rs, all_sent) = decide_all gateway store authorization candidate_id rest sent in
    (r ∷ rs, all_sent)

-- The machine over the decisions
abbrev pub steps : Status → List Asked → List (Result String) × Status
steps s [] = ([], s)
steps s ((body, event_id, now) ∷ rest) =
    let (r, t) = step s body.decision in let (rs, u) = steps t rest in (r ∷ rs, u)

-- A candidate that is decided keeps its status.
steps-decided : (s : Status) (asked : List Asked) → s ≢ pending → (steps s asked).1 ≡ s
steps-decided s [] h = refl
steps-decided pending (a ∷ rest) h = absurd (h refl)
steps-decided accepted ((body, event_id, now) ∷ rest) h =
    elim (Bool-cases ("accepted" == status_text (after body.decision))) [
      | inl e ↦ rw e (steps-decided accepted rest h)
      | inr e ↦ rw e (steps-decided accepted rest h)
    ]
steps-decided rejected ((body, event_id, now) ∷ rest) h =
    elim (Bool-cases ("rejected" == status_text (after body.decision))) [
      | inl e ↦ rw e (steps-decided rejected rest h)
      | inr e ↦ rw e (steps-decided rejected rest h)
    ]

module _ (gateway : Gateway) (store : Store) (candidate_id mine : String)
    (Considered : String → String → String → Type 0) (status : List Message → Status)
    (tracks : Tracks gateway store candidate_id mine Considered status)
    (authorization : Option String) (let_in : authenticate gateway authorization ≡ ok tt) where
  -- Over any decisions of the owner that are considered, the route returns what the machine of one candidate returns,
  -- from its status, and leaves the candidate in the machine's status: the first decision counts,
  -- the same again is no error, another is 409, where the store tracks the candidate.
  pub decide_all-steps :
      (asked : List Asked) (ms : List Message)
      → All
          (λ a.
            (normalized_identity gateway a.0.identity ≡ ok mine) × Considered a.0.decision a.1 a.2)
          asked
      → let run = decide_all gateway store authorization candidate_id asked ms in
        (run.0 ≡ (steps (status ms) asked).0) × (status run.1 ≡ (steps (status ms) asked).1)
  unfolding decide_all shown
  decide_all-steps [] ms h = (refl, refl)
  decide_all-steps ((body, event_id, now) ∷ rest) ms h =
      let run =
        decide_digital_twin_review gateway store authorization candidate_id body event_id now ms in
      let one =
        decide_digital_twin_review-step gateway store candidate_id mine Considered status tracks
          authorization body event_id now ms h.0.1 let_in h.0.0 in
      let more = decide_all-steps rest run.1 h.1 in
      (
        ap (λ p. p.0 ∷ (decide_all gateway store authorization candidate_id rest run.1).0) one
            ∙ ap (λ rs. (step (status ms) body.decision).0 ∷ rs)
                (more.0 ∙ ap (λ p. (steps p.1 rest).0) one),
        more.1 ∙ ap (λ p. (steps p.1 rest).1) one,
      )

  -- Once a candidate is accepted or rejected, no considered decisions of the owner change its
  -- status, where the store tracks it.
  pub decide_all-decided :
      (asked : List Asked) (ms : List Message)
      → All
          (λ a.
            (normalized_identity gateway a.0.identity ≡ ok mine) × Considered a.0.decision a.1 a.2)
          asked
      → status ms ≢ pending
      → status (decide_all gateway store authorization candidate_id asked ms).1 ≡ status ms
  decide_all-decided asked ms h decided =
      (decide_all-steps asked ms h).1 ∙ steps-decided (status ms) asked decided
