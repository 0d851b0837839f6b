-- ===== src/Examples/Gateway.antt =====
-- The gateway and its knowledge store at concrete requests.
use agent_workload_platform.Prelude.{
  ap, all_chars, Option, String, ◌≡◌, refl, sym, ◌∙◌, ◌≢◌, ◌⊎◌, inl, inr, true, false, none, some,
  List, [], ◌∷◌, ◌++◌, ◌==◌, if◌then◌else◌, All, is_empty, concat, strip, join, ok,
}
use agent_workload_platform.Json.{pos, Value, int, str, arr, obj, nil, cons, end, field}
use agent_workload_platform.Gateway.{Gateway, authenticate, normalized, normalized_identity}
use agent_workload_platform.Gateway.Identity.{normalized_identity-ok}
use agent_workload_platform.Gateway.Facts.{
  occurs, Row, row_get, sparql_rows, terms_of, filter_facts,
}
use agent_workload_platform.Gateway.Facts.Ranked.{IsSearch, filter_facts-IsSearch}
use agent_workload_platform.Gateway.Checks.{all_different, validate_topics}
use agent_workload_platform.Gateway.Checks.Topics.{AreTopics, validate_topics-AreTopics}
use agent_workload_platform.Gateway.Literal.{rdf_literal, after_literal}
use agent_workload_platform.Gateway.Literal.Closed.{after_literal-rdf_literal}
use agent_workload_platform.Gateway.Store.{Message, query, update, Store}
use agent_workload_platform.Gateway.Requests.{Moment}
use agent_workload_platform.Gateway.Knowledge.Guarded.{
  Attempt, IsRefused, refusal, write_journal, not_let_in,
}
use agent_workload_platform.Gateway.Decisions.{review_decision_update}
use agent_workload_platform.Prelude.{cat}
use agent_workload_platform.Gateway.Journal.{actor_iri}
use agent_workload_platform.Gateway.Knowledge.{requested}
use agent_workload_platform.Gateway.Knowledge.Decided.{
  Status, pending, accepted, rejected, status_text, steps, Tracks, status_line, Asked, decide_all,
  decide_all-steps, decide_all-decided,
}

abbrev pub gateway : Gateway
gateway = record {
  gateway_token = "secret";
  reader_token = "reader";
  writer_token = "writer";
  allowed_users = " owner@host " ∷ [];
  lower = λ s. s;
  casefold = λ s. s;
  sha256 = λ s. s;
}

owner_identity : normalized_identity gateway "owner@host" ≡ ok "owner@host"
unfolding normalized_identity normalized strip
owner_identity = refl

normalized_identity-ok_example :
    ("owner@host" ≡ normalized gateway " owner@host ")
    × ("owner@host" ≡ normalized gateway "owner@host")
    × (is_empty "owner@host" ≡ false)
normalized_identity-ok_example =
    normalized_identity-ok gateway "owner@host" "owner@host" " owner@host " owner_identity refl

abbrev rows : List Row
rows = (("label", "planning a garden") ∷ []) ∷ (("label", "garden tools plan") ∷ []) ∷ []

garden_terms : terms_of "the garden, a plan" ≡ "garden" ∷ "plan" ∷ []
unfolding terms_of
garden_terms = refl

filter_facts-IsSearch_example :
    IsSearch
      (λ s. s)
      ("garden" ∷ "plan" ∷ [])
      rows
      (filter_facts (λ s. s) rows "the garden, a plan")
filter_facts-IsSearch_example =
    filter_facts-IsSearch (λ s. s) rows "the garden, a plan" "garden" ("plan" ∷ []) garden_terms

two_topics : validate_topics (some (" a " ∷ "b" ∷ [])) ≡ ok (some ("a" ∷ "b" ∷ []))
unfolding validate_topics strip all_different
two_topics = refl

validate_topics-AreTopics_example :
    AreTopics ("a" ∷ "b" ∷ [])
    × (validate_topics (some ("a" ∷ "b" ∷ [])) ≡ ok (some ("a" ∷ "b" ∷ [])))
validate_topics-AreTopics_example =
    validate_topics-AreTopics (" a " ∷ "b" ∷ []) ("a" ∷ "b" ∷ []) two_topics

after_literal-rdf_literal_example :
    after_literal (concat (rdf_literal "say \"x\"\n.") " ; DROP ALL") ≡ some " ; DROP ALL"
after_literal-rdf_literal_example = after_literal-rdf_literal "say \"x\"\n." " ; DROP ALL"

abbrev candidate : String
candidate = "0:candidate:1"

-- The texts of the two decisions
abbrev decision_text : String → String
decision_text decision =
    review_decision_update gateway.sha256 candidate decision "owner@host" "event" "now"

-- The status after one more message
abbrev next_status : Status → Message → Status
next_status s (query q) = s
next_status s (update u) =
    if u == decision_text "accept"
    then accepted
    else (if u == decision_text "reject" then rejected else s)

abbrev status_from : Status → List Message → Status
status_from s [] = s
status_from s (m ∷ ms) = status_from (next_status s m) ms

status_from-append :
    (s : Status) (ms : List Message) (m : Message)
    → status_from s (ms ++ m ∷ []) ≡ next_status (status_from s ms) m
status_from-append s [] m = refl
status_from-append s (n ∷ ms) m = status_from-append (next_status s n) ms m

abbrev status : List Message → Status
status = status_from pending

abbrev answer : Status → Value
answer s = obj (
    field "results"
      (obj (
        field "bindings"
          (arr
            (cons (obj (field "status" (obj (field "value" (str (status_text s)) end)) end)) nil))
          end))
      end)

abbrev store : Store
store = record { rows = λ ms q. some (answer (status ms)); status = λ ms u. some 204 }

-- The two decisions at one moment
Considered : String → String → String → Type 0
Considered decision event_id now =
    ((decision ≡ "accept") ⊎ (decision ≡ "reject")) × (event_id ≡ "event") × (now ≡ "now")

accept_applied :
    (s t : Status)
    → occurs (status_line candidate t) (decision_text "accept") ≡ true
    → next_status s (update (decision_text "accept")) ≡ t
unfolding review_decision_update join cat rdf_literal actor_iri occurs
accept_applied s pending h = absurd cc
accept_applied s accepted h = refl
accept_applied s rejected h = absurd cc

reject_applied :
    (s t : Status)
    → occurs (status_line candidate t) (decision_text "reject") ≡ true
    → next_status s (update (decision_text "reject")) ≡ t
unfolding review_decision_update join cat rdf_literal actor_iri occurs
reject_applied s pending h = absurd cc
reject_applied s accepted h = absurd cc
reject_applied s rejected h = refl

applied :
    (s t : Status) (decision event_id now : String)
    → Considered decision event_id now
    → occurs
        (status_line candidate t)
        (review_decision_update gateway.sha256 candidate decision "owner@host" event_id now)
      ≡ true
    → next_status s (
        update (review_decision_update gateway.sha256 candidate decision "owner@host" event_id now))
      ≡ t
unfolding Considered
applied s t decision event_id now (inl h, e, f) = rw (h, e, f) (accept_applied s t)
applied s t decision event_id now (inr h, e, f) = rw (h, e, f) (reject_applied s t)

tracked : Tracks gateway store candidate "owner@host" Considered status
unfolding sparql_rows row_get
tracked = record {
  row = λ ms. ("status", status_text (status ms)) ∷ [];
  shows = λ ms. refl;
  in_row = λ ms. refl;
  asked = λ ms q. status_from-append pending ms (query q);
  succeeds = λ ms u. refl;
  applied = λ ms t decision event_id now h written.
      status_from-append pending ms _ ∙ applied (status ms) t decision event_id now h written;
}

-- Accepted, and then rejected
abbrev decisions : List Asked
decisions =
    (record { identity = "owner@host"; decision = "accept" }, "event", "now")
    ∷ (record { identity = "owner@host"; decision = "reject" }, "event", "now")
    ∷ []

considered :
    All
      (λ a.
        (normalized_identity gateway a.0.identity ≡ ok "owner@host")
        × Considered a.0.decision a.1 a.2)
      decisions
unfolding Considered
considered =
    ((owner_identity, (inl refl, refl, refl)), ((owner_identity, (inr refl, refl, refl)), tt))

let_in : authenticate gateway (some "Bearer secret") ≡ ok tt
unfolding authenticate all_chars
let_in = refl

decide_all-steps_example :
    ((decide_all gateway store (some "Bearer secret") candidate decisions []).0
      ≡ (steps pending decisions).0)
    × (status (decide_all gateway store (some "Bearer secret") candidate decisions []).1 ≡ accepted)
unfolding requested
decide_all-steps_example =
    decide_all-steps gateway store candidate "owner@host" Considered status tracked
      (some "Bearer secret") let_in decisions [] considered

-- The update of an acceptance
abbrev before : List Message
before = update (decision_text "accept") ∷ []

is_accepted : status before ≡ accepted
unfolding review_decision_update join cat rdf_literal actor_iri
is_accepted = refl

decided : status before ≢ pending
decided = λ e. accepted_or_pending (sym is_accepted ∙ e)
  where
    accepted_or_pending : accepted ≢ pending
    accepted_or_pending = λ e. cc

decide_all-decided_example :
    status (decide_all gateway store (some "Bearer secret") candidate decisions before).1
    ≡ status before
decide_all-decided_example =
    decide_all-decided gateway store candidate "owner@host" Considered status tracked
      (some "Bearer secret") let_in decisions before considered decided

abbrev moment : Moment
moment = record { iso = "2026-01-01T00:00:00+00:00"; aware = true }

abbrev attempt : Attempt
attempt = record {
  identity = "owner@host";
  scope = "all";
  search = "";
  entry_id = "0:entry:1";
  event_id = "event";
  now = "now";
  capture = record {
    identity = "owner@host";
    id = "0";
    source_ref = "s";
    captured_at = moment;
    transcript = "t";
    entries = [];
  };
  daily = record {
    identity = "owner@host";
    id = "0";
    task_id = none;
    journal_date = "2026-01-01";
    time_zone = "UTC";
    captured_at = moment;
    title = "A day";
    story = "It was.";
    sources = [];
  };
  feedback = record {
    identity = "owner@host";
    action = "keep";
    corrected_type = none;
    corrected_text = none;
    corrected_topics = none;
  };
  assertion = record {
    identity = "owner@host";
    owner_authored = false;
    expected_kind = none;
    expected_profile_field = none;
    reason = "not mine";
  };
  miss = record {
    identity = "owner@host";
    capture_id = "0";
    expected_type = "idea";
    expected_text = "x";
  };
  classified = record {
    identity = "owner@host";
    id = "0";
    source_ref = "s";
    captured_at = moment;
    classification = record {
      kind = "skill_evidence";
      confidence = int (pos 1);
      probabilities = record {
        conversation_topic = int (pos 0);
        skill_evidence = int (pos 1);
        profile_update = int (pos 0);
        none_probability = int (pos 0);
      };
      profile_field = "none";
      profile_field_confidence = int (pos 1);
      low_confidence = false;
      model = "m";
    };
    candidates = [];
  };
  decision = record { identity = "owner@host"; decision = "accept" };
  show = λ v. "1.0";
}

apart : ◌≢◌ true false
apart e = cc

another_token : ◌≢◌ {A = Option String} (some "Bearer secret") (some "Bearer writer")
another_token e = apart (ap (λ o. elim o [ none ↦ false | some s ↦ s == "Bearer secret" ]) e)

-- The gateway's own token does not write a journal.
not_let_in_example :
    IsRefused gateway store
      (some "Bearer secret")
      attempt
      (refusal "writer" "invalid digital twin writer credential" (some "Bearer secret"))
      before
      write_journal
not_let_in_example =
    not_let_in gateway store write_journal (some "Bearer secret") attempt before another_token
