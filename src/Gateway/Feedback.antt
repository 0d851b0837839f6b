-- ===== src/Gateway/Feedback.antt =====
-- main.py: the SPARQL updates of feedback on journal entries.
use agent_workload_platform.Prelude.{
  code, String, Option, none, some, List, [], ◌∷◌, ◌++◌, map, ◌==◌, eqb, if◌then◌else◌, is_some,
  is_empty, join,
}
use agent_workload_platform.Prelude.{cat}
use agent_workload_platform.Gateway.Literal.{rdf_literal}
use agent_workload_platform.Gateway.Requests.{JournalFeedback, JournalMissFeedback}
use agent_workload_platform.Gateway.Journal.{actor_iri}

-- text.replace("_", "-")
dashed : String → String
dashed String.[] = String.[]
dashed (String.◌∷◌ c s) = String.◌∷◌ (if eqb (code c) b'_' then "-" else c) (dashed s)

-- A part of the text if there is a text that is not empty
if_text : (String → String) → Option String → String
if_text f none = String.[]
if_text f (some s) = if is_empty s then String.[] else f s

-- The new texts, none for no list
topics_or_none : Option (List String) → List String
topics_or_none none = []
topics_or_none (some topics) = topics

-- feedback.corrected_type or previous_type
replacement_type : JournalFeedback → String → String
replacement_type f previous_type = elim f.corrected_type [
  | none ↦ previous_type
  | some t ↦ if is_empty t then previous_type else t
]

text_property : Option String → List String
text_property none = []
text_property (some s) = if is_empty s then [] else cat ("  schema:text " ∷ rdf_literal s ∷ []) ∷ []

module _ (sha256 : String → String) where
  feedback_properties : String → JournalFeedback → String → String → String → List String
  unfolding dashed replacement_type text_property topics_or_none
  feedback_properties entry_id f previous_type event_id created_at =
      (cat ("  schema:identifier " ∷ rdf_literal event_id ∷ [])
        ∷ cat ("  schema:actionStatus " ∷ rdf_literal f.action ∷ [])
        ∷ cat ("  schema:isBasedOn <urn:awp:digital-twin:journal:" ∷ entry_id ∷ ">" ∷ [])
        ∷ cat ("  schema:dateCreated " ∷ rdf_literal created_at ∷ "^^xsd:dateTimeStamp" ∷ [])
        ∷ cat ("  pk:reviewedResource <urn:awp:digital-twin:journal:" ∷ entry_id ∷ ">" ∷ [])
        ∷ cat (
            "  pk:action <urn:voice-agent:personal-knowledge:concept:review-action:"
            ∷ dashed f.action
            ∷ ">"
            ∷ [])
        ∷ cat ("  prov:wasAssociatedWith <" ∷ actor_iri sha256 f.identity ∷ ">" ∷ [])
        ∷ cat ("  prov:endedAtTime " ∷ rdf_literal created_at ∷ "^^xsd:dateTimeStamp" ∷ [])
        ∷ cat ("  awp:previousType " ∷ rdf_literal previous_type ∷ [])
        ∷ cat ("  awp:correctedType " ∷ rdf_literal (replacement_type f previous_type) ∷ [])
        ∷ [])
      ++ (text_property f.corrected_text)
      ++ (map (λ topic. cat ("  awp:correctedTopic " ∷ rdf_literal topic ∷ []))
          (topics_or_none f.corrected_topics))

  -- `_journal_feedback_update`, with the moment in ISO form
  unfoldable pub journal_feedback_update :
      String → JournalFeedback → String → String → String → String
  unfolding feedback_properties dashed replacement_type if_text topics_or_none
  journal_feedback_update entry_id f previous_type event_id created_at =
      let status = if f.action == "delete" then "deleted" else "reviewed" in
      let kind = replacement_type f previous_type in
      let delete_text = if_text (λ s. "schema:text ?oldText ;") f.corrected_text in
      let delete_topics =
        (if is_some f.corrected_topics then "schema:keywords ?oldTopic ;" else "") in
      let insert_text =
        if_text (λ s. cat ("schema:text " ∷ rdf_literal s ∷ " ;" ∷ [])) f.corrected_text in
      let insert_topics = join "\n" (
        map
          (λ topic. cat (
            "    <urn:awp:digital-twin:journal:"
            ∷ entry_id
            ∷ "> schema:keywords "
            ∷ rdf_literal topic
            ∷ " ."
            ∷ []))
          (topics_or_none f.corrected_topics)) in
      join "\n" (
        ("PREFIX schema: <https://schema.org/>"
          ∷ "PREFIX xsd: <http://www.w3.org/2001/XMLSchema#>"
          ∷ "PREFIX awp: <urn:awp:digital-twin:predicate:>"
          ∷ "PREFIX pk: <urn:voice-agent:personal-knowledge:ontology#>"
          ∷ "PREFIX prov: <http://www.w3.org/ns/prov#>"
          ∷ "DELETE { GRAPH <urn:awp:digital-twin:graph:journal> {"
          ∷ cat (
              "  <urn:awp:digital-twin:journal:" ∷ entry_id
              ∷ "> schema:additionalType ?oldType ; pk:journalEntryKind ?oldConcept ; "
              ∷ delete_text ∷ " " ∷ delete_topics ∷ " awp:status ?oldStatus ." ∷ [])
          ∷ "} }"
          ∷ "INSERT {"
          ∷ "  GRAPH <urn:awp:digital-twin:graph:journal> {"
          ∷ cat (
              "    <urn:awp:digital-twin:journal:"
              ∷ entry_id
              ∷ "> schema:additionalType "
              ∷ rdf_literal kind
              ∷ " ; pk:journalEntryKind <urn:voice-agent:personal-knowledge:concept:journal-kind:"
              ∷ dashed kind
              ∷ "> ; "
              ∷ insert_text
              ∷ " awp:status "
              ∷ rdf_literal status
              ∷ " ."
              ∷ [])
          ∷ [])
        ++ (insert_topics ∷ [])
        ++ ("  }"
            ∷ "  GRAPH <urn:awp:digital-twin:graph:journal-feedback> {"
            ∷ cat ("    <" ∷ actor_iri sha256 f.identity ∷ "> a prov:Person ." ∷ [])
            ∷ cat (
                "    <urn:awp:digital-twin:journal-feedback:" ∷ event_id
                ∷ "> a schema:ReviewAction, pk:ReviewEvent, prov:Activity ;" ∷ [])
            ∷ cat (
                "    "
                ∷ join " ;\n    " (feedback_properties entry_id f previous_type event_id created_at)
                ∷ " ."
                ∷ [])
            ∷ "  }"
            ∷ "}"
            ∷ "WHERE { GRAPH <urn:awp:digital-twin:graph:journal> {"
            ∷ cat (
                "  <urn:awp:digital-twin:journal:" ∷ entry_id ∷ "> schema:additionalType ?oldType ."
                ∷ [])
            ∷ cat (
                "  OPTIONAL { <urn:awp:digital-twin:journal:" ∷ entry_id
                ∷ "> pk:journalEntryKind ?oldConcept }" ∷ [])
            ∷ cat (
                "  OPTIONAL { <urn:awp:digital-twin:journal:" ∷ entry_id
                ∷ "> schema:text ?oldText }" ∷ [])
            ∷ cat (
                "  OPTIONAL { <urn:awp:digital-twin:journal:" ∷ entry_id
                ∷ "> schema:keywords ?oldTopic }" ∷ [])
            ∷ cat (
                "  OPTIONAL { <urn:awp:digital-twin:journal:" ∷ entry_id
                ∷ "> awp:status ?oldStatus }" ∷ [])
            ∷ "} }"
            ∷ ""
            ∷ []))

  -- `_journal_miss_update`
  unfoldable pub journal_miss_update : JournalMissFeedback → String → String → String
  journal_miss_update f event_id created_at = join "\n" (
      ("PREFIX schema: <https://schema.org/>"
        ∷ "PREFIX xsd: <http://www.w3.org/2001/XMLSchema#>"
        ∷ "PREFIX awp: <urn:awp:digital-twin:predicate:>"
        ∷ "PREFIX pk: <urn:voice-agent:personal-knowledge:ontology#>"
        ∷ "PREFIX prov: <http://www.w3.org/ns/prov#>"
        ∷ "INSERT DATA { GRAPH <urn:awp:digital-twin:graph:journal-feedback> {"
        ∷ cat ("  <" ∷ actor_iri sha256 f.identity ∷ "> a prov:Person ." ∷ [])
        ∷ cat (
            "  <urn:awp:digital-twin:journal-feedback:" ∷ event_id
            ∷ "> a schema:ReviewAction, pk:ReviewEvent, prov:Activity ;" ∷ [])
        ∷ cat ("    schema:identifier " ∷ rdf_literal event_id ∷ " ;" ∷ [])
        ∷ "    schema:actionStatus \"missed\" ;"
        ∷ cat ("    schema:isBasedOn <urn:awp:digital-twin:journal:" ∷ f.capture_id ∷ "> ;" ∷ [])
        ∷ cat ("    schema:dateCreated " ∷ rdf_literal created_at ∷ "^^xsd:dateTimeStamp ;" ∷ [])
        ∷ cat ("    pk:reviewedResource <urn:awp:digital-twin:journal:" ∷ f.capture_id ∷ "> ;" ∷ [])
        ∷ "    pk:action <urn:voice-agent:personal-knowledge:concept:review-action:missed-entry> ;"
        ∷ cat ("    prov:wasAssociatedWith <" ∷ actor_iri sha256 f.identity ∷ "> ;" ∷ [])
        ∷ cat ("    prov:endedAtTime " ∷ rdf_literal created_at ∷ "^^xsd:dateTimeStamp ;" ∷ [])
        ∷ cat ("    awp:correctedType " ∷ rdf_literal f.expected_type ∷ " ;" ∷ [])
        ∷ cat ("    schema:text " ∷ rdf_literal f.expected_text ∷ " ." ∷ [])
        ∷ "} }"
        ∷ ""
        ∷ []))
