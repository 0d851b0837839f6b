-- ===== src/Gateway/Decisions.antt =====
-- main.py: the SPARQL updates of reviews of predictions and of candidates.
use agent_workload_platform.Prelude.{
  String, Bool, true, false, Option, none, some, List, [], ◌∷◌, ◌++◌, ◌==◌, if◌then◌else◌, strip,
  join,
}
use agent_workload_platform.Prelude.{cat}
use agent_workload_platform.Gateway.Literal.{rdf_literal}
use agent_workload_platform.Gateway.Requests.{AssertionReview}
use agent_workload_platform.Gateway.Journal.{actor_iri}

review_property : String → Option String → List String
review_property name none = []
review_property name (some s) = cat ("  awp:" ∷ name ∷ " " ∷ rdf_literal s ∷ []) ∷ []

module _ (sha256 : String → String) where
  -- The identity is the normalized one.
  assertion_properties : String → String → AssertionReview → String → List String
  unfolding review_property
  assertion_properties identity entry_id r created_at =
      (cat ("  schema:isBasedOn <urn:awp:digital-twin:journal:" ∷ entry_id ∷ ">" ∷ [])
        ∷ cat ("  schema:dateCreated " ∷ rdf_literal created_at ∷ "^^xsd:dateTimeStamp" ∷ [])
        ∷ cat ("  schema:agent " ∷ rdf_literal identity ∷ [])
        ∷ cat ("  schema:description " ∷ rdf_literal (strip r.reason) ∷ [])
        ∷ cat ("  pk:reviewedResource <urn:awp:digital-twin:journal:" ∷ entry_id ∷ ">" ∷ [])
        ∷ "  pk:action <urn:voice-agent:personal-knowledge:concept:review-action:review-prediction>"
        ∷ cat ("  prov:wasAssociatedWith <" ∷ actor_iri sha256 identity ∷ ">" ∷ [])
        ∷ cat ("  prov:endedAtTime " ∷ rdf_literal created_at ∷ "^^xsd:dateTimeStamp" ∷ [])
        ∷ [])
      ++ ((if r.owner_authored then "  awp:ownerAuthored true" else "  awp:ownerAuthored false")
          ∷ [])
      ++ (review_property "expectedKind" r.expected_kind)
      ++ (review_property "expectedProfileField" r.expected_profile_field)

  -- `_assertion_review_update`
  unfoldable pub assertion_review_update :
      String → String → AssertionReview → String → String → String
  unfolding assertion_properties
  assertion_review_update identity entry_id r event_id created_at = join "\n" (
      ("PREFIX schema: <https://schema.org/>"
        ∷ "PREFIX xsd: <http://www.w3.org/2001/XMLSchema#>"
        ∷ "PREFIX awp: <urn:awp:digital-twin:predicate:>"
        ∷ "PREFIX pk: <urn:voice-agent:personal-knowledge:ontology#>"
        ∷ "PREFIX prov: <http://www.w3.org/ns/prov#>"
        ∷ "INSERT DATA { GRAPH <urn:awp:digital-twin:graph:assertion-feedback> {"
        ∷ cat ("  <" ∷ actor_iri sha256 identity ∷ "> a prov:Person ." ∷ [])
        ∷ cat (
            "  <urn:awp:digital-twin:assertion-review:" ∷ event_id
            ∷ "> a schema:ReviewAction, pk:ReviewEvent, prov:Activity ;" ∷ [])
        ∷ cat
            ("  " ∷ join " ;\n  " (assertion_properties identity entry_id r created_at) ∷ " ." ∷ [])
        ∷ "} }"
        ∷ []))

  -- The part of an accepted decision that adds a fact
  accepted_insert : Bool → String → String → String
  accepted_insert false candidate_id event_id = ""
  accepted_insert true candidate_id event_id = cat (
      "GRAPH <urn:awp:digital-twin:graph:accepted> {\n  <urn:awp:digital-twin:review:"
      ∷ candidate_id
      ∷ "> a schema:Claim, pk:ProfileFact ;\n    schema:identifier "
      ∷ rdf_literal candidate_id
      ∷ " ;\n    schema:additionalType ?kind ; schema:name ?label ; schema:text ?evidence ;\n    schema:isBasedOn ?source ; prov:wasDerivedFrom ?source ;\n    pk:assertionKind ?canonicalKind ; pk:reviewState <urn:voice-agent:personal-knowledge:concept:review-state:accepted> ;\n    prov:wasGeneratedBy <urn:awp:digital-twin:assertion-review:"
      ∷ event_id
      ∷ "> .\n}"
      ∷ [])

  -- `_review_decision_update`, with the fresh id of the event and the moment
  unfoldable pub review_decision_update : String → String → String → String → String → String
  unfolding accepted_insert
  review_decision_update candidate_id decision identity event_id reviewed_at =
      let status = if decision == "accept" then "accepted" else "rejected" in
      join "\n" (
        ("PREFIX schema: <https://schema.org/>"
          ∷ "PREFIX awp: <urn:awp:digital-twin:predicate:>"
          ∷ "PREFIX pk: <urn:voice-agent:personal-knowledge:ontology#>"
          ∷ "PREFIX prov: <http://www.w3.org/ns/prov#>"
          ∷ "PREFIX xsd: <http://www.w3.org/2001/XMLSchema#>"
          ∷ "DELETE { GRAPH <urn:awp:digital-twin:graph:review> {"
          ∷ cat
              ("  <urn:awp:digital-twin:review:" ∷ candidate_id ∷ "> awp:status ?oldStatus ." ∷ [])
          ∷ cat (
              "  <urn:awp:digital-twin:review:" ∷ candidate_id
              ∷ "> pk:reviewState ?oldReviewState ." ∷ [])
          ∷ "} }"
          ∷ "INSERT {"
          ∷ "  GRAPH <urn:awp:digital-twin:graph:review> {"
          ∷ cat (
              "    <urn:awp:digital-twin:review:"
              ∷ candidate_id
              ∷ "> awp:status "
              ∷ rdf_literal status
              ∷ " ; pk:reviewState <urn:voice-agent:personal-knowledge:concept:review-state:"
              ∷ status
              ∷ "> ."
              ∷ [])
          ∷ "  }"
          ∷ "  GRAPH <urn:awp:digital-twin:graph:assertion-feedback> {"
          ∷ cat ("    <" ∷ actor_iri sha256 identity ∷ "> a prov:Person ." ∷ [])
          ∷ cat (
              "    <urn:awp:digital-twin:assertion-review:" ∷ event_id
              ∷ "> a schema:ReviewAction, pk:ReviewEvent, prov:Activity ;" ∷ [])
          ∷ cat ("      schema:identifier " ∷ rdf_literal event_id ∷ " ;" ∷ [])
          ∷ cat ("      schema:actionStatus " ∷ rdf_literal decision ∷ " ;" ∷ [])
          ∷ cat ("      schema:isBasedOn <urn:awp:digital-twin:review:" ∷ candidate_id ∷ "> ;" ∷ [])
          ∷ cat
              ("      schema:dateCreated " ∷ rdf_literal reviewed_at ∷ "^^xsd:dateTimeStamp ;" ∷ [])
          ∷ cat (
              "      pk:reviewedResource <urn:awp:digital-twin:review:" ∷ candidate_id
              ∷ "> ; pk:action <urn:voice-agent:personal-knowledge:concept:review-action:"
              ∷ decision ∷ "> ;" ∷ [])
          ∷ cat ("      prov:wasAssociatedWith <" ∷ actor_iri sha256 identity ∷ "> ;" ∷ [])
          ∷ cat ("      prov:endedAtTime " ∷ rdf_literal reviewed_at ∷ "^^xsd:dateTimeStamp ." ∷ [])
          ∷ "  }"
          ∷ cat ("  " ∷ accepted_insert (decision == "accept") candidate_id event_id ∷ [])
          ∷ "}"
          ∷ "WHERE { GRAPH <urn:awp:digital-twin:graph:review> {"
          ∷ cat (
              "  <urn:awp:digital-twin:review:" ∷ candidate_id
              ∷ "> awp:status ?oldStatus ; schema:additionalType ?kind ;" ∷ [])
          ∷ "    schema:name ?label ; schema:text ?evidence ; schema:isBasedOn ?source ."
          ∷ cat (
              "  OPTIONAL { <urn:awp:digital-twin:review:" ∷ candidate_id
              ∷ "> pk:assertionKind ?candidateKind }" ∷ [])
          ∷ cat (
              "  OPTIONAL { <urn:awp:digital-twin:review:" ∷ candidate_id
              ∷ "> pk:reviewState ?oldReviewState }" ∷ [])
          ∷ "  VALUES (?kind ?mappedKind) {"
          ∷ "    (\"conversation_topic\" <urn:voice-agent:personal-knowledge:concept:assertion-kind:conversation-topic>)"
          ∷ "    (\"skill_evidence\" <urn:voice-agent:personal-knowledge:concept:assertion-kind:skill-evidence>)"
          ∷ "    (\"profile_update\" <urn:voice-agent:personal-knowledge:concept:assertion-kind:profile-update>)"
          ∷ "  }"
          ∷ "  BIND(COALESCE(?candidateKind, ?mappedKind) AS ?canonicalKind)"
          ∷ "} }"
          ∷ ""
          ∷ []))
