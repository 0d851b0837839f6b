-- ===== src/Gateway/Reviews.antt =====
-- main.py: the SPARQL update of a classification with its candidates. `str` of a float and
-- SHA-256 are parameters.
use agent_workload_platform.Prelude.{
  String, Bool, List, [], ◌∷◌, ◌++◌, map, ◌==◌, if◌then◌else◌, concat, join,
}
use agent_workload_platform.Prelude.{cat}
use agent_workload_platform.Gateway.Literal.{rdf_literal}
use agent_workload_platform.Gateway.Requests.{ReviewCapture, ReviewCandidate, ReviewClassification}
use agent_workload_platform.Json.{Value}
use agent_workload_platform.Gateway.Journal.{described, indented}

-- The names of the dicts kind_iris and profile_field_iris, which have every accepted kind
kind_iri : String → String
kind_iri kind =
    if kind == "conversation_topic"
    then "conversation-topic"
    else if kind == "skill_evidence"
    then "skill-evidence"
    else if kind == "profile_update"
    then "profile-update"
    else kind

profile_field_iri : String → String
profile_field_iri name =
    if name == "job_title"
    then "job-title"
    else if name == "home_location"
    then "home-location"
    else name

module _ (sha256 : String → String) (show : Value → String) where
  agent_iri : ReviewCapture → String
  agent_iri c = concat "urn:awp:digital-twin:agent:classifier:" (sha256 c.classification.model)

  source_triples : ReviewCapture → List String
  unfolding agent_iri
  source_triples c =
      (described
        (cat
          ("<urn:awp:digital-twin:review-source:" ∷ c.id ∷ "> a schema:Message, prov:Entity" ∷ []))
        ((cat ("  schema:identifier " ∷ rdf_literal c.source_ref ∷ [])
          ∷ cat ("  schema:dateSent " ∷ rdf_literal c.captured_at.iso ∷ "^^xsd:dateTimeStamp" ∷ [])
          ∷ cat ("  awp:model " ∷ rdf_literal c.classification.model ∷ [])
          ∷ cat
              ("  pk:profileFieldConfidence " ∷ show c.classification.profile_field_confidence ∷ [])
          ∷ [])))
      ∷ cat (
          "<"
          ∷ agent_iri c
          ∷ "> a prov:SoftwareAgent ; schema:name "
          ∷ rdf_literal c.classification.model
          ∷ " ."
          ∷ [])
      ∷ (described
          (cat (
            "<urn:awp:digital-twin:activity:classification:" ∷ c.id
            ∷ "> a pk:ClassificationActivity, prov:Activity" ∷ []))
          ((cat ("  prov:used <urn:awp:digital-twin:review-source:" ∷ c.id ∷ ">" ∷ [])
            ∷ cat ("  prov:wasAssociatedWith <" ∷ agent_iri c ∷ ">" ∷ [])
            ∷ cat ("  pk:modelName " ∷ rdf_literal c.classification.model ∷ [])
            ∷ cat
                ("  prov:endedAtTime " ∷ rdf_literal c.captured_at.iso ∷ "^^xsd:dateTimeStamp" ∷ [])
            ∷ [])))
      ∷ []

  -- model_dump().items()
  probabilities : ReviewClassification → List (String × Value)
  probabilities m =
      ("conversation_topic", m.probabilities.conversation_topic)
      ∷ ("skill_evidence", m.probabilities.skill_evidence)
      ∷ ("profile_update", m.probabilities.profile_update)
      ∷ ("none", m.probabilities.none_probability)
      ∷ []

  probability_triple : ReviewCapture → String × Value → String
  unfolding kind_iri
  probability_triple c p = cat (
      "<urn:awp:digital-twin:decision:"
      ∷ c.id
      ∷ ":probability:"
      ∷ p.0
      ∷ "> a pk:ProbabilityAssignment ;\n  pk:probabilityFor <urn:voice-agent:personal-knowledge:concept:assertion-kind:"
      ∷ kind_iri p.0
      ∷ "> ;\n  pk:probabilityValue "
      ∷ show p.1
      ∷ " ."
      ∷ [])

  decision_triple : ReviewCapture → String
  unfolding kind_iri profile_field_iri probabilities
  decision_triple c =
      described
        (cat (
          "<urn:awp:digital-twin:decision:" ∷ c.id ∷ "> a pk:ClassificationDecision, prov:Entity"
          ∷ []))
        ((cat (
              "  pk:predictedKind <urn:voice-agent:personal-knowledge:concept:assertion-kind:"
              ∷ kind_iri c.classification.kind
              ∷ ">"
              ∷ [])
            ∷ cat (
                "  pk:profileField <urn:voice-agent:personal-knowledge:concept:profile-field:"
                ∷ profile_field_iri c.classification.profile_field
                ∷ ">"
                ∷ [])
            ∷ cat ("  pk:confidence " ∷ show c.classification.confidence ∷ [])
            ∷ cat (
                "  pk:profileFieldConfidence "
                ∷ show c.classification.profile_field_confidence
                ∷ [])
            ∷ cat ("  pk:decisionFor <urn:awp:digital-twin:review-source:" ∷ c.id ∷ ">" ∷ [])
            ∷ cat (
                "  prov:wasGeneratedBy <urn:awp:digital-twin:activity:classification:" ∷ c.id ∷ ">"
                ∷ [])
            ∷ [])
          ++ (map
              (λ p. cat (
                "  pk:hasProbability <urn:awp:digital-twin:decision:" ∷ c.id ∷ ":probability:" ∷ p.0
                ∷ ">" ∷ []))
              (probabilities c.classification)))

  annotation_triple : ReviewCapture → String
  annotation_triple c = cat (
      "<urn:awp:digital-twin:annotation:" ∷ c.id
      ∷ "> a oa:Annotation ;\n  oa:motivatedBy oa:classifying ;\n  oa:hasTarget <urn:awp:digital-twin:review-source:"
      ∷ c.id ∷ "> ;\n  oa:hasBody <urn:awp:digital-twin:decision:" ∷ c.id
      ∷ "> ;\n  prov:wasGeneratedBy <urn:awp:digital-twin:activity:classification:" ∷ c.id ∷ "> ."
      ∷ [])

  -- str(value).lower()
  lower_bool : Bool → String
  lower_bool b = if b then "true" else "false"

  candidate_triple : ReviewCapture → ReviewCandidate → String
  unfolding kind_iri profile_field_iri lower_bool
  candidate_triple c e =
      described
        (cat (
          "<urn:awp:digital-twin:review:" ∷ e.id
          ∷ "> a schema:Claim, pk:CandidateAssertion, prov:Entity" ∷ []))
        ((cat ("  schema:identifier " ∷ rdf_literal e.id ∷ [])
          ∷ cat ("  schema:additionalType " ∷ rdf_literal c.classification.kind ∷ [])
          ∷ cat (
              "  pk:assertionKind <urn:voice-agent:personal-knowledge:concept:assertion-kind:"
              ∷ kind_iri c.classification.kind
              ∷ ">"
              ∷ [])
          ∷ cat (
              "  pk:profileField <urn:voice-agent:personal-knowledge:concept:profile-field:"
              ∷ profile_field_iri c.classification.profile_field
              ∷ ">"
              ∷ [])
          ∷ cat (
              "  schema:disambiguatingDescription "
              ∷ rdf_literal c.classification.profile_field
              ∷ [])
          ∷ cat ("  schema:name " ∷ rdf_literal e.label ∷ [])
          ∷ cat ("  schema:text " ∷ rdf_literal e.evidence_quote ∷ [])
          ∷ cat ("  pk:evidenceQuote " ∷ rdf_literal e.evidence_quote ∷ [])
          ∷ cat ("  schema:isBasedOn <urn:awp:digital-twin:review-source:" ∷ c.id ∷ ">" ∷ [])
          ∷ cat ("  prov:wasDerivedFrom <urn:awp:digital-twin:review-source:" ∷ c.id ∷ ">" ∷ [])
          ∷ cat (
              "  prov:wasGeneratedBy <urn:awp:digital-twin:activity:classification:" ∷ c.id ∷ ">"
              ∷ [])
          ∷ cat
              ("  schema:dateCreated " ∷ rdf_literal c.captured_at.iso ∷ "^^xsd:dateTimeStamp" ∷ [])
          ∷ cat ("  awp:confidence " ∷ show c.classification.confidence ∷ [])
          ∷ cat ("  awp:lowConfidence " ∷ lower_bool c.classification.low_confidence ∷ [])
          ∷ "  awp:status \"pending\""
          ∷ "  pk:reviewState <urn:voice-agent:personal-knowledge:concept:review-state:pending>"
          ∷ []))

  generated_triple : ReviewCapture → String
  generated_triple c = cat (
      cat ("<urn:awp:digital-twin:activity:classification:" ∷ c.id ∷ "> prov:generated " ∷ [])
      ∷ join ", " (
          map (λ resource. cat ("<" ∷ resource ∷ ">" ∷ []))
            (cat ("urn:awp:digital-twin:decision:" ∷ c.id ∷ [])
              ∷ cat ("urn:awp:digital-twin:annotation:" ∷ c.id ∷ [])
              ∷ map (λ e. concat "urn:awp:digital-twin:review:" e.id) c.candidates))
      ∷ " ."
      ∷ [])

  inference_triples : ReviewCapture → List String
  unfolding source_triples probability_triple probabilities decision_triple annotation_triple
      generated_triple
  inference_triples c =
      source_triples c
      ++ map (probability_triple c) (probabilities c.classification)
      ++ decision_triple c ∷ annotation_triple c ∷ generated_triple c ∷ []

  -- `_review_update`
  unfoldable pub review_update : ReviewCapture → String
  unfolding inference_triples candidate_triple
  review_update c = join "\n" (
      ("PREFIX pk: <urn:voice-agent:personal-knowledge:ontology#>"
        ∷ "PREFIX oa: <http://www.w3.org/ns/oa#>" ∷ "PREFIX prov: <http://www.w3.org/ns/prov#>"
        ∷ "PREFIX schema: <https://schema.org/>" ∷ "PREFIX xsd: <http://www.w3.org/2001/XMLSchema#>"
        ∷ "PREFIX awp: <urn:awp:digital-twin:predicate:>" ∷ "INSERT DATA {"
        ∷ "  GRAPH <urn:awp:digital-twin:graph:assertion-classification> {" ∷ [])
      ++ (map (indented "    ") (inference_triples c))
      ++ ("  }" ∷ "  GRAPH <urn:awp:digital-twin:graph:review> {" ∷ [])
      ++ (map (indented "    ") (map (candidate_triple c) c.candidates))
      ++ ("  }" ∷ "}" ∷ "" ∷ []))
