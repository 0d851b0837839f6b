-- ===== src/Gateway/Queries.antt =====
-- main.py: the SPARQL queries of one journal entry or candidate.
use agent_workload_platform.Prelude.{String, [], ◌∷◌, join}
use agent_workload_platform.Prelude.{cat}

-- `_journal_entry_query`
unfoldable pub journal_entry_query : String → String
journal_entry_query entry_id = join "\n" (
    ("PREFIX schema: <https://schema.org/>"
      ∷ "PREFIX awp: <urn:awp:digital-twin:predicate:>"
      ∷ "SELECT ?kind ?label ?status WHERE {"
      ∷ "  GRAPH <urn:awp:digital-twin:graph:journal> {"
      ∷ cat (
          "    <urn:awp:digital-twin:journal:" ∷ entry_id
          ∷ "> a schema:CreativeWork ; schema:additionalType ?kind ; schema:text ?label ." ∷ [])
      ∷ cat (
          "    OPTIONAL { <urn:awp:digital-twin:journal:" ∷ entry_id ∷ "> awp:status ?status }"
          ∷ [])
      ∷ "  }"
      ∷ "}"
      ∷ "LIMIT 1"
      ∷ []))

-- `_assertion_review_query`
unfoldable pub assertion_review_query : String → String
assertion_review_query entry_id = join "\n" (
    ("PREFIX schema: <https://schema.org/>"
      ∷ "PREFIX awp: <urn:awp:digital-twin:predicate:>"
      ∷ "SELECT ?ownerAuthored ?expectedKind ?expectedProfileField ?reason ?reviewedAt WHERE {"
      ∷ "  GRAPH <urn:awp:digital-twin:graph:assertion-feedback> {"
      ∷ cat (
          "    ?review a schema:ReviewAction ; schema:isBasedOn <urn:awp:digital-twin:journal:"
          ∷ entry_id ∷ "> ;" ∷ [])
      ∷ "      awp:ownerAuthored ?ownerAuthored ; schema:description ?reason ; schema:dateCreated ?reviewedAt ."
      ∷ "    OPTIONAL { ?review awp:expectedKind ?expectedKind }"
      ∷ "    OPTIONAL { ?review awp:expectedProfileField ?expectedProfileField }"
      ∷ "  }"
      ∷ "}"
      ∷ "ORDER BY DESC(?reviewedAt)"
      ∷ "LIMIT 1"
      ∷ []))

-- `_review_candidate_query`
unfoldable pub review_candidate_query : String → String
review_candidate_query candidate_id = join "\n" (
    ("PREFIX schema: <https://schema.org/>"
      ∷ "PREFIX awp: <urn:awp:digital-twin:predicate:>"
      ∷ "SELECT ?kind ?label ?evidence ?status WHERE {"
      ∷ "  GRAPH <urn:awp:digital-twin:graph:review> {"
      ∷ cat (
          "    <urn:awp:digital-twin:review:" ∷ candidate_id ∷ "> schema:additionalType ?kind ;"
          ∷ [])
      ∷ "      schema:name ?label ; schema:text ?evidence ; awp:status ?status ."
      ∷ "  }"
      ∷ "}"
      ∷ "LIMIT 1"
      ∷ []))
