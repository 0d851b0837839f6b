-- ===== src/Gateway/Constants.antt =====
-- main.py: the SPARQL queries of all facts, reviews and feedback.
use agent_workload_platform.Prelude.{String, [], ◌∷◌, join}

abbrev pub profile_facts_query : String
profile_facts_query = join "\n" (
    "" ∷ "PREFIX schema: <https://schema.org/>" ∷ "PREFIX org: <http://www.w3.org/ns/org#>" ∷ ""
    ∷ "SELECT ?kind ?label ?source WHERE {" ∷ "  GRAPH <urn:awp:digital-twin:graph:cv> {" ∷ "    {"
    ∷ "      ?source a schema:Person ; schema:name ?label ." ∷ "      BIND(\"person\" AS ?kind)"
    ∷ "    }" ∷ "    UNION" ∷ "    {"
    ∷ "      ?source a org:Membership ; org:role/schema:roleName ?label ."
    ∷ "      BIND(\"role\" AS ?kind)" ∷ "    }" ∷ "    UNION" ∷ "    {"
    ∷ "      ?person schema:knowsAbout ?source ." ∷ "      ?source schema:name ?label ."
    ∷ "      BIND(\"profile skill\" AS ?kind)" ∷ "    }" ∷ "  }" ∷ "}"
    ∷ "ORDER BY ?kind ?label ?source" ∷ "LIMIT 200" ∷ "" ∷ [])

abbrev pub learning_facts_query : String
learning_facts_query = join "\n" (
    "" ∷ "PREFIX schema: <https://schema.org/>" ∷ "" ∷ "SELECT ?kind ?label ?source WHERE {"
    ∷ "  GRAPH <urn:awp:digital-twin:graph:learning> {" ∷ "    {"
    ∷ "      ?watch a schema:WatchAction ; schema:object ?source ."
    ∷ "      ?source schema:name ?label ." ∷ "      BIND(\"watched resource\" AS ?kind)" ∷ "    }"
    ∷ "    UNION" ∷ "    {" ∷ "      ?source a schema:LearningResource ; schema:teaches ?topic ."
    ∷ "      ?topic schema:name ?label ." ∷ "      BIND(\"learning topic\" AS ?kind)" ∷ "    }"
    ∷ "    UNION" ∷ "    {" ∷ "      ?source a schema:Claim ; schema:text ?label ."
    ∷ "      BIND(\"source claim\" AS ?kind)" ∷ "    }" ∷ "  }" ∷ "}"
    ∷ "ORDER BY ?kind ?label ?source" ∷ "LIMIT 200" ∷ "" ∷ [])

abbrev pub journal_facts_query : String
journal_facts_query = join "\n" (
    "" ∷ "PREFIX schema: <https://schema.org/>" ∷ "PREFIX awp: <urn:awp:digital-twin:predicate:>"
    ∷ "" ∷ "SELECT ?id ?kind ?label ?source ?status WHERE {"
    ∷ "  GRAPH <urn:awp:digital-twin:graph:journal> {" ∷ "    ?source a schema:CreativeWork ;"
    ∷ "      schema:additionalType ?kind ;" ∷ "      schema:text ?label ."
    ∷ "    BIND(STRAFTER(STR(?source), \"urn:awp:digital-twin:journal:\") AS ?id)"
    ∷ "    OPTIONAL { ?source awp:status ?status }"
    ∷ "    FILTER(!BOUND(?status) || ?status != \"deleted\")" ∷ "  }" ∷ "}"
    ∷ "ORDER BY DESC(?source)" ∷ "LIMIT 200" ∷ "" ∷ [])

abbrev pub journal_feedback_query : String
journal_feedback_query = join "\n" (
    "" ∷ "PREFIX schema: <https://schema.org/>" ∷ "PREFIX awp: <urn:awp:digital-twin:predicate:>"
    ∷ ""
    ∷ "SELECT ?id ?action ?previousType ?correctedType ?correctedText ?source ?createdAt WHERE {"
    ∷ "  GRAPH <urn:awp:digital-twin:graph:journal-feedback> {"
    ∷ "    ?feedback a schema:ReviewAction ;" ∷ "      schema:identifier ?id ;"
    ∷ "      schema:actionStatus ?action ;" ∷ "      schema:isBasedOn ?source ;"
    ∷ "      schema:dateCreated ?createdAt ."
    ∷ "    OPTIONAL { ?feedback awp:previousType ?previousType }"
    ∷ "    OPTIONAL { ?feedback awp:correctedType ?correctedType }"
    ∷ "    OPTIONAL { ?feedback schema:text ?correctedText }" ∷ "  }" ∷ "}"
    ∷ "ORDER BY DESC(?createdAt)" ∷ "LIMIT 500" ∷ "" ∷ [])

abbrev pub accepted_facts_query : String
accepted_facts_query = join "\n" (
    "" ∷ "PREFIX schema: <https://schema.org/>" ∷ "" ∷ "SELECT ?kind ?label ?source WHERE {"
    ∷ "  GRAPH <urn:awp:digital-twin:graph:accepted> {" ∷ "    ?source a schema:Claim ;"
    ∷ "      schema:additionalType ?kind ;" ∷ "      schema:name ?label ." ∷ "  }" ∷ "}"
    ∷ "ORDER BY ?kind ?label ?source" ∷ "LIMIT 200" ∷ "" ∷ [])

abbrev pub pending_reviews_query : String
pending_reviews_query = join "\n" (
    "" ∷ "PREFIX schema: <https://schema.org/>" ∷ "PREFIX awp: <urn:awp:digital-twin:predicate:>"
    ∷ ""
    ∷ "SELECT ?id ?kind ?profileField ?label ?evidence ?confidence ?lowConfidence ?model ?sourceRef ?capturedAt ?status WHERE {"
    ∷ "  GRAPH <urn:awp:digital-twin:graph:review> {" ∷ "    ?candidate a schema:Claim ;"
    ∷ "      schema:identifier ?id ;" ∷ "      schema:additionalType ?kind ;"
    ∷ "      schema:disambiguatingDescription ?profileField ;" ∷ "      schema:name ?label ;"
    ∷ "      schema:text ?evidence ;" ∷ "      awp:confidence ?confidence ;"
    ∷ "      awp:status ?status ;" ∷ "      schema:isBasedOn ?source ;"
    ∷ "      schema:dateCreated ?capturedAt ." ∷ "    OPTIONAL {"
    ∷ "      GRAPH <urn:awp:digital-twin:graph:review> {"
    ∷ "        ?source schema:identifier ?sourceRef ; awp:model ?model ." ∷ "      }" ∷ "    }"
    ∷ "    OPTIONAL {" ∷ "      GRAPH <urn:awp:digital-twin:graph:assertion-classification> {"
    ∷ "        ?source schema:identifier ?sourceRef ; awp:model ?model ." ∷ "      }" ∷ "    }"
    ∷ "    OPTIONAL { ?candidate awp:lowConfidence ?lowConfidence }"
    ∷ "    FILTER(?status = \"pending\")" ∷ "  }" ∷ "}" ∷ "ORDER BY DESC(?capturedAt) ?id"
    ∷ "LIMIT 200" ∷ "" ∷ [])
