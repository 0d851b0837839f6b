-- ===== src/Gateway/Journal.antt =====
-- main.py: the SPARQL updates and queries of the journal.
use agent_workload_platform.Prelude.{
  code, String, Option, none, some, List, [], ◌∷◌, ◌++◌, map, eqb, if◌then◌else◌, is_empty, concat,
  join,
}
use agent_workload_platform.Prelude.{cat}
use agent_workload_platform.Gateway.Literal.{rdf_literal}
use agent_workload_platform.Gateway.Requests.{
  JournalEntry, JournalCapture, DailyJournalSource, DailyJournalCapture,
}

-- text.replace("\n", "\n" + pad), and the pad before the first line
line_pad : String → String → String
line_pad pad String.[] = String.[]
line_pad pad (String.◌∷◌ c s) =
    let rest = line_pad pad s in
    if eqb (code c) 10 then String.◌∷◌ c (concat pad rest) else String.◌∷◌ c rest

unfoldable pub indented : String → String → String
unfolding line_pad
indented pad s = concat pad (line_pad pad s)

-- The properties of a subject, and the end of its triples
unfoldable pub described : String → List String → String
described head properties = cat (head ∷ " ;\n" ∷ join " ;\n" properties ∷ " ." ∷ [])

entry_triple : JournalCapture → JournalEntry → String
unfolding described
entry_triple c e =
    described
      (cat (
        "<urn:awp:digital-twin:journal:" ∷ e.id
        ∷ "> a schema:CreativeWork, pk:JournalEntry, prov:Entity" ∷ []))
      ((cat ("  schema:identifier " ∷ rdf_literal e.id ∷ [])
          ∷ cat ("  schema:additionalType " ∷ rdf_literal e.kind ∷ [])
          ∷ cat (
              "  pk:journalEntryKind <urn:voice-agent:personal-knowledge:concept:journal-kind:"
              ∷ e.kind ∷ ">" ∷ [])
          ∷ cat ("  schema:text " ∷ rdf_literal e.text ∷ [])
          ∷ cat
              ("  schema:dateCreated " ∷ rdf_literal c.captured_at.iso ∷ "^^xsd:dateTimeStamp" ∷ [])
          ∷ cat ("  prov:wasDerivedFrom <urn:awp:digital-twin:journal:" ∷ c.id ∷ ">" ∷ [])
          ∷ cat ("  prov:wasGeneratedBy <urn:awp:digital-twin:activity:journal:" ∷ c.id ∷ ">" ∷ [])
          ∷ [])
        ++ (map (λ topic. cat ("  schema:keywords " ∷ rdf_literal topic ∷ [])) e.topics))

journal_triples : JournalCapture → List String
unfolding entry_triple described
journal_triples c =
    (described
        (cat ("<urn:awp:digital-twin:journal:" ∷ c.id ∷ "> a schema:Message, prov:Entity" ∷ []))
        ((cat ("  schema:identifier " ∷ rdf_literal c.source_ref ∷ [])
          ∷ cat ("  schema:text " ∷ rdf_literal c.transcript ∷ [])
          ∷ cat ("  schema:dateSent " ∷ rdf_literal c.captured_at.iso ∷ "^^xsd:dateTimeStamp" ∷ [])
          ∷ [])))
      ∷ map (entry_triple c) c.entries
    ++ (described
        (cat ("<urn:awp:digital-twin:activity:journal:" ∷ c.id ∷ "> a prov:Activity" ∷ []))
        ((cat ("  prov:used <urn:awp:digital-twin:journal:" ∷ c.id ∷ ">" ∷ []) ∷ [])
          ++ (map (λ e. cat ("  prov:generated <urn:awp:digital-twin:journal:" ∷ e.id ∷ ">" ∷ []))
              c.entries)
          ++ (cat
                ("  prov:endedAtTime " ∷ rdf_literal c.captured_at.iso ∷ "^^xsd:dateTimeStamp" ∷ [])
              ∷ [])))
      ∷ []

-- `_journal_update`
unfoldable pub journal_update : JournalCapture → String
unfolding journal_triples
journal_update c = join "\n" (
    ("PREFIX pk: <urn:voice-agent:personal-knowledge:ontology#>"
      ∷ "PREFIX prov: <http://www.w3.org/ns/prov#>" ∷ "PREFIX schema: <https://schema.org/>"
      ∷ "PREFIX xsd: <http://www.w3.org/2001/XMLSchema#>"
      ∷ "INSERT DATA { GRAPH <urn:awp:digital-twin:graph:journal> {" ∷ [])
    ++ (map (indented "  ") (journal_triples c))
    ++ ("} }" ∷ "" ∷ []))

module _ (sha256 : String → String) where
  source_iri : DailyJournalSource → String
  source_iri s = concat "urn:voice-agent:codex:message:" (sha256 s.source_ref)

  -- The identity is the normalized one.
  owner_iri : String → String
  owner_iri identity = concat "urn:voice-agent:personal-knowledge:owner:" (sha256 identity)

  -- The actor of a review, of the identity as it was given or normalized
  unfoldable pub actor_iri : String → String
  actor_iri identity = concat "urn:awp:digital-twin:owner:" (sha256 identity)

  message_triple : String → DailyJournalSource → String
  unfolding described source_iri owner_iri
  message_triple identity s =
      described (cat ("<" ∷ source_iri s ∷ "> a schema:Message, prov:Entity" ∷ [])) (
        (cat ("  schema:identifier " ∷ rdf_literal s.source_ref ∷ [])
          ∷ cat ("  schema:sender <" ∷ owner_iri identity ∷ ">" ∷ [])
          ∷ cat ("  schema:text " ∷ rdf_literal s.transcript ∷ [])
          ∷ cat ("  schema:dateSent " ∷ rdf_literal s.captured_at.iso ∷ "^^xsd:dateTimeStamp" ∷ [])
          ∷ []))

  page_triple : DailyJournalCapture → String
  unfolding described source_iri
  page_triple c =
      described
        (cat (
          "<urn:voice-agent:personal-knowledge:journal:daily:" ∷ c.id
          ∷ "> a pk:DailyJournal, schema:DigitalDocument, prov:Entity" ∷ []))
        ((cat (
              "  schema:identifier "
              ∷ rdf_literal (cat ("codex-daily-journal:" ∷ c.journal_date ∷ ":" ∷ c.time_zone ∷ []))
              ∷ [])
            ∷ cat ("  schema:name " ∷ rdf_literal c.title ∷ [])
            ∷ cat
                ("  schema:text " ∷ rdf_literal (cat ("# " ∷ c.title ∷ "\n\n" ∷ c.story ∷ [])) ∷ [])
            ∷ cat ("  pk:journalDate " ∷ rdf_literal c.journal_date ∷ "^^xsd:date" ∷ [])
            ∷ cat ("  pk:timeZone " ∷ rdf_literal c.time_zone ∷ [])
            ∷ cat (
                "  schema:dateCreated "
                ∷ rdf_literal c.captured_at.iso
                ∷ "^^xsd:dateTimeStamp"
                ∷ [])
            ∷ [])
          ++ (map (λ s. cat ("  prov:wasDerivedFrom <" ∷ source_iri s ∷ ">" ∷ [])) c.sources)
          ++ (cat (
                "  prov:wasGeneratedBy <urn:voice-agent:personal-knowledge:activity:daily-journal:"
                ∷ c.id ∷ ">" ∷ [])
              ∷ []))

  task_property : Option String → List String
  task_property none = []
  task_property (some task_id) =
      if is_empty task_id then [] else cat ("  pk:piDurableTaskId " ∷ rdf_literal task_id ∷ []) ∷ []

  daily_activity_triple : DailyJournalCapture → String
  unfolding described source_iri task_property
  daily_activity_triple c =
      described
        (cat (
          "<urn:voice-agent:personal-knowledge:activity:daily-journal:" ∷ c.id ∷ "> a prov:Activity"
          ∷ []))
        ((map (λ s. cat ("  prov:used <" ∷ source_iri s ∷ ">" ∷ [])) c.sources)
          ++ (cat (
                "  prov:generated <urn:voice-agent:personal-knowledge:journal:daily:" ∷ c.id ∷ ">"
                ∷ [])
              ∷ cat (
                  "  prov:endedAtTime "
                  ∷ rdf_literal c.captured_at.iso
                  ∷ "^^xsd:dateTimeStamp"
                  ∷ [])
              ∷ [])
          ++ (task_property c.task_id))

  daily_triples : String → DailyJournalCapture → List String
  unfolding owner_iri message_triple page_triple daily_activity_triple
  daily_triples identity c =
      cat (
          "<"
          ∷ owner_iri identity
          ∷ "> a schema:Person, prov:Person ; schema:name \"Owner\" ."
          ∷ [])
        ∷ map (message_triple identity) c.sources
      ++ page_triple c ∷ daily_activity_triple c ∷ []

  -- `_daily_journal_update`, with the normalized identity
  unfoldable pub daily_journal_update : String → DailyJournalCapture → String
  unfolding daily_triples
  daily_journal_update identity c = join "\n" (
      ("PREFIX pk: <urn:voice-agent:personal-knowledge:ontology#>"
        ∷ "PREFIX prov: <http://www.w3.org/ns/prov#>"
        ∷ "PREFIX schema: <https://schema.org/>"
        ∷ "PREFIX xsd: <http://www.w3.org/2001/XMLSchema#>"
        ∷ cat (
            "DELETE WHERE { GRAPH <urn:pk:digital-twin:graph:journal> { <urn:voice-agent:personal-knowledge:journal:daily:"
            ∷ c.id ∷ "> ?pagePredicate ?pageObject } };" ∷ [])
        ∷ cat (
            "DELETE WHERE { GRAPH <urn:pk:digital-twin:graph:journal> { ?entry schema:isPartOf <urn:voice-agent:personal-knowledge:journal:daily:"
            ∷ c.id ∷ "> ; ?entryPredicate ?entryObject } };" ∷ [])
        ∷ cat (
            "DELETE WHERE { GRAPH <urn:pk:digital-twin:graph:journal> { <urn:voice-agent:personal-knowledge:activity:daily-journal:"
            ∷ c.id ∷ "> ?activityPredicate ?activityObject } };" ∷ [])
        ∷ "INSERT DATA { GRAPH <urn:pk:digital-twin:graph:journal> {"
        ∷ [])
      ++ (map (indented "  ") (daily_triples identity c))
      ++ ("} }" ∷ "" ∷ []))
