-- ===== src/Gateway/Facts.antt =====
-- main.py: the rows of a query of the knowledge store, and the facts that match a search.
-- `str.casefold` is a parameter.
pub mod Ranked
pub mod Terms
use agent_workload_platform.Prelude.{
  ℕ, ◌+◌, code, String, Bool, not, ◌&&◌, ◌||◌, Option, none, some, List, [], ◌∷◌, map, ◌==◌,
  starts_with, ltb, leb, eqb, if◌then◌else◌, between, take, any, len, is_empty, join, runtime_error,
  attribute_error, Result, ok, raise, ◌>>=◌,
}
use agent_workload_platform.Json.{
  Value, str, arr, obj, nil, Fields, end, field, items, get_or, dict_get,
}

-- A row: a dict of texts
abbrev pub Row : Type 0
Row = List (String × String)

-- row.get(key)
unfoldable pub row_get : String → Row → Option String
row_get k [] = none
row_get k ((j, v) ∷ r) = if j == k then some v else row_get k r

-- The cell's text, if it has one
cell_text : Value → Option String
cell_text (obj cell) = text_of (dict_get "value" cell)
  where
    text_of : Value → Option String
    text_of (str s) = some s
    text_of _ = none
cell_text _ = none

row_of : Fields → Row
unfolding cell_text
row_of end = []
row_of (field k v d) = elim (cell_text v) [ none ↦ row_of d | some s ↦ (k, s) ∷ row_of d ]

with_row : Row → List Row → List Row
with_row [] rows = rows
with_row (c ∷ r) rows = (c ∷ r) ∷ rows

-- The rows of the bindings that are dicts, without those that are empty
rows_from : List Value → List Row
unfolding row_of with_row
rows_from [] = []
rows_from (obj d ∷ vs) = with_row (row_of d) (rows_from vs)
rows_from (_ ∷ vs) = rows_from vs

-- payload.get("results", {}).get("bindings", []): only a dict has `get`
bindings_of : Value → Result Value
bindings_of (obj payload) = inner (get_or "results" (obj end) payload)
  where
    inner : Value → Result Value
    inner (obj results) = ok (get_or "bindings" (arr nil) results)
    inner _ = raise (attribute_error "the results have no attribute 'get'")
bindings_of _ = ok (arr nil)

rows_of : Value → Result (List Row)
unfolding rows_from
rows_of (arr bindings) = ok (rows_from (items bindings))
rows_of _ = raise (runtime_error "personal knowledge store returned invalid results")

-- `_sparql_rows` once the store has answered: none where no JSON came
unfoldable pub sparql_rows : Option Value → Result (List Row)
unfolding bindings_of rows_of
sparql_rows none = raise (runtime_error "personal knowledge store is unavailable")
sparql_rows (some payload) = bindings_of payload >>= rows_of

abbrev pub max_digital_twin_facts : ℕ
max_digital_twin_facts = 100

abbrev search_stop_words : List String
search_stop_words =
    "a" ∷ "an" ∷ "and" ∷ "are" ∷ "for" ∷ "from" ∷ "how" ∷ "in" ∷ "is" ∷ "of" ∷ "on" ∷ "or" ∷ "the"
    ∷ "to" ∷ "what" ∷ "where" ∷ "who" ∷ "why" ∷ "with" ∷ []

-- [a-z0-9]
is_term_char : ℕ → Bool
is_term_char n = between b'a' b'z' n || between b'0' b'9' n

-- The run that the text starts with, and the runs after it
runs_from : String → String × List String
unfolding is_term_char
runs_from String.[] = (String.[], [])
runs_from (String.◌∷◌ c s) =
    let rest = runs_from s in
    if is_term_char (code c)
    then (String.◌∷◌ c rest.0, rest.1)
    else (String.[], if is_empty rest.0 then rest.1 else rest.0 ∷ rest.1)

-- re.findall(r"[a-z0-9]+", s)
runs : String → List String
unfolding runs_from
runs s = let rest = runs_from s in if is_empty rest.0 then rest.1 else rest.0 ∷ rest.1

is_term : String → Bool
is_term t = ltb 1 (len t) && not (any (λ w. t == w) search_stop_words)

-- Each term once, where it is first
distinct : List String → List String → List String
unfolding is_term
distinct seen [] = []
distinct seen (t ∷ ts) =
    let rest = distinct (t ∷ seen) ts in
    let again = distinct seen ts in
    if is_term t && not (any (λ s. t == s) seen) then t ∷ rest else again

unfoldable pub terms_of : String → List String
unfolding distinct runs
terms_of search = distinct [] (runs search)

-- term in text
unfoldable pub occurs : String → String → Bool
occurs term String.[] = is_empty term
occurs term (String.◌∷◌ c s) = starts_with (String.◌∷◌ c s) term || occurs term s

-- How many terms the row has
unfoldable pub score : (String → String) → List String → Row → ℕ
unfolding occurs
score casefold [] row = 0
score casefold (t ∷ ts) row =
    (if occurs t (casefold (join " " (map (λ c. c.1) row))) then 1 else 0) + score casefold ts row

-- Sorted by the score, the highest first, and by the position; `s` is the score of the row.
unfoldable pub place : (Row → ℕ) → Row → List Row → List Row
place s r [] = r ∷ []
place s r (q ∷ qs) = if leb (s q) (s r) then r ∷ q ∷ qs else q ∷ place s r qs

-- The rows with a score, ranked
unfoldable pub ranked : (Row → ℕ) → List Row → List Row
ranked s [] = []
ranked s (r ∷ rs) = let rest = ranked s rs in if eqb (s r) 0 then rest else place s r rest

unfoldable pub filter_facts : (String → String) → List Row → String → List Row
unfolding terms_of
filter_facts casefold rows search = matching (terms_of (casefold search))
  where
    matching : List String → List Row
    matching [] = take max_digital_twin_facts rows
    matching (t ∷ ts) = take max_digital_twin_facts (ranked (score casefold (t ∷ ts)) rows)
