-- ===== src/Edge/Presentation/Decoding.antt =====
-- presentation_response.py: which text `_decode_json` reads as JSON.
use agent_workload_platform.Json.Loading.{IsRaised, loaded-Ends, Loads}
use agent_workload_platform.Prelude.{
  ◌>>=◌, weaken-Ends, raise, Ends, ℕ, zero, suc, String, ◌≡◌, refl, ◌∙◌, Option, none, some, rstrip,
}
use agent_workload_platform.Json.{Value}
use agent_workload_platform.Prelude.{without_end}
use agent_workload_platform.Edge.Presentation.{Result, ok, strip_code_fence, repaired, decode_json}

-- A text without up to `n` closing braces at its end, and the blanks before each
pub data Trimmed : ℕ → String → String → Type 0 where
  whole : {n : ℕ} {s : String} → Trimmed n s s
  trimmed :
      {n : ℕ} {s t u : String}
      → without_end b'}' s ≡ some u
      → Trimmed n (rstrip u) t
      → Trimmed (suc n) s t

module _ (loads : Loads) where
  -- The value is that of a text in the relation.
  IsRead : (String → Type 0) → Option Value → Type 0
  IsRead P none = Unit
  IsRead P (some v) = (t : String) × P t × (loads t ≡ ok (some v))

  Read : (String → Type 0) → Result (Option Value) → Type 0
  Read P r = Ends (IsRaised loads) (IsRead P) r

  deeper :
      (n : ℕ) (s u : String) (o : Option Value)
      → without_end b'}' s ≡ some u
      → IsRead (Trimmed n (rstrip u)) o
      → IsRead (Trimmed (suc n) s) o
  unfolding IsRead
  deeper n s u none e h = tt
  deeper n s u (some v) e h = (h.0, trimmed e h.1, h.2)

  later :
      (n : ℕ) (s u : String)
      → without_end b'}' s ≡ some u
      → (o : Option Value) → loads (rstrip u) ≡ ok o
      → Read (Trimmed n (rstrip u)) (repaired loads n (rstrip u))
      → Read
          (Trimmed (suc n) s)
          (elim o [ none ↦ repaired loads n (rstrip u) | some v ↦ ok (some v) ])
  unfolding IsRead Read
  later n s u e none f h =
      weaken-Ends (IsRaised loads) (IsRaised loads) (IsRead (Trimmed n (rstrip u)))
        (IsRead (Trimmed (suc n) s)) (repaired loads n (rstrip u)) (λ x g. g)
        (λ o g. deeper n s u o e g) h
  later n s u e (some v) f h = (rstrip u, trimmed e whole, f)

  repaired-Read : (n : ℕ) (s : String) → Read (Trimmed n s) (repaired loads n s)
  unfolding repaired Read IsRead
  repaired-Read zero s = tt
  repaired-Read (suc n) s =
      (elim (without_end b'}' s)
          as (λ o.
            without_end b'}' s ≡ o
            → Ends (IsRaised loads) (IsRead (Trimmed (suc n) s)) (elim o [
              | none ↦ ok none
              | some t ↦ loads (rstrip t) >>= λ o. elim o [
                | none ↦ repaired loads n (rstrip t)
                | some v ↦ ok (some v)
              ]
            ])) [
              | none ↦ λ e. tt
              | some u ↦ λ e.
                  loaded-Ends loads (IsRead (Trimmed (suc n) s)) (rstrip u) _
                    (λ o f. later n s u e o f (repaired-Read n (rstrip u)))
            ])
        refl

  read-Read :
      (s : String) (o : Option Value)
      → loads s ≡ ok o
      → Read (Trimmed 2 s) (elim o [ none ↦ repaired loads 2 s | some v ↦ ok (some v) ])
  unfolding Read IsRead
  read-Read s none e = repaired-Read 2 s
  read-Read s (some v) e = (s, whole, e)

  decode_json-Read : (s : String) → Read (Trimmed 2 (strip_code_fence s)) (decode_json loads s)
  unfolding decode_json Read
  decode_json-Read s =
      loaded-Ends loads (IsRead (Trimmed 2 (strip_code_fence s))) (strip_code_fence s) _
        (λ o e. read-Read (strip_code_fence s) o e)

  -- What is raised is raised for some text.
  pub decode_json-Ends : (s : String) → Ends (IsRaised loads) (λ o. Unit {0}) (decode_json loads s)
  unfolding Read
  decode_json-Ends s =
      weaken-Ends (IsRaised loads) (IsRaised loads) (IsRead (Trimmed 2 (strip_code_fence s))) _
        (decode_json loads s) (λ e h. h) (λ o h. tt) (decode_json-Read s)

  Read-some :
      (P : String → Type 0) (r : Result (Option Value)) (v : Value)
      → Read P r
      → r ≡ ok (some v)
      → (t : String) × P t × (loads t ≡ ok (some v))
  unfolding IsRead Read
  Read-some P (ok none) v h e = cc
  Read-some P (ok (some u)) v h e = (h.0, h.1, h.2 ∙ e)
  Read-some P (raise x) v h e = cc

  -- A value that `_decode_json` returns is what json.loads gives for the text in its fence, or for
  -- that text without one or two closing braces at its end and the blanks before them.
  pub decode_json-Trimmed :
      (s : String) (v : Value)
      → decode_json loads s ≡ ok (some v)
      → (t : String) × Trimmed 2 (strip_code_fence s) t × (loads t ≡ ok (some v))
  decode_json-Trimmed s v e = Read-some _ (decode_json loads s) v (decode_json-Read s) e
