-- ===== src/Edge/Presentation/Shown.antt =====
-- presentation_response.py: what is shown, and which exceptions come out of reading it.
use agent_workload_platform.Edge.Presentation.Review.{is_reference}
use agent_workload_platform.Prelude.{
  strip, overflow_error, ◌*◌, ◌%◌, ◌^◌, ◌≤◌, String, ◌≡◌, refl, inl, inr, Bool, true, false, List,
  ltb, eqb, if◌then◌else◌, Bool-cases, any, utf8_length, Exn, value_error, type_error, Result,
  raise, ok, map_result, ◌>>=◌,
}
use agent_workload_platform.Json.{dict_get, Value, null, bool, int, float, str, arr, obj}
use agent_workload_platform.Prelude.{IsText, Ends, map_result-Ends, bind-Ends, weaken-Ends}
use agent_workload_platform.Json.{is_one_of, is_finite, int_of, is_too_large}
use agent_workload_platform.Json.Unhashable.{IsUnhashable, is_one_of-Returns}
use agent_workload_platform.Edge.Presentation.{
  max_journal_transcript_bytes, Presentation, diagram, grafana_trace, playwright_trace, drawing,
  slides, review, max_marp_bytes, fallback_presentation,
}
use agent_workload_platform.Edge.Presentation.Flow.Joined.{IsDiagram, fallback-IsDiagram}
use agent_workload_platform.Edge.Presentation.Traces.{is_trace_id}
use agent_workload_platform.Edge.Presentation.Drawing.{is_camera}

abbrev pub IsReference : Value → Type 0
IsReference (str r) = is_reference r ≡ true
IsReference _ = ⊥

-- A transcript that is not blank, of bounded size
abbrev pub IsTranscript : Value → Type 0
IsTranscript (str t) = IsText (strip t) × (utf8_length t ≤ max_journal_transcript_bytes)
IsTranscript _ = ⊥

-- A presentation with what its kind needs. A browser trace needs more, as Playwright/Traced has it.
abbrev pub IsShown : Presentation → Type 0
IsShown (diagram kind title nodes edges) = IsDiagram (diagram kind title nodes edges)
IsShown (grafana_trace title trace_id datasource_uid focus) = is_trace_id trace_id ≡ true
IsShown (playwright_trace d) = ⊥
IsShown (drawing title elements) = any is_camera elements ≡ true
IsShown (slides title markdown) = IsText markdown × (utf8_length markdown ≤ max_marp_bytes)
IsShown (review d) = IsReference (dict_get "reviewId" d) × IsTranscript (dict_get "transcript" d)

-- A TypeError, a ValueError or an OverflowError
abbrev pub is_input_error : Exn → Bool
is_input_error (type_error m) = true
is_input_error (value_error m) = true
is_input_error (overflow_error m) = true
is_input_error _ = false

abbrev pub IsInputError : Exn → Type 0
IsInputError e = is_input_error e ≡ true

-- A part of a presentation is read, or one of these is raised.
abbrev pub Reads {ℓ} : {A : Type ℓ} → Result A → Type 0
Reads {A = A} r = Ends IsInputError (λ a. Unit {0}) r

-- A presentation that can be shown is returned, or one of these is raised.
abbrev pub Shows : Result Presentation → Type 0
Shows r = Ends IsInputError IsShown r

pub fallback-IsShown : (spoken : String) → IsShown (fallback_presentation spoken)
unfolding fallback_presentation
fallback-IsShown spoken = fallback-IsDiagram spoken

pub bind-Shows {ℓ κ} :
    {A : Type ℓ} {B : Type κ} (Q : B → Type 0) (r : Result A) (f : A → Result B)
    → Reads r
    → ((a : A) → Ends IsInputError Q (f a))
    → Ends IsInputError Q (r >>= f)
bind-Shows {A = A} Q r f h g = bind-Ends IsInputError (λ a. Unit {0}) Q r f (λ a u. g a) h

-- The same, where what follows needs to know what was read
pub bind-Shows_read {ℓ κ} :
    {A : Type ℓ} {B : Type κ} (Q : B → Type 0) (r : Result A) (f : A → Result B)
    → Reads r
    → ((a : A) → r ≡ ok a → Ends IsInputError Q (f a))
    → Ends IsInputError Q (r >>= f)
bind-Shows_read Q (ok a) f h g = g a refl
bind-Shows_read Q (raise e) f h g = h

pub map-Shows {ℓ κ} :
    {A : Type ℓ} {B : Type κ} (Q : B → Type 0) (f : A → B) (r : Result A)
    → Reads r
    → ((a : A) → Q (f a))
    → Ends IsInputError Q (map_result f r)
map-Shows Q f r h g = map_result-Ends IsInputError (λ a. Unit {0}) Q f r (λ a u. g a) h

pub map-Reads {ℓ κ} :
    {A : Type ℓ} {B : Type κ} (f : A → B) (r : Result A) → Reads r → Reads (map_result f r)
map-Reads f r h = map-Shows (λ b. Unit {0}) f r h (λ a. tt)

pub IsUnhashable-IsInputError : (e : Exn) → IsUnhashable e → IsInputError e
IsUnhashable-IsInputError e (inl h) = rw h refl
IsUnhashable-IsInputError e (inr h) = rw h refl

pub is_one_of-Reads : (names : List String) (v : Value) → Reads (is_one_of names v)
is_one_of-Reads names v =
    weaken-Ends IsUnhashable IsInputError (λ b. is_one_of names v ≡ ok b) _ (is_one_of names v)
      IsUnhashable-IsInputError (λ b h. tt) (is_one_of-Returns names v)

pub is_finite-Reads : (v : Value) → Reads (is_finite v)
unfolding is_finite
is_finite-Reads (int n) = elim (Bool-cases (is_too_large n)) [ inl e ↦ rw e refl | inr e ↦ rw e tt ]
is_finite-Reads (float b) = tt
is_finite-Reads null = tt
is_finite-Reads (bool b) = tt
is_finite-Reads (str s) = tt
is_finite-Reads (arr vs) = tt
is_finite-Reads (obj d) = tt

pub int_of-Reads : (v : Value) → Reads (int_of v)
unfolding int_of
int_of-Reads (bool b) = tt
int_of-Reads (int n) = tt
int_of-Reads (float b) = elim (Bool-cases (ltb (b % 2 ^ 63) (0x7ff * 2 ^ 52))) [
  | inl e ↦ rw e tt
  | inr e ↦ elim (Bool-cases (eqb (b % 2 ^ 63) (0x7ff * 2 ^ 52))) [
    | inl f ↦ rw (e, f) refl
    | inr f ↦ rw (e, f) refl
  ]
]
int_of-Reads null = refl
int_of-Reads (str s) = refl
int_of-Reads (arr vs) = refl
int_of-Reads (obj d) = refl

pub if-Shows :
    (b : Bool) (spoken : String) (r : Result Presentation)
    → Shows r
    → Shows (if b then r else ok (fallback_presentation spoken))
if-Shows true spoken r h = h
if-Shows false spoken r h = fallback-IsShown spoken

pub unless-Shows :
    (b : Bool) (spoken : String) (r : Result Presentation)
    → Shows r
    → Shows (if b then ok (fallback_presentation spoken) else r)
unless-Shows true spoken r h = fallback-IsShown spoken
unless-Shows false spoken r h = h
