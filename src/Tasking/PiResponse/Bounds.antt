-- ===== src/Tasking/PiResponse/Bounds.antt =====
-- pi_response.py: what a response holds, whatever the model wrote.
use agent_workload_platform.Json.Loading.{loaded-Ends, IsRaised, Loads}
use agent_workload_platform.Prelude.{
  zero, suc, none, some, Bool-cases, inl, inr, eq_iff, ◌==◌, if◌then◌else◌, true, inr, inl,
  weaken-Ends, suc, bind-Ends, ◌⊎◌, Exn, Ends, map_result-Ends, len-take_text-le, take_text-IsText,
  IsText, ℕ, ◌≤◌, String, ◌≡◌, refl, false, Option, arith, len, is_empty, take_text, strip, Result,
  ok, raise,
}
use agent_workload_platform.Json.{
  is_one_of, is_str, dict_get, arr, float, int, bool, null, Value, str, obj, Fields, end,
}
use agent_workload_platform.Tasking.PiResponse.{
  kinds, nested, unwrap_spoken, unwrap_step, unwrap_step, PiResponse, max_response_length,
  max_spoken_length, text_or, known, response, finished, bounded_spoken, from_payload, spoken_of,
  presentation_of, unwrap, resource_uri, response_from_text,
}
use agent_workload_platform.Tasking.PiResponse.Shapes.{
  IsShaped, end-IsShaped, IsPresentation, checked-IsShaped, known-IsPresentation,
}
use agent_workload_platform.Json.Unhashable.{Returns, IsUnhashable}

text_or-IsText : (s d : String) → IsText d → IsText (text_or s d)
unfolding text_or
text_or-IsText String.[] d h = h
text_or-IsText (String.◌∷◌ c s) d h = refl

-- The viewer of each kind
abbrev pub IsViewer : Value → String → Type 0
IsViewer (str k) uri =
    ((k ≡ "excalidraw") × (uri ≡ "ui://excalidraw/mcp-app.html"))
    ⊎ ((k ≡ "slides") × (uri ≡ "ui://slides/marp.html"))
    ⊎ (((k ≡ "flow") ⊎ (k ≡ "status")) × (uri ≡ "ui://mermaid/main"))
IsViewer _ uri = ⊥

kind-IsViewer :
    (v : Value)
    → is_one_of kinds v ≡ ok true
    → IsViewer v (
        if is_str "excalidraw" v
        then "ui://excalidraw/mcp-app.html"
        else if is_str "slides" v
        then "ui://slides/marp.html"
        else "ui://mermaid/main")
unfolding is_one_of
kind-IsViewer (str k) h = elim (Bool-cases (k == "excalidraw")) [
  | inl e ↦ rw e (inl ((eq_iff k "excalidraw").0 e, refl))
  | inr e ↦ rw e (elim (Bool-cases (k == "slides")) [
    | inl f ↦ rw f (inr (inl ((eq_iff k "slides").0 f, refl)))
    | inr f ↦ rw f (elim (Bool-cases (k == "flow")) [
      | inl g ↦ inr (inr (inl ((eq_iff k "flow").0 g), refl))
      | inr g ↦ inr (inr (inr ((eq_iff k "status").0 (ground (arith, h, e, f, g))), refl))
    ])
  ])
]
kind-IsViewer null h = absurd (ground arith)
kind-IsViewer (bool b) h = absurd (ground arith)
kind-IsViewer (int z) h = absurd (ground arith)
kind-IsViewer (float b) h = absurd (ground arith)
kind-IsViewer (arr vs) h = absurd (ground arith)
kind-IsViewer (obj d) h = absurd (ground arith)

-- The TypeError of a kind or element type that is a list or a dict, or what json.loads raises
abbrev pub IsResponseError : Loads → Exn → Type 0
IsResponseError loads e = IsUnhashable e ⊎ IsRaised loads e

module _ (loads : Loads) (dumps_length : Value → ℕ) where
  -- A response that can be shown and spoken
  pub record IsResponse (r : PiResponse) : Type 0 where
    pub spoken_text : is_empty r.spoken ≡ false
    pub spoken_le : len r.spoken ≤ max_spoken_length
    pub text_text : is_empty r.text ≡ false
    pub text_le : len r.text ≤ max_response_length
    pub presented : IsPresentation loads dumps_length r.presentation
    pub agrees : IsViewer (dict_get "kind" r.presentation) r.resource_uri

  response-IsResponse :
      (text spoken : String) (p : Fields)
      → is_empty spoken ≡ false
      → len spoken ≤ max_spoken_length
      → len text ≤ max_response_length
      → IsPresentation loads dumps_length p
      → IsResponse (response loads dumps_length text spoken p)
  unfolding response text_or resource_uri
  response-IsResponse text spoken p spoken_text spoken_le text_le presented = record {
    spoken_text = spoken_text;
    spoken_le = spoken_le;
    text_text = ground (arith, spoken_text);
    text_le = ground (arith, spoken_le, text_le);
    presented = presented;
    agrees = kind-IsViewer (dict_get "kind" p) presented.0;
  }

  finished-IsResponse :
      (text spoken : String) (r : Result Fields)
      → is_empty spoken ≡ false
      → len spoken ≤ max_spoken_length
      → len text ≤ max_response_length
      → Returns IsShaped r
      → Returns IsResponse (finished loads dumps_length text spoken r)
  unfolding finished
  finished-IsResponse text spoken (raise e) spoken_text spoken_le text_le h = h
  finished-IsResponse text spoken (ok p) spoken_text spoken_le text_le h =
      map_result-Ends IsUnhashable (IsPresentation loads dumps_length) IsResponse
        (response loads dumps_length text spoken) (known loads dumps_length spoken p)
        (λ q presented. response-IsResponse text spoken q spoken_text spoken_le text_le presented)
        (known-IsPresentation loads dumps_length spoken p h)

  from_payload-IsResponse :
      (text : String) (payload : Value)
      → len text ≤ max_response_length
      → Returns IsResponse (from_payload loads dumps_length text payload)
  unfolding from_payload bounded_spoken
  from_payload-IsResponse text (obj d) h =
      finished-IsResponse text _ _
        (take_text-IsText 1999 _ (text_or-IsText (spoken_of d) "Task completed." refl))
        (len-take_text-le max_spoken_length _) h
        (checked-IsShaped loads dumps_length (presentation_of d))
  from_payload-IsResponse text _ h =
      finished-IsResponse text _ (ok end)
        (take_text-IsText 1999 _ (text_or-IsText text "Task completed." refl))
        (len-take_text-le max_spoken_length _) h end-IsShaped

  again-Ends :
      (n : ℕ)
      → ((v : Value) → Ends (IsRaised loads) (λ w. Unit {0}) (unwrap loads dumps_length n v))
      → (d : Value) → (o : Option Value)
      → Ends
          (IsRaised loads)
          (λ w. Unit {0})
          (elim o [ none ↦ ok d | some v ↦ unwrap loads dumps_length n v ])
  again-Ends n h d none = tt
  again-Ends n h d (some v) = h v

  unwrap_spoken-Ends :
      (n : ℕ)
      → ((v : Value) → Ends (IsRaised loads) (λ w. Unit {0}) (unwrap loads dumps_length n v))
      → (d : Fields) (v : Value)
      → Ends
          (IsRaised loads)
          (λ w. Unit {0})
          (unwrap_spoken loads dumps_length (unwrap loads dumps_length n) d v)
  unfolding unwrap_spoken
  unwrap_spoken-Ends n h d (str s) =
      loaded-Ends loads (λ w. Unit {0}) s _ (λ o e. again-Ends n h (obj d) (nested o))
  unwrap_spoken-Ends n h d null = tt
  unwrap_spoken-Ends n h d (bool b) = tt
  unwrap_spoken-Ends n h d (int z) = tt
  unwrap_spoken-Ends n h d (float b) = tt
  unwrap_spoken-Ends n h d (arr vs) = tt
  unwrap_spoken-Ends n h d (obj e) = tt

  unwrap-Ends :
      (n : ℕ) (v : Value) → Ends (IsRaised loads) (λ w. Unit {0}) (unwrap loads dumps_length n v)
  unfolding unwrap unwrap_step
  unwrap-Ends zero v = tt
  unwrap-Ends (suc n) (obj d) = unwrap_spoken-Ends n (unwrap-Ends n) d (dict_get "spoken" d)
  unwrap-Ends (suc n) (str s) =
      loaded-Ends loads (λ w. Unit {0}) s _ (λ o e. again-Ends n (unwrap-Ends n) null o)
  unwrap-Ends (suc n) null = tt
  unwrap-Ends (suc n) (bool b) = tt
  unwrap-Ends (suc n) (int z) = tt
  unwrap-Ends (suc n) (float b) = tt
  unwrap-Ends (suc n) (arr vs) = tt

  pub response_from_text-IsResponse :
      (text : String)
      → Ends (IsResponseError loads) IsResponse (response_from_text loads dumps_length text)
  unfolding response_from_text
  response_from_text-IsResponse text =
      let cut = take_text max_response_length (strip text) in
      bind-Ends (IsResponseError loads) (λ v. Unit {0}) IsResponse
        (unwrap loads dumps_length 4 (str cut)) (from_payload loads dumps_length cut)
        (λ v u.
          weaken-Ends IsUnhashable (IsResponseError loads) IsResponse IsResponse
            (from_payload loads dumps_length cut v) (λ e h. inl h) (λ r h. h)
            (from_payload-IsResponse cut v (len-take_text-le max_response_length (strip text))))
        (weaken-Ends (IsRaised loads) (IsResponseError loads) (λ v. Unit {0}) (λ v. Unit {0})
          (unwrap loads dumps_length 4 (str cut)) (λ e h. inr h) (λ v u. u)
          (unwrap-Ends 4 (str cut)))
