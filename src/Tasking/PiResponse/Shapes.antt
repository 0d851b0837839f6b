-- ===== src/Tasking/PiResponse/Shapes.antt =====
-- pi_response.py: the presentation of a response has one of four kinds, and its shape.
use agent_workload_platform.Json.Loading.{Loads}
use agent_workload_platform.Prelude.{
  weaken-Ends, map_result-Ends, ℕ, String, ◌≡◌, refl, subst, ◌⊎◌, inl, inr, Bool, true, false, ◌&&◌,
  ◌||◌, List, [], ◌∷◌, arith, ◌==◌, eq_iff, ltb, leb, if◌then◌else◌, between, Bool-cases, length,
  is_empty, utf8_length, strip, Result, ok, raise,
}
use agent_workload_platform.Json.Unhashable.{Returns, is_one_of-Returns, IsUnhashable}
use agent_workload_platform.Json.{
  is_one_of, Value, null, bool, int, float, str, arr, obj, Fields, end, field, items, dict_get,
  is_str,
}
use agent_workload_platform.Tasking.PiResponse.{
  with_field, fallback_presentation, excalidraw_types, kinds, valid_element, also, valid_elements,
  drawing, drawing_of, sized, deck, deck_of, checked, known,
}

-- Slides have a Markdown text that is not empty.
abbrev pub IsMarkdown : Value → Type 0
IsMarkdown (str s) = is_empty s ≡ false
IsMarkdown _ = ⊥

-- A drawing has from one to 80 elements.
abbrev pub IsElements : Value → Type 0
IsElements (arr vs) = between 1 80 (length (items vs)) ≡ true
IsElements _ = ⊥

pub record IsShaped (p : Fields) : Type 0 where
  pub drawn : (is_str "excalidraw" (dict_get "kind" p) ≡ false) ⊎ IsElements (dict_get "elements" p)
  pub written : (is_str "slides" (dict_get "kind" p) ≡ false) ⊎ IsMarkdown (dict_get "markdown" p)

pub end-IsShaped : IsShaped end
end-IsShaped = record { drawn = inl refl; written = inl refl }

get-with_field :
    (k j : String) (v : Value) (d : Fields)
    → dict_get j (with_field k v d) ≡ (if k == j then v else dict_get j d)
unfolding with_field
get-with_field k j v end = refl
get-with_field k j v (field i u r) =
    ground (arith, eq_iff i k, eq_iff i j, eq_iff k j, get-with_field k j v r)

-- A text is one of two kinds at most.
one_kind : (v : Value) → is_str "excalidraw" v ≡ true → is_str "slides" v ≡ false
one_kind (str s) h = let e : s ≡ "excalidraw" = (eq_iff s "excalidraw").0 h in rw e refl
one_kind null h = refl
one_kind (bool b) h = refl
one_kind (int n) h = refl
one_kind (float n) h = refl
one_kind (arr vs) h = refl
one_kind (obj d) h = refl

abbrev Any : Bool → Type 0
Any b = Unit {0}

valid_element-Returns : (v : Value) → Returns Any (valid_element v)
unfolding valid_element
valid_element-Returns (obj d) =
    weaken-Ends IsUnhashable IsUnhashable
      (λ b. is_one_of excalidraw_types (dict_get "type" d) ≡ ok b) Any _ (λ e h. h) (λ b h. tt)
      (is_one_of-Returns excalidraw_types (dict_get "type" d))
valid_element-Returns _ = tt

also-Returns : (r s : Result Bool) → Returns Any r → Returns Any s → Returns Any (also r s)
unfolding also
also-Returns (ok true) s h g = g
also-Returns (ok false) s h g = tt
also-Returns (raise e) s h g = h

valid_elements-Returns : (vs : List Value) → Returns Any (valid_elements vs)
unfolding valid_elements
valid_elements-Returns [] = tt
valid_elements-Returns (v ∷ vs) =
    also-Returns (valid_element v) (valid_elements vs) (valid_element-Returns v)
      (valid_elements-Returns vs)

module _ (loads : Loads) (dumps_length : Value → ℕ) where
  deck_of-IsShaped :
      (p : Fields) (v : Value)
      → is_str "excalidraw" (dict_get "kind" p) ≡ false
      → IsShaped (deck_of loads dumps_length p v)
  unfolding deck_of
  deck_of-IsShaped p (str s) h =
      elim (Bool-cases (is_empty (strip s) || ltb 65536 (utf8_length s))) [
        | inl bad ↦ rw bad end-IsShaped
        | inr fine ↦ rw fine (record {
          drawn = inl (rw (get-with_field "markdown" "kind" (str (strip s)) p) h);
          written =
              inr (
                rw (get-with_field "markdown" "markdown" (str (strip s)) p) (ground (arith, fine)));
        })
      ]
  deck_of-IsShaped p _ h = end-IsShaped

  sized-IsShaped :
      (p : Fields) (r : Result Bool)
      → IsShaped p
      → Returns Any r
      → Returns IsShaped (sized loads dumps_length p r)
  unfolding sized
  sized-IsShaped p (raise e) shaped h = h
  sized-IsShaped p (ok valid) shaped h =
      elim (Bool-cases (valid && leb (dumps_length (obj p)) 65536)) [
        | inl kept ↦ rw kept shaped
        | inr dropped ↦ rw dropped end-IsShaped
      ]

  drawing_of-IsShaped :
      (p : Fields) (v : Value)
      → is_str "excalidraw" (dict_get "kind" p) ≡ true
      → v ≡ dict_get "elements" p
      → Returns IsShaped (drawing_of loads dumps_length p v)
  unfolding drawing_of
  drawing_of-IsShaped p (arr vs) h e = elim (Bool-cases (between 1 80 (length (items vs)))) [
    | inl fits ↦
        let shaped : IsShaped p = record {
          drawn = inr (subst IsElements e fits);
          written = inl (one_kind (dict_get "kind" p) h);
        } in
        rw fits (sized-IsShaped p _ shaped (valid_elements-Returns (items vs)))
    | inr more ↦ rw more end-IsShaped
  ]
  drawing_of-IsShaped p _ h e = end-IsShaped

  pub checked-IsShaped : (p : Fields) → Returns IsShaped (checked loads dumps_length p)
  unfolding checked drawing deck
  checked-IsShaped p = elim (Bool-cases (is_str "excalidraw" (dict_get "kind" p))) [
    | inl drawing_kind ↦
        rw drawing_kind (drawing_of-IsShaped p (dict_get "elements" p) drawing_kind refl)
    | inr other ↦ elim (Bool-cases (is_str "slides" (dict_get "kind" p))) [
      | inl slides ↦ rw (other, slides) (deck_of-IsShaped p (dict_get "markdown" p) other)
      | inr no_slides ↦
          rw (other, no_slides) (record { drawn = inl other; written = inl no_slides })
    ]
  ]

  -- A presentation of a known kind, in its shape
  abbrev pub IsPresentation : Fields → Type 0
  IsPresentation p = (is_one_of kinds (dict_get "kind" p) ≡ ok true) × IsShaped p

  fallback-IsPresentation : (spoken : String) → IsPresentation (fallback_presentation spoken)
  unfolding fallback_presentation is_one_of
  fallback-IsPresentation spoken = (refl, record { drawn = inl refl; written = inl refl })

  chosen-IsPresentation :
      (spoken : String) (p : Fields) (b : Bool)
      → IsShaped p
      → is_one_of kinds (dict_get "kind" p) ≡ ok b
      → IsPresentation (if b then p else fallback_presentation spoken)
  chosen-IsPresentation spoken p true h e = (e, h)
  chosen-IsPresentation spoken p false h e = fallback-IsPresentation spoken

  pub known-IsPresentation :
      (spoken : String) (p : Fields)
      → IsShaped p
      → Returns IsPresentation (known loads dumps_length spoken p)
  unfolding known
  known-IsPresentation spoken end h = fallback-IsPresentation spoken
  known-IsPresentation spoken (field k v r) h =
      map_result-Ends IsUnhashable (λ b. is_one_of kinds (dict_get "kind" (field k v r)) ≡ ok b)
        IsPresentation (λ b. if b then field k v r else fallback_presentation spoken)
        (is_one_of kinds (dict_get "kind" (field k v r)))
        (λ b e. chosen-IsPresentation spoken (field k v r) b h e)
        (is_one_of-Returns kinds (dict_get "kind" (field k v r)))
