-- ===== src/Edge/Presentation/Drawing/Cameras.antt =====
-- presentation_response.py: every drawing that is shown has a camera.
use agent_workload_platform.Prelude.{
  ℕ, String, ◌≡◌, refl, inl, inr, Bool, true, false, ◌||◌, Option, none, some, List, [], ◌∷◌, ◌++◌,
  arith, ltb, if◌then◌else◌, Bool-cases, take, any, is_empty, utf8_length, strip, Exn, ok,
  map_result, ◌>>=◌,
}
use agent_workload_platform.Json.{
  pos, Value, null, bool, int, float, str, arr, obj, Fields, end, items, dict_get, is_str,
}
use agent_workload_platform.Prelude.{Ends, bind-Ends, map_result-Ends, weaken-Ends}
use agent_workload_platform.Json.{is_one_of, is_finite}
use agent_workload_platform.Edge.Presentation.{
  Presentation, to_dict, max_excalidraw_bytes, max_excalidraw_elements, max_marp_bytes,
}
use agent_workload_platform.Edge.Presentation.Bounded.{bounded_value}
use agent_workload_platform.Edge.Presentation.Bounded.Within.{
  Within, TooLarge, bounded_value-Within,
}
use agent_workload_platform.Edge.Presentation.Shown.{
  IsShown, IsInputError, Reads, Shows, fallback-IsShown, bind-Shows, map-Shows, map-Reads,
  is_one_of-Reads, is_finite-Reads,
}
use agent_workload_platform.Edge.Presentation.Drawing.{
  Arithmetic, Size, finite_number, is_camera_size, required_by, required, camera_with, resized,
  repair_excalidraw_camera, is_camera, element_of, element_in, excalidraw_types, with_id,
  elements_from, repaired, with_cameras, unless_large, drawing_with, normalize_excalidraw,
  normalize_slides,
}

any-append :
    {A : Type 0} (p : A → Bool) (xs ys : List A) → any p (xs ++ ys) ≡ (any p xs || any p ys)
any-append p [] ys = refl
any-append p (x ∷ xs) ys = ground (arith, any-append p xs ys)

finite_number-Reads : (d v : Value) → Reads (finite_number d v)
unfolding finite_number
finite_number-Reads d (int n) = map-Reads _ (is_finite (int n)) (is_finite-Reads (int n))
finite_number-Reads d (float b) = map-Reads _ (is_finite (float b)) (is_finite-Reads (float b))
finite_number-Reads d null = tt
finite_number-Reads d (bool b) = tt
finite_number-Reads d (str s) = tt
finite_number-Reads d (arr vs) = tt
finite_number-Reads d (obj e) = tt

TooLarge-IsInputError : (e : Exn) → TooLarge e → IsInputError e
TooLarge-IsInputError e h = rw h refl

bounded_value-Reads : (l : ℕ) (v : Value) → Reads (bounded_value l v)
bounded_value-Reads l v =
    weaken-Ends TooLarge IsInputError (Within l) _ (bounded_value l v) TooLarge-IsInputError
      (λ b h. tt) (bounded_value-Within l v)

IsCamera : Fields → Type 0
IsCamera d = is_camera d ≡ true

module _ (a : Arithmetic) where
  required_by-Reads :
      (x y : Value) (element : Fields) (needed : Size) → Reads (required_by a x y element needed)
  unfolding required_by
  required_by-Reads x y element needed =
      bind-Shows _ (finite_number x (dict_get "x" element)) _ (finite_number-Reads x _) (λ ex.
        bind-Shows _ (finite_number y (dict_get "y" element)) _ (finite_number-Reads y _) (λ ey.
          bind-Shows _ (finite_number (int (pos 0)) (dict_get "width" element)) _
            (finite_number-Reads (int (pos 0)) _)
            (λ w.
              map-Reads _ (finite_number (int (pos 0)) (dict_get "height" element))
                (finite_number-Reads (int (pos 0)) _))))

  required-Reads :
      (x y : Value) (elements : List Fields) (needed : Size)
      → Reads (required a x y elements needed)
  unfolding required
  required-Reads x y [] needed = tt
  required-Reads x y (e ∷ rest) needed =
      elim (is_str "cameraUpdate" (dict_get "type" e))
        as (λ b. Reads (elim b [
          | true ↦ required a x y rest needed
          | false ↦ required_by a x y e needed >>= required a x y rest
        ])) [
          | true ↦ required-Reads x y rest needed
          | false ↦
              bind-Shows _ (required_by a x y e needed) _ (required_by-Reads x y e needed)
                (required-Reads x y rest)
        ]

  camera_with-IsCamera : (x y w h : Value) → IsCamera (camera_with a x y w h)
  unfolding camera_with is_camera IsCamera
  camera_with-IsCamera x y w h = refl

  resized-IsCamera :
      (x y : Value) (elements : List Fields) → Ends IsInputError IsCamera (resized a x y elements)
  unfolding resized
  resized-IsCamera x y elements =
      map-Shows IsCamera _ (required a x y elements _) (required-Reads x y elements _)
        (λ needed. camera_with-IsCamera x y _ _)

  either :
      (b : Bool) (x y w h : Value) (elements : List Fields)
      → Ends IsInputError IsCamera
          (if b then ok (camera_with a x y w h) else resized a x y elements)
  either true x y w h elements = camera_with-IsCamera x y w h
  either false x y w h elements = resized-IsCamera x y elements

  repair-IsCamera :
      (camera : Fields) (elements : List Fields)
      → Ends IsInputError IsCamera (repair_excalidraw_camera a camera elements)
  unfolding repair_excalidraw_camera
  repair-IsCamera camera elements =
      bind-Shows IsCamera (finite_number (int (pos 0)) (dict_get "x" camera)) _
        (finite_number-Reads (int (pos 0)) _)
        (λ x.
          bind-Shows IsCamera (finite_number (int (pos 0)) (dict_get "y" camera)) _
            (finite_number-Reads (int (pos 0)) _)
            (λ y.
              bind-Shows IsCamera (finite_number (int (pos 0)) (dict_get "width" camera)) _
                (finite_number-Reads (int (pos 0)) _)
                (λ w.
                  bind-Shows IsCamera (finite_number (int (pos 0)) (dict_get "height" camera)) _
                    (finite_number-Reads (int (pos 0)) _)
                    (λ h. either (is_camera_size a w h) x y w h elements))))

IsFilmed : List Fields → Type 0
IsFilmed elements = any is_camera elements ≡ true

element_in-Reads : (ids : List String) (v : Value) → Reads (element_in ids v)
unfolding element_in
element_in-Reads ids (obj raw) =
    bind-Shows _ (is_one_of excalidraw_types (dict_get "type" raw)) _
      (is_one_of-Reads excalidraw_types (dict_get "type" raw)) (λ known. chosen known)
  where
    chosen :
        (known : Bool)
        → Reads (if known then map_result (element_of ids) (bounded_value 6 (obj raw)) else ok none)
    chosen true =
        map-Reads (element_of ids) (bounded_value 6 (obj raw)) (bounded_value-Reads 6 (obj raw))
    chosen false = tt
element_in-Reads ids _ = tt

found-Reads :
    (ids : List String) (vs : List Value) (o : Option (Option String × Fields))
    → ((jds : List String) → Reads (elements_from jds vs))
    → Reads (elim o [
      | none ↦ elements_from ids vs
      | some e ↦ map_result (λ more. e.1 ∷ more) (elements_from (with_id e.0 ids) vs)
    ])
found-Reads ids vs none h = h ids
found-Reads ids vs (some e) h =
    map-Reads _ (elements_from (with_id e.0 ids) vs) (h (with_id e.0 ids))

elements_from-Reads : (ids : List String) (vs : List Value) → Reads (elements_from ids vs)
unfolding elements_from
elements_from-Reads ids [] = tt
elements_from-Reads ids (v ∷ vs) =
    bind-Shows (λ b. Unit {0}) (element_in ids v) _ (element_in-Reads ids v)
      (λ o. found-Reads ids vs o (λ jds. elements_from-Reads jds vs))

module _ (a : Arithmetic) (dumps_length : Value → ℕ) where
  filmed :
      (before rest : List Fields) (camera : Fields)
      → IsCamera camera
      → (any is_camera (before ++ camera ∷ []) || any is_camera rest) ≡ true
  unfolding IsCamera
  filmed before rest camera g = ground (arith, g, any-append is_camera before (camera ∷ []))

  -- Among elements with a camera, the loop leaves one.
  repaired-IsFilmed :
      (before rest : List Fields)
      → (any is_camera before || any is_camera rest) ≡ true
      → Ends IsInputError IsFilmed (repaired a dumps_length before rest)
  unfolding repaired IsFilmed IsCamera
  repaired-IsFilmed before [] h = ground (arith, h)
  repaired-IsFilmed before (e ∷ rest) h =
      (elim (is_camera e)
          as (λ b.
            is_camera e ≡ b
            → Ends IsInputError IsFilmed (elim b [
              | true ↦ repair_excalidraw_camera a e (before ++ e ∷ rest) >>= λ camera.
                  repaired a dumps_length (before ++ camera ∷ []) rest
              | false ↦ repaired a dumps_length (before ++ e ∷ []) rest
            ])) [
              | true ↦ λ c.
                  bind-Ends IsInputError IsCamera IsFilmed
                    (repair_excalidraw_camera a e (before ++ e ∷ rest)) _
                    (λ camera g.
                      repaired-IsFilmed (before ++ camera ∷ []) rest (filmed before rest camera g))
                    (repair-IsCamera a e (before ++ e ∷ rest))
              | false ↦ λ c.
                  repaired-IsFilmed (before ++ e ∷ []) rest
                    (ground (arith, h, c, any-append is_camera before (e ∷ [])))
            ])
        refl

  with_cameras-IsFilmed :
      (elements : List Fields) → Ends IsInputError IsFilmed (with_cameras a dumps_length elements)
  unfolding with_cameras IsFilmed IsCamera
  with_cameras-IsFilmed elements = go (any is_camera elements) refl
    where
      go :
          (b : Bool)
          → any is_camera elements ≡ b
          → Ends IsInputError IsFilmed (elim b [
            | true ↦ repaired a dumps_length [] elements
            | false ↦
                map_result (λ camera. camera ∷ elements) (repair_excalidraw_camera a end elements)
          ])
      go true e = repaired-IsFilmed [] elements e
      go false e =
          map_result-Ends IsInputError IsCamera IsFilmed _ (repair_excalidraw_camera a end elements)
            (λ camera g. ground (arith, g)) (repair-IsCamera a end elements)

  unless_large-IsShown :
      (spoken : String) (p : Presentation)
      → IsShown p
      → IsShown (unless_large a dumps_length spoken p)
  unfolding unless_large
  unless_large-IsShown spoken p h =
      elim (Bool-cases (ltb max_excalidraw_bytes (dumps_length (obj (to_dict p))))) [
        | inl e ↦ rw e (fallback-IsShown spoken)
        | inr e ↦ rw e h
      ]

  drawing_with-Shows :
      (value : Fields) (spoken : String) (elements : List Fields)
      → Shows (drawing_with a dumps_length value spoken elements)
  unfolding drawing_with IsFilmed
  drawing_with-Shows value spoken [] = fallback-IsShown spoken
  drawing_with-Shows value spoken (e ∷ elements) =
      map_result-Ends IsInputError IsFilmed IsShown _ (with_cameras a dumps_length (e ∷ elements))
        (λ shown h. unless_large-IsShown spoken _ h) (with_cameras-IsFilmed (e ∷ elements))

  pub normalize_excalidraw-Shows :
      (value : Fields) (spoken : String) (v : Value)
      → Shows (normalize_excalidraw a dumps_length value spoken v)
  unfolding normalize_excalidraw
  normalize_excalidraw-Shows value spoken (arr raw) =
      bind-Shows IsShown (elements_from [] (take max_excalidraw_elements (items raw))) _
        (elements_from-Reads [] (take max_excalidraw_elements (items raw)))
        (drawing_with-Shows value spoken)
  normalize_excalidraw-Shows value spoken null = fallback-IsShown spoken
  normalize_excalidraw-Shows value spoken (bool b) = fallback-IsShown spoken
  normalize_excalidraw-Shows value spoken (int n) = fallback-IsShown spoken
  normalize_excalidraw-Shows value spoken (float b) = fallback-IsShown spoken
  normalize_excalidraw-Shows value spoken (str s) = fallback-IsShown spoken
  normalize_excalidraw-Shows value spoken (obj d) = fallback-IsShown spoken

pub normalize_slides-IsShown :
    (value : Fields) (spoken : String) (v : Value) → IsShown (normalize_slides value spoken v)
unfolding normalize_slides
normalize_slides-IsShown value spoken (str s) =
    elim (Bool-cases (is_empty (strip s) || ltb max_marp_bytes (utf8_length (strip s)))) [
      | inl e ↦ rw e (fallback-IsShown spoken)
      | inr e ↦ rw e (ground (arith, e), ground (arith, e))
    ]
normalize_slides-IsShown value spoken null = fallback-IsShown spoken
normalize_slides-IsShown value spoken (bool b) = fallback-IsShown spoken
normalize_slides-IsShown value spoken (int n) = fallback-IsShown spoken
normalize_slides-IsShown value spoken (float b) = fallback-IsShown spoken
normalize_slides-IsShown value spoken (arr vs) = fallback-IsShown spoken
normalize_slides-IsShown value spoken (obj d) = fallback-IsShown spoken
