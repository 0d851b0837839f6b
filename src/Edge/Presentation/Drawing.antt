-- ===== src/Edge/Presentation/Drawing.antt =====
-- presentation_response.py, `_normalize_excalidraw` and `_normalize_slides`: a drawing with its
-- cameras, and a slide deck. The arithmetic of numbers that are ints or floats and the length of
-- `json.dumps` are parameters.
pub mod Cameras
use agent_workload_platform.Prelude.{
  ℕ, String, Bool, true, false, not, ◌&&◌, ◌||◌, Option, none, some, List, [], ◌∷◌, ◌++◌, ltb,
  if◌then◌else◌, take, any, is_empty, utf8_length, strip, Result, ok, map_result, ◌>>=◌,
}
use agent_workload_platform.Json.{
  without_field, pos, Value, int, float, str, arr, obj, Fields, end, field, items, dict_get, is_str,
}
use agent_workload_platform.Json.{is_one_of, is_finite}
use agent_workload_platform.Edge.Presentation.{
  Presentation, drawing, slides, to_dict, fallback_presentation, title_or, title_of, one_line,
  max_excalidraw_elements, max_excalidraw_bytes, max_marp_bytes,
}
use agent_workload_platform.Edge.Presentation.Flow.{among}
use agent_workload_platform.Edge.Presentation.Bounded.{bounded_value, set_field}

abbrev pub excalidraw_types : List String
excalidraw_types =
    "cameraUpdate" ∷ "rectangle" ∷ "ellipse" ∷ "diamond" ∷ "text" ∷ "arrow" ∷ "line" ∷ []

-- Python's `+`, `-`, `/` and `<` on ints and floats
pub record Arithmetic : Type 0 where
  pub plus : Value → Value → Value
  pub subtract : Value → Value → Value
  pub divide : Value → Value → Value
  pub less : Value → Value → Bool

abbrev number : ℕ → Value
number n = int (pos n)

-- math.isfinite of the numbers, and the default of any other value
finite_number : Value → Value → Result Value
finite_number d (int n) = map_result (λ finite. if finite then int n else d) (is_finite (int n))
finite_number d (float b) =
    map_result (λ finite. if finite then float b else d) (is_finite (float b))
finite_number d _ = ok d

abbrev Size : Type 0
Size = Value × Value

-- The camera's corner and the elements' far corner
module _ (a : Arithmetic) where
  -- max(v, w), which is v unless w is greater
  larger : Value → Value → Value
  larger v w = if a.less v w then w else v

  -- abs(v)
  absolute : Value → Value
  absolute v = if a.less v (number 0) then a.subtract (number 0) v else v

  -- width > 0 and height > 0 and abs((width / height) - (4 / 3)) < 0.01, with the bits of 0.01
  is_camera_size : Value → Value → Bool
  unfolding absolute
  is_camera_size width height =
      a.less (number 0) width
      && a.less (number 0) height
      && a.less (absolute (a.subtract (a.divide width height) (a.divide (number 4) (number 3))))
          (float 0x3f847ae147ae147b)

  reach : Value → Value → Value → Value → Value
  unfolding larger
  reach required corner side origin =
      larger required (a.plus (a.subtract (a.plus corner side) origin) (number 40))

  -- What the elements need, from the size that is needed so far
  required_by : Value → Value → Fields → Size → Result Size
  unfolding finite_number larger reach
  required_by x y element needed = finite_number x (dict_get "x" element) >>= λ element_x.
      finite_number y (dict_get "y" element) >>= λ element_y.
      finite_number (number 0) (dict_get "width" element) >>= λ width.
      map_result
        (λ height. (
          reach needed.0 element_x (larger (number 0) width) x,
          reach needed.1 element_y (larger (number 0) height) y,
        ))
        (finite_number (number 0) (dict_get "height" element))

  required : Value → Value → List Fields → Size → Result Size
  unfolding required_by
  required x y [] needed = ok needed
  required x y (element ∷ rest) needed = elim (is_str "cameraUpdate" (dict_get "type" element)) [
    | true ↦ required x y rest needed
    | false ↦ required_by x y element needed >>= required x y rest
  ]

  -- The first camera size that holds what is needed, or the largest
  fitting : Size → List (ℕ × ℕ) → ℕ × ℕ
  fitting needed [] = (1600, 1200)
  fitting needed (size ∷ sizes) =
      let rest = fitting needed sizes in
      if not (a.less (number size.0) needed.0) && not (a.less (number size.1) needed.1)
      then size
      else rest

  camera_with : Value → Value → Value → Value → Fields
  camera_with x y width height =
      field "type" (str "cameraUpdate")
        (field "x" x (field "y" y (field "width" width (field "height" height end))))

  -- The bits of 400.0 and 300.0 stand in the first needs.
  resized : Value → Value → List Fields → Result Fields
  unfolding required fitting camera_with
  resized x y elements =
      map_result
        (λ needed.
          let size =
            fitting needed
              ((400, 300) ∷ (600, 450) ∷ (800, 600) ∷ (1200, 900) ∷ (1600, 1200) ∷ []) in
          camera_with x y (number size.0) (number size.1))
        (required x y elements (float 0x4079000000000000, float 0x4072c00000000000))

  -- `_repair_excalidraw_camera`
  repair_excalidraw_camera : Fields → List Fields → Result Fields
  unfolding finite_number is_camera_size camera_with resized
  repair_excalidraw_camera camera elements = finite_number (number 0) (dict_get "x" camera) >>= λ x.
      finite_number (number 0) (dict_get "y" camera) >>= λ y.
      finite_number (number 0) (dict_get "width" camera) >>= λ width.
      finite_number (number 0) (dict_get "height" camera) >>= λ height.
      if is_camera_size width height
      then ok (camera_with x y width height)
      else resized x y elements

unfoldable pub is_camera : Fields → Bool
is_camera element = is_str "cameraUpdate" (dict_get "type" element)

relabelled : Fields → Value → Fields
unfolding without_field
relabelled safe (str label) =
    if is_empty (one_line label)
    then without_field "label" safe
    else set_field "label" (obj (field "text" (str (one_line label)) end)) safe
relabelled safe _ = safe

-- An element that is no camera has an id that is new.
element_with : List String → Fields → Value → Option (Option String × Fields)
unfolding relabelled
element_with ids safe (str element_id) =
    if is_empty element_id || among ids element_id
    then none
    else some (some element_id, relabelled safe (dict_get "label" safe))
element_with ids safe _ = none

-- What a bounded value adds: an element, and its id unless it is a camera
element_of : List String → Value → Option (Option String × Fields)
unfolding element_with
element_of ids (obj safe) =
    if is_camera safe then some (none, safe) else element_with ids safe (dict_get "id" safe)
element_of ids _ = none

element_in : List String → Value → Result (Option (Option String × Fields))
unfolding element_of
element_in ids (obj raw) = is_one_of excalidraw_types (dict_get "type" raw) >>= λ known.
    if known then map_result (element_of ids) (bounded_value 6 (obj raw)) else ok none
element_in ids _ = ok none

with_id : Option String → List String → List String
with_id none ids = ids
with_id (some i) ids = i ∷ ids

-- The loop over the items, with the ids that have elements so far
elements_from : List String → List Value → Result (List Fields)
unfolding element_in with_id
elements_from ids [] = ok []
elements_from ids (raw ∷ rest) = element_in ids raw >>= λ found. elim found [
  | none ↦ elements_from ids rest
  | some e ↦ map_result (λ more. e.1 ∷ more) (elements_from (with_id e.0 ids) rest)
]

module _ (a : Arithmetic) (dumps_length : Value → ℕ) where
  -- The cameras among the rest, each repaired with the elements before and after it
  repaired : List Fields → List Fields → Result (List Fields)
  unfolding repair_excalidraw_camera is_camera
  repaired before [] = ok before
  repaired before (element ∷ rest) = elim (is_camera element) [
    | true ↦ repair_excalidraw_camera a element (before ++ element ∷ rest) >>= λ camera.
        repaired (before ++ camera ∷ []) rest
    | false ↦ repaired (before ++ element ∷ []) rest
  ]

  with_cameras : List Fields → Result (List Fields)
  unfolding repaired repair_excalidraw_camera is_camera
  with_cameras elements = elim (any is_camera elements) [
    | true ↦ repaired [] elements
    | false ↦ map_result (λ camera. camera ∷ elements) (repair_excalidraw_camera a end elements)
  ]

  unless_large : String → Presentation → Presentation
  unless_large spoken p =
      if ltb max_excalidraw_bytes (dumps_length (obj (to_dict p)))
      then fallback_presentation spoken
      else p

  drawing_with : Fields → String → List Fields → Result Presentation
  unfolding with_cameras unless_large
  drawing_with value spoken [] = ok (fallback_presentation spoken)
  drawing_with value spoken (e ∷ elements) =
      map_result
        (λ shown.
          unless_large spoken (drawing (title_of "Pi diagram" (dict_get "title" value)) shown))
        (with_cameras (e ∷ elements))

  -- `_normalize_excalidraw`
  unfoldable pub normalize_excalidraw : Fields → String → Value → Result Presentation
  unfolding drawing_with elements_from
  normalize_excalidraw value spoken (arr raw) =
      elements_from [] (take max_excalidraw_elements (items raw)) >>= drawing_with value spoken
  normalize_excalidraw value spoken _ = ok (fallback_presentation spoken)

-- `_normalize_slides`
unfoldable pub normalize_slides : Fields → String → Value → Presentation
normalize_slides value spoken (str markdown) =
    if is_empty (strip markdown) || ltb max_marp_bytes (utf8_length (strip markdown))
    then fallback_presentation spoken
    else slides (title_or "Pi slides" (dict_get "title" value)) (strip markdown)
normalize_slides value spoken _ = fallback_presentation spoken
