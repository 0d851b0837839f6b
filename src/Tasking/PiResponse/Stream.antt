-- ===== src/Tasking/PiResponse/Stream.antt =====
-- pi_response.py: the response of an event stream is that of its last assistant message.
use agent_workload_platform.Json.Loading.{Loads, IsRaised, loaded-Ends}
use agent_workload_platform.Prelude.{
  bind-Ends, Result, ok, ◌>>=◌, Ends, weaken-Ends, Exn, ℕ, String, ◌≡◌, ◌⊎◌, refl, ap, ◌∙◌, inl,
  inr, Bool, true, false, ◌||◌, Option, none, some, List, [], ◌∷◌, ◌++◌, arith, if◌then◌else◌,
  Bool-cases, any, All, is_empty, runtime_error, raise, message,
}
use agent_workload_platform.Tasking.PiResponse.Bounds.{
  IsResponse, IsResponseError, response_from_text-IsResponse,
}
use agent_workload_platform.Json.{Value, obj, dict_get, is_str}
use agent_workload_platform.Tasking.PiResponse.{
  message_text, text_or, read_event, read_events, settled_response, response_from_text,
  parse_pi_event_stream,
}

-- The assistant's text in an event, or no text
abbrev pub candidate : Option Value → String
candidate (some (obj event)) =
    if is_str "message_end" (dict_get "type" event)
    then message_text (dict_get "message" event)
    else String.[]
candidate _ = String.[]

-- Whether an event says that the agent settled
abbrev pub settles : Option Value → Bool
settles (some (obj event)) =
    if is_str "message_end" (dict_get "type" event)
    then false
    else is_str "agent_settled" (dict_get "type" event)
settles _ = false

module _ (loads : Loads) (dumps_length : Value → ℕ) where
  read_event-eq :
      (event : Option Value) (state : String × Bool)
      → read_event loads dumps_length event state
        ≡ (text_or (candidate event) state.0, state.1 || settles event)
  unfolding read_event text_or
  read_event-eq none state = let e : (state.1 || false) ≡ state.1 = ground arith in rw e refl
  read_event-eq (some (obj event)) state =
      let e : (state.1 || false) ≡ state.1 = ground arith in
      elim (Bool-cases (is_str "message_end" (dict_get "type" event))) [
        | inl message ↦ rw (message, e) refl
        | inr other ↦ elim (Bool-cases (is_str "agent_settled" (dict_get "type" event))) [
          | inl settled ↦
              let t : (state.1 || true) ≡ true = ground arith in rw (other, settled, t) refl
          | inr nothing ↦ rw (other, nothing, e) refl
        ]
      ]
  read_event-eq (some _) state = let e : (state.1 || false) ≡ state.1 = ground arith in rw e refl

  kept :
      (o : Option Value) (state : String × Bool)
      → settles o ≡ false
      → (read_event loads dumps_length o state).1 ≡ state.1
  kept o state h = ap (λ s. s.1) (read_event-eq o state) ∙ ground (arith, h)

  ended :
      (r : Result (String × Bool))
      → Ends (IsRaised loads) (λ s. s.1 ≡ false) r
      → ((r >>= settled_response loads dumps_length)
          ≡ raise (runtime_error "Pi event stream ended before agent_settled"))
        ⊎ ((e : Exn) × IsRaised loads e × ((r >>= settled_response loads dumps_length) ≡ raise e))
  unfolding settled_response
  ended (ok s) h = inl (rw h refl)
  ended (raise e) h = inr (e, h, refl)

  -- The lines, each of which is read as its event
  module _ (event : String → Option Value) where
    abbrev pub AreRead : List String → Type 0
    AreRead lines = All (λ l. loads l ≡ ok (event l)) lines

    -- The state after the events of the lines
    after : List String → String × Bool → String × Bool
    after [] state = state
    after (l ∷ lines) state = after lines (read_event loads dumps_length (event l) state)

    read_events-after :
        (lines : List String) (state : String × Bool)
        → AreRead lines
        → read_events loads dumps_length lines state ≡ ok (after lines state)
    unfolding read_events after
    read_events-after [] state h = refl
    read_events-after (l ∷ lines) state h =
        rw h.0 (read_events-after lines (read_event loads dumps_length (event l) state) h.1)

    after-append :
        (xs ys : List String) (state : String × Bool)
        → after (xs ++ ys) state ≡ after ys (after xs state)
    unfolding after
    after-append [] ys state = refl
    after-append (x ∷ xs) ys state =
        after-append xs ys (read_event loads dumps_length (event x) state)

    settled_after :
        (lines : List String) (state : String × Bool)
        → (after lines state).1 ≡ (state.1 || any (λ l. settles (event l)) lines)
    unfolding after
    settled_after [] state = ground arith
    settled_after (l ∷ lines) state =
        ap (λ s. (after lines s).1) (read_event-eq (event l) state)
        ∙ settled_after lines (text_or (candidate (event l)) state.0, state.1 || settles (event l))
        ∙ ground arith

    -- Lines without a text leave the text.
    text_after :
        (lines : List String) (state : String × Bool)
        → All (λ l. is_empty (candidate (event l)) ≡ true) lines
        → (after lines state).0 ≡ state.0
    unfolding after text_or
    text_after [] state h = refl
    text_after (l ∷ lines) state h =
        ap (λ s. (after lines s).0) (read_event-eq (event l) state)
        ∙ text_after lines (text_or (candidate (event l)) state.0, state.1 || settles (event l)) h.1
        ∙ simp h.0 refl

    -- The text after a line that holds one, and lines that hold none
    last_text :
        (front back : List String) (line : String) (state : String × Bool)
        → is_empty (candidate (event line)) ≡ false
        → All (λ l. is_empty (candidate (event l)) ≡ true) back
        → (after (front ++ line ∷ back) state).0 ≡ candidate (event line)
    unfolding after
    last_text front back line state text later =
        ap (λ s. s.0) (after-append front (line ∷ back) state)
        ∙ text_after back _ later
        ∙ ap (λ s. s.0) (read_event-eq (event line) _)
        ∙ (unfold text_or in simp text refl)

    any-append :
        (front back : List String) (line : String)
        → any (λ l. settles (event l)) back ≡ true
        → any (λ l. settles (event l)) (front ++ line ∷ back) ≡ true
    any-append [] back line h = ground (arith, h)
    any-append (x ∷ front) back line h = ground (arith, any-append front back line h)

    -- Where json.loads reads every line as its event, a line holds an assistant message with a text,
    -- no line after it does, and one after it says that the agent settled, the stream gives the
    -- response of that text.
    pub final_message :
        (front back : List String) (line : String)
        → AreRead (front ++ line ∷ back)
        → is_empty (candidate (event line)) ≡ false
        → All (λ l. is_empty (candidate (event l)) ≡ true) back
        → any (λ l. settles (event l)) back ≡ true
        → parse_pi_event_stream loads dumps_length (front ++ line ∷ back)
          ≡ response_from_text loads dumps_length (candidate (event line))
    unfolding parse_pi_event_stream settled_response
    final_message front back line read text later settled =
        rw
          (
            read_events-after (front ++ line ∷ back) ("", false) read,
            settled_after (front ++ line ∷ back) ("", false),
            last_text front back line ("", false) text later,
            any-append front back line settled,
            text,
          )
          refl

  -- Lines that do not settle leave that, or reading one of them raises.
  unsettled_after :
      (lines : List String) (state : String × Bool)
      → All (λ l. (o : Option Value) → loads l ≡ ok o → settles o ≡ false) lines
      → Ends (IsRaised loads) (λ s. s.1 ≡ state.1) (read_events loads dumps_length lines state)
  unfolding read_events
  unsettled_after [] state h = refl
  unsettled_after (l ∷ lines) state h =
      loaded-Ends loads (λ s. s.1 ≡ state.1) l _
        (λ o e.
          weaken-Ends (IsRaised loads) (IsRaised loads)
            (λ s. s.1 ≡ (read_event loads dumps_length o state).1) (λ s. s.1 ≡ state.1)
            (read_events loads dumps_length lines (read_event loads dumps_length o state))
            (λ x g. g) (λ s g. g ∙ kept o state (h.0 o e))
            (unsettled_after lines (read_event loads dumps_length o state) h.1))

  -- A stream in which no line that json.loads reads says that the agent settled gives no response,
  -- whatever it says: the RuntimeError of a stream that ended before, or what json.loads raises for
  -- a line, if that is no JSONDecodeError.
  pub unsettled_raises :
      (lines : List String)
      → All (λ l. (o : Option Value) → loads l ≡ ok o → settles o ≡ false) lines
      → (parse_pi_event_stream loads dumps_length lines
          ≡ raise (runtime_error "Pi event stream ended before agent_settled"))
        ⊎ ((e : Exn) × IsRaised loads e
            × (parse_pi_event_stream loads dumps_length lines ≡ raise e))
  unfolding parse_pi_event_stream
  unsettled_raises lines h =
      ended (read_events loads dumps_length lines ("", false)) (unsettled_after lines ("", false) h)

-- A RuntimeError, the TypeError of a value that cannot be looked up, or what json.loads raises
abbrev pub IsStreamError : Loads → Exn → Type 0
IsStreamError loads e = ((m : String) × (e ≡ runtime_error m)) ⊎ IsResponseError loads e

settled_response-Ends :
    (loads : Loads) (dumps_length : Value → ℕ) (state : String × Bool)
    → Ends (IsStreamError loads) (λ r. Unit {0}) (settled_response loads dumps_length state)
unfolding settled_response
settled_response-Ends loads dumps_length state = elim (Bool-cases state.1) [
  | inl e ↦ rw e (elim (Bool-cases (is_empty state.0)) [
    | inl f ↦ rw f (inl (_, refl))
    | inr f ↦ rw f (
        weaken-Ends (IsResponseError loads) (IsStreamError loads) (IsResponse loads dumps_length) _
          (response_from_text loads dumps_length state.0) (λ x g. inr g) (λ r g. tt)
          (response_from_text-IsResponse loads dumps_length state.0))
  ])
  | inr e ↦ rw e (inl (_, refl))
]

read_events-Ends :
    (loads : Loads) (dumps_length : Value → ℕ) (lines : List String) (state : String × Bool)
    → Ends (IsRaised loads) (λ s. Unit {0}) (read_events loads dumps_length lines state)
unfolding read_events
read_events-Ends loads dumps_length [] state = tt
read_events-Ends loads dumps_length (l ∷ lines) state =
    loaded-Ends loads (λ s. Unit {0}) l _
      (λ o e. read_events-Ends loads dumps_length lines (read_event loads dumps_length o state))

pub parse_pi_event_stream-Ends :
    (loads : Loads) (dumps_length : Value → ℕ) (lines : List String)
    → Ends (IsStreamError loads) (λ r. Unit {0}) (parse_pi_event_stream loads dumps_length lines)
unfolding parse_pi_event_stream
parse_pi_event_stream-Ends loads dumps_length lines =
    bind-Ends (IsStreamError loads) (λ s. Unit {0}) (λ r. Unit {0})
      (read_events loads dumps_length lines ("", false)) (settled_response loads dumps_length)
      (λ s u. settled_response-Ends loads dumps_length s)
      (weaken-Ends (IsRaised loads) (IsStreamError loads) (λ s. Unit {0}) (λ s. Unit {0})
        (read_events loads dumps_length lines ("", false)) (λ x g. inr (inr g)) (λ s u. u)
        (read_events-Ends loads dumps_length lines ("", false)))
