-- ===== src/Examples/Responses.antt =====
-- Event streams and texts of Pi, as responses.
use agent_workload_platform.Json.Loading.{Loads, IsRaised}
use agent_workload_platform.Tasking.PiResponse.{text_or}
use agent_workload_platform.Prelude.{
  Result, Bool, sym, ◌∙◌, Exn, ◌⊎◌, false, ok, value_error, ℕ, String, ◌≡◌, refl, ap, Option, none,
  some, [], ◌∷◌, ◌==◌, if◌then◌else◌, is_empty, strip, type_error, runtime_error, raise,
}
use agent_workload_platform.Json.{Value, str, arr, obj, nil, end, field}
use agent_workload_platform.Tasking.PiResponse.{
  parse_pi_event_stream, response_from_text, message_text,
}
use agent_workload_platform.Tasking.PiResponse.Stream.{
  settles, candidate, final_message, unsettled_raises,
}

abbrev said : String → Value
said text = obj (
    field "type" (str "message_end")
      (field "message" (obj (field "role" (str "assistant") (field "content" (str text) end))) end))

-- Four lines that are JSON; any other is not.
abbrev event : String → Option Value
event line =
    if line == "first"
    then some (said "Looking.")
    else if line == "last"
    then some (said " Done. ")
    else if line == "settled"
    then some (obj (field "type" (str "agent_settled") end))
    else if line == "bad kind"
    then some (obj (field "presentation" (obj (field "kind" (arr nil) end)) end))
    else none

-- One more line makes json.loads raise.
abbrev loads : Loads
loads line =
    if line == "digits"
    then raise (value_error "Exceeds the limit (4300 digits) for integer string conversion")
    else ok (event line)

abbrev dumps_length : Value → ℕ
dumps_length v = 10

last_said : candidate (event "last") ≡ "Done."
unfolding message_text strip
last_said = refl

final_message_example :
    parse_pi_event_stream loads dumps_length ("first" ∷ "noise" ∷ "last" ∷ "settled" ∷ [])
    ≡ response_from_text loads dumps_length (candidate (event "last"))
final_message_example =
    final_message loads dumps_length event ("first" ∷ "noise" ∷ []) ("settled" ∷ []) "last"
      (refl, (refl, (refl, (refl, tt)))) (ap is_empty last_said) (refl, tt) refl

-- An assistant message after the agent settled counts all the same.
said_later :
    parse_pi_event_stream loads dumps_length ("first" ∷ "settled" ∷ "last" ∷ [])
    ≡ response_from_text loads dumps_length "Done."
unfolding parse_pi_event_stream message_text strip response_from_text text_or
said_later = refl

-- A line with an int of too many digits ends the stream.
too_many_digits :
    parse_pi_event_stream loads dumps_length ("last" ∷ "digits" ∷ "settled" ∷ [])
    ≡ raise (value_error "Exceeds the limit (4300 digits) for integer string conversion")
unfolding parse_pi_event_stream
too_many_digits = refl

abbrev settles_in : Result (Option Value) → Bool
settles_in (ok o) = settles o
settles_in (raise e) = false

silent :
    (v : Option Value)
    → settles v ≡ false
    → (o : Option Value) → ◌≡◌ {A = Result (Option Value)} (ok v) (ok o)
    → settles o ≡ false
silent v h o e = sym (ap settles_in e) ∙ h

unsettled_raises_example :
    (parse_pi_event_stream loads dumps_length ("first" ∷ "last" ∷ [])
      ≡ raise (runtime_error "Pi event stream ended before agent_settled"))
    ⊎ ((e : Exn) × IsRaised loads e
        × (parse_pi_event_stream loads dumps_length ("first" ∷ "last" ∷ []) ≡ raise e))
unsettled_raises_example =
    unsettled_raises loads dumps_length ("first" ∷ "last" ∷ [])
      (silent (event "first") refl, (silent (event "last") refl, tt))

-- A kind that is a list is no kind, and no fallback either.
unhashable_kind :
    response_from_text loads dumps_length "bad kind" ≡ raise (type_error "unhashable type: 'list'")
unfolding response_from_text strip
unhashable_kind = refl
