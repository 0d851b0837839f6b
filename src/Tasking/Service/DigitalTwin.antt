-- ===== src/Tasking/Service/DigitalTwin.antt =====
-- tasking/application/service.py: the tasks that one turn of the owner is fanned out to, and the
-- daily journal.
use agent_workload_platform.Prelude.{
  ℕ, suc, ◌+◌, String, ◌≡◌, refl, ap, ◌∙◌, ◌⊎◌, inl, inr, Bool, true, not, ◌&&◌, List, [], ◌∷◌,
  ◌++◌, append_assoc, ltb, leb, if◌then◌else◌, length, is_nil, len, is_empty, concat, strip, Exn,
  type_error, task_error, Result, ok, raise, map_result,
}
use agent_workload_platform.Json.{
  Value, str, arr, obj, Items, nil, cons, Fields, end, field, items, get_or,
}
use agent_workload_platform.Tasking.Exec.{Command, World, Exec, pure, lift, ◌>>=◌, ◌>>◌}
use agent_workload_platform.Tasking.Owner
use agent_workload_platform.Tasking.Owner.Submits.{submits, Submitted, submit-submits_after}
use agent_workload_platform.Tasking.Exec.Keeps.{bind_outcome, bind_keeping}
use agent_workload_platform.Tasking.TaskView.{Env, require}
use agent_workload_platform.Tasking.TaskView.Reads.{require-Keeps}

-- len of item.get("transcript", "")
len_of : Value → Result ℕ
len_of (str s) = ok (len s)
len_of (arr vs) = ok (length (items vs))
len_of (obj d) = ok (entries d)
  where
    entries : Fields → ℕ
    entries end = 0
    entries (field k v r) = suc (entries r)
len_of _ = raise (type_error "object has no len()")

added : Result ℕ → Result ℕ → Result ℕ
added (raise e) others = raise e
added (ok n) others = map_result (λ m. n + m) others

-- sum(len(item.get("transcript", "")) for item in sources)
total_length : List Fields → Result ℕ
unfolding added len_of
total_length [] = ok 0
total_length (item ∷ rest) = added (len_of (get_or "transcript" (str "") item)) (total_length rest)

-- A list of dicts as JSON
values : List Fields → Items
values [] = nil
values (d ∷ ds) = cons (obj d) (values ds)

module _ (env : Env) where
  open env use {peer}

  pub source_key : String → String → String
  source_key session_id message_id = concat (strip session_id) (concat ":" (strip message_id))

  pub twin_key : String → String → String → String
  twin_key mode session_id message_id =
      concat "digital-twin:" (concat mode (concat ":" (source_key session_id message_id)))

  pub twin_params : String → String → String → String → String → String → Value
  twin_params mode identity session_id message_id transcript captured_at = obj (
      field "mode" (str mode) (
        field "identity" (str identity) (
          field "sessionId" (str (strip session_id)) (
            field "messageId" (str (strip message_id)) (
              field "transcript" (str (strip transcript))
                (field "capturedAt" (str captured_at) end))))))

  -- One of the two tasks of a turn: its id and its idempotency key
  pub enqueue_mode : String → String → String → String → String → String → Exec (String × String)
  enqueue_mode mode identity session_id message_id transcript captured_at = do
    task_id ←
        Owner.submit peer (concat "digital-twin-" mode)
          (twin_params mode identity session_id message_id transcript captured_at)
          (env.uuid5 (twin_key mode session_id message_id))
    pure (task_id, twin_key mode session_id message_id)

  -- The loop over the modes
  enqueue_modes :
      String → String → String → String → String → Exec ((String × String) × (String × String))
  enqueue_modes identity session_id message_id transcript captured_at = do
    journal ← enqueue_mode "journal" identity session_id message_id transcript captured_at
    classify ← enqueue_mode "classify" identity session_id message_id transcript captured_at
    pure (journal, classify)

  pub enqueue_digital_twin :
      String → String → String → String → String → Exec ((String × String) × (String × String))
  unfolding require
  enqueue_digital_twin identity session_id message_id transcript captured_at = do
    require (not (is_empty (strip transcript))) (task_error "transcript cannot be empty")
    require (leb (len (strip transcript)) 20000) (task_error "transcript is too large")
    require (not (is_empty (strip session_id)) && not (is_empty (strip message_id)))
        (task_error "session_id and message_id are required")
    enqueue_modes identity session_id message_id transcript captured_at

  pub journal_key : String → String → String → List Fields → String
  journal_key identity journal_date time_zone sources = concat "digital-twin:daily-journal:" (
      concat (env.sha256 (env.lower (strip identity))) (
        concat ":" (
          concat journal_date (
            concat ":"
              (concat time_zone (concat ":" (env.sha256 (env.dumps (arr (values sources))))))))))

  pub journal_params : String → String → String → List Fields → Value
  journal_params identity journal_date time_zone sources = obj (
      field "mode" (str "daily-journal") (
        field "identity" (str identity) (
          field "journalDate" (str journal_date)
            (field "timeZone" (str time_zone) (field "sources" (arr (values sources)) end)))))

  -- len(sources) > 300 or the total over 200000; the total is read only where it counts.
  too_large : List Fields → Result Bool
  too_large sources =
      if ltb 300 (length sources)
      then ok true
      else map_result (λ n. ltb 200000 n) (total_length sources)

  unfoldable pub enqueue_daily_journal :
      String → String → String → List Fields → Exec (String × String)
  unfolding require too_large total_length added len_of
  enqueue_daily_journal identity journal_date time_zone sources = do
    require (not (is_nil sources)) (task_error "daily journal requires at least one source message")
    large ← lift (too_large sources)
    require (not large) (task_error "daily journal source bundle exceeds its size limit")
    task_id ←
        Owner.submit peer "digital-twin-daily-journal"
          (journal_params identity journal_date time_zone sources)
          (env.uuid5 (journal_key identity journal_date time_zone sources))
    pure (task_id, journal_key identity journal_date time_zone sources)

module _ (env : Env) (identity session_id message_id transcript captured_at : String) where
  -- The submission of one of the two tasks
  abbrev pub twin_command : String → Command
  twin_command mode =
      Command.submit (concat "digital-twin-" mode)
        (obj (
          field "mode" (str mode) (
            field "identity" (str identity) (
              field "sessionId" (str (strip session_id)) (
                field "messageId" (str (strip message_id)) (
                  field "transcript" (str (strip transcript))
                    (field "capturedAt" (str captured_at) end)))))))
        (env.uuid5 (
          concat "digital-twin:"
            (concat mode (concat ":" (concat (strip session_id) (concat ":" (strip message_id)))))))

  -- What is submitted after `cs`: nothing, the journal, or the journal and the classification.
  abbrev pub TwinOutcome : List Command → World → Type 0
  TwinOutcome cs w =
      (submits w.sent ≡ cs)
      ⊎ (submits w.sent ≡ cs ++ twin_command "journal" ∷ [])
      ⊎ (submits w.sent ≡ cs ++ twin_command "journal" ∷ twin_command "classify" ∷ [])

  enqueue_mode-submits :
      (mode : String) (w : World)
      → submits
          (enqueue_mode env mode identity session_id message_id transcript captured_at w).1.sent
        ≡ submits w.sent ++ twin_command mode ∷ []
  unfolding enqueue_mode twin_params twin_key source_key
  enqueue_mode-submits mode w =
      bind_outcome (λ w'. submits w'.sent ≡ submits w.sent ++ twin_command mode ∷ []) _ _ w
        (λ id w' e. unfold pure in submit-submits_after env.peer _ _ _ w w' e)
        (λ x w' e. submit-submits_after env.peer _ _ _ w w' e)

  mode_after :
      (mode : String) (cs : List Command) (w : World) {r : Result (String × String)} (w' : World)
      → enqueue_mode env mode identity session_id message_id transcript captured_at w ≡ (r, w')
      → submits w.sent ≡ cs
      → submits w'.sent ≡ cs ++ twin_command mode ∷ []
  mode_after mode cs w w' e h =
      rw (← ap (λ p. submits p.1.sent) e, ← h) (enqueue_mode-submits mode w)

  both_modes :
      (cs : List Command) (w : World)
      → submits w.sent ≡ cs
      → TwinOutcome cs (enqueue_modes env identity session_id message_id transcript captured_at w).1
  unfolding enqueue_modes pure
  both_modes cs w h =
      bind_outcome (TwinOutcome cs) _ _ w
        (λ j w₁ e₁.
          let one : submits w₁.sent ≡ cs ++ twin_command "journal" ∷ [] =
            mode_after "journal" cs w w₁ e₁ h in
          bind_outcome (TwinOutcome cs) _ _ w₁ (λ c w₂ e₂. inr (inr (two w₁ w₂ e₂ one)))
            (λ x w₂ e₂. inr (inr (two w₁ w₂ e₂ one))))
        (λ x w₁ e₁. inr (inl (mode_after "journal" cs w w₁ e₁ h)))
    where
      two :
          (w₁ : World) {r : Result (String × String)} (w₂ : World)
          → enqueue_mode env "classify" identity session_id message_id transcript captured_at w₁
            ≡ (r, w₂)
          → submits w₁.sent ≡ cs ++ twin_command "journal" ∷ []
          → submits w₂.sent ≡ cs ++ twin_command "journal" ∷ twin_command "classify" ∷ []
      two w₁ w₂ e₂ one =
          mode_after "classify" _ w₁ w₂ e₂ one
          ∙ append_assoc cs (twin_command "journal" ∷ []) (twin_command "classify" ∷ [])

  -- A test that comes first submits nothing.
  required :
      (cs : List Command) (b : Bool) (e : Exn)
      (f : Unit {0} → Exec ((String × String) × (String × String)))
      → ((w : World) → submits w.sent ≡ cs → TwinOutcome cs (f tt w).1)
      → (w : World) → submits w.sent ≡ cs
      → TwinOutcome cs ((require b e >>= f) w).1
  required cs b e f goes_on =
      bind_keeping (Submitted cs) (TwinOutcome cs) (require b e) f (require-Keeps env cs b e)
        (λ w h. inl h) (λ _ w h. goes_on w h)

  -- Whatever the owner answers, a turn submits nothing, its journal task, or its journal task and
  -- then its classification. Both stand under ids made of the stripped session and message ids
  -- alone, so that sending the turn again repeats the same two requests.
  pub enqueue_digital_twin-submits :
      (w : World)
      → TwinOutcome
          (submits w.sent)
          (enqueue_digital_twin env identity session_id message_id transcript captured_at w).1
  unfolding enqueue_digital_twin
  enqueue_digital_twin-submits w =
      let cs = submits w.sent in
      required cs _ _ _ (required cs _ _ _ (required cs _ _ _ (both_modes cs))) w refl
