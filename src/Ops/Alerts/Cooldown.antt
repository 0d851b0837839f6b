-- ===== src/Ops/Alerts/Cooldown.antt =====
-- stack_alert_monitor.py: an incident that was submitted is not submitted again within the cooldown.
use agent_workload_platform.Prelude.{
  ℕ, ◌+◌, ◌<◌, String, ◌≡◌, refl, ◌∙◌, inl, inr, Bool, true, false, Option, none, some, List, [],
  ◌∷◌, ◌++◌, append-nil, arith, ◌==◌, eq_iff, eq_refl, leb, if◌then◌else◌, Bool-cases, map_option,
  All, Result, ok, raise,
}
use agent_workload_platform.Json.{Fields}
use agent_workload_platform.Ops.Alerts.Table.{
  Incident, select, replace, retired, select-replace, select-set_submitted,
  select-deactivate_missing,
}
use agent_workload_platform.Ops.Alerts.{
  cooldown_seconds, Submission, Host, Monitor, Progress, Step, next_row, seen_again, cooled,
  submission, deliver, written, handle_key, handled, with_key, continue, loop, finish,
  process_alerts, member, Poll, Main, round, rounds, outage_alert,
}
use agent_workload_platform.Ops.Alerts.Keys.{Rule, Rules}

-- A row that was submitted at time `t`.
abbrev pub IsSettled : ℕ → Option Incident → Type 0
IsSettled t none = ⊥
IsSettled t (some row) = (row.submitted ≡ true) × (row.last_submitted ≡ some t)

-- The submissions of a key, in order.
abbrev pub sent_for : String → List Submission → List Submission
sent_for k [] = []
sent_for k (s ∷ rest) = if s.key == k then s ∷ sent_for k rest else sent_for k rest

sent_for-append :
    (k : String) (xs ys : List Submission) → sent_for k (xs ++ ys) ≡ sent_for k xs ++ sent_for k ys
sent_for-append k [] ys = refl
sent_for-append k (s ∷ xs) ys = ground (arith, sent_for-append k xs ys)

-- A submission of another key does not show.
sent_for_other :
    (k : String) (xs : List Submission) (s : Submission)
    → (s.key == k) ≡ false
    → sent_for k (xs ++ s ∷ []) ≡ sent_for k xs
sent_for_other k xs s ne = sent_for-append k xs (s ∷ []) ∙ rw ne (append-nil (sent_for k xs))

module _ (k : String) (t : ℕ) where
  -- The key is settled, and the submissions of the key are those given.
  pub record Holds (before : List Submission) (m : Monitor) : Type 0 where
    pub settled : IsSettled t (select k m.database)
    pub unchanged : sent_for k m.sent ≡ before

module _ (host : Host) (identity : String) (k : String) (t now : ℕ)
    (early : now < t + cooldown_seconds) where
  next_row-IsSettled :
      (uid : String) (rule : Option Rule) (old : Option Incident) (row : Incident)
      → IsSettled t old
      → next_row host identity now uid rule old ≡ ok row
      → IsSettled t (some row)
  unfolding next_row seen_again cooled
  next_row-IsSettled uid rule none row s h = absurd s
  next_row-IsSettled uid (some rule) (some old) row s h = ground arith
  next_row-IsSettled uid none (some old) row s h = ground arith

  written_own :
      (m : Monitor) (before : List Submission) (r : Result Incident)
      → ((row : Incident) → r ≡ ok row → IsSettled t (some row))
      → Holds k t before m
      → Holds k t before (written host identity now k m r).1
  unfolding written
  written_own m before (raise e) s h = h
  written_own m before (ok row) s h =
      let settled : IsSettled t (some row) = s row refl in
      simp settled.0
        (record { settled = simp (select-replace, eq_refl) settled; unchanged = h.unchanged })

  written_other :
      (j : String) (m : Monitor) (before : List Submission) (r : Result Incident)
      → (j == k) ≡ false
      → Holds k t before m
      → Holds k t before (written host identity now j m r).1
  unfolding written deliver submission
  written_other j m before (raise e) ne h = h
  written_other j m before (ok row) ne h = record {
    settled = ground (
      arith,
      h.settled,
      select-replace j k row m.database,
      select-set_submitted j k now (replace j row m.database),
    );
    unchanged =
        ground (arith, h.unchanged, sent_for_other k m.sent (submission host identity j row) ne);
  }

  -- Handling any key leaves a settled key settled, and sends nothing for it.
  handle_key-Holds :
      (rules : Rules) (j : String) (m : Monitor) (before : List Submission)
      → Holds k t before m
      → Holds k t before (handle_key host identity now rules j m).1
  handle_key-Holds rules j m before h = elim (Bool-cases (j == k)) [
    | inl same ↦
        let j_is_k : j ≡ k = (eq_iff j k).0 same in
        rw j_is_k (
          unfold handle_key in
          written_own m before _
            (λ row e. next_row-IsSettled _ _ (select k m.database) row h.settled e) h)
    | inr other ↦ unfold handle_key in written_other j m before _ other h
  ]

  -- The key holds after a run, and in what a run that goes on carries.
  abbrev HoldsRun : List Submission → Result Progress × Monitor → Type 0
  HoldsRun before (raise e, m) = Holds k t before m
  HoldsRun before (ok p, m) = Holds k t before p.monitor × Holds k t before m

  handled-HoldsRun :
      (before : List Submission) (key : String) (p : Progress) (run : Step Bool)
      → Holds k t before run.1
      → HoldsRun before (handled host identity key p run)
  unfolding handled
  handled-HoldsRun before key p (raise e, m) h = h
  handled-HoldsRun before key p (ok sent, m) h = (h, h)

  with_key-HoldsRun :
      (rules : Rules) (before : List Submission) (p : Progress) (key : Result (Option String))
      → Holds k t before p.monitor
      → HoldsRun before (with_key host identity now rules p key)
  unfolding with_key
  with_key-HoldsRun rules before p (raise e) h = h
  with_key-HoldsRun rules before p (ok none) h = (h, h)
  with_key-HoldsRun rules before p (ok (some key)) h =
      elim (Bool-cases (member key p.active_keys)) [
        | inl seen ↦ rw seen (h, h)
        | inr new ↦
            rw new (handled-HoldsRun before key p _ (handle_key-Holds rules key p.monitor before h))
      ]

  continue-HoldsRun :
      (before : List Submission) (run : Result Progress × Monitor)
      (rest : Progress → Result Progress × Monitor)
      → HoldsRun before run
      → ((p : Progress) → Holds k t before p.monitor → HoldsRun before (rest p))
      → HoldsRun before (continue host identity run rest)
  unfolding continue
  continue-HoldsRun before (raise e, m) rest h next = h
  continue-HoldsRun before (ok p, m) rest h next = next p h.0

  loop-HoldsRun :
      (rules : Rules) (fetched : List Fields) (p : Progress) (before : List Submission)
      → Holds k t before p.monitor
      → HoldsRun before (loop host identity now rules fetched p)
  unfolding loop
  loop-HoldsRun rules [] p before h = (h, h)
  loop-HoldsRun rules (alert ∷ rest) p before h =
      continue-HoldsRun before _ _ (with_key-HoldsRun rules before p _ h)
        (λ q g. loop-HoldsRun rules rest q before g)

  retired-IsSettled :
      (seen : Bool) (row : Option Incident)
      → IsSettled t row
      → IsSettled t (map_option (retired seen) row)
  retired-IsSettled seen none h = h
  retired-IsSettled seen (some row) h = ground arith

  finish-Holds :
      (before : List Submission) (clear_missing : Bool) (run : Result Progress × Monitor)
      → HoldsRun before run
      → Holds k t before (finish host identity clear_missing run).1
  unfolding finish
  finish-Holds before clear_missing (raise e, m) h = h
  finish-Holds before false (ok p, m) h = h.1
  finish-Holds before true (ok p, m) h = record {
    settled =
        rw (select-deactivate_missing (λ key. member key p.active_keys) k m.database)
          (retired-IsSettled (member k p.active_keys) (select k m.database) h.1.settled);
    unchanged = h.1.unchanged;
  }

  process_alerts-Holds :
      (fetched : List Fields) (rules : Rules) (clear_missing : Bool) (m : Monitor)
      (before : List Submission)
      → Holds k t before m
      → Holds k t before (process_alerts host identity fetched rules now clear_missing m).1
  unfolding process_alerts
  process_alerts-Holds fetched rules clear_missing m before h =
      finish-Holds before clear_missing _ (loop-HoldsRun rules fetched _ before h)

  round-Holds :
      (rules : Rules) (poll : Poll) (s : Main) (before : List Submission)
      → Holds k t before s.monitor
      → Holds k t before (round host identity rules now poll s).monitor
  unfolding round
  round-Holds rules (Poll.alerts fetched) s before h =
      process_alerts-Holds fetched rules true s.monitor before h
  round-Holds rules Poll.failed s before h = elim (Bool-cases (leb 3 (s.grafana_failures + 1))) [
    | inl outage ↦
        rw outage (process_alerts-Holds (outage_alert ∷ []) rules false s.monitor before h)
    | inr wait ↦ rw wait h
  ]

module _ (host : Host) (identity : String) (rules : Rules) (k : String) (t : ℕ) where
  rounds-Holds :
      (polls : List (ℕ × Poll)) (s : Main) (before : List Submission)
      → All (λ poll. poll.0 < t + cooldown_seconds) polls
      → Holds k t before s.monitor
      → Holds k t before (rounds host identity rules polls s).monitor
  unfolding rounds
  rounds-Holds [] s before early h = h
  rounds-Holds ((now, poll) ∷ rest) s before early h =
      rounds-Holds rest _ before early.1
        (round-Holds host identity k t now early.0 rules poll s before h)

  -- If a key was submitted at a time, then no list of rounds whose times are all less than the
  -- cooldown after it, whatever the polls return and the owner answers, submits the key again, and
  -- its row is still marked with that time.
  pub not_again_in_cooldown :
      (polls : List (ℕ × Poll)) (s : Main)
      → IsSettled t (select k s.monitor.database)
      → All (λ poll. poll.0 < t + cooldown_seconds) polls
      → (sent_for k (rounds host identity rules polls s).monitor.sent ≡ sent_for k s.monitor.sent)
        × IsSettled t (select k (rounds host identity rules polls s).monitor.database)
  not_again_in_cooldown polls s settled early =
      let held : Holds k t (sent_for k s.monitor.sent)
          (rounds host identity rules polls s).monitor =
        rounds-Holds polls s _ early (record { settled = settled; unchanged = refl }) in
      (held.unchanged, held.settled)
