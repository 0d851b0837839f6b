-- ===== src/Edge/Recorder/Bounded.antt =====
-- audio_diagnostics.py: what is recorded stays within the bound, and ends for good.
use agent_workload_platform.Prelude.{
  ℕ, ◌+◌, ◌*◌, ◌/◌, ◌≤◌, ◌≡◌, refl, ap, ◌∙◌, inl, inr, true, ◌||◌, Option, none, some, List, [],
  ◌∷◌, ◌++◌, arith, Bool-cases, length, length-append, All,
}
use agent_workload_platform.Json.{Value}
use agent_workload_platform.Edge.Recorder.{
  Item, audio, sentinel, Recorder, new_recorder, capacity, offered, measured, record_chunk, close,
  put_sentinel, taken, write, Event, recorded, closed_by, put, wrote, step, run,
}

-- The raw bytes that wait in the queue
abbrev waiting : List Item → ℕ
waiting [] = 0
waiting (audio raw filtered ∷ rest) = length raw + waiting rest
waiting (sentinel ∷ rest) = waiting rest

waiting-append : (xs ys : List Item) → waiting (xs ++ ys) ≡ waiting xs + waiting ys
waiting-append [] ys = omega arith
waiting-append (audio raw filtered ∷ xs) ys = omega (arith, waiting-append xs ys)
waiting-append (sentinel ∷ xs) ys = waiting-append xs ys

-- The raw audio of a chunk is 16-bit samples.
abbrev pub IsWhole : Event → Type 0
IsWhole (recorded raw filtered point) = length raw ≡ 2 * (length raw / 2)
IsWhole _ = Unit {0}

-- Two bytes a frame are written or wait, at most, for the frames that are counted.
pub record IsBounded (max_frames : ℕ) (r : Recorder) : Type 0 where
  pub counted : length r.raw_file + waiting r.queue ≤ 2 * r.raw_frames
  pub within : r.raw_frames ≤ max_frames
  pub queued : length r.queue ≤ capacity

module _ (max_frames : ℕ) where
  record_chunk-IsBounded :
      (raw filtered : List ℕ) (point : Option Value) (r : Recorder)
      → length raw ≡ 2 * (length raw / 2)
      → IsBounded max_frames r
      → IsBounded max_frames (record_chunk max_frames raw filtered point r)
  unfolding record_chunk offered measured
  record_chunk-IsBounded raw filtered none r whole h = record {
    counted = ground (arith, whole, h.counted, waiting-append r.queue (audio raw filtered ∷ []));
    within = ground (arith, h.within);
    queued = ground (arith, h.queued, length-append r.queue (audio raw filtered ∷ []));
  }
  record_chunk-IsBounded raw filtered (some point) r whole h = record {
    counted = ground (arith, whole, h.counted, waiting-append r.queue (audio raw filtered ∷ []));
    within = ground (arith, h.within);
    queued = ground (arith, h.queued, length-append r.queue (audio raw filtered ∷ []));
  }

  put_sentinel-IsBounded :
      (r : Recorder) → IsBounded max_frames r → IsBounded max_frames (put_sentinel r)
  unfolding put_sentinel
  put_sentinel-IsBounded r h = record {
    counted = ground (arith, h.counted, waiting-append r.queue (sentinel ∷ []));
    within = ground (arith, h.within);
    queued = ground (arith, h.queued, length-append r.queue (sentinel ∷ []));
  }

  taken-IsBounded :
      (q : List Item) (r : Recorder)
      → q ≡ r.queue
      → IsBounded max_frames r
      → IsBounded max_frames (taken q r)
  unfolding taken
  taken-IsBounded [] r e h = h
  taken-IsBounded (sentinel ∷ rest) r e h = record {
    counted = omega (arith, h.counted, ap waiting e);
    within = h.within;
    queued = omega (arith, h.queued, ap length e);
  }
  taken-IsBounded (audio raw filtered ∷ rest) r e h = record {
    counted = omega (arith, h.counted, ap waiting e, length-append r.raw_file raw);
    within = h.within;
    queued = omega (arith, h.queued, ap length e);
  }

  step-IsBounded :
      (e : Event) (r : Recorder)
      → IsWhole e
      → IsBounded max_frames r
      → IsBounded max_frames (step max_frames e r)
  unfolding step close write
  step-IsBounded (recorded raw filtered point) r whole h =
      record_chunk-IsBounded raw filtered point r whole h
  step-IsBounded closed_by r whole h = record {
    counted = ground (arith, h.counted);
    within = ground (arith, h.within);
    queued = ground (arith, h.queued);
  }
  step-IsBounded put r whole h = put_sentinel-IsBounded r h
  step-IsBounded wrote r whole h = elim (Bool-cases r.stopped) [
    | inl stopped ↦ simp stopped h
    | inr running ↦ simp running (taken-IsBounded r.queue r refl h)
  ]

  run-from-IsBounded :
      (es : List Event) (r : Recorder)
      → All IsWhole es
      → IsBounded max_frames r
      → IsBounded max_frames (run max_frames es r)
  unfolding run
  run-from-IsBounded [] r whole h = h
  run-from-IsBounded (e ∷ es) r whole h =
      run-from-IsBounded es (step max_frames e r) whole.1 (step-IsBounded e r whole.0 h)

  -- If every chunk's raw audio is whole 16-bit samples, then whatever is recorded, closed and
  -- written, in any order, the raw file and the queue hold at most two bytes for each frame
  -- counted, the frames are at most the maximum, and the queue holds at most 256 items.
  pub run-IsBounded :
      (es : List Event) → All IsWhole es → IsBounded max_frames (run max_frames es new_recorder)
  run-IsBounded es whole =
      run-from-IsBounded es new_recorder whole
        (record { counted = omega arith; within = omega arith; queued = omega arith })

  -- What an ended session keeps
  abbrev Stays : Recorder → Recorder → Type 0
  Stays r after =
      ((after.closed || after.truncated) ≡ true)
      × (after.raw_frames ≡ r.raw_frames)
      × (after.dropped_chunks ≡ r.dropped_chunks)
      × (after.metrics ≡ r.metrics)

  taken-Stays :
      (q : List Item) (r : Recorder) → (r.closed || r.truncated) ≡ true → Stays r (taken q r)
  unfolding taken
  taken-Stays [] r ended = (ended, refl, refl, refl)
  taken-Stays (sentinel ∷ rest) r ended = (ended, refl, refl, refl)
  taken-Stays (audio raw filtered ∷ rest) r ended = (ended, refl, refl, refl)

  step-Stays :
      (e : Event) (r : Recorder) → (r.closed || r.truncated) ≡ true → Stays r (step max_frames e r)
  unfolding step record_chunk close put_sentinel write
  step-Stays (recorded raw filtered point) r ended = rw ended (ended, refl, refl, refl)
  step-Stays closed_by r ended = (ground arith, ground arith, ground arith, ground arith)
  step-Stays put r ended = (ground arith, ground arith, ground arith, ground arith)
  step-Stays wrote r ended = elim (Bool-cases r.stopped) [
    | inl stopped ↦ simp stopped (ended, refl, refl, refl)
    | inr running ↦ simp running (taken-Stays r.queue r ended)
  ]

  -- Once a session is closed or truncated, no step changes the frames that are counted, the chunks
  -- that were dropped and the metrics.
  pub run_ended :
      (es : List Event) (r : Recorder)
      → (r.closed || r.truncated) ≡ true
      → ((run max_frames es r).raw_frames ≡ r.raw_frames)
        × ((run max_frames es r).dropped_chunks ≡ r.dropped_chunks)
        × ((run max_frames es r).metrics ≡ r.metrics)
  unfolding run
  run_ended [] r ended = (refl, refl, refl)
  run_ended (e ∷ es) r ended =
      let kept : Stays r (step max_frames e r) = step-Stays e r ended in
      let rest = run_ended es (step max_frames e r) kept.0 in
      (rest.0 ∙ kept.1, rest.1 ∙ kept.2, rest.2 ∙ kept.3)
