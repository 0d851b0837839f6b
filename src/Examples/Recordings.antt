-- ===== src/Examples/Recordings.antt =====
-- A session of at most three frames.
use agent_workload_platform.Prelude.{◌≡◌, refl, true, none, List, [], ◌∷◌}
use agent_workload_platform.Edge.Recorder.{
  Recorder, new_recorder, Event, recorded, closed_by, put, wrote, record_chunk, close, put_sentinel,
  write, step, run,
}
use agent_workload_platform.Edge.Recorder.Bounded.{IsBounded, run-IsBounded, run_ended}

abbrev events : List Event
events =
    recorded (1 ∷ 2 ∷ 3 ∷ 4 ∷ []) (0 ∷ 0 ∷ 0 ∷ 0 ∷ []) none
    ∷ wrote
    ∷ recorded (5 ∷ 6 ∷ 7 ∷ 8 ∷ []) (0 ∷ 0 ∷ 0 ∷ 0 ∷ []) none
    ∷ closed_by
    ∷ put
    ∷ wrote
    ∷ []

-- The second chunk would exceed the bound.
file_of_first : (run 3 events new_recorder).raw_file ≡ 1 ∷ 2 ∷ 3 ∷ 4 ∷ []
unfolding run step record_chunk close put_sentinel write
file_of_first = refl

run-IsBounded_example : IsBounded 3 (run 3 events new_recorder)
run-IsBounded_example = run-IsBounded 3 events (refl, (tt, (refl, (tt, (tt, (tt, tt))))))

abbrev ended : Recorder
ended = record new_recorder { closed = true; closing = true }

run_ended_example :
    ((run 3 events ended).raw_frames ≡ 0)
    × ((run 3 events ended).dropped_chunks ≡ 0)
    × ((run 3 events ended).metrics ≡ [])
run_ended_example = run_ended 3 events ended refl
