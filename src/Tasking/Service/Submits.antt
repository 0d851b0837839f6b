-- ===== src/Tasking/Service/Submits.antt =====
-- tasking/application/service.py: what a submission sends.
use agent_workload_platform.Prelude.{
  String, ◌≡◌, refl, ◌⊎◌, inl, inr, Option, List, [], ◌∷◌, ◌++◌, ok,
}
use agent_workload_platform.Json.{Value, null, Fields}
use agent_workload_platform.Tasking.Exec.{Command, World, lift, ◌>>=◌}
use agent_workload_platform.Tasking.Exec.Keeps.{
  Keeps, Keeps-throw, Keeps-bind, bind_outcome, lift_run,
}
use agent_workload_platform.Tasking.Owner
use agent_workload_platform.Tasking.Owner.{get_task, describe}
use agent_workload_platform.Tasking.Owner.Submits.{
  submits, Submitted, submit-submits_after, describe-Keeps,
}
use agent_workload_platform.Tasking.Albums.{SessionAlbum, album_for_session}
use agent_workload_platform.Tasking.TaskView.{Env, Plan, plan}
use agent_workload_platform.Tasking.Service.{described_view, run_params, submit}
use agent_workload_platform.Tasking.TaskView.Reads.{native_view-Keeps}

module _ (env : Env) (cs : List Command) where
  described_view-Keeps : (v : Value) → Keeps (Submitted cs) (described_view env v)
  unfolding described_view
  described_view-Keeps null = Keeps-throw _
  described_view-Keeps v = native_view-Keeps env cs v

module _ (env : Env) (task_id identity instruction workspace : String) (trace : Option Fields) where
  abbrev pub run_command : Plan → SessionAlbum → Command
  run_command p album =
      Command.submit "agent-run" (run_params env identity p album task_id trace) task_id

  -- Nothing was submitted after `cs`, or the run of the plan under the session's album.
  abbrev pub Admission : List Command → World → Type 0
  Admission cs w =
      (submits w.sent ≡ cs)
      ⊎ ((p : Plan) × (album : SessionAlbum) × (plan env instruction workspace ≡ ok p)
          × (album_for_session env.digest_head task_id ≡ ok album)
          × (submits w.sent ≡ cs ++ run_command p album ∷ []))

  -- After the submission only descriptions follow.
  described-Submitted :
      (ext : List Command) (w : World)
      → submits w.sent ≡ ext
      → submits ((describe env.peer task_id >>= described_view env) w).1.sent ≡ ext
  described-Submitted ext w h =
      (Keeps-bind {P = Submitted ext} _ _ (describe-Keeps env.peer ext task_id)
          (described_view-Keeps env ext)).at
        w h

  sent_plan :
      (p : Plan) (album : SessionAlbum) (w : World)
      → submits
          ((Owner.submit env.peer "agent-run"
                (run_params env identity p album task_id trace)
                task_id
              >>= λ _. describe env.peer task_id >>= described_view env)
            w).1.sent
        ≡ submits w.sent ++ run_command p album ∷ []
  sent_plan p album w =
      bind_outcome (Submitted (submits w.sent ++ run_command p album ∷ []))
        (Owner.submit env.peer "agent-run" (run_params env identity p album task_id trace) task_id)
        _ w (λ id w' e. described-Submitted _ w' (submit-submits_after env.peer _ _ _ w w' e))
        (λ x w' e. submit-submits_after env.peer _ _ _ w w' e)

  -- Whatever the owner answers, `submit` submits nothing, or exactly one `agent-run`: the plan of
  -- the instruction and the workspace, with the caller's identity, under the fresh id and the album
  -- that belongs to it.
  pub submit-admits :
      (w : World)
      → Admission (submits w.sent) (submit env task_id identity instruction workspace trace w).1
  unfolding submit
  submit-admits w =
      bind_outcome (Admission (submits w.sent)) (lift (plan env instruction workspace)) _ w
        (λ p w₁ e₁.
          bind_outcome (Admission (submits w.sent))
            (lift (album_for_session env.digest_head task_id)) _ w₁
            (λ album w₂ e₂. inr (
              p,
              album,
              (lift_run _ w e₁).0,
              (lift_run _ w₁ e₂).0,
              rw ((lift_run _ w e₁).1, (lift_run _ w₁ e₂).1) (sent_plan p album w₂),
            ))
            (λ x w₂ e₂. inl (rw (← (lift_run _ w₁ e₂).1, ← (lift_run _ w e₁).1) refl)))
        (λ x w₁ e₁. inl (rw (← (lift_run _ w e₁).1) refl))
