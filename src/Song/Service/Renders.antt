-- ===== src/Song/Service/Renders.antt =====
-- song_service.py: what a render submits, and who may ask for it.
use agent_workload_platform.Prelude.{
  String, ◌≡◌, refl, ap, subst, ◌⊎◌, inl, inr, Bool, Option, none, some, List, [], ◌∷◌, ◌++◌,
  is_some, Result, ok,
}
use agent_workload_platform.Json.{Fields}
use agent_workload_platform.Tasking.Exec.{Command, World}
use agent_workload_platform.Tasking.Exec.Keeps.{Keeps-throw, Keeps-bind, bind_outcome, kept}
use agent_workload_platform.Tasking.Owner.{submit}
use agent_workload_platform.Tasking.Owner.Submits.{submits, Submitted, submit-submits}
use agent_workload_platform.Song.Manifest.{SongManifest}
use agent_workload_platform.Song.Manifest.Bounds.{IsManifest, pi_result-IsManifest}
use agent_workload_platform.Song.Lifecycle.{
  RenderReadiness, already_requested, SongTaskSnapshot, RenderDecision, decide_render,
}
use agent_workload_platform.Song.Lifecycle.Laws.{ready_iff}
use agent_workload_platform.Song.Service.{
  Env, Row, is_set, get_owned, snapshot, render_task_id, render_params, rendered, render,
}
use agent_workload_platform.Song.Service.Reads.{get_owned-Keeps, snapshot-Keeps, view-Keeps}

module _ (env : Env) (identity generation_id : String) (trace : Option Fields) where
  -- The one submission that a render can make.
  abbrev pub render_command : SongManifest → Command
  render_command m =
      Command.submit "song-render" (render_params env identity generation_id m trace)
        (render_task_id env generation_id)

  -- Either nothing was submitted after `cs`, or the render of one valid manifest was.
  abbrev pub RenderOutcome : List Command → World → Type 0
  RenderOutcome cs w =
      (submits w.sent ≡ cs)
      ⊎ ((m : SongManifest) × IsManifest m × (submits w.sent ≡ cs ++ render_command m ∷ []))

  decided-IsManifest :
      (is_cancelled requested : Bool) (lyrics : SongTaskSnapshot) (m : SongManifest)
      → decide_render env.loads is_cancelled requested lyrics ≡ (RenderReadiness.ready, some m)
      → IsManifest m
  decided-IsManifest c r l m h =
      pi_result-IsManifest env.loads m l.1 ((ready_iff env.loads c r l m).0 h).3

  submitted_outcome :
      (m : SongManifest) (row : Row) (w : World)
      → IsManifest m
      → RenderOutcome
          (submits w.sent)
          (rendered env identity generation_id trace row (RenderReadiness.ready, some m) w).1
  unfolding rendered
  submitted_outcome m row w valid = inr (
    m,
    valid,
    bind_outcome (Submitted extended)
        (submit env.peer "song-render" (render_params env identity generation_id m trace)
          (render_task_id env generation_id))
        _ w
        (λ id w' e.
          (Keeps-bind {P = Submitted extended} _ _
              (get_owned-Keeps env extended identity generation_id)
              (λ again. view-Keeps env extended again)).at
            w' (submitted w' e))
        (λ x w' e. submitted w' e),
  )
    where
      extended : List Command
      extended = submits w.sent ++ render_command m ∷ []

      submitted :
          {r : Result String} (w' : World)
          → submit env.peer "song-render"
              (render_params env identity generation_id m trace)
              (render_task_id env generation_id)
              w
            ≡ (r, w')
          → submits w'.sent ≡ extended
      submitted w' e = rw (← ap (λ p. submits p.1.sent) e) (submit-submits env.peer _ _ _ w)

  rendered_outcome :
      (d : RenderDecision) (row : Row) (w : World)
      → ((m : SongManifest) → d ≡ (RenderReadiness.ready, some m) → IsManifest m)
      → RenderOutcome (submits w.sent) (rendered env identity generation_id trace row d w).1
  unfolding rendered
  rendered_outcome (RenderReadiness.ready, some m) row w valid =
      submitted_outcome m row w (valid m refl)
  rendered_outcome (RenderReadiness.ready, none) row w valid =
      inl ((Keeps-throw {P = Submitted (submits w.sent)} _).at w refl)
  rendered_outcome (already_requested, _) row w valid =
      inl ((view-Keeps env (submits w.sent) row).at w refl)
  rendered_outcome (_, _) row w valid =
      inl ((Keeps-throw {P = Submitted (submits w.sent)} _).at w refl)

  -- Whatever the owner answers, `render` submits nothing, or exactly one `song-render` task: under
  -- the id that belongs to the generation, so that a retry repeats the request, with the caller's
  -- identity and a manifest within every bound.
  pub render-submits :
      (w : World) → RenderOutcome (submits w.sent) (render env identity generation_id trace w).1
  unfolding render
  render-submits w =
      bind_outcome (RenderOutcome (submits w.sent)) (get_owned env identity generation_id) _ w
        (λ row w₁ e₁.
          bind_outcome (RenderOutcome (submits w.sent)) (snapshot env row.lyrics_task_id) _ w₁
            (λ lyrics w₂ e₂.
              subst
                (λ cs.
                  RenderOutcome cs
                    (rendered env identity generation_id trace row (decision row lyrics) w₂).1)
                (read₂ row w₁ e₁ w₂ e₂)
                (rendered_outcome (decision row lyrics) row w₂ (
                  decided-IsManifest (is_set row.cancelled_at) (is_some row.render_task_id)
                    lyrics)))
            (λ x w₂ e₂. inl (read₂ row w₁ e₁ w₂ e₂)))
        (λ x w₁ e₁. inl (read₁ w₁ e₁))
    where
      decision : Row → SongTaskSnapshot → RenderDecision
      decision row lyrics =
          decide_render env.loads (is_set row.cancelled_at) (is_some row.render_task_id) lyrics

      read₁ :
          {r : Result Row} (w₁ : World)
          → get_owned env identity generation_id w ≡ (r, w₁)
          → submits w₁.sent ≡ submits w.sent
      read₁ w₁ e = kept (get_owned-Keeps env (submits w.sent) identity generation_id) w e refl

      read₂ :
          (row : Row) (w₁ : World)
          → get_owned env identity generation_id w ≡ (ok row, w₁)
          → {r : Result SongTaskSnapshot} (w₂ : World)
          → snapshot env row.lyrics_task_id w₁ ≡ (r, w₂)
          → submits w₂.sent ≡ submits w.sent
      read₂ row w₁ e₁ w₂ e₂ =
          kept (snapshot-Keeps env (submits w.sent) row.lyrics_task_id) w₁ e₂ (read₁ w₁ e₁)
