-- ===== src/Song/Service/Reads.antt =====
-- song_service.py: reading a song submits nothing.
use agent_workload_platform.Prelude.{String, Bool, true, false, Option, none, some, List, Exn}
use agent_workload_platform.Json.{Value, null}
use agent_workload_platform.Tasking.Exec.{Command}
use agent_workload_platform.Tasking.Exec.Keeps.{
  Keeps, Keeps-pure, Keeps-throw, Keeps-lift, Keeps-bind, keeps_rules,
}
use agent_workload_platform.Tasking.Owner.Submits.{
  Submitted, get_task-Keeps, describe_product-Keeps,
}
use agent_workload_platform.Song.Service.{
  Env, Row, require, not_found, render_belongs, entry, owned_row, get_owned, snapshot,
  render_snapshot, view,
}

module _ (env : Env) (cs : List Command) where
  require-Keeps : (b : Bool) (e : Exn) → Keeps (Submitted cs) (require b e)
  unfolding require
  require-Keeps true e = Keeps-pure tt
  require-Keeps false e = Keeps-throw e

  render_belongs-Keeps :
      (identity generation_id : String) (render : Value)
      → Keeps (Submitted cs) (render_belongs env identity generation_id render)
  unfolding render_belongs
  render_belongs-Keeps i g null = Keeps-pure tt
  render_belongs-Keeps i g _ = Keeps-bind _ _ (Keeps-lift _) (λ b. require-Keeps b not_found)

  entry-Keeps : (v : Value) (k : String) → Keeps (Submitted cs) (entry env v k)
  unfolding entry
  entry-Keeps v k = Keeps-lift _

  owned_row-Keeps :
      (identity generation_id : String) (lyrics render : Value)
      → Keeps (Submitted cs) (owned_row env identity generation_id lyrics render)
  unfolding owned_row
  owned_row-Keeps i g l r = search (keeps_rules, entry-Keeps) depth 30

  pub get_owned-Keeps :
      (identity generation_id : String)
      → Keeps (Submitted cs) (get_owned env identity generation_id)
  unfolding get_owned
  get_owned-Keeps i g =
      search
        (keeps_rules, require-Keeps, describe_product-Keeps, render_belongs-Keeps, owned_row-Keeps)
        depth 20

  pub snapshot-Keeps : (id : String) → Keeps (Submitted cs) (snapshot env id)
  unfolding snapshot
  snapshot-Keeps id = Keeps-bind _ _ (get_task-Keeps env.peer cs id) (λ a. Keeps-lift _)

  render_snapshot-Keeps : (id : Option String) → Keeps (Submitted cs) (render_snapshot env id)
  unfolding render_snapshot
  render_snapshot-Keeps none = Keeps-pure none
  render_snapshot-Keeps (some id) = Keeps-bind _ _ (snapshot-Keeps id) (λ a. Keeps-pure _)

  pub view-Keeps : (row : Row) → Keeps (Submitted cs) (view env row)
  unfolding view
  view-Keeps row = search (keeps_rules, snapshot-Keeps, render_snapshot-Keeps) depth 10
