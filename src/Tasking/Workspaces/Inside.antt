-- ===== src/Tasking/Workspaces/Inside.antt =====
-- tasking/domain/workspaces.py: which workspaces are accepted.
use agent_workload_platform.Prelude.{
  String, ◌≡◌, refl, ap, subst, ◌↔◌, inl, inr, true, Option, none, some, List, arith, Bool-cases,
  any, ok,
}
use agent_workload_platform.Tasking.Workspaces.{
  FilePath, FileSystem, is_within, validate_workspace_boundary, existing, resolve_workspace,
}

-- What a workspace must be: it lies in one of the roots, exists as the path, and is a directory.
pub record IsWorkspace (fs : FileSystem) (requested : String) (roots : List FilePath) (p : FilePath)
    : Type 0 where
  pub inside : any (λ root. is_within root (fs.resolved requested)) roots ≡ true
  pub exists_as : fs.resolved_strictly (fs.resolved requested) ≡ some p
  pub directory : fs.is_dir p ≡ true

module _ (fs : FileSystem) where
  existing-eq :
      (o : Option FilePath) (p : FilePath)
      → existing fs o ≡ ok p
      → (o ≡ some p) × (fs.is_dir p ≡ true)
  unfolding existing
  existing-eq none p h = absurd (ground arith)
  existing-eq (some q) p h = elim (Bool-cases (fs.is_dir q)) [
    | inl yes_dir ↦
        let e : q ≡ p = ground (arith, yes_dir) in
        (ap some e, subst (λ x. fs.is_dir x ≡ true) e yes_dir)
    | inr no_dir ↦ absurd (ground arith)
  ]

  accepted-IsWorkspace :
      (requested : String) (roots : List FilePath) (p : FilePath)
      → resolve_workspace fs requested roots ≡ ok p
      → IsWorkspace fs requested roots p
  unfolding resolve_workspace validate_workspace_boundary
  accepted-IsWorkspace requested roots p h =
      elim (Bool-cases (any (λ root. is_within root (fs.resolved requested)) roots)) [
        | inl inside ↦
            let e : existing fs (fs.resolved_strictly (fs.resolved requested)) ≡ ok p =
              ground (arith, inside) in
            record {
              inside = inside;
              exists_as = (existing-eq _ p e).0;
              directory = (existing-eq _ p e).1;
            }
        | inr outside ↦ absurd (ground (arith, outside))
      ]

  -- `resolve_workspace` returns a path exactly when what was requested, resolved, lies in one of the
  -- roots, exists as that path, and the path is a directory.
  pub resolve_workspace_iff :
      (requested : String) (roots : List FilePath) (p : FilePath)
      → (resolve_workspace fs requested roots ≡ ok p) ↔ IsWorkspace fs requested roots p
  unfolding resolve_workspace validate_workspace_boundary existing
  resolve_workspace_iff requested roots p =
      (accepted-IsWorkspace requested roots p, λ w. rw (w.inside, w.exists_as, w.directory) refl)
