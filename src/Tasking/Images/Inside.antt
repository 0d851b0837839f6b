-- ===== src/Tasking/Images/Inside.antt =====
-- execution_images.py: what the checks of a build let through.
use agent_workload_platform.Prelude.{
  String, ◌≡◌, refl, ◌⊎◌, inl, inr, Bool, true, false, Option, none, some, List, [], ◌∷◌,
  starts_with, Bool-cases, All, is_empty, Exn, value_error, Result, ok, raise, ◌>>=◌,
}
use agent_workload_platform.Json.{
  Value, null, bool, int, float, str, arr, obj, Fields, end, get_or, dict_get,
}
use agent_workload_platform.Prelude.{Ends, bind-Ends, image_configuration_error}
use agent_workload_platform.Tasking.Workspaces.{FilePath, is_within}
use agent_workload_platform.Tasking.ImageNames.{path_of, is_target, is_context_name, sorted_entries}
use agent_workload_platform.Tasking.Images.{
  Host, Build, invalid, target_of, object_or, require, inside_workspace, relative_path,
  named_context, contexts_from, checked, build_of,
}

module _ (host : Host) where
  -- A refusal of the declaration, a text that is not UTF-8, or what `Path.resolve` raises
  abbrev pub IsRefusal : Exn → Type 0
  IsRefusal e =
      ((m : String) × (e ≡ image_configuration_error m))
      ⊎ ((m : String) × (e ≡ value_error m))
      ⊎ ((p : FilePath) × (host.resolved p ≡ raise e))

  -- The path resolves to one inside the workspace.
  abbrev pub IsInside : FilePath → Type 0
  IsInside p = (q : FilePath) × (host.resolved p ≡ ok q) × (is_within host.root q ≡ true)

  abbrev pub IsContext : String × FilePath → Type 0
  IsContext c = (is_context_name c.0 ≡ true) × IsInside c.1 × (host.exists c.1 ≡ true)

  abbrev pub IsTarget : Option String → Type 0
  IsTarget none = Unit
  IsTarget (some s) = is_target s ≡ true

  pub record IsBuild (build : Build) : Type 0 where
    pub context : IsInside build.context × (host.is_dir build.context ≡ true)
    pub dockerfile : IsInside build.dockerfile × (host.is_file build.dockerfile ≡ true)
    pub asset_config : IsInside build.asset_config × (host.is_file build.asset_config ≡ true)
    pub target : IsTarget build.target
    pub named_contexts : All IsContext build.named_contexts

  require-Ends :
      (test : Bool) (parts : List String) → Ends IsRefusal (λ u. test ≡ true) (require test parts)
  unfolding require invalid
  require-Ends true parts = refl
  require-Ends false parts = inl (_, refl)

  inside_workspace-IsInside :
      (p q : FilePath) (name : String)
      → host.resolved p ≡ ok q
      → Ends IsRefusal IsInside (inside_workspace host p name q)
  unfolding inside_workspace invalid
  inside_workspace-IsInside p q name e = elim (Bool-cases (is_within host.root q)) [
    | inl h ↦ rw h (q, e, h)
    | inr h ↦ rw h (inl (_, refl))
  ]

  resolved-IsInside :
      (p : FilePath) (name : String) (r : Result FilePath)
      → host.resolved p ≡ r
      → Ends IsRefusal IsInside (r >>= inside_workspace host p name)
  resolved-IsInside p name (ok q) e = inside_workspace-IsInside p q name e
  resolved-IsInside p name (raise x) e = inr (inr (p, e))

  pub relative_path-IsInside :
      (v : Value) (name : String) → Ends IsRefusal IsInside (relative_path host v name)
  unfolding relative_path invalid
  relative_path-IsInside (str s) name = elim (Bool-cases (is_empty s)) [
    | inl e ↦ rw e (inl (_, refl))
    | inr e ↦ rw e (elim (Bool-cases (starts_with s "/")) [
      | inl f ↦ rw f (inl (_, refl))
      | inr f ↦ rw f (resolved-IsInside (path_of s) name (host.resolved (path_of s)) refl)
    ])
  ]
  relative_path-IsInside null name = inl (_, refl)
  relative_path-IsInside (bool b) name = inl (_, refl)
  relative_path-IsInside (int n) name = inl (_, refl)
  relative_path-IsInside (float b) name = inl (_, refl)
  relative_path-IsInside (arr vs) name = inl (_, refl)
  relative_path-IsInside (obj d) name = inl (_, refl)

  named_context-IsContext :
      (name : String) (v : Value) → Ends IsRefusal IsContext (named_context host name v)
  unfolding named_context
  named_context-IsContext name v =
      bind-Ends IsRefusal _ IsContext (require (is_context_name name) _) _
        (λ u named.
          bind-Ends IsRefusal _ IsContext (relative_path host v _) _
            (λ p inside.
              bind-Ends IsRefusal _ IsContext (require (host.exists p) _) _
                (λ u' exists. (named, inside, exists)) (require-Ends _ _))
            (relative_path-IsInside v _))
        (require-Ends _ _)

  contexts_from-AreContexts :
      (es : List (String × Value)) → Ends IsRefusal (All IsContext) (contexts_from host es)
  unfolding contexts_from
  contexts_from-AreContexts [] = tt
  contexts_from-AreContexts (e ∷ es) =
      bind-Ends IsRefusal IsContext (All IsContext) (named_context host e.0 e.1) _
        (λ c h.
          bind-Ends IsRefusal (All IsContext) (All IsContext) (contexts_from host es) _
            (λ cs hs. (h, hs)) (contexts_from-AreContexts es))
        (named_context-IsContext e.0 e.1)

  target_of-IsTarget : (v : Value) → Ends IsRefusal IsTarget (target_of v)
  unfolding target_of invalid
  target_of-IsTarget null = tt
  target_of-IsTarget (str s) = elim (Bool-cases (is_target s)) [
    | inl h ↦ rw h h
    | inr h ↦ rw h (inl (_, refl))
  ]
  target_of-IsTarget (bool b) = inl (_, refl)
  target_of-IsTarget (int n) = inl (_, refl)
  target_of-IsTarget (float b) = inl (_, refl)
  target_of-IsTarget (arr vs) = inl (_, refl)
  target_of-IsTarget (obj d) = inl (_, refl)

  pub object_or-Ends :
      (refusal : String) (v : Value) → Ends IsRefusal (λ d. Unit {0}) (object_or refusal v)
  unfolding object_or invalid
  object_or-Ends refusal (obj d) = tt
  object_or-Ends refusal null = inl (_, refl)
  object_or-Ends refusal (bool b) = inl (_, refl)
  object_or-Ends refusal (int n) = inl (_, refl)
  object_or-Ends refusal (float b) = inl (_, refl)
  object_or-Ends refusal (str s) = inl (_, refl)
  object_or-Ends refusal (arr vs) = inl (_, refl)

  checked-IsBuild :
      (d : Fields) (c f a : FilePath)
      → IsInside c
      → IsInside f
      → IsInside a
      → Ends IsRefusal IsBuild (checked host d c f a)
  unfolding checked
  checked-IsBuild d c f a context dockerfile asset_config =
      bind-Ends IsRefusal _ IsBuild (require (host.is_dir c) _) _
        (λ u is_dir.
          bind-Ends IsRefusal _ IsBuild (require (host.is_file f) _) _
            (λ u' is_file.
              bind-Ends IsRefusal _ IsBuild (require (host.is_file a) _) _
                (λ u'' is_file'.
                  bind-Ends IsRefusal IsTarget IsBuild (target_of (dict_get "target" d)) _
                    (λ t target.
                      bind-Ends IsRefusal _ IsBuild (object_or _ (get_or "contexts" (obj end) d)) _
                        (λ e any_contexts.
                          bind-Ends IsRefusal (All IsContext) IsBuild
                            (contexts_from host (sorted_entries e)) _
                            (λ named contexts. record {
                              context = (context, is_dir);
                              dockerfile = (dockerfile, is_file);
                              asset_config = (asset_config, is_file');
                              target = target;
                              named_contexts = contexts;
                            })
                            (contexts_from-AreContexts (sorted_entries e)))
                        (object_or-Ends _ _))
                    (target_of-IsTarget _))
                (require-Ends _ _))
            (require-Ends _ _))
        (require-Ends _ _)

  pub build_of-IsBuild : (d : Fields) → Ends IsRefusal IsBuild (build_of host d)
  unfolding build_of
  build_of-IsBuild d =
      bind-Ends IsRefusal IsInside IsBuild (relative_path host (dict_get "context" d) "context") _
        (λ c context.
          bind-Ends IsRefusal IsInside IsBuild
            (relative_path host (dict_get "dockerfile" d) "dockerfile") _
            (λ f dockerfile.
              bind-Ends IsRefusal IsInside IsBuild
                (relative_path host (dict_get "assetConfig" d) "assetConfig") _
                (λ a asset_config. checked-IsBuild d c f a context dockerfile asset_config)
                (relative_path-IsInside _ _))
            (relative_path-IsInside _ _))
        (relative_path-IsInside _ _)
