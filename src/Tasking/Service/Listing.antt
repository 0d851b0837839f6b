-- ===== src/Tasking/Service/Listing.antt =====
-- tasking/application/service.py: the list of an identity's tasks, newest first.
pub mod Newest
use agent_workload_platform.Prelude.{
  suc, ◌-◌, String, not, Option, none, some, List, [], ◌∷◌, leb, if◌then◌else◌, length, take, strip,
  type_error, Result, ok, raise,
}
use agent_workload_platform.Json.{
  ℤ, pos, negsuc, Value, str, arr, obj, Fields, end, field, items, is_str,
}
use agent_workload_platform.Tasking.Exec.{Exec, pure, lift, ◌>>=◌, ◌>>◌}
use agent_workload_platform.Tasking.Owner.{list_native}
use agent_workload_platform.Tasking.TaskView.{Env, TaskView, clamped, native_view}

-- items[:limit]
unfoldable pub sliced : ℤ → List TaskView → List TaskView
sliced (pos n) views = take n views
sliced (negsuc n) views = take (length views - suc n) views

-- sorted(views, key=created_at, reverse=True), which is stable
unfoldable pub insert : TaskView → List TaskView → List TaskView
insert v [] = v ∷ []
insert v (u ∷ us) = if leb u.created_at v.created_at then v ∷ u ∷ us else u ∷ insert v us

unfoldable pub newest_first : List TaskView → List TaskView
newest_first [] = []
newest_first (v ∷ vs) = insert v (newest_first vs)

-- item["session_name"] == session_name.strip()
unfoldable pub with_name : Option String → List TaskView → List TaskView
with_name none views = views
with_name (some name) [] = []
with_name (some name) (v ∷ vs) =
    let rest = with_name (some name) vs in
    if is_str (strip name) v.session_name then v ∷ rest else rest

-- The tasks in the owner's answer: a list, the keys of a dict or the characters of a text
iterated : Value → Result (List Value)
iterated (arr vs) = ok (items vs)
iterated (obj d) = ok (keys d)
  where
    keys : Fields → List Value
    keys end = []
    keys (field k v r) = str k ∷ keys r
iterated (str s) = ok (characters s)
  where
    characters : String → List Value
    characters String.[] = []
    characters (String.◌∷◌ c s) = str (String.◌∷◌ c String.[]) ∷ characters s
iterated _ = raise (type_error "object is not iterable")

-- The views that `list` returns
unfoldable pub shown : ℤ → Option String → List TaskView → List TaskView
shown limit session_name views = sliced limit (newest_first (with_name session_name views))

module _ (env : Env) where
  native_views : List Value → Exec (List TaskView)
  native_views [] = pure []
  native_views (v ∷ vs) = do view ← native_view env v; views ← native_views vs; pure (view ∷ views)

  pub list : String → ℤ → Option String → Exec (List TaskView)
  list identity limit session_name = do
    answer ← list_native env.peer identity (clamped limit)
    natives ← lift (iterated answer)
    views ← native_views natives
    pure (shown limit session_name views)
