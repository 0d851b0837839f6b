-- ===== src/Tasking/ImageNames.antt =====
-- tasking/domain/execution_images.py: the paths and names that a configuration may declare.
use agent_workload_platform.Prelude.{
  ℕ, code, String, Bool, false, ◌&&◌, ◌||◌, List, [], ◌∷◌, ◌==◌, leb, eqb, if◌then◌else◌, between,
  any, len, is_empty, join,
}
use agent_workload_platform.Json.{Value, Fields, end, field}
use agent_workload_platform.Prelude.{all_chars, text_leb}
use agent_workload_platform.Tasking.Workspaces.{FilePath}

-- The parts of a path between slashes: the first, and the others
segments : String → String × List String
segments String.[] = (String.[], [])
segments (String.◌∷◌ c s) =
    let rest = segments s in
    if eqb (code c) b'/' then (String.[], rest.0 ∷ rest.1) else (String.◌∷◌ c rest.0, rest.1)

without_dots : List String → FilePath
without_dots [] = []
without_dots (s ∷ rest) =
    let kept = without_dots rest in if is_empty s || s == "." then kept else s ∷ kept

-- Path(value), for a relative path
unfoldable pub path_of : String → FilePath
unfolding segments without_dots
path_of s = let parts = segments s in without_dots (parts.0 ∷ parts.1)

-- relative.as_posix()
unfoldable pub as_posix : FilePath → String
as_posix [] = "."
as_posix (p ∷ ps) = join "/" (p ∷ ps)

-- [A-Za-z0-9]
is_alphanumeric : ℕ → Bool
is_alphanumeric n = between b'A' b'Z' n || between b'a' b'z' n || between b'0' b'9' n

-- A letter or digit, and at most `bound` characters, each of which is one, or among `marks`
fits : List ℕ → ℕ → String → Bool
unfolding is_alphanumeric all_chars
fits marks bound String.[] = false
fits marks bound (String.◌∷◌ c s) =
    is_alphanumeric (code c)
    && all_chars (λ n. is_alphanumeric n || any (eqb n) marks) s
    && leb (len s) bound

unfoldable pub is_image_reference : String → Bool
unfolding fits
is_image_reference = fits (b'.' ∷ b'_' ∷ b':' ∷ b'/' ∷ b'-' ∷ []) 199

unfoldable pub is_target : String → Bool
unfolding fits
is_target = fits (b'_' ∷ b'.' ∷ b'-' ∷ []) 127

unfoldable pub is_context_name : String → Bool
unfolding fits
is_context_name = fits (b'_' ∷ b'.' ∷ b'-' ∷ []) 63

insert_entry : String → Value → List (String × Value) → List (String × Value)
insert_entry k v [] = (k, v) ∷ []
insert_entry k v (e ∷ es) =
    let later = insert_entry k v es in if text_leb k e.0 then (k, v) ∷ e ∷ es else e ∷ later

-- sorted(d.items()), where no two keys are the same
unfoldable pub sorted_entries : Fields → List (String × Value)
unfolding insert_entry
sorted_entries end = []
sorted_entries (field k v d) = insert_entry k v (sorted_entries d)
