-- ===== src/Tasking/Artifacts.antt =====
-- tasking/infrastructure/artifacts.py: names, keys and reads of the object store. The store's
-- answers, `json.loads` and `urlparse` are the parameters of `Store`. Uploads and Git bundles are
-- not modelled.
pub mod Bounded
use agent_workload_platform.Prelude.{
  all_chars, ℕ, zero, suc, ◌+◌, code, String, Bool, true, false, not, ◌&&◌, ◌||◌, Option, none,
  some, List, [], ◌∷◌, ◌==◌, ltb, leb, eqb, if◌then◌else◌, between, length, take, len, concat,
  value_error, runtime_error, Result, ok, raise, ◌>>=◌,
}
use agent_workload_platform.Json.{Value}
use agent_workload_platform.Tasking.Owner.{index, str_of}
use agent_workload_platform.Tasking.Workspaces.{scratch_workspace}

-- [a-z0-9]
is_name_start : ℕ → Bool
is_name_start n = between b'a' b'z' n || between b'0' b'9' n

-- [a-z0-9._-]
is_name_char : ℕ → Bool
unfolding is_name_start
is_name_char n = is_name_start n || eqb n b'.' || eqb n b'_' || eqb n b'-'

-- [0-9a-f]
unfoldable pub is_hex : ℕ → Bool
is_hex n = between b'0' b'9' n || between b'a' b'f' n

-- _WORKSPACE_NAME.fullmatch(name)
unfoldable pub is_workspace_name : String → Bool
unfolding is_name_start is_name_char all_chars
is_workspace_name String.[] = false
is_workspace_name (String.◌∷◌ c s) =
    is_name_start (code c) && all_chars is_name_char s && leb (len s) 127

-- re.fullmatch(r"[0-9a-f]{64}", digest)
unfoldable pub is_digest : String → Bool
unfolding is_hex all_chars
is_digest s = all_chars is_hex s && eqb (len s) 64

-- The parts of _UUID: runs of hex digits of given lengths, with a dash between.
unfoldable pub hex_runs : List ℕ → ℕ → String → Bool
unfolding is_hex
hex_runs [] zero String.[] = true
hex_runs [] zero (String.◌∷◌ c s) = false
hex_runs (n ∷ ns) zero String.[] = false
hex_runs (n ∷ ns) zero (String.◌∷◌ c s) = eqb (code c) b'-' && hex_runs ns n s
hex_runs ns (suc k) String.[] = false
hex_runs ns (suc k) (String.◌∷◌ c s) = is_hex (code c) && hex_runs ns k s

-- re.fullmatch(_UUID, text)
unfoldable pub is_lower_uuid : String → Bool
unfolding hex_runs
is_lower_uuid s = hex_runs (4 ∷ 4 ∷ 4 ∷ 12 ∷ []) 8 s

-- `name in allowed`
unfoldable pub member : String → List String → Bool
member s [] = false
member s (t ∷ ts) = t == s || member s ts

unfoldable pub validate_workspace_name : String → List String → Result String
validate_workspace_name name allowed =
    if name == scratch_workspace
    then raise (value_error "workspace name 'scratch' is reserved for repository-free tasks")
    else if not (is_workspace_name name)
    then raise (value_error "workspace must be a lowercase logical name")
    else if not (member name allowed)
    then raise (value_error "workspace is not allowed")
    else ok name

-- The object store's answer to `get_object`: the object is missing, another client error, or its
-- stated length and the bytes that `read` gives.
pub data Object : Type 0 where
  no_such_key other_error : Object
  found : Option ℕ → List ℕ → Object

pub record Url : Type 0 where
  pub scheme : String
  pub netloc : String
  pub path : String

pub record Store : Type 0 where
  pub bucket : String
  pub get_object : String → Object
  -- json.loads of bytes, `none` for a JSONDecodeError
  pub loads : List ℕ → Option Value
  pub urlparse : String → Url
  pub show : Value → String

unfoldable pub source_key : String → String → String
source_key name digest =
    concat "workspaces/" (concat name (concat "/sources/" (concat digest ".bundle")))

unfoldable pub object_uri : String → String → String
object_uri bucket key = concat "s3://" (concat bucket (concat "/" key))

pointer_uri : String → String → String → String → Result String
pointer_uri bucket name key digest =
    if not (key == source_key name digest) || not (is_digest digest)
    then raise (value_error "workspace pointer is invalid")
    else ok (object_uri bucket key)

-- The text of value[key]
text_field : (Value → String) → Value → String → Result String
text_field show v k = do entry ← index v k; ok (str_of show entry)

pointer : (Value → String) → String → String → Option Value → Result String
unfolding text_field pointer_uri
pointer show bucket name none = raise (value_error "Expecting value")
pointer show bucket name (some v) = do
  key ← text_field show v "source_key"
  digest ← text_field show v "sha256"
  pointer_uri bucket name key digest

-- (filename, content type) of TASK_ARTIFACTS
unfoldable pub task_artifact : String → Option (String × String)
task_artifact name =
    if name == "workspace"
    then some ("workspace.zip", "application/zip")
    else if name == "patch"
    then some ("changes.patch", "text/x-diff")
    else none

-- The read of an object whose stated length must be at most the bound and the length read.
bounded_read : ℕ → Object → Result (List ℕ)
bounded_read max_bytes no_such_key = raise (runtime_error "ClientError")
bounded_read max_bytes other_error = raise (runtime_error "ClientError")
bounded_read max_bytes (found none body) =
    raise (value_error "task artifact is outside its allowed size")
bounded_read max_bytes (found (some size) body) =
    if ltb max_bytes size
    then raise (value_error "task artifact is outside its allowed size")
    else if not (eqb (length (take (max_bytes + 1) body)) size)
    then raise (value_error "task artifact read was incomplete")
    else ok (take (max_bytes + 1) body)

-- The read of a song, which may not be empty.
song_read : ℕ → Object → Result (List ℕ)
song_read max_bytes no_such_key = raise (runtime_error "ClientError")
song_read max_bytes other_error = raise (runtime_error "ClientError")
song_read max_bytes (found none body) =
    raise (value_error "song artifact is outside its allowed size")
song_read max_bytes (found (some size) body) =
    if eqb size 0 || ltb max_bytes size
    then raise (value_error "song artifact is outside its allowed size")
    else if not (eqb (length (take (max_bytes + 1) body)) size)
        || ltb max_bytes (length (take (max_bytes + 1) body))
    then raise (value_error "song artifact read was incomplete")
    else ok (take (max_bytes + 1) body)

-- path.lstrip("/")
unfoldable pub without_slashes : String → String
without_slashes String.[] = String.[]
without_slashes (String.◌∷◌ c s) = if eqb (code c) b'/' then without_slashes s else String.◌∷◌ c s

-- What follows a literal at the head of a text.
unfoldable pub after_literal : String → String → Option String
after_literal String.[] s = some s
after_literal (String.◌∷◌ p ps) String.[] = none
after_literal (String.◌∷◌ p ps) (String.◌∷◌ c s) =
    let rest = after_literal ps s in if eqb (code c) (code p) then rest else none

-- [0-9a-f]{n} and then the text `tail`
hex_then : ℕ → String → String → Bool
unfolding is_hex
hex_then zero tail s = s == tail
hex_then (suc n) tail String.[] = false
hex_then (suc n) tail (String.◌∷◌ c s) = is_hex (code c) && hex_then n tail s

-- The UUID, "/", the digest and ".m4a"
uuid_digest : List ℕ → ℕ → String → Bool
unfolding is_hex hex_then
uuid_digest ns zero String.[] = false
uuid_digest [] zero (String.◌∷◌ c s) = eqb (code c) b'/' && hex_then 64 ".m4a" s
uuid_digest (n ∷ ns) zero (String.◌∷◌ c s) = eqb (code c) b'-' && uuid_digest ns n s
uuid_digest ns (suc k) String.[] = false
uuid_digest ns (suc k) (String.◌∷◌ c s) = is_hex (code c) && uuid_digest ns k s

song_rest : Option String → Bool
unfolding uuid_digest
song_rest none = false
song_rest (some s) = uuid_digest (4 ∷ 4 ∷ 4 ∷ 12 ∷ []) 8 s

-- re.fullmatch(rf"songs/{_UUID}/[0-9a-f]{{64}}\.m4a", key)
unfoldable pub is_song_key : String → Bool
unfolding song_rest after_literal
is_song_key key = song_rest (after_literal "songs/" key)

module _ (store : Store) where
  pointer_object : String → Object → Result String
  unfolding pointer
  pointer_object name no_such_key = raise (
      value_error (
        concat "workspace '"
          (concat name "' was not published; choose 'scratch' for a task without a repository")))
  pointer_object name other_error = raise (runtime_error "ClientError")
  pointer_object name (found _ body) = pointer store.show store.bucket name (store.loads body)

  unfoldable pub resolve_workspace : String → List String → Result String
  unfolding pointer_object
  resolve_workspace name allowed = do
    checked ← validate_workspace_name name allowed
    pointer_object checked
        (store.get_object (concat "workspaces/" (concat checked "/current.json")))

  task_object : String → ℕ → Option (String × String) → Result (List ℕ × String × String)
  task_object task_id max_bytes none = raise (value_error "task artifact is invalid")
  task_object task_id max_bytes (some (filename, content_type)) = do
    content ←
        bounded_read max_bytes
          (store.get_object (concat "tasks/" (concat task_id (concat "/" filename))))
    ok (content, filename, content_type)

  unfoldable pub get_task_artifact : String → String → ℕ → Result (List ℕ × String × String)
  unfolding task_object bounded_read
  get_task_artifact task_id name max_bytes =
      if not (is_lower_uuid task_id)
      then raise (value_error "task artifact is invalid")
      else task_object task_id max_bytes (task_artifact name)

  song_object : ℕ → Url → Result (List ℕ)
  song_object max_bytes parsed =
      if not (parsed.scheme == "s3")
        || not (parsed.netloc == store.bucket)
        || not (is_song_key (without_slashes parsed.path))
      then raise (value_error "song artifact URI is invalid")
      else song_read max_bytes (store.get_object (without_slashes parsed.path))

  unfoldable pub get_song : String → ℕ → Result (List ℕ)
  unfolding song_object song_read
  get_song uri max_bytes = song_object max_bytes (store.urlparse uri)
