-- ===== src/Examples/Stores.antt =====
-- Workspaces and songs at a concrete file system and object store.
use agent_workload_platform.Prelude.{
  ◌≤◌, ◌<◌, String, ◌≡◌, refl, ◌↔◌, true, none, some, [], ◌∷◌, ◌==◌, ok,
}
use agent_workload_platform.Tasking.Workspaces.{FileSystem, resolve_workspace}
use agent_workload_platform.Tasking.Workspaces.Inside.{IsWorkspace, resolve_workspace_iff}
use agent_workload_platform.Tasking.Artifacts.{
  found, Store, is_song_key, without_slashes, get_song, after_literal, is_hex,
}
use agent_workload_platform.Tasking.Artifacts.Bounded.{get_song-bounded}

abbrev fs : FileSystem
fs = record { resolved = λ s. "srv" ∷ s ∷ []; resolved_strictly = λ p. some p; is_dir = λ p. true }

resolve_workspace_iff_example :
    (resolve_workspace fs "app" (("srv" ∷ []) ∷ []) ≡ ok ("srv" ∷ "app" ∷ []))
    ↔ IsWorkspace fs "app" (("srv" ∷ []) ∷ []) ("srv" ∷ "app" ∷ [])
resolve_workspace_iff_example =
    resolve_workspace_iff fs "app" (("srv" ∷ []) ∷ []) ("srv" ∷ "app" ∷ [])

abbrev store : Store
store = record {
  bucket = "songs";
  get_object = λ key. found (some 2) (7 ∷ 8 ∷ []);
  loads = λ bytes. none;
  urlparse = λ uri. record { scheme = "s3"; netloc = "songs"; path = uri };
  show = λ v. "";
}

abbrev path : String
path =
    "/songs/0a1b2c3d-0000-1111-2222-0123456789ab/0123456789abcdef0123456789abcdef0123456789abcdef0123456789abcdef.m4a"

song_returned : get_song store path 100 ≡ ok (7 ∷ 8 ∷ [])
unfolding get_song is_song_key without_slashes after_literal is_hex
song_returned = refl

get_song-bounded_example :
    (((store.urlparse path).scheme == "s3") ≡ true)
    × (is_song_key (without_slashes (store.urlparse path).path) ≡ true)
    × (((store.urlparse path).netloc == store.bucket) ≡ true)
    × (2 ≤ 100)
    × (0 < 2)
get_song-bounded_example = get_song-bounded store path 100 (7 ∷ 8 ∷ []) song_returned
