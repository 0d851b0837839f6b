-- ===== src/Song/Service/Ownership.antt =====
-- song_service.py: a song of another identity is not found, by any operation, and is not touched.
use agent_workload_platform.Prelude.{String, ◌≡◌, true, false, Option, arith, ok, raise}
use agent_workload_platform.Json.{obj, Fields, end, get_or, dict_get, is_str}
use agent_workload_platform.Tasking.Exec.{World, pure, throw, lift, ◌>>=◌}
use agent_workload_platform.Tasking.Owner.{describe_product}
use agent_workload_platform.Song.Service.{
  Env, not_found, product_matches, get_owned, get, render, cancel, lyrics_task_id,
}

-- A product of another identity does not match, whatever else it holds.
foreign_params :
    (identity generation_id : String) (d p : Fields)
    → get_or "params" (obj end) d ≡ obj p
    → is_str identity (dict_get "identity" p) ≡ false
    → product_matches "song-lyrics" identity generation_id (obj d) ≡ ok false
unfolding product_matches
foreign_params i g d p hp hi = ground arith

module _ (env : Env) (identity generation_id : String) (d p : Fields) (w w' : World)
    (valid_id : env.is_uuid generation_id ≡ true)
    (described : describe_product env.peer (lyrics_task_id env generation_id) w ≡ (ok (obj d), w'))
    (with_params : get_or "params" (obj end) d ≡ obj p)
    (foreign : is_str identity (dict_get "identity" p) ≡ false) where
  get_owned_foreign : get_owned env identity generation_id w ≡ (raise not_found, w')
  unfolding get_owned ◌>>=◌ lift throw pure
  get_owned_foreign =
      rw (valid_id, described, foreign_params identity generation_id d p with_params foreign)

  -- Where the owner describes the lyric task with another identity, reading, rendering and
  -- cancelling the song all raise "song generation not found", and the one description is all that
  -- was sent.
  pub foreign_not_found :
      (trace : Option Fields)
      → (get env identity generation_id w ≡ (raise not_found, w'))
        × (render env identity generation_id trace w ≡ (raise not_found, w'))
        × (cancel env identity generation_id w ≡ (raise not_found, w'))
  unfolding get render cancel ◌>>=◌
  foreign_not_found trace = (rw get_owned_foreign, rw get_owned_foreign, rw get_owned_foreign)
