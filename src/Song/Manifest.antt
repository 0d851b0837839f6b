-- ===== src/Song/Manifest.antt =====
-- tasking/domain/song_generation.py: the bounded manifest that passes from the lyric session to the
-- music renderer. `json.loads` is the parameter `loads`; `none` is a JSONDecodeError.
mod Pattern
pub mod Bounds
use agent_workload_platform.Prelude.{
  ℕ, String, Bool, false, not, ◌&&◌, ◌||◌, Option, none, some, map, ◌==◌, ltb, all, length,
  if◌then◌else◌, strip, len, is_empty, concat, join, contains, is_nil, Result, ok, raise, Exn,
  value_error, type_error, ◌>>=◌, ◌>>◌, guard,
}
use agent_workload_platform.Json.{
  Value, null, int, str, arr, obj, Fields, end, field, ℤ, items, get_or, dict_get, between_ℤ,
}
unfoldable pub use Pattern.{has_section, is_key_scale}

pub record SongManifest : Type 0 where
  pub title : String
  pub style : String
  pub lyrics : String
  pub duration_seconds : ℤ
  pub bpm : ℤ
  pub key_scale : String
  pub time_signature : String

-- asdict
unfoldable pub to_dict : SongManifest → Fields
to_dict m = field "title" (str m.title) (
    field "style" (str m.style) (
      field "lyrics" (str m.lyrics) (
        field "duration_seconds" (int m.duration_seconds) (
          field "bpm" (int m.bpm) (
            field "key_scale" (str m.key_scale)
              (field "time_signature" (str m.time_signature) end))))))

-- `_text`
unfoldable pub text : Value → String → ℕ → Result String
text (str s) name maximum =
    if is_empty (strip s) || ltb maximum (len (strip s))
    then raise (value_error (concat "song manifest " (concat name " is outside its allowed size")))
    else ok (strip s)
text _ name maximum = raise (type_error (concat "song manifest " (concat name " must be text")))

-- isinstance(line, str) and "\n" not in line and "\r" not in line
is_lyric_line : Value → Bool
is_lyric_line (str s) = not (contains 10 s) && not (contains 13 s)
is_lyric_line _ = false

line_text : Value → String
line_text (str s) = s
line_text _ = ""

-- The lyrics: the "lyrics" entry, or the lines joined where it is None and the lines are a list.
unfoldable pub lyrics_from : Value → Value → Result Value
unfolding is_lyric_line line_text join
lyrics_from null (arr xs) =
    if is_nil (items xs) || ltb 500 (length (items xs)) || not (all is_lyric_line (items xs))
    then raise (value_error "song manifest lyric lines are invalid")
    else ok (str (join "\n" (map line_text (items xs))))
lyrics_from v _ = ok v

unfoldable pub lyrics_text : Fields → Result String
lyrics_text d = do
  value ← lyrics_from (dict_get "lyrics" d) (get_or "lyricLines" (dict_get "lyric_lines" d) d)
  text value "lyrics" 20000

-- An `int` that is no `bool`, from `lo` to `hi`.
unfoldable pub integer : Value → ℕ → ℕ → Exn → Result ℤ
integer (int n) lo hi e = if between_ℤ lo hi n then ok n else raise e
integer _ lo hi e = raise e

unfoldable pub is_time_signature : String → Bool
is_time_signature s = s == "3" || s == "4" || s == "6"

-- `validate_song_manifest` on a dict
unfoldable pub validate_fields : Fields → Result SongManifest
validate_fields d = do
  title ← text (dict_get "title" d) "title" 200
  style ← text (dict_get "style" d) "style" 1000
  lyrics ← lyrics_text d
  guard (has_section lyrics) (value_error "song manifest lyrics require section markers")
  key_scale ← text (get_or "keyScale" (dict_get "key_scale" d) d) "key scale" 32
  time_signature ←
      text (get_or "timeSignature" (get_or "time_signature" (str "4") d) d) "time signature" 8
  duration ←
      integer (get_or "durationSeconds" (dict_get "duration_seconds" d) d) 30 300
        (value_error "song manifest duration must be an integer from 30 to 300")
  bpm ←
      integer (dict_get "bpm" d) 40 200
        (value_error "song manifest BPM must be an integer from 40 to 200")
  guard (is_key_scale key_scale) (value_error "song manifest key scale is invalid")
  guard (is_time_signature time_signature) (value_error "song manifest time signature is invalid")
  ok (record {
    title = title;
    style = style;
    lyrics = lyrics;
    duration_seconds = duration;
    bpm = bpm;
    key_scale = key_scale;
    time_signature = time_signature;
  })

unfoldable pub validate_song_manifest : Value → Result SongManifest
unfolding validate_fields
validate_song_manifest (obj d) = validate_fields d
validate_song_manifest _ = raise (type_error "song manifest must be an object")

module _ (loads : String → Option Value) where
  -- the end of `manifest_from_pi_result`
  pub no_manifest : Result SongManifest
  no_manifest = raise (value_error "lyric task response did not contain a song manifest")

  from_candidate : Value → Result SongManifest
  from_candidate (obj c) = validate_song_manifest (dict_get "songManifest" c)
  from_candidate _ = no_manifest

  from_payload : Option Value → Result SongManifest
  from_payload none = raise (value_error "lyric task response was not structured JSON")
  from_payload (some (obj p)) = from_candidate (dict_get "presentation" p)
  from_payload (some _) = no_manifest

  from_text : Value → Result SongManifest
  from_text (str t) = from_payload (loads t)
  from_text _ = no_manifest

  from_presentation : Value → Value → Result SongManifest
  from_presentation null response_text = from_text response_text
  from_presentation v response_text = validate_song_manifest v

  song_manifest_of : Value → Value
  song_manifest_of (obj p) = dict_get "songManifest" p
  song_manifest_of _ = null

  from_response : Value → Result SongManifest
  from_response (obj r) =
      from_presentation (song_manifest_of (dict_get "presentation" r)) (dict_get "text" r)
  from_response _ = raise (type_error "lyric task returned no response")

  from_direct : Value → Value → Result SongManifest
  from_direct null response = from_response response
  from_direct direct response = validate_song_manifest direct

  unfoldable pub manifest_from_pi_result : Option Fields → Result SongManifest
  unfolding from_direct from_response from_presentation song_manifest_of from_text from_payload
      from_candidate no_manifest
  manifest_from_pi_result none = raise (type_error "lyric task returned no result")
  manifest_from_pi_result (some d) = from_direct (dict_get "manifest" d) (dict_get "response" d)
