-- ===== src/Song/Manifest/Bounds.antt =====
-- song_generation.py: what a validated manifest satisfies, and that it survives being stored.
use agent_workload_platform.Prelude.{
  none, some, some, Option, ℕ, ◌≤◌, String, ◌≡◌, refl, true, false, arith, strip, len, is_empty,
  strip-strip, ok, Exn, value_error, >>=-eq-ok,
}
use agent_workload_platform.Json.{
  Value, null, obj, str, Fields, ℤ, int, between_ℤ, get_or, dict_get,
}
use agent_workload_platform.Song.Manifest.{
  SongManifest, to_dict, text, lyrics_from, lyrics_text, integer, is_time_signature, has_section,
  is_key_scale, validate_fields, validate_song_manifest, from_candidate, from_payload, from_text,
  from_presentation, from_response, from_direct, no_manifest, manifest_from_pi_result,
}

-- A text as `_text` returns it: stripped, not empty, within its bound.
pub record IsText (maximum : ℕ) (s : String) : Type 0 where
  pub stripped : strip s ≡ s
  pub positive : 1 ≤ len s
  pub bounded : len s ≤ maximum

pub record IsManifest (m : SongManifest) : Type 0 where
  pub title : IsText 200 m.title
  pub style : IsText 1000 m.style
  pub lyrics : IsText 20000 m.lyrics
  pub sections : has_section m.lyrics ≡ true
  pub key_text : IsText 32 m.key_scale
  pub signature_text : IsText 8 m.time_signature
  pub duration : between_ℤ 30 300 m.duration_seconds ≡ true
  pub bpm : between_ℤ 40 200 m.bpm ≡ true
  pub key : is_key_scale m.key_scale ≡ true
  pub signature : is_time_signature m.time_signature ≡ true

positive_of_filled : (s : String) → is_empty s ≡ false → 1 ≤ len s
positive_of_filled String.[] h = cc
positive_of_filled (String.◌∷◌ c s) h = omega arith

filled_of_positive : (s : String) → 1 ≤ len s → is_empty s ≡ false
filled_of_positive String.[] h = absurd (omega arith)
filled_of_positive (String.◌∷◌ c s) h = refl

text-IsText : (v : Value) (name : String) (n : ℕ) (s : String) → text v name n ≡ ok s → IsText n s
unfolding text
text-IsText (str t) name n s h = ground (arith, strip-strip t, positive_of_filled (strip t))
text-IsText _ name n s h = cc

text_of_IsText : (name : String) (n : ℕ) (s : String) → IsText n s → text (str s) name n ≡ ok s
unfolding text
text_of_IsText name n s h = rw h.stripped (ground (arith, filled_of_positive s))

integer_between :
    (v : Value) (lo hi : ℕ) (e : Exn) (n : ℤ) → integer v lo hi e ≡ ok n → between_ℤ lo hi n ≡ true
unfolding integer
integer_between (int m) lo hi e n h = ground arith
integer_between _ lo hi e n h = cc

integer_of_between :
    (lo hi : ℕ) (e : Exn) (n : ℤ) → between_ℤ lo hi n ≡ true → integer (int n) lo hi e ≡ ok n
unfolding integer
integer_of_between lo hi e n h = rw h

lyrics_text-IsText : (d : Fields) (s : String) → lyrics_text d ≡ ok s → IsText 20000 s
unfolding lyrics_text
lyrics_text-IsText d s h =
    let (v, _, ht) =
      >>=-eq-ok
        (lyrics_from (dict_get "lyrics" d) (get_or "lyricLines" (dict_get "lyric_lines" d) d))
        (λ v. text v "lyrics" 20000) h in
    text-IsText v "lyrics" 20000 s ht

abbrev duration_error : Exn
duration_error = value_error "song manifest duration must be an integer from 30 to 300"

abbrev bpm_error : Exn
bpm_error = value_error "song manifest BPM must be an integer from 40 to 200"

validate_fields-IsManifest :
    (d : Fields) (m : SongManifest) → validate_fields d ≡ ok m → IsManifest m
unfolding validate_fields
validate_fields-IsManifest d m h = record {
  title = ground (arith, text-IsText (dict_get "title" d) "title" 200 m.title);
  style = ground (arith, text-IsText (dict_get "style" d) "style" 1000 m.style);
  lyrics = ground (arith, lyrics_text-IsText d m.lyrics);
  sections = ground arith;
  key_text = ground (
    arith,
    text-IsText (get_or "keyScale" (dict_get "key_scale" d) d) "key scale" 32 m.key_scale,
  );
  signature_text = ground (
    arith,
    text-IsText (get_or "timeSignature" (get_or "time_signature" (str "4") d) d) "time signature" 8
        m.time_signature,
  );
  duration = ground (
    arith,
    integer_between (get_or "durationSeconds" (dict_get "duration_seconds" d) d) 30 300
        duration_error m.duration_seconds,
  );
  bpm = ground (arith, integer_between (dict_get "bpm" d) 40 200 bpm_error m.bpm);
  key = ground arith;
  signature = ground arith;
}

validate_fields-to_dict : (m : SongManifest) → IsManifest m → validate_fields (to_dict m) ≡ ok m
unfolding validate_fields to_dict lyrics_text lyrics_from
validate_fields-to_dict m h = rw (
  text_of_IsText "title" 200 m.title h.title,
  text_of_IsText "style" 1000 m.style h.style,
  text_of_IsText "lyrics" 20000 m.lyrics h.lyrics,
  h.sections,
  text_of_IsText "key scale" 32 m.key_scale h.key_text,
  text_of_IsText "time signature" 8 m.time_signature h.signature_text,
  integer_of_between 30 300 duration_error m.duration_seconds h.duration,
  integer_of_between 40 200 bpm_error m.bpm h.bpm,
  h.key,
  h.signature,
)

-- Whatever JSON value the lyric task returned, a manifest that passes validation is within every
-- bound: stripped texts of the allowed sizes, a section marker in the lyrics, a duration of 30 to
-- 300 seconds, 40 to 200 BPM, a key and a time signature of the allowed forms.
pub validate-IsManifest :
    (v : Value) (m : SongManifest) → validate_song_manifest v ≡ ok m → IsManifest m
unfolding validate_song_manifest
validate-IsManifest (obj d) m h = validate_fields-IsManifest d m h
validate-IsManifest _ m h = cc

-- A validated manifest that is stored by `to_dict` and validated again by the renderer comes back
-- as the same manifest.
pub validate-to_dict :
    (v : Value) (m : SongManifest)
    → validate_song_manifest v ≡ ok m
    → validate_song_manifest (obj (to_dict m)) ≡ ok m
unfolding validate_song_manifest
validate-to_dict v m h = validate_fields-to_dict m (validate-IsManifest v m h)

module _ (loads : String → Option Value) (m : SongManifest) where
  candidate-IsManifest : (c : Value) → from_candidate loads c ≡ ok m → IsManifest m
  unfolding from_candidate no_manifest
  candidate-IsManifest (obj c) h = validate-IsManifest (dict_get "songManifest" c) m h
  candidate-IsManifest _ h = cc

  payload-IsManifest : (p : Option Value) → from_payload loads p ≡ ok m → IsManifest m
  unfolding from_payload no_manifest
  payload-IsManifest none h = cc
  payload-IsManifest (some (obj p)) h = candidate-IsManifest (dict_get "presentation" p) h
  payload-IsManifest (some _) h = cc

  text_value-IsManifest : (v : Value) → from_text loads v ≡ ok m → IsManifest m
  unfolding from_text no_manifest
  text_value-IsManifest (str t) h = payload-IsManifest (loads t) h
  text_value-IsManifest _ h = cc

  presentation-IsManifest : (v t : Value) → from_presentation loads v t ≡ ok m → IsManifest m
  unfolding from_presentation
  presentation-IsManifest null t h = text_value-IsManifest t h
  presentation-IsManifest v t h = validate-IsManifest v m h

  response-IsManifest : (v : Value) → from_response loads v ≡ ok m → IsManifest m
  unfolding from_response
  response-IsManifest (obj r) h = presentation-IsManifest _ (dict_get "text" r) h
  response-IsManifest _ h = cc

  direct-IsManifest : (v r : Value) → from_direct loads v r ≡ ok m → IsManifest m
  unfolding from_direct
  direct-IsManifest null r h = response-IsManifest r h
  direct-IsManifest v r h = validate-IsManifest v m h

  -- Every manifest read from a task result is validated, whichever of the three places held it.
  pub pi_result-IsManifest :
      (result : Option Fields) → manifest_from_pi_result loads result ≡ ok m → IsManifest m
  unfolding manifest_from_pi_result
  pi_result-IsManifest none h = cc
  pi_result-IsManifest (some d) h =
      direct-IsManifest (dict_get "manifest" d) (dict_get "response" d) h
