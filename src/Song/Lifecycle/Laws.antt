-- ===== src/Song/Lifecycle/Laws.antt =====
-- song_lifecycle.py: when lyrics may be rendered, and what a public view shows.
use agent_workload_platform.Prelude.{
  Option-cases, String, ◌≡◌, Bool, true, false, Option, none, some, is_some, if◌then◌else◌,
  starts_with, ok, arith, ◌↔◌, inl, inr,
}
use agent_workload_platform.Json.{Value}
use agent_workload_platform.Song.Manifest.{SongManifest, manifest_from_pi_result}
use agent_workload_platform.Song.Manifest.Bounds.{IsManifest, pi_result-IsManifest}
use agent_workload_platform.Song.Lifecycle.{
  TaskState, SongStatus, RenderReadiness, SongTaskSnapshot, snapshot_manifest, decide_render,
  project_song, audio_artifact,
}

-- A shown artifact is a text with the `s3://` scheme, of a completed render.
pub audio_artifact-s3 :
    (render : Option SongTaskSnapshot) (uri : String)
    → audio_artifact render ≡ some uri
    → starts_with uri "s3://" ≡ true
unfolding audio_artifact
audio_artifact-s3 render uri h = ground arith

module _ (loads : String → Option Value) where
  -- A render is ready exactly when the song is neither cancelled nor requested and the lyric task is
  -- completed with a valid manifest, and the decision carries that manifest.
  pub ready_iff :
      (is_cancelled requested : Bool) (lyrics : SongTaskSnapshot) (m : SongManifest)
      → (decide_render loads is_cancelled requested lyrics ≡ (RenderReadiness.ready, some m)) ↔ (
          (is_cancelled ≡ false)
          × (requested ≡ false)
          × (lyrics.0 ≡ TaskState.completed)
          × (manifest_from_pi_result loads lyrics.1 ≡ ok m))
  unfolding decide_render snapshot_manifest
  ready_iff c r l m = ground arith

  -- The view of a song says that lyrics are ready exactly when a render would be accepted, which is
  -- asked with whether the song has a render task.
  pub lyrics_ready_iff :
      (is_cancelled : Bool) (lyrics : SongTaskSnapshot) (render : Option SongTaskSnapshot)
      → ((project_song loads is_cancelled lyrics render).0 ≡ SongStatus.lyrics_ready)
        ↔ ((decide_render loads is_cancelled (is_some render) lyrics).0 ≡ RenderReadiness.ready)
  unfolding decide_render project_song
  lyrics_ready_iff c l none = ground arith
  lyrics_ready_iff c l (some r) = ground arith

  snapshot-IsManifest :
      (lyrics : SongTaskSnapshot) (m : SongManifest)
      → snapshot_manifest loads lyrics ≡ some m
      → IsManifest m
  unfolding snapshot_manifest
  snapshot-IsManifest (TaskState.completed, d) m h = pi_result-IsManifest loads m d (ground arith)
  snapshot-IsManifest _ m h = cc

  module _ (is_cancelled : Bool) (lyrics : SongTaskSnapshot)
      (render : Option SongTaskSnapshot) where
    -- A view shows audio only in the status `complete`: the song is not cancelled, nothing is said
    -- to have failed, the audio has the `s3://` scheme and a manifest within every bound is shown.
    pub audio_shown :
        (uri : String)
        → (project_song loads is_cancelled lyrics render).2 ≡ some uri
        → ((project_song loads is_cancelled lyrics render).0 ≡ SongStatus.complete)
          × (is_cancelled ≡ false)
          × ((project_song loads is_cancelled lyrics render).3 ≡ none)
          × (starts_with uri "s3://" ≡ true)
          × ((m : SongManifest) × ((project_song loads is_cancelled lyrics render).1 ≡ some m)
              × IsManifest m)
    unfolding project_song
    audio_shown uri h = elim (Option-cases (snapshot_manifest loads lyrics)) [
      | inl missing ↦ absurd (ground arith)
      | inr (m, found) ↦ (
        ground arith,
        ground arith,
        ground arith,
        audio_artifact-s3 render uri (ground arith),
        (m, ground arith, snapshot-IsManifest lyrics m found),
      )
    ]

    -- A failure is told exactly in the status `failed`, and names the step: the rendering if a
    -- render was requested, the lyrics if not.
    pub failure_told :
        (message : String)
        → ((project_song loads is_cancelled lyrics render).3 ≡ some message) ↔ (
            ((project_song loads is_cancelled lyrics render).0 ≡ SongStatus.failed)
            × (message
                ≡ (if is_some render then "song rendering failed" else "lyric generation failed")))
    unfolding project_song
    failure_told message = ground arith
