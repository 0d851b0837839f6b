-- ===== src/Tasking/Artifacts/Bounded.antt =====
-- tasking/infrastructure/artifacts.py: what the reads of task artifacts and songs return.
use agent_workload_platform.Prelude.{
  ℕ, ◌≤◌, ◌<◌, String, ◌≡◌, inl, inr, true, not, ◌||◌, none, some, List, arith, ◌==◌, Bool-cases,
  length, ok,
}
use agent_workload_platform.Tasking.Artifacts.{
  Object, found, no_such_key, other_error, Store, bounded_read, song_read, is_song_key,
  without_slashes, song_object, get_song,
}

bounded_read-eq :
    (max_bytes : ℕ) (object : Object) (content : List ℕ)
    → bounded_read max_bytes object ≡ ok content
    → length content ≤ max_bytes
unfolding bounded_read
bounded_read-eq max_bytes no_such_key content h = absurd (ground arith)
bounded_read-eq max_bytes other_error content h = absurd (ground arith)
bounded_read-eq max_bytes (found none body) content h = absurd (ground arith)
bounded_read-eq max_bytes (found (some size) body) content h = ground (arith, h)

song_read-eq :
    (max_bytes : ℕ) (object : Object) (content : List ℕ)
    → song_read max_bytes object ≡ ok content
    → (length content ≤ max_bytes) × (0 < length content)
unfolding song_read
song_read-eq max_bytes no_such_key content h = absurd (ground arith)
song_read-eq max_bytes other_error content h = absurd (ground arith)
song_read-eq max_bytes (found none body) content h = absurd (ground arith)
song_read-eq max_bytes (found (some size) body) content h = (ground (arith, h), ground (arith, h))

module _ (store : Store) where
  -- A song that is returned was named by an s3 URI of the store's bucket, under a key that is a
  -- song's, is not empty and is within the bound.
  pub get_song-bounded :
      (uri : String) (max_bytes : ℕ) (content : List ℕ)
      → get_song store uri max_bytes ≡ ok content
      → (((store.urlparse uri).scheme == "s3") ≡ true)
        × (is_song_key (without_slashes (store.urlparse uri).path) ≡ true)
        × (((store.urlparse uri).netloc == store.bucket) ≡ true)
        × (length content ≤ max_bytes)
        × (0 < length content)
  unfolding get_song song_object
  get_song-bounded uri max_bytes content h =
      let parsed = store.urlparse uri in
      let key = without_slashes parsed.path in
      elim (Bool-cases (
        not (parsed.scheme == "s3")
        || not (parsed.netloc == store.bucket)
        || not (is_song_key key))) [
          | inl refused ↦ absurd (ground (arith, refused))
          | inr accepted ↦
              let read : song_read max_bytes (store.get_object key) ≡ ok content =
                ground (arith, accepted) in
              let size = song_read-eq max_bytes (store.get_object key) content read in
              (
                ground (arith, accepted),
                ground (arith, accepted),
                ground (arith, accepted),
                size.0,
                size.1,
              )
        ]
