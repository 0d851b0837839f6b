-- ===== src/Examples/Albums.antt =====
-- Session albums at concrete digests and usage counts.
use agent_workload_platform.Prelude.{
  cat, decimal, ℕ, ◌≤◌, String, ◌≡◌, refl, List, [], ◌∷◌, arith, All, ok, map_result,
}
use agent_workload_platform.Prelude.{cat, decimal, raise, value_error}
use agent_workload_platform.Json.{pos}
use agent_workload_platform.Tasking.Albums.{
  session_name_for_take, session_name_for_take, SessionAlbum, session_albums, hashed, pick, usage,
  album_for_session, least_used_album_for_session,
}
use agent_workload_platform.Tasking.Albums.Fair.{least_used_is_least, least_used_prefers}

-- The digests begin with 21, so the session's own album is the second.
abbrev digest_head : String → ℕ
digest_head _ = 21

abbrev counts : List (String × ℕ)
counts = ("kind-of-blue", 2) ∷ ("a-love-supreme", 1) ∷ []

abbrev own : SessionAlbum
own = record {
  key = "a-love-supreme";
  title = "A Love Supreme";
  artist = "John Coltrane";
  spotify_url = "https://open.spotify.com/album/7Eoz7hJvaX1eFkbpQxC5PA";
}

own_album : album_for_session digest_head "s" ≡ ok own
unfolding album_for_session hashed session_albums
own_album = refl

-- The own album is used once, the third not at all.
third_album :
    map_result (λ a. a.key) (least_used_album_for_session digest_head "s" counts) ≡ ok "time-out"
unfolding least_used_album_for_session pick hashed usage session_albums
third_album = refl

least_used_is_least_example :
    (a : SessionAlbum) × (least_used_album_for_session digest_head "s" counts ≡ ok a)
    × All (λ b. usage counts a.key ≤ usage counts b.key) session_albums
least_used_is_least_example = least_used_is_least digest_head "s" counts

least_used_prefers_example : least_used_album_for_session digest_head "s" [] ≡ ok own
least_used_prefers_example =
    least_used_prefers digest_head "s" [] own own_album (unfold session_albums usage in omega arith)

twelfth_take : session_name_for_take own (pos 12) ≡ ok "A Love Supreme · Take 12"
unfolding session_name_for_take decimal cat
twelfth_take = refl

no_take : session_name_for_take own (pos 0) ≡ raise (value_error "session take must be positive")
unfolding session_name_for_take
no_take = refl
