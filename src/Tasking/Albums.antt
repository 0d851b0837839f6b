-- ===== src/Tasking/Albums.antt =====
-- tasking/domain/session_albums.py: stable names for task sessions. The first byte of the MD5 digest
-- of a session id is the parameter `digest_head`.
pub mod Fair
use agent_workload_platform.Prelude.{cat, decimal, ltb}
use agent_workload_platform.Json.{ℤ, pos, negsuc}
use agent_workload_platform.Prelude.{
  ℕ, zero, suc, ◌+◌, ◌%◌, min, String, Bool, not, ◌&&◌, Option, none, some, List, [], ◌∷◌, ◌==◌,
  eqb, if◌then◌else◌, map_option, get_elem?, length, concat, value_error, runtime_error, Result, ok,
  raise, ◌>>=◌, ◌>>◌,
}

pub record SessionAlbum : Type 0 where
  pub key : String
  pub title : String
  pub artist : String
  pub spotify_url : String

abbrev album : String → String → String → String → SessionAlbum
album k t a u = record { key = k; title = t; artist = a; spotify_url = u }

unfoldable pub session_albums : List SessionAlbum
session_albums =
    album "kind-of-blue" "Kind of Blue" "Miles Davis"
      "https://open.spotify.com/album/1weenld61qoidwYuZ1GESA"
    ∷ album "a-love-supreme" "A Love Supreme" "John Coltrane"
        "https://open.spotify.com/album/7Eoz7hJvaX1eFkbpQxC5PA"
    ∷ album "time-out" "Time Out" "The Dave Brubeck Quartet"
        "https://open.spotify.com/album/0nTTEAhCZsbbeplyDMIFuA"
    ∷ album "blue-train" "Blue Train" "John Coltrane"
        "https://open.spotify.com/album/2Z11cXWEa2qqYQBGkJrCga"
    ∷ album "mingus-ah-um" "Mingus Ah Um" "Charles Mingus"
        "https://open.spotify.com/album/7pojWP7x9uEFSJgw765khA"
    ∷ album "moanin" "Moanin'" "Art Blakey & The Jazz Messengers"
        "https://open.spotify.com/album/5PzlTnVafjgt5RtjTdIKoC"
    ∷ album "maiden-voyage" "Maiden Voyage" "Herbie Hancock"
        "https://open.spotify.com/album/4PMwCdbTTBTgyMh8dbTVRb"
    ∷ album "speak-no-evil" "Speak No Evil" "Wayne Shorter"
        "https://open.spotify.com/album/27Rl7A8jXEQOkIfUKOa6ZU"
    ∷ album "saxophone-colossus" "Saxophone Colossus" "Sonny Rollins"
        "https://open.spotify.com/album/0yodD8uAkAT5UmrlF2xy97"
    ∷ album "somethin-else" "Somethin' Else" "Cannonball Adderley"
        "https://open.spotify.com/album/3Wu0chxAm4GxSeRnIIf2Om"
    ∷ album "in-a-silent-way" "In a Silent Way" "Miles Davis"
        "https://open.spotify.com/album/0Hs3BomCdwIWRhgT57x22T"
    ∷ album "the-sidewinder" "The Sidewinder" "Lee Morgan"
        "https://open.spotify.com/album/1n1trPeeY9Q5H4eLbbHHRg"
    ∷ album "song-for-my-father" "Song for My Father" "Horace Silver"
        "https://open.spotify.com/album/4LEnATSqKeANOJ0mLUAuCE"
    ∷ album "head-hunters" "Head Hunters" "Herbie Hancock"
        "https://open.spotify.com/album/5fmIolILp5NAtNYiRPjhzA"
    ∷ album "heavy-weather" "Heavy Weather" "Weather Report"
        "https://open.spotify.com/album/2M9F2yYsUvqiBPwUGeNvn1"
    ∷ album "getz-gilberto" "Getz/Gilberto" "Stan Getz & Joao Gilberto"
        "https://open.spotify.com/album/3AXCsntzZYilqpvN1A7Tot"
    ∷ album "ella-and-louis" "Ella and Louis" "Ella Fitzgerald & Louis Armstrong"
        "https://open.spotify.com/album/3kfnwa4p4uYiTOP8K8ooSE"
    ∷ album "chet-baker-sings" "Chet Baker Sings" "Chet Baker"
        "https://open.spotify.com/album/5JJ779nrbHx0KB2lBrMMa4"
    ∷ album "shape-of-jazz-to-come" "The Shape of Jazz to Come" "Ornette Coleman"
        "https://open.spotify.com/album/2iPH3iUmpa9ufIpwY76keF"
    ∷ album "koln-concert" "The Köln Concert" "Keith Jarrett"
        "https://open.spotify.com/album/44VBsuqrEAyWidQU4CGNiu"
    ∷ []

-- The equality of the dataclass: all fields.
same_album : SessionAlbum → SessionAlbum → Bool
same_album a b =
    a.key == b.key && a.title == b.title && a.artist == b.artist && a.spotify_url == b.spotify_url

-- albums[i]; the indices of the code are below the length
album_at : List SessionAlbum → ℕ → Option SessionAlbum
album_at albums i = get_elem? albums i

-- albums.index(a), with `none` for ValueError
index_of : SessionAlbum → List SessionAlbum → Option ℕ
unfolding same_album
index_of a [] = none
index_of a (b ∷ bs) =
    let rest = map_option suc (index_of a bs) in if same_album b a then some 0 else rest

-- usage_by_key.get(key, 0)
unfoldable pub usage : List (String × ℕ) → String → ℕ
usage [] k = 0
usage ((j, n) ∷ rest) k = if j == k then n else usage rest k

-- min(...) over a list that is not empty
minimum : (SessionAlbum → ℕ) → ℕ → List SessionAlbum → ℕ
minimum f n [] = n
minimum f n (b ∷ bs) = minimum f (min n (f b)) bs

-- min(usage_by_key.get(album.key, 0) for album in albums)
least_usage : (SessionAlbum → ℕ) → List SessionAlbum → Result ℕ
unfolding minimum
least_usage f [] = raise (value_error "min() arg is an empty sequence")
least_usage f (b ∷ bs) = ok (minimum f (f b) bs)

as_album : Option SessionAlbum → Result SessionAlbum
as_album none = raise (runtime_error "tuple index out of range")
as_album (some a) = ok a

-- The `for offset in range(n)`, with the offsets left.
scan : List SessionAlbum → (SessionAlbum → ℕ) → ℕ → ℕ → ℕ → ℕ → Result SessionAlbum
scan albums f least start zero offset = raise (runtime_error "session album catalog is empty")
scan albums f least start (suc left) offset =
    let rest = scan albums f least start left (suc offset) in
    as_album (album_at albums ((start + offset) % length albums)) >>= λ a.
    if eqb (f a) least then ok a else rest

as_index : Option ℕ → Result ℕ
as_index none = raise (value_error "tuple.index(x): x not in tuple")
as_index (some i) = ok i

-- SESSION_ALBUMS[digest[0] % len(SESSION_ALBUMS)]
unfoldable pub hashed : List SessionAlbum → ℕ → Result SessionAlbum
unfolding album_at as_album
hashed albums digest = as_album (album_at albums (digest % length albums))

-- The body of `least_used_album_for_session` over a catalog and the usage of its albums.
unfoldable pub pick : List SessionAlbum → (SessionAlbum → ℕ) → ℕ → Result SessionAlbum
unfolding least_usage index_of as_index scan as_album album_at
pick albums f digest = do
  least ← least_usage f albums
  preferred ← hashed albums digest
  start ← as_index (index_of preferred albums)
  scan albums f least start (length albums) 0

module _ (digest_head : String → ℕ) where
  unfoldable pub album_for_session : String → Result SessionAlbum
  album_for_session session_id = hashed session_albums (digest_head session_id)

  unfoldable pub least_used_album_for_session : String → List (String × ℕ) → Result SessionAlbum
  least_used_album_for_session session_id usage_by_key =
      pick session_albums (λ a. usage usage_by_key a.key) (digest_head session_id)

find_key : String → List SessionAlbum → Option SessionAlbum
find_key k [] = none
find_key k (b ∷ bs) = if b.key == k then some b else find_key k bs

-- _BY_KEY[key]
unfoldable pub album_by_key : String → Result SessionAlbum
unfolding find_key session_albums
album_by_key k = elim (find_key k session_albums) [
  | none ↦ raise (value_error (concat "unknown session album: " k))
  | some a ↦ ok a
]

unfoldable pub session_name_for_take : SessionAlbum → ℤ → Result String
unfolding cat decimal
session_name_for_take album (negsuc n) = raise (value_error "session take must be positive")
session_name_for_take album (pos n) =
    if ltb n 1
    then raise (value_error "session take must be positive")
    else if eqb n 1
    then ok album.title
    else ok (cat (album.title ∷ " · Take " ∷ decimal n ∷ []))
