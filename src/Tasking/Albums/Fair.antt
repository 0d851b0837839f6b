-- ===== src/Tasking/Albums/Fair.antt =====
-- session_albums.py: the choice of an album is total, fair and stable.
use agent_workload_platform.Prelude.{
  ℕ, zero, suc, ◌+◌, ◌-◌, ◌%◌, ◌≤◌, ◌<◌, min, String, ◌≡◌, refl, sym, ◌∙◌, ◌⊎◌, inl, inr, true,
  false, some, List, [], ◌∷◌, arith, eq_iff, eq_refl, eqb, eqb_iff, Bool-cases, length, get_elem?,
  All, All-map, All-get, ok,
}
use native.Mathlib.Decide.{dec_lt}
use agent_workload_platform.Tasking.Albums.{
  SessionAlbum, session_albums, same_album, album_at, index_of, usage, minimum, least_usage, hashed,
  pick, as_album, scan, as_index, album_for_session, least_used_album_for_session,
}

module _ (f : SessionAlbum → ℕ) where
  minimum-le :
      (n : ℕ) (bs : List SessionAlbum) → (minimum f n bs ≤ n) × All (λ b. minimum f n bs ≤ f b) bs
  unfolding minimum
  minimum-le n [] = (omega arith, tt)
  minimum-le n (b ∷ bs) =
      let (below, all_below) = minimum-le (min n (f b)) bs in
      (omega arith, (omega arith, all_below))

  -- The least value is that of some member, or the one it started from.
  minimum_attained :
      (n : ℕ) (bs : List SessionAlbum)
      → (minimum f n bs ≡ n)
        ⊎ ((i : ℕ) × (b : SessionAlbum) × (get_elem? bs i ≡ some b)
            × (i < length bs)
            × (f b ≡ minimum f n bs))
  unfolding minimum
  minimum_attained n [] = inl refl
  minimum_attained n (b ∷ bs) = elim (minimum_attained (min n (f b)) bs) [
    | inl start ↦ elim (dec_lt (f b) n) [
      | yes lower ↦ inr (0, b, refl, omega arith, omega arith)
      | no kept ↦ inl (omega arith)
    ]
    | inr (i, a, at, below, same) ↦ inr (suc i, a, at, omega arith, same)
  ]

same_album_refl : (a : SessionAlbum) → same_album a a ≡ true
unfolding same_album
same_album_refl a = simp eq_refl

pub get_elem?_below :
    (albums : List SessionAlbum) (i : ℕ)
    → i < length albums
    → (a : SessionAlbum) × (get_elem? albums i ≡ some a)
get_elem?_below [] i h = absurd (omega arith)
get_elem?_below (b ∷ bs) zero h = (b, refl)
get_elem?_below (b ∷ bs) (suc i) h = get_elem?_below bs i (omega arith)

index_of_member :
    (albums : List SessionAlbum) (i : ℕ) (a : SessionAlbum)
    → get_elem? albums i ≡ some a
    → (j : ℕ) × (index_of a albums ≡ some j) × (j < length albums)
unfolding index_of
index_of_member [] i a h = cc
index_of_member (b ∷ bs) zero a h = (0, ground (arith, same_album_refl a), omega arith)
index_of_member (b ∷ bs) (suc i) a h =
    let (j, at, below) = index_of_member bs i a h in
    elim (Bool-cases (same_album b a)) [
      | inl same ↦ (0, rw same, omega arith)
      | inr other ↦ (suc j, rw (other, at), omega arith)
    ]

module _ (albums : List SessionAlbum) (f : SessionAlbum → ℕ) (least start : ℕ) where
  -- An offset whose album is not among the least used lies before one whose album is.
  moved_on :
      (offset t : ℕ) (b c : SessionAlbum)
      → offset ≤ t
      → get_elem? albums ((start + t) % length albums) ≡ some b
      → f b ≡ least
      → get_elem? albums ((start + offset) % length albums) ≡ some c
      → eqb (f c) least ≡ false
      → offset < t
  moved_on offset t b c lo at same here other = elim (dec_lt offset t) [
    | yes later ↦ later
    | no now ↦
        let e : t ≡ offset = omega arith in
        let b_is_c : some b ≡ some c = sym (rw e at at) ∙ here in absurd (ground arith)
  ]

  scan_finds :
      (left offset t : ℕ) (b : SessionAlbum)
      → 0 < length albums
      → offset ≤ t
      → t < offset + left
      → get_elem? albums ((start + t) % length albums) ≡ some b
      → f b ≡ least
      → (a : SessionAlbum) × (scan albums f least start left offset ≡ ok a) × (f a ≡ least)
  unfolding scan as_album album_at
  scan_finds zero offset t b some_album lo hi at same = absurd (omega arith)
  scan_finds (suc left) offset t b some_album lo hi at same =
      let (c, here) = get_elem?_below albums ((start + offset) % length albums) (grind arith) in
      elim (Bool-cases (eqb (f c) least)) [
        | inl found ↦ (c, rw (here, found), (eqb_iff (f c) least).0 found)
        | inr other ↦
            let (a, e, low) =
              scan_finds left (suc offset) t b some_album
                (moved_on offset t b c lo at same here other) (omega arith) at same in
            (a, rw (here, other) e, low)
      ]

-- A position of an album that has the least usage.
least_position :
    (f : SessionAlbum → ℕ) (b : SessionAlbum) (bs : List SessionAlbum)
    → (i : ℕ) × (a : SessionAlbum) × (get_elem? (b ∷ bs) i ≡ some a)
      × (i < length (b ∷ bs))
      × (f a ≡ minimum f (f b) bs)
least_position f b bs = elim (minimum_attained f (f b) bs) [
  | inl start ↦ (0, b, refl, omega arith, sym start)
  | inr (i, a, at, below, same) ↦ (suc i, a, at, omega arith, same)
]

-- Every position is reached from every start.
reached : (n start i : ℕ) → start < n → i < n → (start + (i + n - start) % n) % n ≡ i
reached n start i p q = grind arith

-- Over any catalog that is not empty, the album picked is one of the least used.
pick_least :
    (b : SessionAlbum) (bs : List SessionAlbum) (f : SessionAlbum → ℕ) (digest : ℕ)
    → (a : SessionAlbum) × (pick (b ∷ bs) f digest ≡ ok a) × (f a ≡ minimum f (f b) bs)
unfolding pick least_usage hashed as_album album_at as_index
pick_least b bs f digest =
    let n : ℕ = length (b ∷ bs) in
    let (preferred, at) = get_elem?_below (b ∷ bs) (digest % n) (grind arith) in
    let (start, found, below) = index_of_member (b ∷ bs) (digest % n) preferred at in
    let (i, c, at_c, below_c, low) = least_position f b bs in
    let (a, e, least) =
      scan_finds (b ∷ bs) f (minimum f (f b) bs) start n 0 ((i + n - start) % n) c (omega arith)
        (omega arith) (grind arith) (rw (reached n start i below below_c) at_c) low in
    (a, rw (at, found) e, least)

-- The same, compared with every member of the catalog.
pick_fair :
    (albums : List SessionAlbum) (f : SessionAlbum → ℕ) (digest : ℕ)
    → 0 < length albums
    → (a : SessionAlbum) × (pick albums f digest ≡ ok a) × All (λ b. f a ≤ f b) albums
pick_fair [] f digest h = absurd (omega arith)
pick_fair (b ∷ bs) f digest h =
    let (a, e, least) = pick_least b bs f digest in
    let (at_start, at_rest) = minimum-le f (f b) bs in
    (
      a,
      e,
      (
        omega arith,
        All-map (λ c. minimum f (f b) bs ≤ f c) (λ c. f a ≤ f c) (λ c p. omega arith) bs at_rest,
      ),
    )

same_album_eq : (a b : SessionAlbum) → same_album a b ≡ true → a ≡ b
unfolding same_album
same_album_eq a b h = ground (
  arith,
  eq_iff a.key b.key,
  eq_iff a.title b.title,
  eq_iff a.artist b.artist,
  eq_iff a.spotify_url b.spotify_url,
)

at_index :
    (a : SessionAlbum) (albums : List SessionAlbum) (j : ℕ)
    → index_of a albums ≡ some j
    → get_elem? albums j ≡ some a
unfolding index_of
at_index a [] j h = cc
at_index a (b ∷ bs) zero h = ground (arith, same_album_eq b a)
at_index a (b ∷ bs) (suc j) h = ground (arith, same_album_eq b a, at_index a bs j)

minimum_of_least :
    (f : SessionAlbum → ℕ) (n : ℕ) (bs : List SessionAlbum)
    → All (λ b. n ≤ f b) bs
    → minimum f n bs ≡ n
unfolding minimum
minimum_of_least f n [] h = refl
minimum_of_least f n (b ∷ bs) h =
    let same : min n (f b) ≡ n = omega arith in rw same (minimum_of_least f n bs h.1)

hashed_at :
    (albums : List SessionAlbum) (digest : ℕ) (a : SessionAlbum)
    → hashed albums digest ≡ ok a
    → get_elem? albums (digest % length albums) ≡ some a
unfolding hashed as_album album_at
hashed_at albums digest a h = ground arith

-- The least value is that of a member which no member is below.
minimum_is_least :
    (b : SessionAlbum) (bs : List SessionAlbum) (f : SessionAlbum → ℕ) (i : ℕ) (a : SessionAlbum)
    → get_elem? (b ∷ bs) i ≡ some a
    → All (λ c. f a ≤ f c) (b ∷ bs)
    → minimum f (f b) bs ≡ f a
minimum_is_least b bs f i a at least =
    let (k, c, at_c, _, low) = least_position f b bs in
    let above : f a ≤ f c = All-get (λ c. f a ≤ f c) (b ∷ bs) k c least at_c in
    let (head, rest) = minimum-le f (f b) bs in
    let below : minimum f (f b) bs ≤ f a =
      All-get (λ c. minimum f (f b) bs ≤ f c) (b ∷ bs) i a (head, rest) at in
    omega arith

-- If no album is used less than the hashed one, that one is picked.
pick_prefers :
    (albums : List SessionAlbum) (f : SessionAlbum → ℕ) (digest : ℕ) (a : SessionAlbum)
    → hashed albums digest ≡ ok a
    → All (λ b. f a ≤ f b) albums
    → pick albums f digest ≡ ok a
unfolding pick least_usage as_index scan as_album album_at
pick_prefers [] f digest a chosen least = cc (hashed_at [] digest a chosen)
pick_prefers (b ∷ bs) f digest a chosen least =
    let n : ℕ = length (b ∷ bs) in
    let at : get_elem? (b ∷ bs) (digest % n) ≡ some a = hashed_at (b ∷ bs) digest a chosen in
    let (start, found, below) = index_of_member (b ∷ bs) (digest % n) a at in
    let at_start : get_elem? (b ∷ bs) start ≡ some a = at_index a (b ∷ bs) start found in
    let stays : (start + 0) % n ≡ start = grind arith in
    let lowest : minimum f (f b) bs ≡ f a = minimum_is_least b bs f start a at_start least in
    rw (chosen, found, stays, at_start, (eqb_iff (f a) (minimum f (f b) bs)).1 (sym lowest))

module _ (digest_head : String → ℕ) (session_id : String) (usage_by_key : List (String × ℕ)) where
  -- Whatever the digest and the usage counts are, an album is chosen, and no album of the catalog
  -- is used less.
  pub least_used_is_least :
      (a : SessionAlbum) × (least_used_album_for_session digest_head session_id usage_by_key ≡ ok a)
      × All (λ b. usage usage_by_key a.key ≤ usage usage_by_key b.key) session_albums
  unfolding least_used_album_for_session
  least_used_is_least =
      pick_fair session_albums (λ a. usage usage_by_key a.key) (digest_head session_id)
        (unfold session_albums in omega arith)

  -- Ties are broken by the session: where no album is used less than the session's own, that one is
  -- chosen.
  pub least_used_prefers :
      (a : SessionAlbum)
      → album_for_session digest_head session_id ≡ ok a
      → All (λ b. usage usage_by_key a.key ≤ usage usage_by_key b.key) session_albums
      → least_used_album_for_session digest_head session_id usage_by_key ≡ ok a
  unfolding least_used_album_for_session album_for_session
  least_used_prefers a chosen least =
      pick_prefers session_albums (λ b. usage usage_by_key b.key) (digest_head session_id) a chosen
        least
