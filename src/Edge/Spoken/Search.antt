-- ===== src/Edge/Spoken/Search.antt =====
-- presentation_response.py: the search for the tag, in the last characters and in all of a text.
use agent_workload_platform.Prelude.{
  ℕ, suc, ◌+◌, ◌-◌, ◌≤◌, ◌<◌, ◌≡◌, refl, ap, ◌∙◌, inl, inr, Option, none, some, [], ◌∷◌, ◌++◌,
  append_assoc, arith, leb, Bool-cases, Option-cases, length, length-append,
}
use agent_workload_platform.Edge.Spoken.{Text, tag_at, first_of, search, last_64}
use agent_workload_platform.Edge.Spoken.Tags.{
  quotes, quotes-append, Ends, early, late, tag_at-local, tag_at-kept, tag_at-quotes,
}

-- Every tag of a text has at most 65 characters.
abbrev pub IsShort : Text → Type 0
IsShort text = (front s r : Text) → text ≡ front ++ s → tag_at s ≡ some r → length s ≤ length r + 65

pub IsShort-brief : (text : Text) → length text ≤ 65 → IsShort text
IsShort-brief text brief front s r e h = omega (arith, brief, ap length e, length-append front s)

pub IsShort-front : (s c : Text) → IsShort (s ++ c) → IsShort s
IsShort-front s c short front t r e h = omega (
  arith,
  length-append t c,
  length-append r c,
  short front (t ++ c) (r ++ c) (ap (λ x. x ++ c) e ∙ append_assoc front t c) (tag_at-kept t c r h),
)

IsShort-back : (x : ℕ) (s : Text) → IsShort (x ∷ s) → IsShort s
IsShort-back x s short front t r e h = short (x ∷ front) t r (ap (λ y. x ∷ y) e) h

Ends-late :
    (c : Text) (m : Option Text) (r : Text)
    → Ends 1 c m r
    → m ≡ none
    → (length r < length c) × (quotes r < quotes c)
Ends-late c _ _ (early {q}) h = absurd (ground arith)
Ends-late c m r (late shorter fewer) h = (shorter, omega (arith, fewer))

-- A tag that the first text does not hold begins in its last 64 characters.
pub tag_at-beyond :
    (s c r : Text) → IsShort (s ++ c) → tag_at s ≡ none → tag_at (s ++ c) ≡ some r → length s ≤ 64
tag_at-beyond s c r short no_tag h = omega (
  arith,
  length-append s c,
  short [] (s ++ c) r refl h,
  (Ends-late c (tag_at s) r (tag_at-local s c r h) no_tag).0,
)

first_of-none : (m n : Option Text) → first_of m n ≡ none → (m ≡ none) × (n ≡ none)
unfolding first_of
first_of-none none n h = (refl, h)
first_of-none (some s) n h = absurd (ground arith)

-- So a search in the last characters finds what a search in all of them finds.
pub search-last_64 :
    (s c : Text) → IsShort (s ++ c) → search s ≡ none → search (last_64 s ++ c) ≡ search (s ++ c)
unfolding search last_64
search-last_64 [] c short h = refl
search-last_64 (x ∷ s) c short h = elim (Bool-cases (leb (suc (length s)) 64)) [
  | inl fits ↦ let e : suc (length s) - 64 ≡ 0 = ground arith in rw e refl
  | inr longer ↦
      let e : suc (length s) - 64 ≡ suc (length s - 64) = ground arith in
      let no_tag : (tag_at (x ∷ s) ≡ none) × (search s ≡ none) = first_of-none _ _ h in
      let later : search (last_64 s ++ c) ≡ search (s ++ c) =
        search-last_64 s c (IsShort-back x (s ++ c) short) no_tag.1 in
      elim (Option-cases (tag_at (x ∷ s ++ c))) [
        | inl none_here ↦ rw (e, none_here) (unfold first_of in later)
        | inr found ↦
            absurd (ground (arith, tag_at-beyond (x ∷ s) c found.0 short no_tag.0 found.1))
      ]
]

quotes_le : (x : ℕ) (s : Text) → quotes s ≤ quotes (x ∷ s)
quotes_le x s = ground arith

-- A text with a tag has three quotes or more.
search-quotes : (s r : Text) → search s ≡ some r → 3 ≤ quotes s
unfolding search first_of
search-quotes [] r h = absurd (ground arith)
search-quotes (x ∷ s) r h = elim (Option-cases (tag_at (x ∷ s))) [
  | inl none_here ↦ ground (arith, none_here, search-quotes s r)
  | inr found ↦ omega (arith, tag_at-quotes (x ∷ s) found.0 found.1)
]

-- The leftmost tag of a text is that of the text with more after it.
pub search-kept : (s c r : Text) → search s ≡ some r → search (s ++ c) ≡ some (r ++ c)
unfolding search first_of
search-kept [] c r h = absurd (ground arith)
search-kept (x ∷ s) c r h = elim (Option-cases (tag_at (x ∷ s))) [
  | inr found ↦ ground (arith, found.1, tag_at-kept (x ∷ s) c found.0 found.1)
  | inl none_here ↦
      let later : search s ≡ some r = ground (arith, none_here) in
      elim (Option-cases (tag_at (x ∷ s ++ c))) [
        | inl none_there ↦ rw none_there (search-kept s c r later)
        | inr found ↦ absurd (
            omega (
              arith,
              quotes-append (x ∷ s) c,
              search-quotes s r later,
              tag_at-quotes (x ∷ s ++ c) found.0 found.1,
              (Ends-late c (tag_at (x ∷ s)) found.0 (tag_at-local (x ∷ s) c found.0 found.1)
                  none_here).1,
              quotes_le x s,
            ))
      ]
]

last_64-fits : (s : Text) → length s ≤ 64 → last_64 s ≡ s
unfolding last_64
last_64-fits s fits = let e : length s - 64 ≡ 0 = omega (arith, fits) in rw e refl

last_64-longer : (x : ℕ) (s : Text) → 64 ≤ length s → last_64 (x ∷ s) ≡ last_64 s
unfolding last_64
last_64-longer x s longer =
    let e : suc (length s) - 64 ≡ suc (length s - 64) = omega (arith, longer) in rw e refl

pub last_64-last_64 : (s c : Text) → last_64 (last_64 s ++ c) ≡ last_64 (s ++ c)
last_64-last_64 [] c = rw (last_64-fits [] (omega arith)) refl
last_64-last_64 (x ∷ s) c = elim (Bool-cases (leb (suc (length s)) 64)) [
  | inl fits ↦ rw (last_64-fits (x ∷ s) (ground arith)) refl
  | inr longer ↦
      let many : 64 ≤ length s = ground arith in
      rw
        (
          last_64-longer x s many,
          last_64-longer x (s ++ c) (omega (arith, many, length-append s c)),
        )
        (last_64-last_64 s c)
]
