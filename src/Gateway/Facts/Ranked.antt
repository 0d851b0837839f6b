-- ===== src/Gateway/Facts/Ranked.antt =====
-- main.py, `_filter_facts`: which facts a search shows, and in which order.
use mathlib.Core.List.{Permᴰ}
use mathlib.Core.List.Permᴰ
use agent_workload_platform.Gateway.Lines.{IsInfix, occurs-IsInfix, IsInfix-occurs}
use agent_workload_platform.Prelude.{
  Bool, true, ap, ◌++◌, ◌+◌, drop, ltb, join, map, if◌then◌else◌, ℕ, zero, suc, ◌≤◌, ◌<◌, String,
  ◌≡◌, refl, sym, subst, ◌⊎◌, inl, inr, false, List, [], ◌∷◌, arith, leb, eqb, Bool-cases, length,
  take, length-take-le, All, All-map,
}
use agent_workload_platform.Gateway.Facts.Terms.{IsTerm, AreNew, terms_of-IsTerm, terms_of-AreNew}
use agent_workload_platform.Gateway.Facts.{
  occurs, Row, score, place, ranked, terms_of, filter_facts,
}

-- How many of the terms a text has
pub data Counts : List String → String → ℕ → Type 0 where
  no_term : {s : String} → Counts [] s 0
  found :
      {t s : String} {ts : List String} {n : ℕ}
      → IsInfix t s
      → Counts ts s n
      → Counts (t ∷ ts) s (suc n)
  missed :
      {t s : String} {ts : List String} {n : ℕ}
      → ¬ IsInfix t s
      → Counts ts s n
      → Counts (t ∷ ts) s n

-- The text of a row, in which the terms are looked for
abbrev pub text_of : (String → String) → Row → String
text_of casefold row = casefold (join " " (map (λ c. c.1) row))

score-Counts :
    (casefold : String → String) (ts : List String) (row : Row)
    → Counts ts (text_of casefold row) (score casefold ts row)
unfolding score
score-Counts casefold [] row = no_term
score-Counts casefold (t ∷ ts) row = elim (Bool-cases (occurs t (text_of casefold row))) [
  | inl e ↦
      let one_more : suc (score casefold ts row) ≡ 1 + score casefold ts row = omega arith in
      rw (e) (
        subst (Counts (t ∷ ts) (text_of casefold row)) one_more
          (found (occurs-IsInfix t (text_of casefold row) e) (score-Counts casefold ts row)))
  | inr e ↦
      let no_more : score casefold ts row ≡ 0 + score casefold ts row = omega arith in
      rw (e) (
        subst (Counts (t ∷ ts) (text_of casefold row)) no_more (
          missed (λ i. absurd_true (IsInfix-occurs t (text_of casefold row) i) e)
            (score-Counts casefold ts row)))
]
  where
    absurd_true : {b : Bool} → b ≡ true → b ≡ false → ⊥
    absurd_true h g = cc

module _ (s : Row → ℕ) where
  -- No fact comes after one with a lower score.
  pub Ordered : List Row → Type 0
  Ordered [] = Unit
  Ordered (r ∷ rs) = All (λ q. s q ≤ s r) rs × Ordered rs

  place-All : (P : Row → Type 0) (r : Row) (qs : List Row) → P r → All P qs → All P (place s r qs)
  unfolding place
  place-All P r [] p h = (p, tt)
  place-All P r (q ∷ qs) p h = elim (Bool-cases (leb (s q) (s r))) [
    | inl e ↦ rw (e) (p, h)
    | inr e ↦ rw (e) (h.0, place-All P r qs p h.1)
  ]

  All-le : (a b : ℕ) (qs : List Row) → a ≤ b → All (λ q. s q ≤ a) qs → All (λ q. s q ≤ b) qs
  All-le a b qs le h = All-map (λ q. s q ≤ a) (λ q. s q ≤ b) (λ q g. omega (arith, g, le)) qs h

  place-Ordered : (r : Row) (qs : List Row) → Ordered qs → Ordered (place s r qs)
  unfolding place Ordered
  place-Ordered r [] h = (tt, tt)
  place-Ordered r (q ∷ qs) h = elim (Bool-cases (leb (s q) (s r))) [
    | inl e ↦ rw (e) (((ground (arith, e), All-le (s q) (s r) qs (ground (arith, e)) h.0), h))
    | inr e ↦
        rw (e) (place-All (λ p. s p ≤ s q) r qs (ground (arith, e)) h.0, place-Ordered r qs h.1)
  ]

  ranked-Ordered : (rows : List Row) → Ordered (ranked s rows)
  unfolding ranked Ordered
  ranked-Ordered [] = tt
  ranked-Ordered (r ∷ rs) = elim (Bool-cases (eqb (s r) 0)) [
    | inl e ↦ rw (e) (ranked-Ordered rs)
    | inr e ↦ rw (e) (place-Ordered r (ranked s rs) (ranked-Ordered rs))
  ]

  ranked-positive : (rows : List Row) → All (λ q. 0 < s q) (ranked s rows)
  unfolding ranked
  ranked-positive [] = tt
  ranked-positive (r ∷ rs) = elim (Bool-cases (eqb (s r) 0)) [
    | inl e ↦ rw (e) (ranked-positive rs)
    | inr e ↦
        rw (e) (place-All (λ q. 0 < s q) r (ranked s rs) (ground (arith, e)) (ranked-positive rs))
  ]

  place-Perm : (r : Row) (qs : List Row) → Permᴰ (place s r qs) (r ∷ qs)
  unfolding place
  place-Perm r [] = Permᴰ.cons refl Permᴰ.nil
  place-Perm r (q ∷ qs) = elim (Bool-cases (leb (s q) (s r))) [
    | inl e ↦ rw e (Permᴰ.refl _)
    | inr e ↦ rw e (Permᴰ.trans (Permᴰ.cons refl (place-Perm r qs)) (Permᴰ.swap refl refl))
  ]

  -- The rows with some term
  pub matching : List Row → List Row
  matching [] = []
  matching (r ∷ rs) = let rest = matching rs in if ltb 0 (s r) then r ∷ rest else rest

  ranked-Perm : (rows : List Row) → Permᴰ (ranked s rows) (matching rows)
  unfolding ranked matching
  ranked-Perm [] = Permᴰ.nil
  ranked-Perm (r ∷ rs) = elim (Bool-cases (eqb (s r) 0)) [
    | inl e ↦
        let none_here : ltb 0 (s r) ≡ false = ground (arith, e) in
        rw (e, none_here) (ranked-Perm rs)
    | inr e ↦
        let some_here : ltb 0 (s r) ≡ true = ground (arith, e) in
        rw (e, some_here)
          (Permᴰ.trans (place-Perm r (ranked s rs)) (Permᴰ.cons refl (ranked-Perm rs)))
  ]

take-drop : (n : ℕ) (rows : List Row) → take n rows ++ drop n rows ≡ rows
take-drop zero rows = refl
take-drop (suc n) [] = refl
take-drop (suc n) (r ∷ rows) = ap (λ rs. r ∷ rs) (take-drop n rows)

all_or_full : (n : ℕ) (rows : List Row) → (drop n rows ≡ []) ⊎ (length (take n rows) ≡ n)
all_or_full zero rows = inr refl
all_or_full (suc n) [] = inl refl
all_or_full (suc n) (r ∷ rows) = elim (all_or_full n rows) [
  | inl e ↦ inl e
  | inr e ↦ inr (omega (arith, e))
]

-- The facts shown for the rows: with those left out, they are the rows that have a term, ordered by how
-- many they have; 100 are shown, or all.
pub record IsSearch (casefold : String → String) (terms : List String) (rows shown : List Row)
    : Type 0 where
  pub are_terms : All IsTerm terms
  pub are_new : AreNew [] terms
  pub count : Row → ℕ
  pub counts : (r : Row) → Counts terms (text_of casefold r) (count r)
  pub left_out : List Row
  pub ordered : Ordered count (shown ++ left_out)
  pub together : Permᴰ (shown ++ left_out) (matching count rows)
  pub bounded : length shown ≤ 100
  pub full : (left_out ≡ []) ⊎ (length shown ≡ 100)

-- Where a search has some term, its terms are different words of at least two of the characters a
-- to z and 0 to 9 and no stop words. It gives every row the number of the terms that its text has,
-- and shows, ordered by that number, the highest first, the rows that have some: all of them, or the
-- first 100.
pub filter_facts-IsSearch :
    (casefold : String → String) (rows : List Row) (search t : String) (ts : List String)
    → terms_of (casefold search) ≡ t ∷ ts
    → IsSearch casefold (t ∷ ts) rows (filter_facts casefold rows search)
unfolding filter_facts
filter_facts-IsSearch casefold rows search t ts e =
    let s = score casefold (t ∷ ts) in
    let all_shown = take-drop 100 (ranked s rows) in
    rw (e) record {
      are_terms = subst (All IsTerm) e (terms_of-IsTerm (casefold search));
      are_new = subst (AreNew []) e (terms_of-AreNew (casefold search));
      count = s;
      counts = score-Counts casefold (t ∷ ts);
      left_out = drop 100 (ranked s rows);
      ordered = subst (Ordered s) (sym all_shown) (ranked-Ordered s rows);
      together = subst (λ rs. Permᴰ rs (matching s rows)) (sym all_shown) (ranked-Perm s rows);
      bounded = length-take-le 100 (ranked s rows);
      full = all_or_full 100 (ranked s rows);
    }
