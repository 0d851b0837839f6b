-- ===== src/Edge/Spoken/Tags.antt =====
-- presentation_response.py: the tag before the spoken text, in a text and in parts of it.
use agent_workload_platform.Prelude.{
  ℕ, suc, ◌+◌, ◌≤◌, ◌<◌, ◌≡◌, refl, inl, inr, Option, none, some, [], ◌∷◌, ◌++◌, arith, eqb,
  if◌then◌else◌, Bool-cases, length, is_space_code,
}
use agent_workload_platform.Edge.Spoken.{
  Text, quote, code_points, expect, spaced, then_spaced, tag_at,
}

abbrev pub quotes : Text → ℕ
quotes [] = 0
quotes (c ∷ s) = if eqb c quote then suc (quotes s) else quotes s

pub quotes-append : (s t : Text) → quotes (s ++ t) ≡ quotes s + quotes t
quotes-append [] t = omega arith
quotes-append (c ∷ s) t = ground (arith, quotes-append s t)

-- What a match leaves of two texts in a row is what it leaves of the first and the second, or it
-- ends in the second, where it read `k` quotes or more.
pub data Ends (k : ℕ) (c : Text) : Option Text → Text → Type 0 where
  early : {q : Text} → Ends k c (some q) (q ++ c)
  late : {m : Option Text} {r : Text} → length r < length c → quotes r + k ≤ quotes c → Ends k c m r

abbrev IsLocal : ℕ → (Text → Option Text) → Type 0
IsLocal k p = (s c r : Text) → p (s ++ c) ≡ some r → Ends k c (p s) r

-- A match in the first text is one in both.
abbrev IsKept : (Text → Option Text) → Type 0
IsKept p = (s c r : Text) → p s ≡ some r → p (s ++ c) ≡ some (r ++ c)

spaced-shorter : (d : ℕ) (s r : Text) → spaced d s ≡ some r → length r < length s
unfolding spaced
spaced-shorter d [] r h = ground arith
spaced-shorter d (c ∷ s) r h = ground (arith, spaced-shorter d s r)

spaced-quotes : (d : ℕ) (s r : Text) → spaced d s ≡ some r → quotes s ≡ quotes r + quotes (d ∷ [])
unfolding spaced is_space_code
spaced-quotes d [] r h = ground arith
spaced-quotes d (c ∷ s) r h = ground (arith, spaced-quotes d s r)

expect-quotes : (l s r : Text) → expect l s ≡ some r → quotes s ≡ quotes l + quotes r
unfolding expect
expect-quotes [] s r h = ground arith
expect-quotes (d ∷ l) [] r h = ground arith
expect-quotes (d ∷ l) (c ∷ s) r h = ground (arith, expect-quotes l s r)

expect-le : (l s r : Text) → expect l s ≡ some r → length r ≤ length s
unfolding expect
expect-le [] s r h = ground arith
expect-le (d ∷ l) [] r h = ground arith
expect-le (d ∷ l) (c ∷ s) r h = ground (arith, expect-le l s r)

spaced-IsKept : (d : ℕ) → IsKept (spaced d)
unfolding spaced
spaced-IsKept d [] c r h = ground arith
spaced-IsKept d (x ∷ s) c r h = ground (arith, spaced-IsKept d s c r)

expect-IsKept : (l : Text) → IsKept (expect l)
unfolding expect
expect-IsKept [] s c r h = ground arith
expect-IsKept (d ∷ l) [] c r h = ground arith
expect-IsKept (d ∷ l) (x ∷ s) c r h = ground (arith, expect-IsKept l s c r)

spaced-IsLocal : (d : ℕ) → IsLocal (quotes (d ∷ [])) (spaced d)
unfolding spaced
spaced-IsLocal d [] c r h = late (spaced-shorter d c r h) (omega (arith, spaced-quotes d c r h))
spaced-IsLocal d (x ∷ s) c r h = elim (Bool-cases (eqb x d)) [
  | inl here ↦ let e : r ≡ s ++ c = ground arith in rw (here, e) early
  | inr other ↦ elim (Bool-cases (is_space_code x)) [
    | inl space ↦
        let e : spaced d (s ++ c) ≡ some r = ground arith in
        rw (other, space) (spaced-IsLocal d s c r e)
    | inr text ↦ absurd (ground arith)
  ]
]

expect-IsLocal : (l : Text) → IsLocal 0 (expect l)
unfolding expect
expect-IsLocal [] s c r h = let e : r ≡ s ++ c = ground arith in rw e early
expect-IsLocal (d ∷ l) [] [] r h = ground arith
expect-IsLocal (d ∷ l) [] (x ∷ c) r h =
    late (ground (arith, expect-le l c r)) (ground (arith, expect-quotes l c r))
expect-IsLocal (d ∷ l) (x ∷ s) c r h = elim (Bool-cases (eqb d x)) [
  | inl here ↦
      let e : expect l (s ++ c) ≡ some r = ground arith in rw here (expect-IsLocal l s c r e)
  | inr other ↦ absurd (ground arith)
]

then_spaced-Ends :
    (k d : ℕ) (c : Text) (m : Option Text) (y r : Text)
    → Ends k c m y
    → spaced d y ≡ some r
    → Ends (quotes (d ∷ [])) c (then_spaced d m) r
unfolding then_spaced
then_spaced-Ends k d c m y r (early {q}) h = spaced-IsLocal d q c r h
then_spaced-Ends k d c m y r (late shorter fewer) h =
    late (omega (arith, shorter, spaced-shorter d y r h))
      (omega (arith, fewer, spaced-quotes d y r h))

-- The pattern and then another.
then_local :
    (k d : ℕ) (c : Text) (m n : Option Text) (r : Text)
    → ((y : Text) → n ≡ some y → Ends k c m y)
    → then_spaced d n ≡ some r
    → Ends (quotes (d ∷ [])) c (then_spaced d m) r
unfolding then_spaced
then_local k d c m none r ends h = absurd (ground arith)
then_local k d c m (some y) r ends h = then_spaced-Ends k d c m y r (ends y refl) h

then_quotes :
    (d k : ℕ) (s : Text) (m : Option Text) (r : Text)
    → ((y : Text) → m ≡ some y → quotes s ≡ k + quotes y)
    → then_spaced d m ≡ some r
    → quotes s ≡ k + quotes (d ∷ []) + quotes r
unfolding then_spaced
then_quotes d k s none r q h = absurd (ground arith)
then_quotes d k s (some y) r q h = omega (arith, q y refl, spaced-quotes d y r h)

then_kept :
    (d : ℕ) (c : Text) (m n : Option Text) (r : Text)
    → ((y : Text) → m ≡ some y → n ≡ some (y ++ c))
    → then_spaced d m ≡ some r
    → then_spaced d n ≡ some (r ++ c)
unfolding then_spaced
then_kept d c none n r kept h = absurd (ground arith)
then_kept d c (some y) n r kept h = rw (kept y refl) (spaced-IsKept d y c r h)

pub tag_at-local : (s c r : Text) → tag_at (s ++ c) ≡ some r → Ends 1 c (tag_at s) r
unfolding tag_at
tag_at-local s c r h =
    then_local 0 quote c _ _ r
      (λ y. then_local 0 58 c _ _ y (λ z. expect-IsLocal (code_points "\"spoken\"") s c z)) h

pub tag_at-quotes : (s r : Text) → tag_at s ≡ some r → quotes s ≡ 3 + quotes r
unfolding tag_at
tag_at-quotes s r h =
    then_quotes quote 2 s _ r
      (λ y. then_quotes 58 2 s _ y (λ z. expect-quotes (code_points "\"spoken\"") s z)) h

pub tag_at-kept : (s c r : Text) → tag_at s ≡ some r → tag_at (s ++ c) ≡ some (r ++ c)
unfolding tag_at
tag_at-kept s c r h =
    then_kept quote c _ _ r
      (λ y. then_kept 58 c _ _ y (λ z. expect-IsKept (code_points "\"spoken\"") s c z)) h
