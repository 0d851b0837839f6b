-- ===== src/Gateway/Lines.antt =====
-- main.py: what `term in text` says, and the lines of a text that is joined from lines.
use agent_workload_platform.Prelude.{
  String, ◌≡◌, refl, true, List, ◌∷◌, arith, starts_with, subst, sym, ap, ◌∙◌, Bool-cases, inl, inr,
  starts_with_iff, concat, join,
}
use text.Mathlib.TextLemmas.{nil-append, cons-append}
use text.Mathlib.TextPositions.{starts_with-append}
use agent_workload_platform.Gateway.Facts.{occurs}

occurs-later : (t p s : String) → occurs t s ≡ true → occurs t (concat p s) ≡ true
unfolding occurs
occurs-later t String.[] s h = subst (λ u. occurs t u ≡ true) (sym (nil-append s)) h
occurs-later t (String.◌∷◌ c p) s h =
    subst (λ u. occurs t u ≡ true) (sym (cons-append c p s)) (ground (arith, occurs-later t p s h))

starts_with-occurs : (t s : String) → starts_with s t ≡ true → occurs t s ≡ true
unfolding occurs
starts_with-occurs String.[] String.[] h = refl
starts_with-occurs (String.◌∷◌ c t) String.[] h =
    let p = (starts_with_iff String.[] (String.◌∷◌ c t)).0 h in
    let e : String.◌∷◌ c (concat t p.0) ≡ String.[] = sym (cons-append c t p.0) ∙ p.1 in absurd cc
starts_with-occurs t (String.◌∷◌ c s) h = ground (arith, h)

pub here : (t y : String) (ys : List String) → occurs t (join "\n" (t ∷ y ∷ ys)) ≡ true
unfolding join
here t y ys = starts_with-occurs t _ (starts_with-append t (concat "\n" (join "\n" (y ∷ ys))))

pub later :
    (t x y : String) (ys : List String)
    → occurs t (join "\n" (y ∷ ys)) ≡ true
    → occurs t (join "\n" (x ∷ y ∷ ys)) ≡ true
unfolding join
later t x y ys h =
    occurs-later t x (concat "\n" (join "\n" (y ∷ ys))) (occurs-later t "\n" (join "\n" (y ∷ ys)) h)

-- The text has the other at some place.
abbrev pub IsInfix : String → String → Type 0
IsInfix t s = (a : String) × (b : String) × (s ≡ concat a (concat t b))

pub occurs-IsInfix : (t s : String) → occurs t s ≡ true → IsInfix t s
unfolding occurs
occurs-IsInfix String.[] String.[] h = (String.[], String.[], refl)
occurs-IsInfix (String.◌∷◌ c t) String.[] h = absurd cc
occurs-IsInfix t (String.◌∷◌ c s) h = elim (Bool-cases (starts_with (String.◌∷◌ c s) t)) [
  | inl e ↦
      let p = (starts_with_iff (String.◌∷◌ c s) t).0 e in
      (String.[], p.0, sym p.1 ∙ sym (nil-append (concat t p.0)))
  | inr e ↦
      let p = occurs-IsInfix t s (ground (arith, h, e)) in
      (String.◌∷◌ c p.0, p.1, ap (λ u. String.◌∷◌ c u) p.2 ∙ sym (cons-append c p.0 (concat t p.1)))
]

pub IsInfix-occurs : (t s : String) → IsInfix t s → occurs t s ≡ true
IsInfix-occurs t s (a, b, e) =
    subst (λ u. occurs t u ≡ true) (sym e)
      (occurs-later t a (concat t b) (starts_with-occurs t (concat t b) (starts_with-append t b)))
