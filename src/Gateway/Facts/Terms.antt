-- ===== src/Gateway/Facts/Terms.antt =====
-- main.py, `_filter_facts`: what the terms of a search are.
use agent_workload_platform.Prelude.{
  ℕ, ◌<◌, String, code, ◌≡◌, refl, List, [], ◌∷◌, inl, inr, Bool, true, false, not, ◌&&◌, ◌||◌,
  ◌==◌, arith, Bool-cases, All, all_chars, any, between, len, is_empty, if◌then◌else◌,
}
use agent_workload_platform.Gateway.Facts.{
  ltb, search_stop_words, is_term_char, runs_from, runs, is_term, distinct, terms_of,
}

-- A word of more than one of the characters a to z and 0 to 9, which is no stop word
pub record IsTerm (t : String) : Type 0 where
  pub of_word_chars : all_chars (λ n. between b'a' b'z' n || between b'0' b'9' n) t ≡ true
  pub longer : 1 < len t
  pub no_stop_word : any (λ w. t == w) search_stop_words ≡ false

-- None of the texts has been seen, before or among them.
pub AreNew : List String → List String → Type 0
AreNew seen [] = Unit
AreNew seen (t ∷ ts) = (any (λ s. t == s) seen ≡ false) × AreNew (t ∷ seen) ts

both : (a b : Bool) → (a && b) ≡ true → (a ≡ true) × (b ≡ true)
both true b h = (refl, h)
both false b h = absurd (ground arith)

not_so : (b : Bool) → not b ≡ true → b ≡ false
not_so true h = absurd (ground arith)
not_so false h = refl

longer_than : (m n : ℕ) → ltb m n ≡ true → m < n
longer_than m n h = ground (arith, h)

-- Made of term characters
abbrev IsWord : String → Type 0
IsWord t = all_chars is_term_char t ≡ true

kept-IsWord :
    (w : String) (ws : List String)
    → IsWord w
    → All IsWord ws
    → All IsWord (if is_empty w then ws else w ∷ ws)
kept-IsWord w ws h hs = elim (Bool-cases (is_empty w)) [
  | inl e ↦ rw (e) hs
  | inr e ↦ rw (e) (h, hs)
]

runs_from-IsWord : (s : String) → IsWord (runs_from s).0 × All IsWord (runs_from s).1
unfolding runs_from all_chars
runs_from-IsWord String.[] = (refl, tt)
runs_from-IsWord (String.◌∷◌ c s) = elim (Bool-cases (is_term_char (code c))) [
  | inl e ↦ rw (e) (ground (arith, e, (runs_from-IsWord s).0), (runs_from-IsWord s).1)
  | inr e ↦ rw (e) (refl, kept-IsWord _ _ (runs_from-IsWord s).0 (runs_from-IsWord s).1)
]

runs-IsWord : (s : String) → All IsWord (runs s)
unfolding runs
runs-IsWord s = kept-IsWord _ _ (runs_from-IsWord s).0 (runs_from-IsWord s).1

word-IsTerm : (t : String) → IsWord t → is_term t ≡ true → IsTerm t
unfolding is_term is_term_char
word-IsTerm t w h = record {
  of_word_chars = w;
  longer = longer_than 1 (len t) (both _ _ h).0;
  no_stop_word = not_so _ (both _ _ h).1;
}

distinct-IsTerm : (seen ts : List String) → All IsWord ts → All IsTerm (distinct seen ts)
unfolding distinct
distinct-IsTerm seen [] h = tt
distinct-IsTerm seen (t ∷ ts) h = elim (Bool-cases (is_term t && not (any (λ s. t == s) seen))) [
  | inl e ↦ rw (e) (word-IsTerm t h.0 (both _ _ e).0, distinct-IsTerm (t ∷ seen) ts h.1)
  | inr e ↦ rw (e) (distinct-IsTerm seen ts h.1)
]

distinct-AreNew : (seen ts : List String) → AreNew seen (distinct seen ts)
unfolding distinct AreNew
distinct-AreNew seen [] = tt
distinct-AreNew seen (t ∷ ts) = elim (Bool-cases (is_term t && not (any (λ s. t == s) seen))) [
  | inl e ↦ rw (e) (not_so _ (both _ _ e).1, distinct-AreNew (t ∷ seen) ts)
  | inr e ↦ rw (e) (distinct-AreNew seen ts)
]

pub terms_of-IsTerm : (s : String) → All IsTerm (terms_of s)
unfolding terms_of
terms_of-IsTerm s = distinct-IsTerm [] (runs s) (runs-IsWord s)

pub terms_of-AreNew : (s : String) → AreNew [] (terms_of s)
unfolding terms_of
terms_of-AreNew s = distinct-AreNew [] (runs s)
