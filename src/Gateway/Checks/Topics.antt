-- ===== src/Gateway/Checks/Topics.antt =====
-- main.py: the corrected topics of a journal entry.
use agent_workload_platform.Prelude.{
  ◌≤◌, String, ◌≡◌, refl, sym, ap, ◌∙◌, true, false, ◌&&◌, some, List, [], ◌∷◌, map, arith,
  if◌then◌else◌, all, All, len, is_empty, strip, strip-strip, value_error, ok, raise,
}
use agent_workload_platform.Gateway.Checks.{is_topic, topics_with, all_different, validate_topics}

map-strip : (ts : List String) → map strip (map strip ts) ≡ map strip ts
map-strip [] = refl
map-strip (t ∷ ts) =
    ap (λ s. s ∷ map strip (map strip ts)) (strip-strip t) ∙ ap (λ us. strip t ∷ us) (map-strip ts)

-- The topics of a list: unique texts that are not empty and have at most 80 characters
pub record AreTopics (ts : List String) : Type 0 where
  pub different : all_different ts ≡ true
  pub bounded : All (λ t. (is_empty t ≡ false) × (len t ≤ 80)) ts

is_topic-All :
    (ts : List String) → all is_topic ts ≡ true → All (λ t. (is_empty t ≡ false) × (len t ≤ 80)) ts
unfolding is_topic
is_topic-All [] h = tt
is_topic-All (t ∷ ts) h =
    ((ground (arith, h), ground (arith, h)), is_topic-All ts (ground (arith, h)))

topics_with-ok :
    (ts us : List String)
    → topics_with ts ≡ ok (some us)
    → (us ≡ ts) × (all is_topic ts ≡ true) × (all_different ts ≡ true)
unfolding topics_with
topics_with-ok ts us h =
    (elim (all is_topic ts && all_different ts)
        as (λ b.
          (all is_topic ts && all_different ts) ≡ b
          → (if b
              then ok (some ts)
              else raise
                  (value_error "topics must be unique nonempty strings of at most 80 characters"))
            ≡ ok (some us)
          → (us ≡ ts) × (all is_topic ts ≡ true) × (all_different ts ≡ true)) [
            | true ↦ λ e g. (cc, ground (arith, e), ground (arith, e))
            | false ↦ λ e g. cc
          ])
      refl h

-- The topics that `validate_topics` returns are unique, are not empty and have at most 80
-- characters, and it returns them again as they are.
pub validate_topics-AreTopics :
    (topics returned : List String)
    → validate_topics (some topics) ≡ ok (some returned)
    → AreTopics returned × (validate_topics (some returned) ≡ ok (some returned))
unfolding validate_topics
validate_topics-AreTopics topics returned h =
    let p = topics_with-ok (map strip topics) returned h in
    let same : map strip returned ≡ returned = ap (map strip) p.0 ∙ map-strip topics ∙ sym p.0 in
    (
      record {
        different = ap all_different p.0 ∙ p.2;
        bounded = is_topic-All returned (ap (all is_topic) p.0 ∙ p.1);
      },
      ap topics_with (same ∙ p.0) ∙ h,
    )
