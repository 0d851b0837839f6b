-- ===== src/Edge/Spoken/Chunks.antt =====
-- presentation_response.py: what feed decodes does not depend on how the text is cut into chunks.
use agent_workload_platform.Prelude.{
  ℕ, ◌≡◌, refl, sym, ap, ◌∙◌, subst, inl, inr, true, false, Option, none, some, List, [], ◌∷◌, ◌++◌,
  append_assoc, append-nil, arith, if◌then◌else◌, Bool-cases, Option-cases,
}
use agent_workload_platform.Edge.Spoken.{
  Text, Extractor, new, search, last_64, with_digits, escape, plain, character, scan, begin, feed,
  feed_all,
}
use agent_workload_platform.Edge.Spoken.Search.{
  IsShort, IsShort-front, search-last_64, search-kept, last_64-last_64,
}

-- The text of the chunks
abbrev pub joined : List Text → Text
joined [] = []
joined (chunk ∷ chunks) = chunk ++ joined chunks

module _ (decimal_value : ℕ → Option ℕ) where
  -- What another loop over more characters adds, where the first one did not end.
  abbrev then_scan : Text × Extractor → Text → Text × Extractor
  then_scan run s =
      if run.1.finished
      then run
      else (run.0 ++ (scan decimal_value s run.1).0, (scan decimal_value s run.1).1)

  then_scan-out :
      (out : Text) (run : Text × Extractor) (t : Text)
      → then_scan (out ++ run.0, run.1) t ≡ (out ++ (then_scan run t).0, (then_scan run t).1)
  then_scan-out out run t = elim (Bool-cases run.1.finished) [
    | inl ended ↦ rw ended refl
    | inr going ↦ simp (going, append_assoc out run.0) refl
  ]

  scan-append :
      (s t : Text) (e : Extractor)
      → e.finished ≡ false
      → scan decimal_value (s ++ t) e ≡ then_scan (scan decimal_value s e) t
  unfolding scan
  scan-append [] t e going = rw going refl
  scan-append (c ∷ s) t e going =
      let step = character decimal_value c e.unicode_digits e in
      elim (Bool-cases step.1.finished) [
        | inl ended ↦ rw (ended, ended) refl
        | inr going_on ↦
            rw (going_on, scan-append s t step.1 going_on)
              (sym (then_scan-out step.0 (scan decimal_value s step.1) t))
      ]

  character-started :
      (c : ℕ) (digits : Option Text) (e : Extractor)
      → (character decimal_value c digits e).1.started ≡ e.started
  unfolding character with_digits escape plain
  character-started c none e = ground arith
  character-started c (some digits) e = ground arith

  scan-started : (s : Text) (e : Extractor) → (scan decimal_value s e).1.started ≡ e.started
  unfolding scan
  scan-started [] e = refl
  scan-started (c ∷ s) e =
      let step = character decimal_value c e.unicode_digits e in
      ground (arith, character-started c e.unicode_digits e, scan-started s step.1)

  -- The next chunk after a run
  abbrev then_feed : Text × Extractor → Text → Text × Extractor
  then_feed run s = (run.0 ++ (feed decimal_value s run.1).0, (feed decimal_value s run.1).1)

  -- Once the tag was seen, a chunk is scanned.
  then_feed-scan :
      (run : Text × Extractor) (x : ℕ) (s : Text)
      → run.1.started ≡ true
      → then_feed run (x ∷ s) ≡ then_scan run (x ∷ s)
  unfolding feed
  then_feed-scan run x s started = elim (Bool-cases run.1.finished) [
    | inl ended ↦ simp (ended, append-nil) refl
    | inr going ↦ rw (going, started) refl
  ]

  feed-nil : (e : Extractor) → feed decimal_value [] e ≡ ([], e)
  unfolding feed
  feed-nil e = ground arith

  begin-last_64 :
      (text c : Text) (m : Option Text)
      → begin decimal_value (last_64 text ++ c) m (record new { prefix = last_64 text })
        ≡ begin decimal_value (text ++ c) m new
  unfolding begin
  begin-last_64 text c none = rw (last_64-last_64 text c) refl
  begin-last_64 text c (some s) = refl

  then_feed-nil : (run : Text × Extractor) → then_feed run [] ≡ run
  then_feed-nil run = rw (feed-nil run.1, append-nil run.0) refl

  -- Feeding a text and then a chunk is feeding both at once.
  feed-append :
      (s c : Text)
      → IsShort (s ++ c)
      → then_feed (feed decimal_value s new) c ≡ feed decimal_value (s ++ c) new
  unfolding feed
  feed-append [] c short = refl
  feed-append (x ∷ s) [] short =
      then_feed-nil (feed decimal_value (x ∷ s) new)
      ∙ ap (λ t. feed decimal_value t new) (sym (append-nil (x ∷ s)))
  feed-append (x ∷ s) (y ∷ c) short = elim (Option-cases (search (x ∷ s))) [
    | inl absent ↦ rw absent (
        unfold begin in
        rw (search-last_64 (x ∷ s) (y ∷ c) short absent)
          (begin-last_64 (x ∷ s) (y ∷ c) (search (x ∷ s ++ y ∷ c))))
    | inr found ↦
        rw (found.1, search-kept (x ∷ s) (y ∷ c) found.0 found.1)
          (unfold begin in
            let e : Extractor = record new { started = true } in
            then_feed-scan (scan decimal_value found.0 e) y c (scan-started found.0 e)
            ∙ sym (scan-append found.0 (y ∷ c) e refl))
  ]

  -- The next chunks after a run
  abbrev then_feed_all : Text × Extractor → List Text → Text × Extractor
  then_feed_all run chunks =
      (run.0 ++ (feed_all decimal_value chunks run.1).0, (feed_all decimal_value chunks run.1).1)

  feed_all-after :
      (chunks : List Text) (s : Text)
      → IsShort (s ++ joined chunks)
      → then_feed_all (feed decimal_value s new) chunks
        ≡ feed decimal_value (s ++ joined chunks) new
  unfolding feed_all
  feed_all-after [] s short = rw (append-nil s) (simp append-nil refl)
  feed_all-after (c ∷ chunks) s short =
      let run = feed decimal_value s new in
      let short_front : IsShort ((s ++ c) ++ joined chunks) =
        subst IsShort (sym (append_assoc s c (joined chunks))) short in
      let regrouped : then_feed_all run (c ∷ chunks) ≡ then_feed_all (then_feed run c) chunks =
        simp append_assoc refl in
      regrouped
      ∙ ap (λ r. then_feed_all r chunks)
          (feed-append s c (IsShort-front (s ++ c) (joined chunks) short_front))
      ∙ feed_all-after chunks (s ++ c) short_front
      ∙ ap (λ t. feed decimal_value t new) (append_assoc s c (joined chunks))

  -- If every tag of a text, that is `"spoken"`, blanks, a colon, blanks and a quote, has at most 65
  -- characters, then a new extractor that is fed the text in any chunks, empty ones too, returns
  -- the same characters and ends in the same state as one that is fed the text at once.
  pub feed_all-joined :
      (chunks : List Text)
      → IsShort (joined chunks)
      → feed_all decimal_value chunks new ≡ feed decimal_value (joined chunks) new
  feed_all-joined chunks short =
      ap (λ r. then_feed_all r chunks) (sym (feed-nil new)) ∙ feed_all-after chunks [] short
