-- ===== src/Gateway/Literal/Closed.antt =====
-- main.py: a text never leaves its literal.
use Prim.Native.String.append as Append
use agent_workload_platform.Prelude.{
  ℕ, ◌/◌, ◌%◌, Char, code, String, ◌≡◌, refl, ap, ◌∙◌, Bool, true, false, ◌||◌, Option, some, arith,
  ltb, eqb, if◌then◌else◌, concat,
}
use agent_workload_platform.Gateway.Literal.{
  rdf_literal, hex_digit, escape_before, escaped_before, literal_before, after_string,
  after_literal,
}

-- A character that stands for itself within a string
IsPlain : Char → Type 0
IsPlain c = (eqb (code c) 34 || eqb (code c) 92 || eqb (code c) 10 || eqb (code c) 13) ≡ false

after_string-plain :
    (c : Char) (t : String) → IsPlain c → after_string false (String.◌∷◌ c t) ≡ after_string false t
unfolding IsPlain after_string
after_string-plain c t h = ground (arith, h)

if-IsPlain :
    (b : Bool) (c d : Char) → IsPlain c → (b ≡ false → IsPlain d) → IsPlain (if b then c else d)
if-IsPlain true c d h g = h
if-IsPlain false c d h g = g refl

hex_digit-IsPlain : (n : ℕ) → IsPlain (hex_digit n)
unfolding hex_digit IsPlain
hex_digit-IsPlain n = if-IsPlain (eqb n 0) "0" _ refl λ _. if-IsPlain (eqb n 1) "1" _ refl λ _.
    if-IsPlain (eqb n 2) "2" _ refl λ _. if-IsPlain (eqb n 3) "3" _ refl λ _.
      if-IsPlain (eqb n 4) "4" _ refl λ _. if-IsPlain (eqb n 5) "5" _ refl λ _.
        if-IsPlain (eqb n 6) "6" _ refl λ _. if-IsPlain (eqb n 7) "7" _ refl λ _.
          if-IsPlain (eqb n 8) "8" _ refl λ _. if-IsPlain (eqb n 9) "9" _ refl λ _.
            if-IsPlain (eqb n 10) "a" _ refl λ _. if-IsPlain (eqb n 11) "b" _ refl λ _.
              if-IsPlain (eqb n 12) "c" _ refl λ _.
                if-IsPlain (eqb n 13) "d" _ refl λ _. if-IsPlain (eqb n 14) "e" _ refl λ _. refl

if-after :
    (b : Bool) (p q : String) (r : Option String)
    → after_string false p ≡ r
    → (b ≡ false → after_string false q ≡ r)
    → after_string false (if b then p else q) ≡ r
if-after true p q r h g = h
if-after false p q r h g = g refl

-- An escape is read as one character of the string.
escape_before-after :
    (c : Char) (t : String) → after_string false (escape_before c t) ≡ after_string false t
unfolding escape_before after_string
escape_before-after c t =
    let r = after_string false t in
    if-after (eqb (code c) 34) _ _ r refl λ not_quote.
      if-after (eqb (code c) 92) _ _ r refl λ not_backslash.
        if-after (eqb (code c) 10) _ _ r refl λ not_line_feed.
          if-after (eqb (code c) 13) _ _ r refl λ not_return.
            if-after (eqb (code c) 9) _ _ r refl λ not_tab.
              if-after (eqb (code c) 8) _ _ r refl λ not_backspace.
                if-after (eqb (code c) 12) _ _ r refl λ not_form_feed.
                  if-after (ltb (code c) 32) _ _ r (control c t) λ not_control. ground arith
  where
    control :
        (c : Char) (t : String)
        → after_string false (
            String.◌∷◌ "0" (
              String.◌∷◌ "0"
                (String.◌∷◌ (hex_digit (code c / 16)) (String.◌∷◌ (hex_digit (code c % 16)) t))))
          ≡ after_string false t
    control c t =
        after_string-plain (hex_digit (code c / 16)) _ (hex_digit-IsPlain (code c / 16))
        ∙ after_string-plain (hex_digit (code c % 16)) t (hex_digit-IsPlain (code c % 16))

escaped_before-after :
    (s rest : String) → after_string false (escaped_before s (String.◌∷◌ "\"" rest)) ≡ some rest
unfolding escaped_before after_string
escaped_before-after String.[] rest = refl
escaped_before-after (String.◌∷◌ c s) rest =
    escape_before-after c (escaped_before s (String.◌∷◌ "\"" rest)) ∙ escaped_before-after s rest

concat-cons : (c : Char) (s t : String) → concat (String.◌∷◌ c s) t ≡ String.◌∷◌ c (concat s t)
concat-cons c s t = Append.cons c s t

concat-nil : (t : String) → concat String.[] t ≡ t
concat-nil t = Append.nil t

if-concat :
    (b : Bool) (p q rest u v : String)
    → concat p rest ≡ u
    → concat q rest ≡ v
    → concat (if b then p else q) rest ≡ (if b then u else v)
if-concat true p q rest u v h g = h
if-concat false p q rest u v h g = g

-- Two characters, and more text
concat-pair :
    (c d : Char) (s rest : String)
    → concat (String.◌∷◌ c (String.◌∷◌ d s)) rest ≡ String.◌∷◌ c (String.◌∷◌ d (concat s rest))
concat-pair c d s rest =
    concat-cons c (String.◌∷◌ d s) rest ∙ ap (String.◌∷◌ c) (concat-cons d s rest)

escape_before-concat :
    (c : Char) (s rest : String) → concat (escape_before c s) rest ≡ escape_before c (concat s rest)
unfolding escape_before
escape_before-concat c s rest =
    if-concat (eqb (code c) 34) _ _ rest _ _ (concat-pair "\\" "\"" s rest) (
      if-concat (eqb (code c) 92) _ _ rest _ _ (concat-pair "\\" "\\" s rest) (
        if-concat (eqb (code c) 10) _ _ rest _ _ (concat-pair "\\" "n" s rest) (
          if-concat (eqb (code c) 13) _ _ rest _ _ (concat-pair "\\" "r" s rest) (
            if-concat (eqb (code c) 9) _ _ rest _ _ (concat-pair "\\" "t" s rest) (
              if-concat (eqb (code c) 8) _ _ rest _ _ (concat-pair "\\" "b" s rest) (
                if-concat (eqb (code c) 12) _ _ rest _ _ (concat-pair "\\" "f" s rest) (
                  if-concat (ltb (code c) 32) _ _ rest _ _
                    (concat-pair "\\" "u" _ rest
                      ∙ ap (λ t. String.◌∷◌ "\\" (String.◌∷◌ "u" t))
                          (concat-pair "0" "0" _ rest
                            ∙ ap (λ t. String.◌∷◌ "0" (String.◌∷◌ "0" t))
                                (concat-pair (hex_digit (code c / 16)) (hex_digit (code c % 16)) s
                                  rest)))
                    (concat-cons c s rest))))))))

escaped_before-concat :
    (s t rest : String) → concat (escaped_before s t) rest ≡ escaped_before s (concat t rest)
unfolding escaped_before
escaped_before-concat String.[] t rest = refl
escaped_before-concat (String.◌∷◌ c s) t rest =
    escape_before-concat c (escaped_before s t) rest
    ∙ ap (escape_before c) (escaped_before-concat s t rest)

rdf_literal-concat : (s rest : String) → concat (rdf_literal s) rest ≡ literal_before s rest
unfolding rdf_literal literal_before
rdf_literal-concat s rest =
    concat-cons "\"" _ rest
    ∙ ap (String.◌∷◌ "\"") (
        escaped_before-concat s _ rest
        ∙ ap (escaped_before s)
            (concat-cons "\"" String.[] rest ∙ ap (String.◌∷◌ "\"") (concat-nil rest)))

-- Whatever the text, a SPARQL reader that starts at its literal goes on exactly after it: no
-- character of the text ends the literal or the line.
pub after_literal-rdf_literal :
    (s rest : String) → after_literal (concat (rdf_literal s) rest) ≡ some rest
unfolding literal_before after_literal
after_literal-rdf_literal s rest =
    ap after_literal (rdf_literal-concat s rest) ∙ escaped_before-after s rest
